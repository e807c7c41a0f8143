-- ===== src/Nathole/Behaviors/Tables.antt =====
-- The scores of a mode lie in the tables.
use frpcv.Prelude.{
  ◌==◌, nat_eq, text_eq, if_both, length, get_elem?, All, ℤ, pos, ◌≤ℤ◌, ℕ, zero, suc, ◌+◌, ◌≤◌, ◌<◌,
  ◌≡◌, refl, subst, ◌≢◌, ◌⊎◌, inl, inr, some, List, [], ◌∷◌, arith,
}
use frpcv.Nathole.Behaviors.{
  sender, receiver, Pair, mode_0_behaviors, mode_1_behaviors, mode_2_behaviors, mode_3_behaviors,
  mode_4_behaviors, get_behavior_by_mode, get_behavior_by_mode_and_index, BehaviorScore, is_sender,
  scores_from, get_behavior_scores_by_mode_2, get_behavior_scores_by_mode,
}

-- The mode is one of the five, the index one of its behaviours, and the score ten at most.
pub record InTable (s : BehaviorScore) : Type 0 where
  pub known : s.mode ≤ 4
  pub inside : s.index < length (get_behavior_by_mode s.mode)
  pub bounded : s.score ≤ℤ pos 10

scores_from-All :
    (mode : ℕ) (a b : ℤ) (i n : ℕ) (behaviors : List Pair)
    → mode ≤ 4
    → a ≤ℤ pos 10
    → b ≤ℤ pos 10
    → i + length behaviors ≡ n
    → length (get_behavior_by_mode mode) ≡ n
    → All InTable (scores_from mode a b i behaviors)
unfolding scores_from
scores_from-All mode a b i n [] k x y h l = tt
scores_from-All mode a b i n (p ∷ behaviors) k x y h l = (
  record {
    known = k;
    inside = omega arith;
    bounded = if_both (λ (s : ℤ). s ≤ℤ pos 10) (is_sender p.0) x y;
  },
  scores_from-All mode a b (i + 1) n behaviors k x y (omega arith) l,
)

pub mode_2-All :
    (mode : ℕ) (a b : ℤ)
    → mode ≤ 4
    → a ≤ℤ pos 10
    → b ≤ℤ pos 10
    → All InTable (get_behavior_scores_by_mode_2 mode a b)
unfolding get_behavior_scores_by_mode_2
mode_2-All mode a b k x y =
    scores_from-All mode a b 0 (length (get_behavior_by_mode mode)) (get_behavior_by_mode mode) k x
      y (omega arith) refl

pub mode-All :
    (mode : ℕ) (a : ℤ) → mode ≤ 4 → a ≤ℤ pos 10 → All InTable (get_behavior_scores_by_mode mode a)
unfolding get_behavior_scores_by_mode
mode-All mode a k x = mode_2-All mode a a k x x

pub mode_2_nonempty : (mode : ℕ) (a b : ℤ) → get_behavior_scores_by_mode_2 mode a b ≢ []
unfolding get_behavior_scores_by_mode_2 get_behavior_by_mode scores_from mode_0_behaviors
    mode_1_behaviors mode_2_behaviors mode_3_behaviors mode_4_behaviors
mode_2_nonempty mode a b h = ground arith

pub mode_nonempty : (mode : ℕ) (a : ℤ) → get_behavior_scores_by_mode mode a ≢ []
unfolding get_behavior_scores_by_mode
mode_nonempty mode a = mode_2_nonempty mode a a

-- The roles of a pair that stands in a table: one sends and the other receives.
unfoldable pub Opposite : Pair → Type 0
Opposite (a, b) =
    ((a.role ≡ sender) × (b.role ≡ receiver)) ⊎ ((a.role ≡ receiver) × (b.role ≡ sender))

unfoldable pub SendsFirst : Pair → Type 0
SendsFirst (a, b) = (a.role ≡ sender) × (b.role ≡ receiver)

All-get :
    (P : Pair → Type 0) (l : List Pair) (i : ℕ) (p : Pair) → All P l → get_elem? l i ≡ some p → P p
All-get P [] i p v h = absurd (cc)
All-get P (q ∷ l) zero p (a, v) h = subst P (cc) a
All-get P (q ∷ l) (suc i) p (a, v) h = All-get P l i p v h

get_inside : (l : List Pair) (i : ℕ) → i < length l → (p : Pair) × (get_elem? l i ≡ some p)
get_inside [] i h = absurd (omega arith)
get_inside (q ∷ l) zero h = (q, refl)
get_inside (q ∷ l) (suc i) h = get_inside l i (omega arith)

table-Opposite : (mode : ℕ) → All Opposite (get_behavior_by_mode mode)
unfolding get_behavior_by_mode mode_0_behaviors mode_1_behaviors mode_2_behaviors mode_3_behaviors
    mode_4_behaviors Opposite
table-Opposite mode = if_both (All Opposite) (mode == 0) (ground arith) (
    if_both (All Opposite) (mode == 1) (ground arith) (
      if_both (All Opposite) (mode == 2) (ground arith) (
        if_both (All Opposite) (mode == 3) (ground arith)
          (if_both (All Opposite) (mode == 4) (ground arith) (ground arith)))))

-- The modes whose tables have the sender first.
table-SendsFirst :
    (mode : ℕ) → (mode ≡ 1) ⊎ ((mode ≡ 2) ⊎ (mode ≡ 4)) → All SendsFirst (get_behavior_by_mode mode)
unfolding get_behavior_by_mode mode_1_behaviors mode_2_behaviors mode_4_behaviors SendsFirst
table-SendsFirst mode (inl e) = rw e (ground arith)
table-SendsFirst mode (inr (inl e)) = rw e (ground arith)
table-SendsFirst mode (inr (inr e)) = rw e (ground arith)

pub pair-Opposite :
    (mode index : ℕ)
    → index < length (get_behavior_by_mode mode)
    → Opposite (get_behavior_by_mode_and_index mode index)
unfolding get_behavior_by_mode_and_index
pair-Opposite mode index h =
    let (p, e) = get_inside (get_behavior_by_mode mode) index h in
    rw (e, get_behavior_by_mode_and_index)
      (All-get Opposite (get_behavior_by_mode mode) index p (table-Opposite mode) e)

pub pair-SendsFirst :
    (mode index : ℕ)
    → index < length (get_behavior_by_mode mode)
    → (mode ≡ 1) ⊎ ((mode ≡ 2) ⊎ (mode ≡ 4))
    → SendsFirst (get_behavior_by_mode_and_index mode index)
unfolding get_behavior_by_mode_and_index
pair-SendsFirst mode index h m =
    let (p, e) = get_inside (get_behavior_by_mode mode) index h in
    rw (e, get_behavior_by_mode_and_index)
      (All-get SendsFirst (get_behavior_by_mode mode) index p (table-SendsFirst mode m) e)
