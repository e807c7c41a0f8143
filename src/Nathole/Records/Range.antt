-- ===== src/Nathole/Records/Range.antt =====
-- The scores lie in the tables, and above by ten.
use frpcv.Prelude.{
  if◌then◌else◌, ◌==◌, nat_eq, text_eq, if_both, length, All, ℤ, pos, ◌≤ℤ◌, ltb_ℤ, leb_ℤ, ℕ, ◌≤◌,
  ◌<◌, ◌≡◌, refl, ◌≢◌, not, ◌&&◌, ◌||◌, List, [], ◌∷◌, ◌++◌, arith,
}
use frpcv.Nathole.Classify.{NatFeature, classify_feature_count}
use frpcv.Nathole.Behaviors.{get_behavior_by_mode, BehaviorScore, get_behavior_scores_by_mode}
use frpcv.Nathole.Behaviors.Tables.{InTable, mode_2-All, mode-All, mode_2_nonempty, mode_nonempty}
use frpcv.Nathole.Records.{
  MakeHoleRecords, mode_0_scores, initial_scores, new_make_hole_records, add_2_up_to_10,
  raise_first, report_success, max_score, lower_first, recommand,
}

pub record InRange (scores : List BehaviorScore) : Type 0 where
  pub nonempty : scores ≢ []
  pub all_in : All InTable scores

All-append : (l m : List BehaviorScore) → All InTable l → All InTable m → All InTable (l ++ m)
All-append [] m v w = w
All-append (s ∷ l) m (h, v) w = (h, All-append l m v w)

mode_0-All : (c v : NatFeature) → All InTable (mode_0_scores c v)
unfolding mode_0_scores
mode_0-All c v =
    if_both (λ l. All InTable l) c.public_network
      (mode_2-All 0 _ _ (omega arith) (omega arith) (omega arith))
      (if_both (λ l. All InTable l) v.public_network
        (mode_2-All 0 _ _ (omega arith) (omega arith) (omega arith))
        (mode-All 0 _ (omega arith) (omega arith)))

mode_0-nonempty : (c v : NatFeature) → mode_0_scores c v ≢ []
unfolding mode_0_scores
mode_0-nonempty c v =
    if_both (λ l. l ≢ []) c.public_network (mode_2_nonempty 0 _ _)
      (if_both (λ l. l ≢ []) v.public_network (mode_2_nonempty 0 _ _) (mode_nonempty 0 _))

append_nonempty : (l m : List BehaviorScore) → l ≢ [] → (l ++ m) ≢ []
append_nonempty [] m h = absurd (h refl)
append_nonempty (s ∷ l) m h = λ e. cc

InRange-append :
    (mode : ℕ) (a : ℤ) (m : List BehaviorScore)
    → mode ≤ 4
    → a ≤ℤ pos 10
    → All InTable m
    → InRange (get_behavior_scores_by_mode mode a ++ m)
InRange-append mode a m k x v = record {
  nonempty = append_nonempty _ m (mode_nonempty mode a);
  all_in = All-append _ m (mode-All mode a k x) v;
}

initial_scores-InRange : (c v : NatFeature) → InRange (initial_scores c v)
unfolding initial_scores
initial_scores-InRange c v =
    let n = classify_feature_count (c ∷ v ∷ []) in
    if_both InRange (n.easy_count == 2)
      (record { nonempty = mode_0-nonempty c v; all_in = mode_0-All c v })
      (if_both InRange (n.hard_count == 1 && n.ports_changed_regular_count == 1)
        (InRange-append 1 (pos 0) _ (omega arith) (omega arith)
          (All-append _ _ (mode-All 2 (pos 0) (omega arith) (omega arith)) (mode_0-All c v)))
        (if_both InRange (n.hard_count == 1 && n.ports_changed_regular_count == 0)
          (InRange-append 2 (pos 0) _ (omega arith) (omega arith)
            (All-append _ _ (mode-All 1 (pos 0) (omega arith) (omega arith)) (mode_0-All c v)))
          (if_both InRange (n.hard_count == 2 && n.ports_changed_regular_count == 2)
            (InRange-append 3 (pos 0) _ (omega arith) (omega arith)
              (mode-All 4 (pos 0) (omega arith) (omega arith)))
            (if_both InRange (n.hard_count == 2 && n.ports_changed_regular_count == 1)
              (record {
                nonempty = mode_nonempty 4 (pos 0);
                all_in = mode-All 4 (pos 0) (omega arith) (omega arith);
              })
              (InRange-append 0 (pos 1) _ (omega arith) (omega arith) (
                All-append _ _ (mode-All 1 (pos 1) (omega arith) (omega arith))
                  (mode-All 3 (pos 1) (omega arith) (omega arith))))))))

pub new_make_hole_records-InRange :
    (c v : NatFeature) (now : ℕ) → InRange (new_make_hole_records c v now).scores
unfolding new_make_hole_records
new_make_hole_records-InRange c v now = initial_scores-InRange c v

rescored : (s : BehaviorScore) (a : ℤ) → InTable s → a ≤ℤ pos 10 → InTable (record s { score = a })
rescored s a t h = record { known = t.known; inside = t.inside; bounded = h }

add_2-bounded : (a : ℤ) → add_2_up_to_10 a ≤ℤ pos 10
unfolding add_2_up_to_10
add_2-bounded a = ground arith

raise_first-All :
    (mode index : ℕ) (scores : List BehaviorScore)
    → All InTable scores
    → All InTable (raise_first mode index scores)
unfolding raise_first
raise_first-All mode index [] v = tt
raise_first-All mode index (s ∷ scores) (h, v) =
    if_both (λ l. All InTable l) (not (s.mode == mode) || not (s.index == index))
      (h, raise_first-All mode index scores v) (rescored s _ h (add_2-bounded s.score), v)

raise_first-nonempty :
    (mode index : ℕ) (scores : List BehaviorScore)
    → scores ≢ []
    → raise_first mode index scores ≢ []
unfolding raise_first
raise_first-nonempty mode index [] h = absurd (h refl)
raise_first-nonempty mode index (s ∷ scores) h = λ e. ground arith

lower_first-All :
    (m : ℤ) (scores : List BehaviorScore) → All InTable scores → All InTable (lower_first m scores)
unfolding lower_first
lower_first-All m [] v = tt
lower_first-All m (s ∷ scores) (h, v) =
    if_both (λ l. All InTable l) (leb_ℤ m s.score)
      (rescored s _ h (let b = h.bounded in ground arith), v) (h, lower_first-All m scores v)

lower_first-nonempty :
    (m : ℤ) (scores : List BehaviorScore) → scores ≢ [] → lower_first m scores ≢ []
unfolding lower_first
lower_first-nonempty m [] h = absurd (h refl)
lower_first-nonempty m (s ∷ scores) h = λ e. ground arith

pub report_success-InRange :
    (mhr : MakeHoleRecords) (mode index now : ℕ)
    → InRange mhr.scores
    → InRange (report_success mhr mode index now).scores
unfolding report_success
report_success-InRange mhr mode index now v = record {
  nonempty = raise_first-nonempty mode index mhr.scores v.nonempty;
  all_in = raise_first-All mode index mhr.scores v.all_in;
}

max_score-InTable :
    (m : BehaviorScore) (scores : List BehaviorScore)
    → InTable m
    → All InTable scores
    → InTable (max_score m scores)
unfolding max_score
max_score-InTable m [] h v = h
max_score-InTable m (s ∷ scores) h (k, v) =
    max_score-InTable (if ltb_ℤ m.score s.score then s else m) scores
      (if_both InTable (ltb_ℤ m.score s.score) k h) v

-- A recommendation from scores in range is a behaviour of the tables, and leaves them in range.
pub recommand-InRange :
    (mhr : MakeHoleRecords) (now : ℕ)
    → InRange mhr.scores
    → ((recommand mhr now).0.0 ≤ 4)
      × ((recommand mhr now).0.1 < length (get_behavior_by_mode (recommand mhr now).0.0))
      × InRange (recommand mhr now).1.scores
unfolding recommand
recommand-InRange mhr now v = choose mhr.scores refl
  where
    choose :
        (l : List BehaviorScore)
        → mhr.scores ≡ l
        → ((recommand mhr now).0.0 ≤ 4)
          × ((recommand mhr now).0.1 < length (get_behavior_by_mode (recommand mhr now).0.0))
          × InRange (recommand mhr now).1.scores
    choose [] e = absurd (v.nonempty e)
    choose (s ∷ scores) e =
        let a : All InTable (s ∷ scores) = rw e at v.all_in in
        let t = max_score-InTable s scores a.0 a.1 in
        rw (e, recommand)
          (
            t.known,
            t.inside,
            record {
              nonempty = lower_first-nonempty (max_score s scores).score (s ∷ scores) (λ q. cc);
              all_in = lower_first-All (max_score s scores).score (s ∷ scores) a;
            },
          )
