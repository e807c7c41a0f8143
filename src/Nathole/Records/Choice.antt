-- ===== src/Nathole/Records/Choice.antt =====
-- What a recommendation chooses, and how the scores change.
use frpcv.Prelude.{
  if◌then◌else◌, nat_beq_iff, Bool-cases, ◌==◌, nat_eq, text_eq, All, ℤ, ◌≤ℤ◌, ◌<ℤ◌, ltb_ℤ, leb_ℤ,
  pred_ℤ, ℕ, ◌≡◌, refl, sym, ap, ◌∙◌, ◌≢◌, ◌⊎◌, inl, inr, true, false, ◌&&◌, Option, none, some,
  List, [], ◌∷◌, ◌++◌, arith,
}
use frpcv.Nathole.Behaviors.{BehaviorScore}
use frpcv.Nathole.Records.{
  MakeHoleRecords, add_2_up_to_10, raise_first, report_success, max_score, lower_first, recommand,
}

-- The score `x` stands in the list, the ones before it are smaller and the ones after it not greater.
pub record FirstMax (x : BehaviorScore) (scores : List BehaviorScore) : Type 0 where
  pub before : List BehaviorScore
  pub after : List BehaviorScore
  pub splits : scores ≡ before ++ x ∷ after
  pub greater : All (λ s. s.score <ℤ x.score) before
  pub greatest : All (λ s. s.score ≤ℤ x.score) after

max_score-cases :
    (m : BehaviorScore) (scores : List BehaviorScore)
    → ((max_score m scores ≡ m) × All (λ s. s.score ≤ℤ m.score) scores)
      ⊎ (FirstMax (max_score m scores) scores × (m.score <ℤ (max_score m scores).score))
unfolding max_score
max_score-cases m [] = inl (refl, tt)
max_score-cases m (s ∷ scores) = elim (Bool-cases (ltb_ℤ m.score s.score)) [
  | inl e ↦
      rw (e, max_score)
        (elim (max_score-cases s scores) [
          | inl (x, v) ↦ inr (
            record {
              before = [];
              after = scores;
              splits = ap (λ t. t ∷ scores) (sym x);
              greater = tt;
              greatest = rw x v;
            },
            rw x (ground arith),
          )
          | inr (f, lt) ↦ inr (
            record {
              before = s ∷ f.before;
              after = f.after;
              splits = ap (λ t. s ∷ t) f.splits;
              greater = (lt, f.greater);
              greatest = f.greatest;
            },
            ground arith,
          )
        ])
  | inr e ↦
      rw (e, max_score)
        (elim (max_score-cases m scores) [
          | inl (x, v) ↦ inl (x, (ground arith, v))
          | inr (f, lt) ↦ inr (
            record {
              before = s ∷ f.before;
              after = f.after;
              splits = ap (λ t. s ∷ t) f.splits;
              greater = (ground arith, f.greater);
              greatest = f.greatest;
            },
            lt,
          )
        ])
]

max_score-FirstMax :
    (s : BehaviorScore) (scores : List BehaviorScore) → FirstMax (max_score s scores) (s ∷ scores)
max_score-FirstMax s scores = elim (max_score-cases s scores) [
  | inl (x, v) ↦ record {
    before = [];
    after = scores;
    splits = ap (λ t. t ∷ scores) (sym x);
    greater = tt;
    greatest = rw x v;
  }
  | inr (f, lt) ↦ record {
    before = s ∷ f.before;
    after = f.after;
    splits = ap (λ t. s ∷ t) f.splits;
    greater = (lt, f.greater);
    greatest = f.greatest;
  }
]

pub lowered : BehaviorScore → BehaviorScore
lowered s = record s { score = pred_ℤ s.score }

lower_first-append :
    (x : BehaviorScore) (before after : List BehaviorScore)
    → All (λ s. s.score <ℤ x.score) before
    → lower_first x.score (before ++ x ∷ after) ≡ before ++ lowered x ∷ after
unfolding lower_first lowered
lower_first-append x [] after v = rw (leb_refl x.score) refl
  where
    leb_refl : (a : ℤ) → leb_ℤ a a ≡ true
    leb_refl a = ground arith
lower_first-append x (s ∷ before) after (h, v) =
    let e : leb_ℤ x.score s.score ≡ false = ground arith in
    rw (e, lower_first) (ap (λ t. s ∷ t) (lower_first-append x before after v))

-- With scores there, a recommendation is the mode and index of the first of the greatest scores; that
-- score is lowered by one, whatever it is, the others and their order stay, and the records have the
-- time of the call.
pub recommand-FirstMax :
    (mhr : MakeHoleRecords) (now : ℕ)
    → mhr.scores ≢ []
    → (x : BehaviorScore) × (f : FirstMax x mhr.scores) × (recommand mhr now ≡ (
      (x.mode, x.index),
      record { scores = f.before ++ lowered x ∷ f.after; last_update_time = now },
    ))
unfolding recommand
recommand-FirstMax mhr now ne = choose mhr.scores refl
  where
    choose :
        (l : List BehaviorScore)
        → mhr.scores ≡ l
        → (x : BehaviorScore) × (f : FirstMax x mhr.scores) × (recommand mhr now ≡ (
          (x.mode, x.index),
          record { scores = f.before ++ lowered x ∷ f.after; last_update_time = now },
        ))
    choose [] e = absurd (ne e)
    choose (s ∷ scores) e =
        let g = max_score-FirstMax s scores in
        let x = max_score s scores in
        let low = lower_first-append x g.before g.after g.greater in
        (
          x,
          record {
            before = g.before;
            after = g.after;
            splits = e ∙ g.splits;
            greater = g.greater;
            greatest = g.greatest;
          },
          rw (e, recommand)
              (ap (λ t. ((x.mode, x.index), record { scores = t; last_update_time = now }))
                (ap (lower_first x.score) g.splits ∙ low)),
        )

-- The score of a mode and index.
unfoldable pub score_at : ℕ → ℕ → List BehaviorScore → Option ℤ
score_at mode index [] = none
score_at mode index (s ∷ scores) =
    if (s.mode == mode) && (s.index == index) then some s.score else score_at mode index scores

pub raised : Option ℤ → Option ℤ
raised none = none
raised (some s) = some (add_2_up_to_10 s)

score_at-raise_first :
    (mode index m i : ℕ) (l : List BehaviorScore)
    → score_at m i (raise_first mode index l)
      ≡ (if (mode == m) && (index == i) then raised (score_at m i l) else score_at m i l)
unfolding raise_first score_at raised
score_at-raise_first mode index m i [] = ground arith
score_at-raise_first mode index m i (s ∷ l) = ground (
  arith,
  score_at-raise_first mode index m i l,
  nat_beq_iff s.mode mode,
  nat_beq_iff s.index index,
  nat_beq_iff s.mode m,
  nat_beq_iff s.index i,
  nat_beq_iff mode m,
  nat_beq_iff index i,
)

-- A success raises the score of its mode and index, if it is there, by two and to ten at most; the score
-- of any other mode and index stays.
pub score_at-report_success :
    (mhr : MakeHoleRecords) (mode index now m i : ℕ)
    → score_at m i (report_success mhr mode index now).scores ≡ (
        if (mode == m) && (index == i)
        then raised (score_at m i mhr.scores)
        else score_at m i mhr.scores)
unfolding report_success
score_at-report_success mhr mode index now m i = score_at-raise_first mode index m i mhr.scores
