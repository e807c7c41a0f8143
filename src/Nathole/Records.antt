-- ===== src/Nathole/Records.antt =====
-- src/pkg/nathole/analysis.go: the scores of one pair of peers.
pub mod Choice
pub mod Range
use frpcv.Prelude.{
  if◌then◌else◌, text_eq, nat_eq, ◌==◌, ℤ, pos, ltb_ℤ, leb_ℤ, pred_ℤ, suc_ℤ, ℕ, ◌+◌, not, ◌&&◌,
  ◌||◌, List, [], ◌∷◌, ◌++◌,
}
use frpcv.Nathole.Classify.{NatFeature, classify_feature_count}
use frpcv.Nathole.Behaviors.{
  BehaviorScore, get_behavior_scores_by_mode_2, get_behavior_scores_by_mode,
}

pub record MakeHoleRecords : Type 0 where
  pub scores : List BehaviorScore
  pub last_update_time : ℕ

-- A peer in a public network is to be the receiver.
unfoldable pub mode_0_scores : NatFeature → NatFeature → List BehaviorScore
mode_0_scores c v =
    if c.public_network
    then get_behavior_scores_by_mode_2 0 (pos 0) (pos 1)
    else if v.public_network
    then get_behavior_scores_by_mode_2 0 (pos 1) (pos 0)
    else get_behavior_scores_by_mode 0 (pos 0)

unfoldable pub initial_scores : NatFeature → NatFeature → List BehaviorScore
unfolding mode_0_scores
initial_scores c v =
    let n = classify_feature_count (c ∷ v ∷ []) in
    if n.easy_count == 2
    then mode_0_scores c v
    else if n.hard_count == 1 && n.ports_changed_regular_count == 1
    then get_behavior_scores_by_mode 1 (pos 0)
      ++ (get_behavior_scores_by_mode 2 (pos 0) ++ mode_0_scores c v)
    else if n.hard_count == 1 && n.ports_changed_regular_count == 0
    then get_behavior_scores_by_mode 2 (pos 0)
      ++ (get_behavior_scores_by_mode 1 (pos 0) ++ mode_0_scores c v)
    else if n.hard_count == 2 && n.ports_changed_regular_count == 2
    then get_behavior_scores_by_mode 3 (pos 0) ++ get_behavior_scores_by_mode 4 (pos 0)
    else if n.hard_count == 2 && n.ports_changed_regular_count == 1
    then get_behavior_scores_by_mode 4 (pos 0)
    else get_behavior_scores_by_mode 0 (pos 1)
      ++ (get_behavior_scores_by_mode 1 (pos 1) ++ get_behavior_scores_by_mode 3 (pos 1))

unfoldable pub new_make_hole_records : NatFeature → NatFeature → ℕ → MakeHoleRecords
unfolding initial_scores
new_make_hole_records c v now = record { scores = initial_scores c v; last_update_time = now }

unfoldable pub add_2_up_to_10 : ℤ → ℤ
add_2_up_to_10 s = let t = suc_ℤ (suc_ℤ s) in if leb_ℤ t (pos 10) then t else pos 10

-- The first score of the mode and index is raised.
unfoldable pub raise_first : ℕ → ℕ → List BehaviorScore → List BehaviorScore
unfolding add_2_up_to_10
raise_first mode index [] = []
raise_first mode index (s ∷ scores) =
    let rest = raise_first mode index scores in
    if not (s.mode == mode) || not (s.index == index)
    then s ∷ rest
    else record s { score = add_2_up_to_10 s.score } ∷ scores

unfoldable pub report_success : MakeHoleRecords → ℕ → ℕ → ℕ → MakeHoleRecords
unfolding raise_first
report_success mhr mode index now = record {
  scores = raise_first mode index mhr.scores;
  last_update_time = now;
}

-- slices.MaxFunc: the first of the greatest scores, with `m` for the greatest so far.
unfoldable pub max_score : BehaviorScore → List BehaviorScore → BehaviorScore
max_score m [] = m
max_score m (s ∷ scores) = max_score (if ltb_ℤ m.score s.score then s else m) scores

-- The first of the scores that are as great as `m` is lowered; MaxFunc returned a pointer to it.
unfoldable pub lower_first : ℤ → List BehaviorScore → List BehaviorScore
lower_first m [] = []
lower_first m (s ∷ scores) =
    let rest = lower_first m scores in
    if leb_ℤ m s.score then record s { score = pred_ℤ s.score } ∷ scores else s ∷ rest

-- With no scores nothing is updated, the time neither.
unfoldable pub recommand : MakeHoleRecords → ℕ → (ℕ × ℕ) × MakeHoleRecords
unfolding max_score lower_first
recommand mhr now = elim mhr.scores [
  | [] ↦ ((0, 0), mhr)
  | s ∷ scores ↦
      let m = max_score s scores in
      (
        (m.mode, m.index),
        record { scores = lower_first m.score (s ∷ scores); last_update_time = now },
      )
]
