-- ===== src/Nathole/Analyzer/Preference.antt =====
-- What is advised first to two peers behind easy NATs.
use frpcv.Prelude.{
  if◌then◌else◌, Bool-cases, nat_eq, Text, text_eq, lookup, pos, ℕ, ◌≡◌, refl, ◌∙◌, inl, inr, true,
  false, ◌||◌, none, List, arith,
}
use frpcv.Nathole.Classify.{NatFeature, is_easy, count_feature, count_from, classify_feature_count}
use frpcv.Nathole.Behaviors.{
  sender, receiver, mode_0_behaviors, get_behavior_by_mode, get_behavior_by_mode_and_index,
  BehaviorScore, is_sender, scores_from, get_behavior_scores_by_mode_2,
}
use frpcv.Nathole.Records.{
  mode_0_scores, initial_scores, new_make_hole_records, max_score, recommand,
}
use frpcv.Nathole.Analyzer.{Analyzer, assign, advice_of, records_for, get_recommand_behaviors}

easy_scores :
    (c v : NatFeature)
    → is_easy c ≡ true
    → is_easy v ≡ true
    → initial_scores c v ≡ mode_0_scores c v
unfolding initial_scores classify_feature_count count_from count_feature
easy_scores c v h k = rw (h, k, count_feature) refl

recommand_fresh :
    (a : Analyzer) (key : Text) (c v : NatFeature) (now : ℕ) (scores : List BehaviorScore)
    → lookup key a.records ≡ none
    → initial_scores c v ≡ scores
    → (get_recommand_behaviors a key c v now).0
      ≡ advice_of (recommand (record { scores = scores; last_update_time = now }) now).0 c
unfolding get_recommand_behaviors records_for new_make_hole_records
recommand_fresh a key c v now scores h e = rw (h, records_for, e) refl

public_scores :
    (c v : NatFeature)
    → c.public_network ≡ true
    → mode_0_scores c v ≡ get_behavior_scores_by_mode_2 0 (pos 0) (pos 1)
unfolding mode_0_scores
public_scores c v h = rw h refl

visitor_scores :
    (c v : NatFeature)
    → c.public_network ≡ false
    → v.public_network ≡ true
    → mode_0_scores c v ≡ get_behavior_scores_by_mode_2 0 (pos 1) (pos 0)
unfolding mode_0_scores
visitor_scores c v h k = rw (h, k) refl

-- The first advice to two peers with easy NATs, one of which is in a public network, has that peer receive
-- and the other send; if both are, the client receives.
pub public_receives :
    (a : Analyzer) (key : Text) (c v : NatFeature) (now : ℕ)
    → lookup key a.records ≡ none
    → is_easy c ≡ true
    → is_easy v ≡ true
    → (c.public_network || v.public_network) ≡ true
    → let d = (get_recommand_behaviors a key c v now).0 in
      (d.c_behavior.role ≡ (if c.public_network then receiver else sender))
      × (d.v_behavior.role ≡ (if c.public_network then sender else receiver))
unfolding advice_of recommand max_score assign get_behavior_by_mode_and_index get_behavior_by_mode
    mode_0_behaviors get_behavior_scores_by_mode_2 scores_from is_sender
public_receives a key c v now h x y p = elim (Bool-cases c.public_network) [
  | inl e ↦
      let q = recommand_fresh a key c v now _ h (easy_scores c v x y ∙ public_scores c v e) in
      rw (q, e) (refl, refl)
  | inr e ↦
      let q =
        recommand_fresh a key c v now _ h
          (easy_scores c v x y ∙ visitor_scores c v e (ground arith)) in
      rw (q, e) (refl, refl)
]
