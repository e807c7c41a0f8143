-- ===== src/Nathole/Examples.antt =====
-- Tests of the classification of NATs and of the analyzer, and the theorems at concrete inputs.
use frpcv.Prelude.{
  if◌then◌else◌, ◌==◌, nat_eq, Text, text_beq, text_eq, text, length, lookup, pos, negsuc, ℕ, ◌≡◌,
  refl, Bool, true, false, ◌&&◌, Option, none, some, List, [], ◌∷◌, ◌++◌,
}
use frpcv.Nathole.Classify.{
  easy_nat, hard_nat, no_change, port_changed, NatFeature, ok, bad_address, no_scan, contains,
  scan_address, nat_behavior, nat_type_of, is_port_changed, feature_of, scan_addresses,
  classify_nat_feature, is_easy, count_feature, count_from, classify_feature_count,
}
use frpcv.Nathole.Classify.Features.{Endpoint, Shows, Endpoints, classify_nat_feature-Shows}
use frpcv.Nathole.Behaviors.{
  sender, receiver, short, mode_0_behaviors, mode_1_behaviors, mode_2_behaviors, mode_3_behaviors,
  mode_4_behaviors, get_behavior_by_mode, get_behavior_by_mode_and_index, BehaviorScore, is_sender,
  scores_from, get_behavior_scores_by_mode_2, get_behavior_scores_by_mode,
}
use frpcv.Nathole.Behaviors.Tables.{Opposite}
use frpcv.Nathole.Records.{
  MakeHoleRecords, mode_0_scores, initial_scores, new_make_hole_records, add_2_up_to_10,
  raise_first, report_success, max_score, lower_first, recommand,
}
use frpcv.Nathole.Records.Choice.{
  FirstMax, lowered, recommand-FirstMax, score_at, raised, score_at-report_success,
}
use frpcv.Nathole.Analyzer.{
  Analyzer, new_analyzer, assign, advice_of, records_for, get_recommand_behaviors, report, is_stale,
  fresh_entries, clean,
}
use frpcv.Nathole.Analyzer.Roles.{
  recommends, Reach, start, next, InRangeAll, Reach-InRangeAll, ClientRole,
  get_recommand_behaviors-ClientRole,
}
use frpcv.Nathole.Analyzer.Cleaning.{kept, lookup-clean}
use frpcv.Nathole.Analyzer.Preference.{public_receives}

-- Addresses of one byte for the host and one for the port, which is read as its own number.
abbrev split_two : Text → Option (Text × Text)
split_two (a ∷ b ∷ []) = some (a ∷ [], b ∷ [])
split_two _ = none

abbrev read_one : Text → Option ℕ
read_one (c ∷ []) = some c
read_one _ = none

abbrev end_point : ℕ → ℕ → Endpoint
end_point a n = record { ip = a ∷ []; port = n ∷ []; port_num = n }

abbrev seen : List Text
seen = (7 ∷ 20 ∷ []) ∷ (7 ∷ 23 ∷ []) ∷ []

regular_test :
    classify_nat_feature split_two read_one seen []
    ≡ ok (record {
      nat_type = hard_nat;
      behavior = port_changed;
      ports_difference = 3;
      regular_ports_change = true;
      public_network = false;
    })
unfolding classify_nat_feature scan_addresses scan_address no_scan feature_of nat_behavior
    nat_type_of is_port_changed contains text_beq
regular_test = refl

bad_test : classify_nat_feature split_two read_one ((7 ∷ []) ∷ seen) [] ≡ bad_address
unfolding classify_nat_feature scan_addresses
bad_test = refl

classify_nat_feature-Shows_example :
    (feature : NatFeature) × (classify_nat_feature split_two read_one seen [] ≡ ok feature)
    × Shows [] (end_point 7 20) (end_point 7 23 ∷ []) feature
unfolding Endpoints
classify_nat_feature-Shows_example =
    classify_nat_feature-Shows split_two read_one [] seen (end_point 7 20) (end_point 7 23) []
      (refl, refl, (refl, refl, tt)) (λ e. cc)

abbrev easy_feature : Bool → NatFeature
easy_feature public = record {
  nat_type = easy_nat;
  behavior = no_change;
  ports_difference = 0;
  regular_ports_change = false;
  public_network = public;
}

abbrev hard_feature : NatFeature
hard_feature = record (easy_feature false) {
  nat_type = hard_nat;
  behavior = port_changed;
  ports_difference = 3;
  regular_ports_change = true;
}

abbrev used : Analyzer
used = (get_recommand_behaviors (new_analyzer 100) (text "k") (easy_feature false) hard_feature 5).1

used-Reach : Reach used
used-Reach = next (start 100) (recommends (text "k") (easy_feature false) hard_feature 5)

advice_test :
    (get_recommand_behaviors
      (new_analyzer 100)
      (text "k")
      (easy_feature false)
      hard_feature
      5).0.c_behavior
    ≡ record (short 7) { ports_range_number = 10 }
unfolding get_recommand_behaviors records_for new_analyzer lookup new_make_hole_records
    initial_scores classify_feature_count count_from count_feature is_easy mode_0_scores
    get_behavior_scores_by_mode get_behavior_scores_by_mode_2 get_behavior_by_mode mode_0_behaviors
    mode_1_behaviors mode_2_behaviors scores_from is_sender recommand max_score advice_of assign
    get_behavior_by_mode_and_index
advice_test = refl

tables_test :
    (length (get_behavior_by_mode 3) ≡ 6) × (length (get_behavior_scores_by_mode 4 (pos 1)) ≡ 3)
unfolding get_behavior_by_mode mode_3_behaviors mode_4_behaviors get_behavior_scores_by_mode
    get_behavior_scores_by_mode_2 scores_from
tables_test = (refl, refl)

Reach-InRangeAll_holds : InRangeAll used.records
Reach-InRangeAll_holds = Reach-InRangeAll used-Reach

get_recommand_behaviors-ClientRole_example :
    let d = (get_recommand_behaviors used (text "k") (easy_feature false) hard_feature 9).0 in
    Opposite (d.c_behavior, d.v_behavior) × ClientRole d (easy_feature false)
get_recommand_behaviors-ClientRole_example =
    get_recommand_behaviors-ClientRole used-Reach (text "k") (easy_feature false) hard_feature 9

abbrev two_scores : List BehaviorScore
two_scores =
    record { mode = 1; index = 0; score = pos 9 }
    ∷ record { mode = 2; index = 1; score = negsuc 9 }
    ∷ []

abbrev two_records : MakeHoleRecords
two_records = record { scores = two_scores; last_update_time = 3 }

recommand_test :
    (recommand (record { scores = two_scores; last_update_time = 3 }) 8).1.scores
    ≡ record { mode = 1; index = 0; score = pos 8 }
      ∷ record { mode = 2; index = 1; score = negsuc 9 }
      ∷ []
unfolding recommand max_score lower_first
recommand_test = refl

recommand-FirstMax_example :
    (x : BehaviorScore) × (f : FirstMax x two_scores) × (recommand two_records 8 ≡ (
      (x.mode, x.index),
      record { scores = f.before ++ lowered x ∷ f.after; last_update_time = 8 },
    ))
recommand-FirstMax_example = recommand-FirstMax two_records 8 (λ e. cc)

report_test : score_at 1 0 (report_success two_records 1 0 8).scores ≡ some (pos 10)
unfolding score_at report_success raise_first add_2_up_to_10
report_test = refl

score_at-report_success_test : score_at 1 0 (report_success two_records 1 0 8).scores ≡ (
    if (◌==◌ {K = ℕ} 1 1) && (◌==◌ {K = ℕ} 0 0)
    then raised (score_at 1 0 two_scores)
    else score_at 1 0 two_scores)
score_at-report_success_test = score_at-report_success two_records 1 0 8 1 0

clean_test :
    (clean (record { records = (text "k", two_records) ∷ []; data_reserve_duration = 4 }) 8).0
    ≡ (1, 1)
unfolding clean fresh_entries is_stale
clean_test = refl

report_missing_test : report (new_analyzer 4) (text "k") 1 0 8 ≡ new_analyzer 4
unfolding report new_analyzer lookup
report_missing_test = refl

lookup-clean_holds :
    (lookup (text "k") (clean used 900).1.records ≡ kept used 900 (lookup (text "k") used.records))
    × ((clean used 900).0.1 ≡ length used.records)
lookup-clean_holds = lookup-clean used-Reach (text "k") 900

public_receives_holds :
    let d =
      (get_recommand_behaviors
        (new_analyzer 4)
        (text "k")
        (easy_feature false)
        (easy_feature true)
        1).0 in
    (d.c_behavior.role ≡ sender) × (d.v_behavior.role ≡ receiver)
unfolding new_analyzer lookup is_easy
public_receives_holds =
    public_receives (new_analyzer 4) (text "k") (easy_feature false) (easy_feature true) 1 refl refl
      refl refl
