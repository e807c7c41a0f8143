-- ===== src/Nathole/Analyzer.antt =====
-- src/pkg/nathole/analysis.go: the analyzer, which keeps records by a key for the pair of peers.
-- Times are nanoseconds. The calls are taken one after the other.
pub mod Roles
pub mod Cleaning
pub mod Preference
use frpcv.Prelude.{
  ltb, if◌then◌else◌, Text, text_eq, nat_eq, ◌==◌, length, Dict, lookup, insert, ℕ, ◌-◌, Bool, not,
  none, some, [], ◌∷◌,
}
use frpcv.Nathole.Classify.{NatFeature, is_easy}
use frpcv.Nathole.Behaviors.{RecommandBehavior, Pair, get_behavior_by_mode_and_index}
use frpcv.Nathole.Records.{MakeHoleRecords, new_make_hole_records, report_success, recommand}

pub record Analyzer : Type 0 where
  pub records : Dict Text MakeHoleRecords
  pub data_reserve_duration : ℕ

unfoldable pub new_analyzer : ℕ → Analyzer
new_analyzer data_reserve_duration = record {
  records = [];
  data_reserve_duration = data_reserve_duration;
}

-- Whose behaviour is which, after the pair of the tables is turned if need be.
unfoldable pub assign : ℕ → NatFeature → Pair → Pair
assign mode c (a, b) =
    if mode == 1
    then (if is_easy c then (b, a) else (a, b))
    else if mode == 2
    then (if not (is_easy c) then (b, a) else (a, b))
    else if mode == 4
    then (if not c.regular_ports_change then (b, a) else (a, b))
    else (a, b)

pub record Advice : Type 0 where
  pub mode : ℕ
  pub index : ℕ
  pub c_behavior : RecommandBehavior
  pub v_behavior : RecommandBehavior

unfoldable pub advice_of : ℕ × ℕ → NatFeature → Advice
unfolding assign
advice_of (mode, index) c =
    let pair = assign mode c (get_behavior_by_mode_and_index mode index) in
    record { mode = mode; index = index; c_behavior = pair.0; v_behavior = pair.1 }

unfoldable pub records_for : Analyzer → Text → NatFeature → NatFeature → ℕ → MakeHoleRecords
records_for a key c v now = elim (lookup key a.records) [
  | none ↦ new_make_hole_records c v now
  | some mhr ↦ mhr
]

unfoldable pub get_recommand_behaviors :
    Analyzer → Text → NatFeature → NatFeature → ℕ → Advice × Analyzer
unfolding advice_of records_for
get_recommand_behaviors a key c v now =
    let (chosen, mhr) = recommand (records_for a key c v now) now in
    (advice_of chosen c, record a { records = insert key mhr a.records })

unfoldable pub report : Analyzer → Text → ℕ → ℕ → ℕ → Analyzer
report a key mode index now = elim (lookup key a.records) [
  | none ↦ a
  | some mhr ↦ record a { records = insert key (report_success mhr mode index now) a.records }
]

unfoldable pub is_stale : Analyzer → ℕ → MakeHoleRecords → Bool
is_stale a now mhr = ltb a.data_reserve_duration (now - mhr.last_update_time)

unfoldable pub fresh_entries : Analyzer → ℕ → Dict Text MakeHoleRecords → Dict Text MakeHoleRecords
unfolding is_stale
fresh_entries a now [] = []
fresh_entries a now ((key, mhr) ∷ entries) =
    let rest = fresh_entries a now entries in if is_stale a now mhr then rest else (key, mhr) ∷ rest

-- How many records were deleted, and how many there were.
unfoldable pub clean : Analyzer → ℕ → (ℕ × ℕ) × Analyzer
unfolding fresh_entries
clean a now =
    let fresh = fresh_entries a now a.records in
    ((length a.records - length fresh, length a.records), record a { records = fresh })
