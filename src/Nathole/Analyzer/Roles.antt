-- ===== src/Nathole/Analyzer/Roles.antt =====
-- What the two peers are advised to do, after any history of the analyzer.
use frpcv.Prelude.{
  if◌then◌else◌, Bool-cases, Option-cases, ◌==◌, nat_eq, Text, text_eq, if_both, Dict, lookup,
  insert, ℕ, ◌≡◌, ◌⊎◌, inl, inr, some, [], ◌∷◌, arith,
}
use frpcv.Nathole.Classify.{NatFeature, is_easy}
use frpcv.Nathole.Behaviors.{sender, receiver, Pair}
use frpcv.Nathole.Behaviors.Tables.{Opposite, SendsFirst, pair-Opposite, pair-SendsFirst}
use frpcv.Nathole.Records.{MakeHoleRecords, recommand}
use frpcv.Nathole.Records.Range.{
  InRange, new_make_hole_records-InRange, report_success-InRange, recommand-InRange,
}
use frpcv.Nathole.Analyzer.{
  Analyzer, new_analyzer, assign, Advice, advice_of, records_for, get_recommand_behaviors, report,
  is_stale, fresh_entries, clean,
}

pub data Step (a : Analyzer) : Analyzer → Type 0 where
  recommends :
      (key : Text) (c v : NatFeature) (now : ℕ) → Step a (get_recommand_behaviors a key c v now).1
  reports : (key : Text) (mode index now : ℕ) → Step a (report a key mode index now)
  cleans : (now : ℕ) → Step a (clean a now).1

pub data Reach : Analyzer → Type 0 where
  start : (data_reserve_duration : ℕ) → Reach (new_analyzer data_reserve_duration)
  next : {a b : Analyzer} → Reach a → Step a b → Reach b

-- The entries are those of a map, and their scores are in range.
pub InRangeAll : Dict Text MakeHoleRecords → Type 0
InRangeAll [] = Unit
InRangeAll ((key, mhr) ∷ entries) = InRange mhr.scores × InRangeAll entries

insert-InRangeAll :
    (key : Text) (mhr : MakeHoleRecords) (d : Dict Text MakeHoleRecords)
    → InRange mhr.scores
    → InRangeAll d
    → InRangeAll (insert key mhr d)
unfolding InRangeAll insert
insert-InRangeAll key mhr [] h v = (h, tt)
insert-InRangeAll key mhr ((j, w) ∷ d) h (x, v) =
    if_both InRangeAll (j == key) (h, v) (x, insert-InRangeAll key mhr d h v)

some_injective : {m n : MakeHoleRecords} → some m ≡ some n → m ≡ n
some_injective h = cc

lookup-InRange :
    (key : Text) (mhr : MakeHoleRecords) (d : Dict Text MakeHoleRecords)
    → InRangeAll d
    → lookup key d ≡ some mhr
    → InRange mhr.scores
unfolding InRangeAll lookup
lookup-InRange key mhr [] v h = absurd (cc)
lookup-InRange key mhr ((j, w) ∷ d) (x, v) h = elim (Bool-cases (j == key)) [
  | inl e ↦ (let q : w ≡ mhr = some_injective (ground arith) in rw (← q) x)
  | inr e ↦ lookup-InRange key mhr d v (ground arith)
]

fresh-InRangeAll :
    (a : Analyzer) (now : ℕ) (d : Dict Text MakeHoleRecords)
    → InRangeAll d
    → InRangeAll (fresh_entries a now d)
unfolding InRangeAll fresh_entries
fresh-InRangeAll a now [] v = tt
fresh-InRangeAll a now ((key, mhr) ∷ d) (x, v) =
    let ih = fresh-InRangeAll a now d v in if_both InRangeAll (is_stale a now mhr) ih (x, ih)

records_for-InRange :
    (a : Analyzer) (key : Text) (c v : NatFeature) (now : ℕ)
    → InRangeAll a.records
    → InRange (records_for a key c v now).scores
unfolding records_for
records_for-InRange a key c v now h = elim (Option-cases (lookup key a.records)) [
  | inl e ↦ rw (e, records_for) (new_make_hole_records-InRange c v now)
  | inr (mhr, e) ↦ rw (e, records_for) (lookup-InRange key mhr a.records h e)
]

report-InRangeAll :
    (a : Analyzer) (key : Text) (mode index now : ℕ)
    → InRangeAll a.records
    → InRangeAll (report a key mode index now).records
unfolding report
report-InRangeAll a key mode index now h = elim (Option-cases (lookup key a.records)) [
  | inl e ↦ rw (e, report) h
  | inr (mhr, e) ↦
      rw (e, report)
        (insert-InRangeAll key _ a.records
          (report_success-InRange mhr mode index now (lookup-InRange key mhr a.records h e)) h)
]

Step-InRangeAll : {a b : Analyzer} → Step a b → InRangeAll a.records → InRangeAll b.records
unfolding get_recommand_behaviors clean
Step-InRangeAll {a} (recommends key c v now) h =
    insert-InRangeAll key _ a.records
      (recommand-InRange (records_for a key c v now) now (records_for-InRange a key c v now h)).2 h
Step-InRangeAll {a} (reports key mode index now) h = report-InRangeAll a key mode index now h
Step-InRangeAll {a} (cleans now) h = fresh-InRangeAll a now a.records h

-- After any history of recommendations, reports and cleanings, each pair of peers has scores; each of
-- them is for one of the five modes and a behaviour of its table, and is ten at most.
pub Reach-InRangeAll : {a : Analyzer} → Reach a → InRangeAll a.records
unfolding InRangeAll new_analyzer
Reach-InRangeAll (start d) = tt
Reach-InRangeAll (next r s) = Step-InRangeAll s (Reach-InRangeAll r)

-- The role that the mode's rule gives to the client.
unfoldable pub ClientRole : Advice → NatFeature → Type 0
ClientRole d c =
    (d.mode ≡ 1 → d.c_behavior.role ≡ (if is_easy c then receiver else sender))
    × (d.mode ≡ 2 → d.c_behavior.role ≡ (if is_easy c then sender else receiver))
    × (d.mode ≡ 4 → d.c_behavior.role ≡ (if c.regular_ports_change then sender else receiver))

assign-Opposite : (mode : ℕ) (c : NatFeature) (p : Pair) → Opposite p → Opposite (assign mode c p)
unfolding assign Opposite
assign-Opposite mode c (a, b) h = ground arith

assign_role :
    (mode : ℕ) (c : NatFeature) (p : Pair)
    → ((mode ≡ 1) ⊎ ((mode ≡ 2) ⊎ (mode ≡ 4)) → SendsFirst p)
    → (mode ≡ 1 → (assign mode c p).0.role ≡ (if is_easy c then receiver else sender))
      × (mode ≡ 2 → (assign mode c p).0.role ≡ (if is_easy c then sender else receiver))
      × (mode ≡ 4
          → (assign mode c p).0.role ≡ (if c.regular_ports_change then sender else receiver))
unfolding assign SendsFirst
assign_role mode c (a, b) h = (
  λ e. (let s = h (inl e) in rw e (ground arith)),
  λ e. (let s = h (inr (inl e)) in rw e (ground arith)),
  λ e. (let s = h (inr (inr e)) in rw e (ground arith)),
)

-- After any history, one of the two peers is advised to send and the other to receive. In mode 1 the
-- client sends unless its NAT is easy, in mode 2 it sends exactly when its NAT is easy, and in mode 4
-- exactly when its ports change regularly.
pub get_recommand_behaviors-ClientRole :
    {a : Analyzer}
    → Reach a
    → (key : Text) (c v : NatFeature) (now : ℕ)
    → let d = (get_recommand_behaviors a key c v now).0 in
      Opposite (d.c_behavior, d.v_behavior) × ClientRole d c
unfolding get_recommand_behaviors advice_of ClientRole
get_recommand_behaviors-ClientRole {a} r key c v now =
    let m = records_for a key c v now in
    let (known, inside, v') =
      recommand-InRange m now (records_for-InRange a key c v now (Reach-InRangeAll r)) in
    let mode = (recommand m now).0.0 in
    let index = (recommand m now).0.1 in
    (
      assign-Opposite mode c _ (pair-Opposite mode index inside),
      assign_role mode c _ (pair-SendsFirst mode index inside),
    )
