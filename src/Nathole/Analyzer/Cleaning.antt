-- ===== src/Nathole/Analyzer/Cleaning.antt =====
-- Which records a cleaning removes.
use frpcv.Prelude.{
  if◌then◌else◌, Bool-cases, Option-cases, ◌==◌, nat_eq, Text, text_beq_iff, text_eq, if_both,
  length, Dict, lookup, insert, lookup-insert, ℕ, ◌≡◌, refl, inl, inr, Option, none, some, [], ◌∷◌,
  arith,
}
use frpcv.Nathole.Records.{MakeHoleRecords}
use frpcv.Nathole.Analyzer.{
  Analyzer, new_analyzer, get_recommand_behaviors, report, is_stale, fresh_entries, clean,
}
use frpcv.Nathole.Analyzer.Roles.{recommends, reports, cleans, Reach, start, next}

-- No key stands twice, as in a map.
pub Unique : Dict Text MakeHoleRecords → Type 0
Unique [] = Unit
Unique ((key, mhr) ∷ d) = (lookup key d ≡ none) × Unique d

insert-Unique :
    (key : Text) (mhr : MakeHoleRecords) (d : Dict Text MakeHoleRecords)
    → Unique d
    → Unique (insert key mhr d)
unfolding Unique insert lookup
insert-Unique key mhr [] v = (refl, tt)
insert-Unique key mhr ((j, w) ∷ d) (n, v) = elim (Bool-cases (j == key)) [
  | inl e ↦ rw (e, insert) (n, v)
  | inr e ↦
      rw (e, insert)
        (
          ground (arith, lookup-insert key j mhr d, text_beq_iff j key, text_beq_iff key j),
          insert-Unique key mhr d v,
        )
]

lookup-fresh_none :
    (a : Analyzer) (now : ℕ) (key : Text) (d : Dict Text MakeHoleRecords)
    → lookup key d ≡ none
    → lookup key (fresh_entries a now d) ≡ none
unfolding fresh_entries lookup
lookup-fresh_none a now key [] h = refl
lookup-fresh_none a now key ((j, w) ∷ d) h = ground (arith, lookup-fresh_none a now key d)

fresh-Unique :
    (a : Analyzer) (now : ℕ) (d : Dict Text MakeHoleRecords)
    → Unique d
    → Unique (fresh_entries a now d)
unfolding Unique fresh_entries
fresh-Unique a now [] v = tt
fresh-Unique a now ((j, w) ∷ d) (n, v) =
    let ih = fresh-Unique a now d v in
    if_both Unique (is_stale a now w) ih (lookup-fresh_none a now j d n, ih)

pub kept : Analyzer → ℕ → Option MakeHoleRecords → Option MakeHoleRecords
kept a now none = none
kept a now (some mhr) = if is_stale a now mhr then none else some mhr

lookup-fresh :
    (a : Analyzer) (now : ℕ) (key : Text) (d : Dict Text MakeHoleRecords)
    → Unique d
    → lookup key (fresh_entries a now d) ≡ kept a now (lookup key d)
unfolding Unique fresh_entries lookup kept
lookup-fresh a now key [] v = refl
lookup-fresh a now key ((j, w) ∷ d) (n, v) =
    ground (arith, lookup-fresh a now key d v, lookup-fresh_none a now key d, text_beq_iff j key)

report-Unique :
    (a : Analyzer) (key : Text) (mode index now : ℕ)
    → Unique a.records
    → Unique (report a key mode index now).records
unfolding report
report-Unique a key mode index now h = elim (Option-cases (lookup key a.records)) [
  | inl e ↦ rw (e, report) h
  | inr (mhr, e) ↦ rw (e, report) (insert-Unique key _ a.records h)
]

Reach-Unique : {a : Analyzer} → Reach a → Unique a.records
unfolding Unique new_analyzer get_recommand_behaviors clean
Reach-Unique (start d) = tt
Reach-Unique (next {a} r (recommends key c v now)) = insert-Unique key _ a.records (Reach-Unique r)
Reach-Unique (next {a} r (reports key mode index now)) =
    report-Unique a key mode index now (Reach-Unique r)
Reach-Unique (next {a} r (cleans now)) = fresh-Unique a now a.records (Reach-Unique r)

-- After any history, a cleaning removes exactly the records that were not used for longer than the
-- reserve duration, leaves the others as they are, and answers how many records there were.
pub lookup-clean :
    {a : Analyzer}
    → Reach a
    → (key : Text) (now : ℕ)
    → (lookup key (clean a now).1.records ≡ kept a now (lookup key a.records))
      × ((clean a now).0.1 ≡ length a.records)
unfolding clean
lookup-clean {a} r key now = (lookup-fresh a now key a.records (Reach-Unique r), refl)
