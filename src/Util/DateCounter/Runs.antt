-- ===== src/Util/DateCounter/Runs.antt =====
-- Any calls of a counter, and what its reads return.
use frpcv.Prelude.{
  ltb, if◌then◌else◌, text_eq, nat_eq, pos, ℕ, zero, suc, ◌+◌, ◌-◌, ◌/◌, ◌%◌, ◌^◌, ◌≤◌, ◌<◌, min,
  ◌≡◌, refl, ap, ◌∙◌, some, List, [], ◌∷◌, arith,
}
use frpcv.Util.DateCounter.{
  DateCounter, day, first, head_count, new_standard_date_counter, rotate, today_count,
  get_last_days_count, inc, dec, clear,
}
use frpcv.Util.DateCounter.Days.{
  Tally, Call, incs, decs, reads, clears, tally_call, tally_run, ago, tabulate, tabulate_ext,
  zeros-tabulate, first-tabulate, Represents, RegularDays, rotate-Represents, change-Represents,
}

-- A call at its time, on the counter.
abbrev apply_call : (ℕ → ℕ) → Call → DateCounter → DateCounter
apply_call midnight (incs n t) c = inc midnight c n t
apply_call midnight (decs n t) c = dec midnight c n t
apply_call midnight (reads t) c = (today_count midnight c t).0
apply_call midnight clears c = clear c

abbrev pub run : (ℕ → ℕ) → List Call → DateCounter → DateCounter
run midnight [] c = c
run midnight (call ∷ calls) c = run midnight calls (apply_call midnight call c)

-- No call is on an earlier day than the one before.
abbrev pub Ascending : ℕ → List Call → Type 0
Ascending d [] = Unit
Ascending d (incs n t ∷ calls) = (d ≤ t / day) × Ascending (t / day) calls
Ascending d (decs n t ∷ calls) = (d ≤ t / day) × Ascending (t / day) calls
Ascending d (reads t ∷ calls) = (d ≤ t / day) × Ascending (t / day) calls
Ascending d (clears ∷ calls) = Ascending d calls

pub head_count-tabulate : (f : ℕ → ℕ) (n : ℕ) → 0 < n → head_count (tabulate f n) ≡ f 0
unfolding head_count tabulate
head_count-tabulate f zero h = absurd (omega arith)
head_count-tabulate f (suc n) h = refl

pub head_count-Represents :
    (c : DateCounter) (s : Tally) → Represents c s → head_count c.counts ≡ s.count_of s.today
head_count-Represents c s r =
    let same : s.today - 0 ≡ s.today = omega arith in
    let counted = ap s.count_of same in
    ap head_count r.holds
    ∙ head_count-tabulate (ago s) c.reserve_days r.positive
    ∙ ground (arith, counted)

-- The same reserve of days.
Reserves : ℕ → DateCounter → Type 0
Reserves n c = c.reserve_days ≡ n

rotate-Reserves :
    (midnight : ℕ → ℕ) (n : ℕ) (c : DateCounter) (t : ℕ)
    → Reserves n c
    → Reserves n (rotate midnight c t)
unfolding rotate Reserves
rotate-Reserves midnight n c t h = ground (arith, h)

run-Reserves :
    (midnight : ℕ → ℕ) (n : ℕ) (calls : List Call) (c : DateCounter)
    → Reserves n c
    → Reserves n (run midnight calls c)
unfolding inc dec today_count clear Reserves
run-Reserves midnight n [] c h = h
run-Reserves midnight n (incs k t ∷ calls) c h =
    run-Reserves midnight n calls _ (rotate-Reserves midnight n c t h)
run-Reserves midnight n (decs k t ∷ calls) c h =
    run-Reserves midnight n calls _ (rotate-Reserves midnight n c t h)
run-Reserves midnight n (reads t ∷ calls) c h =
    run-Reserves midnight n calls _ (rotate-Reserves midnight n c t h)
run-Reserves midnight n (clears ∷ calls) c h = run-Reserves midnight n calls _ h

module _ (midnight : ℕ → ℕ) (regular : RegularDays midnight) where
  clear-Represents :
      (c : DateCounter) (s : Tally) → Represents c s → Represents (clear c) (tally_call clears s)
  unfolding clear tally_call
  clear-Represents c s r = record {
    updated = r.updated;
    positive = r.positive;
    holds =
        zeros-tabulate c.reserve_days
        ∙ tabulate_ext c.reserve_days (λ i. 0) (ago (tally_call clears s)) (λ i l. ground arith);
    no_later = λ d l. refl;
  }

  pub run-Represents :
      (calls : List Call) (c : DateCounter) (s : Tally)
      → Represents c s
      → Ascending s.today calls
      → Represents (run midnight calls c) (tally_run calls s)
  unfolding tally_run tally_call inc dec today_count
  run-Represents [] c s r a = r
  run-Represents (incs n t ∷ calls) c s r (l, a) =
      run-Represents calls _ _
        (change-Represents _ _ (λ x. (x + n) % 2 ^ 64)
          (rotate-Represents midnight regular c s t r l))
        a
  run-Represents (decs n t ∷ calls) c s r (l, a) =
      run-Represents calls _ _
        (change-Represents _ _ (λ x. (x + (2 ^ 64 - n % 2 ^ 64)) % 2 ^ 64)
          (rotate-Represents midnight regular c s t r l))
        a
  run-Represents (reads t ∷ calls) c s r (l, a) =
      run-Represents calls _ _ (rotate-Represents midnight regular c s t r l) a
  run-Represents (clears ∷ calls) c s r a = run-Represents calls _ _ (clear-Represents c s r) a

  new-Represents :
      (n start : ℕ)
      → 0 < n
      → Represents
          (new_standard_date_counter midnight n start)
          (record { today = start / day; count_of = λ d. 0 })
  unfolding new_standard_date_counter
  new-Represents n start h = record {
    updated = regular start;
    positive = h;
    holds = zeros-tabulate n ∙ tabulate_ext n (λ i. 0) _ (λ i l. ground arith);
    no_later = λ d l. refl;
  }

  first-Represents :
      (c : DateCounter) (s : Tally) (k m n : ℕ)
      → Represents c s
      → m ≡ n
      → c.reserve_days ≡ n
      → first (if ltb m k then m else k) c.counts ≡ tabulate (ago s) (min k n)
  first-Represents c s k m n r e f =
      let as_min : (if ltb m k then m else k) ≡ min k n = ground arith in
      ap (λ (i : ℕ). first i c.counts) as_min
      ∙ ap (first (min k n)) r.holds
      ∙ first-tabulate (ago s) (min k n) c.reserve_days (omega arith)

  -- Where every day has 24 hours and the calls come on days that do not fall, a counter for n days that
  -- has taken any calls reads as the tally of the days: `TodayCount` returns what the day of its time has
  -- counted, and `GetLastDaysCount` that of the asked days before it, as many as there are up to n.
  pub run_refines :
      (n start : ℕ) (calls : List Call) (t : ℕ)
      → 0 < n
      → Ascending (start / day) calls
      → (tally_run calls (record { today = start / day; count_of = λ d. 0 })).today ≤ t / day
      → let c = run midnight calls (new_standard_date_counter midnight n start) in
        let s = tally_run calls (record { today = start / day; count_of = λ d. 0 }) in
        ((today_count midnight c t).1 ≡ s.count_of (t / day))
        × ((k : ℕ)
            → (get_last_days_count midnight c (pos k) t).1
              ≡ some (tabulate (ago (record s { today = t / day })) (min k n)))
  unfolding today_count get_last_days_count Reserves new_standard_date_counter
  run_refines n start calls t h a l =
      let c = run midnight calls (new_standard_date_counter midnight n start) in
      let s = tally_run calls (record { today = start / day; count_of = λ d. 0 }) in
      let r =
        rotate-Represents midnight regular c s t
          (run-Represents calls _ _ (new-Represents n start h) a) l in
      let reserved : c.reserve_days ≡ n = run-Reserves midnight n calls _ refl in
      let rotated : (rotate midnight c t).reserve_days ≡ n =
        rotate-Reserves midnight n c t reserved in
      (
        head_count-Represents (rotate midnight c t) (record s { today = t / day }) r,
        λ k. ap some (
            first-Represents (rotate midnight c t) (record s { today = t / day }) k c.reserve_days n
              r reserved rotated),
      )
