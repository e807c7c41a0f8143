-- ===== src/Util/DateCounter/Snapshots.antt =====
-- A snapshot that is taken on a later day than the counter was last used.
use frpcv.Prelude.{text_eq, nat_eq, ℕ, ◌-◌, ◌/◌, ◌<◌, ◌≡◌, refl, sym, ap, ◌∙◌, arith}
use frpcv.Util.DateCounter.{
  DateCounter, day, first, head_count, new_standard_date_counter, rotate, today_count, snapshot,
}
use frpcv.Util.DateCounter.Days.{
  Tally, ago, first-tabulate, Represents, RegularDays, at_day, rotate-Represents,
}
use frpcv.Util.DateCounter.Runs.{head_count-Represents}

module _ (midnight : ℕ → ℕ) (regular : RegularDays midnight) where
  snapshot-rotate :
      (c : DateCounter) (t : ℕ)
      → (rotate midnight (snapshot midnight c t) t).counts ≡ first c.reserve_days c.counts
  unfolding rotate snapshot new_standard_date_counter
  snapshot-rotate c t =
      let e : (midnight t - midnight t) / day ≡ 0 = omega arith in rw (e, rotate) refl

  -- Where every day has 24 hours, a snapshot of a counter that was last used on an earlier day gives that
  -- day's count as the count of its own day, for which the counter itself has none.
  pub snapshot_of_earlier_day :
      (c : DateCounter) (s : Tally) (t : ℕ)
      → Represents c s
      → s.today < t / day
      → ((today_count midnight (snapshot midnight c t) t).1 ≡ s.count_of s.today)
        × ((today_count midnight c t).1 ≡ 0)
  unfolding today_count
  snapshot_of_earlier_day c s t r l = (
    ap head_count (
          snapshot-rotate c t
          ∙ ap (first c.reserve_days) r.holds
          ∙ first-tabulate (ago s) c.reserve_days c.reserve_days (omega arith)
          ∙ sym r.holds)
        ∙ head_count-Represents c s r,
    head_count-Represents (rotate midnight c t) (at_day s (t / day))
          (rotate-Represents midnight regular c s t r (omega arith))
        ∙ r.no_later (t / day) l,
  )
