-- ===== src/Util/DateCounter/Examples.antt =====
-- Tests of the counters of days, and their theorems at concrete inputs.
use frpcv.Prelude.{
  ltb, if◌then◌else◌, nat_beq_iff, text_eq, nat_eq, ◌==◌, pos, negsuc, ℕ, ◌-◌, ◌*◌, ◌/◌, ◌^◌, min,
  ◌≡◌, refl, some, List, [], ◌∷◌, arith,
}
use frpcv.Util.DateCounter.{
  DateCounter, day, zeros, first, head_count, set_head, new_standard_date_counter, new_date_counter,
  rotate, today_count, get_last_days_count, inc, dec, snapshot,
}
use frpcv.Util.DateCounter.Days.{
  Tally, Call, incs, decs, tally_call, tally_run, ago, tabulate, Represents, RegularDays,
}
use frpcv.Util.DateCounter.Runs.{run, run_refines}
use frpcv.Util.DateCounter.Snapshots.{snapshot_of_earlier_day}

-- A zone without changes of the clock.
abbrev utc : ℕ → ℕ
utc t = t / day * day

utc-RegularDays : RegularDays utc
utc-RegularDays t = refl

-- A zone in which the day 2 has 23 hours.
abbrev summer : ℕ → ℕ
summer t = if ltb t 169200 then t / day * day else if ltb t 255600 then 169200 else 255600

new_date_counter_test : (new_date_counter utc (negsuc 4) 90000).reserve_days ≡ 1
unfolding new_date_counter new_standard_date_counter
new_date_counter_test = refl

get_last_days_count_test :
    (get_last_days_count utc (new_standard_date_counter utc 2 0) (pos 5) 1).1 ≡ some (0 ∷ 0 ∷ [])
unfolding get_last_days_count new_standard_date_counter rotate zeros first
get_last_days_count_test = refl

dec_test : (dec utc (new_standard_date_counter utc 1 0) 1 5).counts ≡ (2 ^ 64 - 1) ∷ []
unfolding dec new_standard_date_counter rotate zeros set_head
dec_test = refl

-- What is counted on the day of 23 hours is found in the count of the next day.
short_day_test :
    (today_count summer (inc summer (new_standard_date_counter summer 3 90000) 7 90000) 200000).1
    ≡ 7
unfolding today_count inc new_standard_date_counter rotate zeros set_head head_count
short_day_test = refl

abbrev calls : List Call
calls = incs 3 10 ∷ decs 1 20 ∷ incs 5 100000 ∷ []

run_refines_example :
    ((today_count utc (run utc calls (new_standard_date_counter utc 3 0)) 100001).1 ≡ 5)
    × ((k : ℕ)
        → (get_last_days_count utc
            (run utc calls (new_standard_date_counter utc 3 0))
            (pos k)
            100001).1
          ≡ some (
              tabulate
                (ago (record (tally_run calls (record { today = 0; count_of = λ d. 0 })) {
                  today = 1;
                }))
                (min k 3)))
unfolding tally_run tally_call
run_refines_example =
    run_refines utc utc-RegularDays 3 0 calls 100001 (omega arith)
      (omega arith, (omega arith, (omega arith, tt))) (omega arith)

abbrev counter : DateCounter
counter = record { reserve_days = 2; counts = 7 ∷ 0 ∷ []; last_update_date = 0 }

abbrev tally : Tally
tally = record { today = 0; count_of = λ d. if d == 0 then 7 else 0 }

counter-Represents : Represents counter tally
unfolding tabulate
counter-Represents = record {
  updated = refl;
  positive = omega arith;
  holds = refl;
  no_later = λ d l. ground (arith, nat_beq_iff d 0);
}

snapshot_of_earlier_day_example :
    ((today_count utc (snapshot utc counter 90000) 90000).1 ≡ 7)
    × ((today_count utc counter 90000).1 ≡ 0)
snapshot_of_earlier_day_example =
    snapshot_of_earlier_day utc utc-RegularDays counter tally 90000 counter-Represents (omega arith)
