-- ===== src/Server/WorkConns/Examples.antt =====
-- Tests of the pool of work connections, and its theorems at concrete inputs.
use frpcv.Prelude.{text_eq, nat_eq, length, ◌≤◌, ◌≡◌, refl, true, false, List, [], ◌∷◌, ◌++◌}
use frpcv.Server.WorkConns.{
  timed_out, start, register_work_conn, get_work_conn, wait_work_conn, close_work_conns, close_left,
}
use frpcv.Server.WorkConns.Fifo.{
  Event, registers, gets, closes, History, began, run, run-Kept, arrivals, late_conns_lost,
}

abbrev events : List Event
events = registers 1 ∷ registers 2 ∷ gets true ∷ registers 3 ∷ gets false ∷ []

given_test : (run (began 5 2) events).given ≡ 1 ∷ 2 ∷ []
unfolding run get_work_conn register_work_conn
given_test = refl

requests_test : (run (began 5 2) events).pool.requests ≡ 3
unfolding run get_work_conn register_work_conn
requests_test = refl

close_left_test : (close_left (run (began 5 2) events).pool).1 ≡ 3 ∷ []
unfolding run close_left get_work_conn register_work_conn
close_left_test = refl

over_test : (wait_work_conn true true (start 1 1)).1 ≡ timed_out
unfolding wait_work_conn
over_test = refl

run-Kept_example :
    let h = run (began 5 2) events in
    (length h.pool.conns ≤ h.pool.capacity)
    × (h.pool.closed ≡ false → h.answered ≡ h.given ++ h.pool.conns)
run-Kept_example = run-Kept 5 2 events

-- The control ends with one connection in the pool, which is then taken.
abbrev ended : History
ended = run (began 5 2) (registers 1 ∷ closes ∷ gets true ∷ [])

ended_empty : (ended.pool.closed ≡ true) × (ended.pool.conns ≡ [])
unfolding run get_work_conn register_work_conn close_work_conns
ended_empty = (refl, refl)

abbrev later : List Event
later = registers 7 ∷ gets true ∷ registers 8 ∷ []

late_conns_lost_example :
    run ended later ≡ record ended { answered = ended.answered ++ arrivals later }
late_conns_lost_example = late_conns_lost ended later ended_empty.0 ended_empty.1
