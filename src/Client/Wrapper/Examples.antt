-- ===== src/Client/Wrapper/Examples.antt =====
-- Tests of a proxy's phases, and their theorems at concrete inputs.
use frpcv.Prelude.{nat_eq, text_beq, text_eq, text, ◌≡◌, refl, true, false, [], ◌∷◌, arith}
use frpcv.Util.Naming.{add_user_prefix}
use frpcv.Client.Wrapper.{
  new, wait_start, start_err, running, check_failed, closed, start_proxy, Wrapper, new_wrapper,
  send_close, is_wait_start, runs, run_error, start_failed, run_proxy, set_running_status, stop,
  is_due, send_start, is_open, check, in_work_conn,
}
use frpcv.Client.Wrapper.Phases.{responds, checks, Edge, Step-Edge}
use frpcv.Client.Wrapper.Protocol.{
  Reach, start, next, Tells, Reach-Tells, starts, done, more, closed_forever, check_restarts,
}

abbrev web : Wrapper
web = new_wrapper (text "u") (text "web") false

abbrev asked : Wrapper
asked = check web 100

abbrev started_web : Wrapper
started_web = (set_running_status asked (text ":80") [] runs 200).0

name_test : web.wire_name ≡ text "u.web"
unfolding new_wrapper add_user_prefix text_beq
name_test = refl

running_test : started_web.phase ≡ running
unfolding new_wrapper check is_due send_start set_running_status is_wait_start run_proxy text_beq
running_test = refl

work_conn_test : in_work_conn started_web ≡ true
unfolding in_work_conn new_wrapper check is_due send_start set_running_status is_wait_start
    run_proxy text_beq
work_conn_test = refl

run_error_test : (set_running_status asked [] [] (run_error (text "e")) 9).0.phase ≡ start_err
unfolding new_wrapper check is_due send_start set_running_status is_wait_start run_proxy
    start_failed send_close text_beq
run_error_test = refl

monitored_test : (check (new_wrapper [] (text "web") true) 5).phase ≡ new
unfolding new_wrapper check is_open
monitored_test = refl

started_web-Reach : Reach (text "u") (text "web") false started_web
started_web-Reach = next (next start (checks 100)) (responds (text ":80") [] runs 200)

Reach-Tells_example :
    (started_web.wire_name ≡ add_user_prefix (text "u") (text "web")) × Tells started_web
Reach-Tells_example = Reach-Tells started_web-Reach

Step-Edge_holds : Edge asked.phase started_web.phase
Step-Edge_holds = Step-Edge (responds (text ":80") [] runs 200)

stopped_phase : (stop started_web).phase ≡ closed
unfolding stop send_close
stopped_phase = refl

closed_forever_holds :
    ((check (stop started_web) 300).phase ≡ closed)
    × (starts (check (stop started_web) 300).sent ≡ starts (stop started_web).sent)
closed_forever_holds = closed_forever (more (checks 300) done) stopped_phase

abbrev ill : Wrapper
ill = record web { phase = check_failed; last_send_start_msg = 100 }

check_restarts_holds :
    ((check ill 40_000_000_000).phase ≡ wait_start)
    × ((check ill 40_000_000_000).sent ≡ start_proxy ill.wire_name ∷ ill.sent)
    × ((check ill 40_000_000_000).last_send_start_msg ≡ 40_000_000_000)
unfolding new_wrapper
check_restarts_holds =
    check_restarts ill 40_000_000_000 refl (λ e. cc) (λ e. cc) (omega arith) (omega arith)
