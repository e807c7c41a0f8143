-- ===== src/Server/Logins/Examples.antt =====
-- Tests of the logins, and their theorems at concrete inputs.
use frpcv.Prelude.{
  text_beq, text_eq, nat_eq, text, lookup, insert, ℕ, ◌<◌, ◌≡◌, refl, none, some, [], arith,
}
use frpcv.Server.Registry.{
  compose_client_key, effective_id, entry, forget_run, connected, accept, register,
}
use frpcv.Server.Logins.{
  waiting, started, done, abandoned, Service, Login, new_service, replaced, add, delete,
  finish_login, end_worker, MayProceed, adds, logs_in, here, more,
}
use frpcv.Server.Logins.Stuck.{Blocked, Steps-waiting}
use frpcv.Server.Logins.Replaced.{Reached, replaced_end_keeps_registry}

abbrev login : Login
login = record {
  user = text "u";
  client_id = text "id";
  metadata = record { hostname = []; version = []; remote_addr = [] };
}

-- A client logs in; another login with its client id but its own run id is added.
abbrev first_in : Service
first_in = finish_login (add new_service (text "r1")) 0 login 1

abbrev second_added : Service
second_added = add first_in (text "r2")

-- A third login with the run id of the second is added before the second is refused.
abbrev third_added : Service
third_added = add second_added (text "r2")

abbrev second_refused : Service
second_refused = finish_login third_added 1 login 2

started_test : (first_in.objects 0).phase ≡ started
unfolding add replaced finish_login delete register compose_client_key effective_id accept text_beq
    lookup
started_test = refl

refused_test : (second_refused.objects 1).phase ≡ abandoned
unfolding add replaced finish_login delete register compose_client_key effective_id accept connected
    entry forget_run text_beq lookup insert
refused_test = refl

end_worker_test : ((end_worker first_in 0 5).objects 0).phase ≡ done
unfolding end_worker
end_worker_test = refl

blocked : Blocked second_refused 1 2
unfolding add replaced finish_login delete register compose_client_key effective_id accept connected
    entry forget_run text_beq lookup insert
blocked = record {
  is_old = omega arith;
  is_there = omega arith;
  refused = refl;
  unfinished = refl;
  waits = refl;
}

Steps-waiting_example : ((add second_refused (text "r3")).objects 2).phase ≡ waiting
Steps-waiting_example = Steps-waiting (more here (adds (text "r3"))) blocked

no_wait : (svr : Service) (c : ℕ) → (svr.objects c).waits_for ≡ none → MayProceed svr c
no_wait svr c e p h = absurd (cc)

waits_for_none : (third_added.objects 1).waits_for ≡ none
unfolding add replaced finish_login delete register compose_client_key effective_id accept connected
    entry forget_run text_beq lookup insert
waits_for_none = refl

refused_is_waiting : (third_added.objects 1).phase ≡ waiting
unfolding add replaced finish_login delete register compose_client_key effective_id accept connected
    entry forget_run text_beq lookup insert
refused_is_waiting = refl

first_facts :
    (0 < (add new_service (text "r1")).next)
    × (((add new_service (text "r1")).objects 0).phase ≡ waiting)
    × (((add new_service (text "r1")).objects 0).waits_for ≡ none)
unfolding add
first_facts = (omega arith, refl, refl)

third_next : 1 < third_added.next
unfolding add replaced finish_login delete register compose_client_key effective_id accept connected
    entry forget_run text_beq lookup insert
third_next = omega arith

first_in-Reached : Reached first_in
first_in-Reached = more (more here (adds (text "r1"))) (
    logs_in 0 login 1 first_facts.0 first_facts.1
      (no_wait (add new_service (text "r1")) 0 first_facts.2))

first_held : (first_in.ctls_by_run_id (text "r1") ≡ some 0) × (0 < first_in.next)
unfolding add replaced finish_login delete register compose_client_key effective_id accept text_beq
    lookup
first_held = (refl, omega arith)

-- The control of `first_in` has started and its client is registered; a second login replaces it.
replaced_end_keeps_registry_example :
    (end_worker (add first_in (text "r1")) 0 9).client_registry
    ≡ (add first_in (text "r1")).client_registry
replaced_end_keeps_registry_example =
    replaced_end_keeps_registry (text "r1") 0 9 first_in-Reached first_held.0 first_held.1 here

-- The state in which the third login is blocked has a history.
blocked_is_Reached : Reached second_refused
blocked_is_Reached =
    more (more (more first_in-Reached (adds (text "r2"))) (adds (text "r2")))
      (logs_in 1 login 2 third_next refused_is_waiting (no_wait third_added 1 waits_for_none))
