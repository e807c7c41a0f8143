-- ===== src/Client/Health/Examples.antt =====
-- Tests of the health monitor, and its theorems at concrete inputs.
use frpcv.Prelude.{
  nat_eq, Text, text_beq, text_eq, text, pos, negsuc, ℕ, ◌%◌, ◌^◌, ◌≡◌, refl, ◌↔◌, Bool, true,
  false, Option, some, List, [], ◌∷◌, ◌++◌, arith,
}
use frpcv.Util.Texts.{has_prefix}
use frpcv.Client.Health.{
  HealthCheckConfig, status_normal, status_failed, default_to, health_url, new_monitor, CheckResult,
  ok, dial_failed, do_http_check, do_check, is_ok, int_at_least, check_round, check_worker,
}
use frpcv.Client.Health.Reports.{Reported, check_worker-Reported}
use frpcv.Client.Health.Failures.{
  failures, failed_times-check_worker, one_failure_drops, NeverFailed, check_worker-NeverFailed,
}
use frpcv.Client.Health.Probes.{Alive, do_check_iff}

abbrev cfg : HealthCheckConfig
cfg = record {
  check_type = text "http";
  timeout_seconds = pos 0;
  max_failed = pos 3;
  interval_seconds = negsuc 4;
  path = text "status";
}

abbrev addr : Text
addr = text "127.0.0.1:80"

abbrev no_dial : Text → Bool
no_dial a = false

abbrev fetch_204 : Text → Option ℕ
fetch_204 url = some 204

url_test : (new_monitor cfg addr true true).url ≡ text "http://127.0.0.1:80/status"
unfolding new_monitor health_url has_prefix text_beq
url_test = refl

defaults_test : (new_monitor cfg addr true true).interval ≡ pos 10
unfolding new_monitor default_to
defaults_test = refl

overflow_test : int_at_least (2 ^ 63) (pos 1) ≡ false
unfolding int_at_least
overflow_test = refl

probe_test : do_check no_dial fetch_204 (new_monitor cfg addr true true) ≡ ok
unfolding do_check do_http_check new_monitor health_url has_prefix text_beq
probe_test = refl

-- One success, two failures, a success, and a third failure.
abbrev probes : List CheckResult
probes = ok ∷ dial_failed ∷ dial_failed ∷ ok ∷ dial_failed ∷ []

calls_test :
    (check_worker (new_monitor cfg addr true true) probes).calls
    ≡ status_failed ∷ status_normal ∷ []
unfolding check_worker check_round is_ok int_at_least new_monitor default_to
calls_test = refl

two_failures : failures (dial_failed ∷ dial_failed ∷ []) ≡ 2
unfolding failures is_ok
two_failures = refl

one_failure_drops_example :
    let m =
      check_worker (new_monitor cfg addr true true) ((dial_failed ∷ dial_failed ∷ []) ++ ok ∷ []) in
    (m.status_ok ≡ true)
    × ((check_worker m (dial_failed ∷ [])).status_ok ≡ false)
    × ((check_worker m (dial_failed ∷ [])).calls ≡ status_failed ∷ m.calls)
unfolding is_ok failures default_to
one_failure_drops_example =
    one_failure_drops cfg addr (dial_failed ∷ dial_failed ∷ []) ok dial_failed refl refl
      (omega arith) (omega arith)

check_worker-NeverFailed_holds :
    NeverFailed
      (check_worker (new_monitor cfg addr true true) (dial_failed ∷ dial_failed ∷ [])).calls
unfolding is_ok failures default_to
check_worker-NeverFailed_holds =
    check_worker-NeverFailed cfg addr true true (dial_failed ∷ dial_failed ∷ []) (omega arith)
      (omega arith)

check_worker-Reported_example :
    let m = check_worker (new_monitor cfg addr true true) probes in Reported m.status_ok m.calls
check_worker-Reported_example = check_worker-Reported cfg addr true true probes

failed_times-check_worker_test :
    (check_worker (new_monitor cfg addr true true) probes).failed_times ≡ failures probes % 2 ^ 64
failed_times-check_worker_test = failed_times-check_worker cfg addr true true probes

do_check_iff_holds :
    (is_ok (do_check no_dial fetch_204 (new_monitor cfg addr true true)) ≡ true)
    ↔ Alive no_dial fetch_204 (new_monitor cfg addr true true)
do_check_iff_holds = do_check_iff no_dial fetch_204 (new_monitor cfg addr true true)
