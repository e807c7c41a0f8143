-- ===== src/Client/Health.antt =====
-- src/client/health/health.go: the monitor that probes the service behind a proxy and reports when it
-- comes up or goes down. The network is a parameter: whether a dial succeeds, what a GET answers.
-- The intervals are kept in seconds. `calls` holds the callbacks made, newest first.
pub mod Reports
pub mod Failures
pub mod Probes
mod Examples
use frpcv.Prelude.{
  ltb, if◌then◌else◌, Text, text_beq, text_eq, nat_eq, ◌==◌, text, ℤ, pos, negsuc, leb_ℤ, ℕ, ◌+◌,
  ◌-◌, ◌/◌, ◌%◌, ◌^◌, Bool, true, false, not, ◌&&◌, Option, none, some, List, [], ◌∷◌, ◌++◌,
}
use frpcv.Util.Texts.{has_prefix}

pub record HealthCheckConfig : Type 0 where
  pub check_type : Text
  pub timeout_seconds : ℤ
  pub max_failed : ℤ
  pub interval_seconds : ℤ
  pub path : Text

pub data Callback : Type 0 where
  status_normal status_failed : Callback

-- `has_normal_fn` and `has_failed_fn`: whether the callbacks are given.
pub record Monitor : Type 0 where
  pub check_type : Text
  pub interval : ℤ
  pub timeout : ℤ
  pub max_failed_times : ℤ
  pub addr : Text
  pub url : Text
  pub failed_times : ℕ
  pub status_ok : Bool
  pub has_normal_fn : Bool
  pub has_failed_fn : Bool
  pub calls : List Callback

-- A number that is not positive is replaced.
pub default_to : ℕ → ℤ → ℤ
default_to d n = if leb_ℤ n (pos 0) then pos d else n

pub health_url : HealthCheckConfig → Text → Text
unfolding text_beq
health_url cfg addr =
    if (cfg.check_type == text "http") && not (cfg.path == [])
    then text "http://"
      ++ addr
      ++ (if has_prefix cfg.path (text "/") then [] else text "/")
      ++ cfg.path
    else []

pub new_monitor : HealthCheckConfig → Text → Bool → Bool → Monitor
unfolding default_to health_url
new_monitor cfg addr has_normal_fn has_failed_fn = record {
  check_type = cfg.check_type;
  interval = default_to 10 cfg.interval_seconds;
  timeout = default_to 3 cfg.timeout_seconds;
  max_failed_times = default_to 1 cfg.max_failed;
  addr = addr;
  url = health_url cfg addr;
  failed_times = 0;
  status_ok = false;
  has_normal_fn = has_normal_fn;
  has_failed_fn = has_failed_fn;
  calls = [];
}

pub data CheckResult : Type 0 where
  ok health_check_type dial_failed request_failed : CheckResult
  not_2xx : ℕ → CheckResult

module _ (dial : Text → Bool) (fetch : Text → Option ℕ) where
  pub do_tcp_check : Monitor → CheckResult
  do_tcp_check monitor =
      if monitor.addr == [] then ok else if dial monitor.addr then ok else dial_failed

  -- The status code of the answer, if there is one.
  pub do_http_check : Monitor → CheckResult
  do_http_check monitor = elim (fetch monitor.url) [
    | none ↦ request_failed
    | some status ↦ if status / 100 == 2 then ok else not_2xx status
  ]

  pub do_check : Monitor → CheckResult
  unfolding do_tcp_check do_http_check text_beq
  do_check monitor =
      if monitor.check_type == text "tcp"
      then do_tcp_check monitor
      else if monitor.check_type == text "http"
      then do_http_check monitor
      else health_check_type

pub is_ok : CheckResult → Bool
is_ok ok = true
is_ok _ = false

-- int(n) >= m, for an n of 64 bits: from 2^63 on int(n) is negative.
pub int_at_least : ℕ → ℤ → Bool
int_at_least n m = if ltb n (2 ^ 63) then leb_ℤ m (pos n) else leb_ℤ m (negsuc (2 ^ 64 - n - 1))

-- One round of `checkWorker`, at a monitor that is not stopped.
pub check_round : Monitor → CheckResult → Monitor
unfolding is_ok int_at_least
check_round monitor result =
    if is_ok result
    then (if not monitor.status_ok && monitor.has_normal_fn
        then record monitor { status_ok = true; calls = status_normal ∷ monitor.calls }
        else monitor)
    else (let failed_times = (monitor.failed_times + 1) % 2 ^ 64 in
        if monitor.status_ok
          && int_at_least failed_times monitor.max_failed_times
          && monitor.has_failed_fn
        then record monitor {
          failed_times = failed_times;
          status_ok = false;
          calls = status_failed ∷ monitor.calls;
        }
        else record monitor { failed_times = failed_times })

-- The rounds of `checkWorker` until it is stopped, the first one first.
pub check_worker : Monitor → List CheckResult → Monitor
unfolding check_round
check_worker monitor [] = monitor
check_worker monitor (result ∷ results) = check_worker (check_round monitor result) results
