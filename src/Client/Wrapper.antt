-- ===== src/Client/Wrapper.antt =====
-- src/client/proxy/proxy_wrapper.go: one proxy of the client and its phases. Times are nanoseconds.
-- What `pxy.Run` answers is an argument. `sent` holds the events given to the handler, newest first.
pub mod Phases
pub mod Protocol
mod Examples
use frpcv.Prelude.{
  ltb, if◌then◌else◌, Text, text_eq, nat_eq, ◌==◌, ℕ, ◌+◌, Bool, true, false, not, List, [], ◌∷◌,
}
use frpcv.Util.Naming.{add_user_prefix}

pub data Phase : Type 0 where
  new wait_start start_err running check_failed closed : Phase

-- 20 and 30 seconds
abbrev pub wait_response_timeout : ℕ
wait_response_timeout = 20_000_000_000

abbrev pub start_err_timeout : ℕ
start_err_timeout = 30_000_000_000

pub data ProxyEvent : Type 0 where
  start_proxy close_proxy : Text → ProxyEvent

pub record Wrapper : Type 0 where
  pub phase : Phase
  pub err : Text
  pub remote_addr : Text
  pub unhealthy : Bool
  pub last_send_start_msg : ℕ
  pub last_start_err : ℕ
  pub wire_name : Text
  pub sent : List ProxyEvent

-- `NewWrapper`: a wrapper with a health monitor starts as failed.
unfoldable pub new_wrapper : Text → Text → Bool → Wrapper
new_wrapper user name has_monitor = record {
  phase = new;
  err = [];
  remote_addr = [];
  unhealthy = has_monitor;
  last_send_start_msg = 0;
  last_start_err = 0;
  wire_name = add_user_prefix user name;
  sent = [];
}

-- `close`
pub send_close : Wrapper → Wrapper
send_close pw = record pw { sent = close_proxy pw.wire_name ∷ pw.sent }

unfoldable pub is_wait_start : Phase → Bool
is_wait_start wait_start = true
is_wait_start _ = false

pub data StatusResult : Type 0 where
  ok not_wait_start : StatusResult
  failed : Text → StatusResult

-- `pxy.Run`
pub data RunResult : Type 0 where
  runs : RunResult
  run_error : Text → RunResult

pub start_failed : Wrapper → Text → ℕ → Wrapper
start_failed pw e now = record pw { phase = start_err; err = e; last_start_err = now }

pub run_proxy : Wrapper → RunResult → ℕ → Wrapper × StatusResult
unfolding start_failed send_close
run_proxy pw runs now = (record pw { phase = running; err = [] }, ok)
run_proxy pw (run_error e) now = (start_failed (send_close pw) e now, failed e)

unfoldable pub set_running_status : Wrapper → Text → Text → RunResult → ℕ → Wrapper × StatusResult
unfolding is_wait_start run_proxy
set_running_status pw remote_addr resp_err run now =
    if not (is_wait_start pw.phase)
    then (pw, not_wait_start)
    else (let addressed = record pw { remote_addr = remote_addr } in
        if not (resp_err == [])
        then (start_failed addressed resp_err now, failed resp_err)
        else run_proxy addressed run now)

pub stop : Wrapper → Wrapper
unfolding send_close
stop pw = send_close (record pw { phase = closed })

-- The phases in which `checkWorker` asks the server to start the proxy.
pub is_due : Wrapper → Phase → ℕ → Bool
is_due pw new now = true
is_due pw check_failed now = true
is_due pw wait_start now = ltb (pw.last_send_start_msg + wait_response_timeout) now
is_due pw start_err now = ltb (pw.last_start_err + start_err_timeout) now
is_due pw running now = false
is_due pw closed now = false

pub send_start : Wrapper → ℕ → Wrapper
send_start pw now = record pw {
  phase = wait_start;
  last_send_start_msg = now;
  sent = start_proxy pw.wire_name ∷ pw.sent;
}

-- The phases in which a failed health check closes the proxy.
pub is_open : Phase → Bool
is_open running = true
is_open wait_start = true
is_open _ = false

-- One round of `checkWorker`.
pub check : Wrapper → ℕ → Wrapper
unfolding is_due send_start is_open send_close
check pw now =
    if not pw.unhealthy
    then (if is_due pw pw.phase now then send_start pw now else pw)
    else if is_open pw.phase
    then record (send_close pw) { phase = check_failed }
    else pw

pub status_normal_callback : Wrapper → Wrapper
status_normal_callback pw = record pw { unhealthy = false }

pub status_failed_callback : Wrapper → Wrapper
status_failed_callback pw = record pw { unhealthy = true }

-- `InWorkConn`: whether the connection is handed to the proxy; if not, it is closed.
pub in_work_conn : Wrapper → Bool
in_work_conn pw = elim pw.phase [ running ↦ true | _ ↦ false ]
