-- ===== src/Client/Wrapper/Protocol.antt =====
-- What the client tells the server of a proxy, and the phase it is in.
use frpcv.Prelude.{
  Bool-cases, ◌==◌, nat_eq, Text, text_eq, ℕ, suc, ◌+◌, ◌<◌, ◌≡◌, refl, ap, ◌∙◌, ◌≢◌, ◌⊎◌, inl, inr,
  Bool, true, false, List, [], ◌∷◌, arith,
}
use frpcv.Util.Naming.{add_user_prefix}
use frpcv.Client.Wrapper.{
  Phase, new, wait_start, start_err, running, check_failed, closed, wait_response_timeout,
  start_err_timeout, ProxyEvent, start_proxy, close_proxy, Wrapper, new_wrapper, send_close,
  is_wait_start, RunResult, runs, run_error, start_failed, run_proxy, set_running_status, stop,
  is_due, send_start, is_open, check, status_normal_callback, status_failed_callback,
}
use frpcv.Client.Wrapper.Phases.{Step, responds, checks, gets_well, falls_ill, stops}

pub data Reach (user name : Text) (has_monitor : Bool) : Wrapper → Type 0 where
  start : Reach user name has_monitor (new_wrapper user name has_monitor)
  next :
      {pw qw : Wrapper}
      → Reach user name has_monitor pw
      → Step pw qw
      → Reach user name has_monitor qw

-- What has been sent when a proxy is in a phase, newest first.
abbrev pub Told : Phase → Text → Text → List ProxyEvent → Type 0
Told new wire err sent = (sent ≡ []) × (err ≡ [])
Told wait_start wire err sent = (older : List ProxyEvent) × (sent ≡ start_proxy wire ∷ older)
Told start_err wire err sent =
    (older : List ProxyEvent) × ((sent ≡ start_proxy wire ∷ older)
      ⊎ (sent ≡ close_proxy wire ∷ start_proxy wire ∷ older))
Told running wire err sent =
    (older : List ProxyEvent) × (sent ≡ start_proxy wire ∷ older) × (err ≡ [])
Told check_failed wire err sent = (older : List ProxyEvent) × (sent ≡ close_proxy wire ∷ older)
Told closed wire err sent = (older : List ProxyEvent) × (sent ≡ close_proxy wire ∷ older)

abbrev pub Tells : Wrapper → Type 0
Tells pw = Told pw.phase pw.wire_name pw.err pw.sent

run-Tells :
    (pw : Wrapper) (run : RunResult) (now : ℕ) (older : List ProxyEvent)
    → pw.sent ≡ start_proxy pw.wire_name ∷ older
    → Tells (run_proxy pw run now).0
unfolding run_proxy start_failed send_close
run-Tells pw runs now older h = (older, h, refl)
run-Tells pw (run_error e) now older h = (older, inr (ap (λ t. close_proxy pw.wire_name ∷ t) h))

run-wire :
    (pw : Wrapper) (run : RunResult) (now : ℕ) → (run_proxy pw run now).0.wire_name ≡ pw.wire_name
unfolding run_proxy start_failed send_close
run-wire pw runs now = refl
run-wire pw (run_error e) now = refl

waiting_sent :
    (p : Phase) (wire err : Text) (sent : List ProxyEvent)
    → is_wait_start p ≡ true
    → Told p wire err sent
    → (older : List ProxyEvent) × (sent ≡ start_proxy wire ∷ older)
unfolding is_wait_start
waiting_sent wait_start wire err sent h t = t
waiting_sent new wire err sent h t = absurd (cc)
waiting_sent start_err wire err sent h t = absurd (cc)
waiting_sent running wire err sent h t = absurd (cc)
waiting_sent check_failed wire err sent h t = absurd (cc)
waiting_sent closed wire err sent h t = absurd (cc)

respond-Tells :
    (pw : Wrapper) (remote_addr resp_err : Text) (run : RunResult) (now : ℕ)
    → Tells pw
    → Tells (set_running_status pw remote_addr resp_err run now).0
unfolding set_running_status start_failed
respond-Tells pw remote_addr resp_err run now t = elim (Bool-cases (is_wait_start pw.phase)) [
  | inr n ↦ rw (n, set_running_status) t
  | inl y ↦
      let (older, h) = waiting_sent pw.phase pw.wire_name pw.err pw.sent y t in
      elim (Bool-cases (resp_err == [])) [
        | inl e ↦
            rw (y, e, set_running_status)
              (run-Tells (record pw { remote_addr = remote_addr }) run now older h)
        | inr e ↦ rw (y, e, set_running_status) (older, inl h)
      ]
]

check-Tells : (pw : Wrapper) (now : ℕ) → Tells pw → Tells (check pw now)
unfolding check send_start send_close
check-Tells pw now t = elim (Bool-cases pw.unhealthy) [
  | inr n ↦ elim (Bool-cases (is_due pw pw.phase now)) [
    | inl d ↦ rw (n, d, check) (pw.sent, refl)
    | inr d ↦ rw (n, d, check) t
  ]
  | inl y ↦ elim (Bool-cases (is_open pw.phase)) [
    | inl o ↦ rw (y, o, check) (pw.sent, refl)
    | inr o ↦ rw (y, o, check) t
  ]
]

Step-Tells : {pw qw : Wrapper} → Step pw qw → Tells pw → Tells qw
unfolding stop send_close status_normal_callback status_failed_callback
Step-Tells {pw} (responds remote_addr resp_err run now) t =
    respond-Tells pw remote_addr resp_err run now t
Step-Tells {pw} (checks now) t = check-Tells pw now t
Step-Tells gets_well t = t
Step-Tells falls_ill t = t
Step-Tells {pw} stops t = (pw.sent, refl)

respond-wire :
    (pw : Wrapper) (remote_addr resp_err : Text) (run : RunResult) (now : ℕ)
    → (set_running_status pw remote_addr resp_err run now).0.wire_name ≡ pw.wire_name
unfolding set_running_status start_failed
respond-wire pw remote_addr resp_err run now =
    ground (arith, run-wire (record pw { remote_addr = remote_addr }) run now)

Step-wire : {pw qw : Wrapper} → Step pw qw → qw.wire_name ≡ pw.wire_name
unfolding check send_start stop send_close status_normal_callback status_failed_callback
Step-wire {pw} (responds remote_addr resp_err run now) =
    respond-wire pw remote_addr resp_err run now
Step-wire (checks now) = ground arith
Step-wire gets_well = refl
Step-wire falls_ill = refl
Step-wire stops = refl

-- At any time of a proxy's life its name on the wire is its name with the user's prefix, and what was
-- sent last fits the phase: nothing in the first phase; the request to start while waiting and while
-- running, where no error is left; that, or the closing after it, after a start error; and the closing
-- after a failed check and when closed.
pub Reach-Tells :
    {user name : Text} {has_monitor : Bool} {pw : Wrapper}
    → Reach user name has_monitor pw
    → (pw.wire_name ≡ add_user_prefix user name) × Tells pw
unfolding new_wrapper
Reach-Tells start = (refl, (refl, refl))
Reach-Tells (next r s) = let (w, t) = Reach-Tells r in (Step-wire s ∙ w, Step-Tells s t)

-- The requests to start that were sent.
pub starts : List ProxyEvent → ℕ
starts [] = 0
starts (start_proxy name ∷ l) = suc (starts l)
starts (close_proxy name ∷ l) = starts l

pub data Steps : Wrapper → Wrapper → Type 0 where
  done : {pw : Wrapper} → Steps pw pw
  more : {pw qw rw' : Wrapper} → Step pw qw → Steps qw rw' → Steps pw rw'

Step-closed :
    {pw qw : Wrapper}
    → Step pw qw
    → pw.phase ≡ closed
    → (qw.phase ≡ closed) × (starts qw.sent ≡ starts pw.sent)
unfolding check set_running_status is_wait_start is_due is_open stop send_close
    status_normal_callback status_failed_callback starts
Step-closed {pw} (responds remote_addr resp_err run now) h = (ground arith, ground arith)
Step-closed (checks now) h = (ground arith, ground arith)
Step-closed gets_well h = (h, refl)
Step-closed falls_ill h = (h, refl)
Step-closed stops h = (refl, refl)

-- Once a proxy is closed it stays closed, whatever happens, and no request to start it is sent again.
pub closed_forever :
    {pw qw : Wrapper}
    → Steps pw qw
    → pw.phase ≡ closed
    → (qw.phase ≡ closed) × (starts qw.sent ≡ starts pw.sent)
closed_forever done h = (h, refl)
closed_forever (more s l) h =
    let (c, e) = Step-closed s h in let (d, f) = closed_forever l c in (d, f ∙ e)

-- A healthy proxy that is neither running nor closed, and whose last request and last error are older
-- than 20 and 30 seconds, asks the server to start it at the next check, under its name on the wire.
pub check_restarts :
    (pw : Wrapper) (now : ℕ)
    → pw.unhealthy ≡ false
    → pw.phase ≢ running
    → pw.phase ≢ closed
    → pw.last_send_start_msg + wait_response_timeout < now
    → pw.last_start_err + start_err_timeout < now
    → ((check pw now).phase ≡ wait_start)
      × ((check pw now).sent ≡ start_proxy pw.wire_name ∷ pw.sent)
      × ((check pw now).last_send_start_msg ≡ now)
unfolding check send_start
check_restarts pw now h nr nc a b =
    let d = due pw pw.phase now nr nc a b in
    (rw (h, d, check) refl, rw (h, d, check) refl, rw (h, d, check) refl)
  where
    due :
        (pw : Wrapper) (p : Phase) (now : ℕ)
        → p ≢ running
        → p ≢ closed
        → pw.last_send_start_msg + wait_response_timeout < now
        → pw.last_start_err + start_err_timeout < now
        → is_due pw p now ≡ true
    due pw new now nr nc a b = unfold is_due in refl
    due pw check_failed now nr nc a b = unfold is_due in refl
    due pw wait_start now nr nc a b = unfold is_due in ground arith
    due pw start_err now nr nc a b = unfold is_due in ground arith
    due pw running now nr nc a b = absurd (nr refl)
    due pw closed now nr nc a b = absurd (nc refl)
