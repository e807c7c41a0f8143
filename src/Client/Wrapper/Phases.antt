-- ===== src/Client/Wrapper/Phases.antt =====
-- The phases of a proxy as a state machine.
use frpcv.Prelude.{
  Bool-cases, ◌==◌, nat_eq, Text, text_eq, ℕ, ◌≡◌, refl, ◌≢◌, ◌⊎◌, inl, inr, true, [],
}
use frpcv.Client.Wrapper.{
  Phase, new, wait_start, start_err, running, check_failed, closed, Wrapper, send_close,
  is_wait_start, RunResult, runs, run_error, start_failed, run_proxy, set_running_status, stop,
  is_due, send_start, is_open, check, status_normal_callback, status_failed_callback,
}

-- Everything that happens to a wrapper, in any order.
pub data Step (pw : Wrapper) : Wrapper → Type 0 where
  responds :
      (remote_addr resp_err : Text) (run : RunResult) (now : ℕ)
      → Step pw (set_running_status pw remote_addr resp_err run now).0
  checks : (now : ℕ) → Step pw (check pw now)
  gets_well : Step pw (status_normal_callback pw)
  falls_ill : Step pw (status_failed_callback pw)
  stops : Step pw (stop pw)

pub data Edge : Phase → Phase → Type 0 where
  stay : {p q : Phase} → p ≡ q → Edge p q
  asks : {p q : Phase} → p ≢ running → p ≢ closed → q ≡ wait_start → Edge p q
  started : {p q : Phase} → p ≡ wait_start → q ≡ running → Edge p q
  refused : {p q : Phase} → p ≡ wait_start → q ≡ start_err → Edge p q
  lost : {p q : Phase} → (p ≡ running) ⊎ (p ≡ wait_start) → q ≡ check_failed → Edge p q
  shut : {p q : Phase} → q ≡ closed → Edge p q

is_wait_start_lem : (p : Phase) → is_wait_start p ≡ true → p ≡ wait_start
unfolding is_wait_start
is_wait_start_lem wait_start h = refl
is_wait_start_lem new h = absurd (cc)
is_wait_start_lem start_err h = absurd (cc)
is_wait_start_lem running h = absurd (cc)
is_wait_start_lem check_failed h = absurd (cc)
is_wait_start_lem closed h = absurd (cc)

is_open_lem : (p : Phase) → is_open p ≡ true → (p ≡ running) ⊎ (p ≡ wait_start)
unfolding is_open
is_open_lem wait_start h = inr refl
is_open_lem running h = inl refl
is_open_lem new h = absurd (cc)
is_open_lem start_err h = absurd (cc)
is_open_lem check_failed h = absurd (cc)
is_open_lem closed h = absurd (cc)

due_lem :
    (pw : Wrapper) (p : Phase) (now : ℕ) → is_due pw p now ≡ true → (p ≢ running) × (p ≢ closed)
unfolding is_due
due_lem pw new now h = (λ e. cc, λ e. cc)
due_lem pw wait_start now h = (λ e. cc, λ e. cc)
due_lem pw start_err now h = (λ e. cc, λ e. cc)
due_lem pw check_failed now h = (λ e. cc, λ e. cc)
due_lem pw running now h = absurd (cc)
due_lem pw closed now h = absurd (cc)

run-Edge :
    (pw : Wrapper) (run : RunResult) (now : ℕ)
    → (p : Phase) → p ≡ wait_start
    → Edge p (run_proxy pw run now).0.phase
unfolding run_proxy start_failed
run-Edge pw runs now p h = started h refl
run-Edge pw (run_error e) now p h = refused h refl

respond-Edge :
    (pw : Wrapper) (remote_addr resp_err : Text) (run : RunResult) (now : ℕ)
    → Edge pw.phase (set_running_status pw remote_addr resp_err run now).0.phase
unfolding set_running_status start_failed
respond-Edge pw remote_addr resp_err run now = elim (Bool-cases (is_wait_start pw.phase)) [
  | inr n ↦ rw (n, set_running_status) (stay refl)
  | inl y ↦ elim (Bool-cases (resp_err == [])) [
    | inl e ↦
        rw (y, e, set_running_status)
          (run-Edge (record pw { remote_addr = remote_addr }) run now pw.phase
            (is_wait_start_lem pw.phase y))
    | inr e ↦ rw (y, e, set_running_status) (refused (is_wait_start_lem pw.phase y) refl)
  ]
]

check-Edge : (pw : Wrapper) (now : ℕ) → Edge pw.phase (check pw now).phase
unfolding check send_start
check-Edge pw now = elim (Bool-cases pw.unhealthy) [
  | inr n ↦ elim (Bool-cases (is_due pw pw.phase now)) [
    | inl d ↦ let (a, b) = due_lem pw pw.phase now d in rw (n, d, check) (asks a b refl)
    | inr d ↦ rw (n, d, check) (stay refl)
  ]
  | inl y ↦ elim (Bool-cases (is_open pw.phase)) [
    | inl o ↦ rw (y, o, check) (lost (is_open_lem pw.phase o) refl)
    | inr o ↦ rw (y, o, check) (stay refl)
  ]
]

-- Whatever happens to a proxy, its phase stays or takes one of these edges: from any phase but running
-- and closed to waiting for the server; from there to running or to a start error; from running or
-- waiting to a failed check; and from any phase to closed.
pub Step-Edge : {pw qw : Wrapper} → Step pw qw → Edge pw.phase qw.phase
unfolding stop send_close status_normal_callback status_failed_callback
Step-Edge {pw} (responds remote_addr resp_err run now) =
    respond-Edge pw remote_addr resp_err run now
Step-Edge {pw} (checks now) = check-Edge pw now
Step-Edge gets_well = stay refl
Step-Edge falls_ill = stay refl
Step-Edge stops = shut refl
