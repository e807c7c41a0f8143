-- ===== src/Server/Logins/Replaced.antt =====
-- A control that was replaced ends without a trace in the registry of the clients.
use frpcv.Prelude.{
  nat_beq_iff, Bool-cases, Text, text_eq, nat_eq, ◌==◌, eq_refl, if_both, ℕ, ◌<◌, ◌≡◌, refl, sym,
  ap, ◌∙◌, subst, inl, inr, false, some, [], arith,
}
use frpcv.Server.Registry.{ClientRegistry, register, mark_offline_by_run_id}
use frpcv.Server.Registry.Invariant as Registry
use frpcv.Server.Logins.{
  started, done, abandoned, Control, Service, Login, new_service, set_control, replaced, add,
  holds_control, delete, set_phase, set_registry, finish_login, end_worker, Step, adds, logs_in,
  ends, deletes, Steps, here, more,
}
use frpcv.Server.Logins.Stuck.{add-Older}

-- The history of a service.
abbrev pub Reached : Service → Type 0
Reached svr = Steps new_service svr

-- A state with a given registry.
HasRegistry : ClientRegistry → Service → Type 0
HasRegistry cr svr = svr.client_registry ≡ cr

delete-HasRegistry :
    (svr : Service) (run_id : Text) (c : ℕ) (cr : ClientRegistry)
    → HasRegistry cr svr
    → HasRegistry cr (delete svr run_id c)
unfolding delete HasRegistry
delete-HasRegistry svr run_id c cr h =
    if_both (HasRegistry cr) (holds_control (svr.ctls_by_run_id run_id) c) h h

finish_login-HasRegistry :
    (svr : Service) (c : ℕ) (login : Login) (now : ℕ)
    → HasRegistry
        (register svr.client_registry login.user login.client_id
          (svr.objects c).login_run_id
          login.metadata
          now).0
        (finish_login svr c login now)
unfolding finish_login HasRegistry
finish_login-HasRegistry svr c login now =
    let run = (svr.objects c).login_run_id in
    let out = register svr.client_registry login.user login.client_id run login.metadata now in
    if_both (HasRegistry out.0) out.2
      (delete-HasRegistry (set_phase (set_registry svr out.0) c abandoned) run c out.0 refl) refl

-- The registry of the clients has a history of its own.
Step-Registry :
    {svr later : Service}
    → Step svr later
    → Registry.Reach svr.client_registry
    → Registry.Reach later.client_registry
unfolding HasRegistry add end_worker
Step-Registry (adds run_id) r = r
Step-Registry {svr} (logs_in c login now l w m) r =
    subst Registry.Reach (sym (finish_login-HasRegistry svr c login now)) (
      Registry.next r (
        Registry.registers login.user login.client_id (svr.objects c).login_run_id login.metadata
          now))
Step-Registry {svr} (ends c now l w) r =
    Registry.next r (Registry.disconnects (svr.objects c).run_id now)
Step-Registry {svr} (deletes c l w) r =
    subst Registry.Reach
      (sym (delete-HasRegistry svr (svr.objects c).login_run_id c svr.client_registry refl)) r

Reached-Registry :
    {svr later : Service}
    → Steps svr later
    → Registry.Reach svr.client_registry
    → Registry.Reach later.client_registry
Reached-Registry here r = r
Reached-Registry (more s t) r = Step-Registry t (Reached-Registry s r)

-- A control without a run id.
HasNoRun : ℕ → Service → Type 0
HasNoRun d svr = (d < svr.next) × ((svr.objects d).run_id ≡ [])

update-HasNoRun :
    (svr : Service) (c d : ℕ) (ctl : Control)
    → ctl.run_id ≡ (svr.objects c).run_id
    → HasNoRun d svr
    → HasNoRun d (record svr { objects = set_control c ctl svr.objects })
unfolding HasNoRun
update-HasNoRun svr c d ctl e (l, h) = (
  l,
  elim (Bool-cases (c == d)) [
    | inr n ↦ rw n h
    | inl y ↦ rw y (e ∙ ap (λ (a : ℕ). (svr.objects a).run_id) ((nat_beq_iff c d).0 y) ∙ h)
  ],
)

delete-HasNoRun :
    (svr : Service) (run_id : Text) (c d : ℕ) → HasNoRun d svr → HasNoRun d (delete svr run_id c)
unfolding delete HasNoRun
delete-HasNoRun svr run_id c d h =
    if_both (HasNoRun d) (holds_control (svr.ctls_by_run_id run_id) c) h h

finish_login-HasNoRun :
    (svr : Service) (c d : ℕ) (login : Login) (now : ℕ)
    → HasNoRun d svr
    → HasNoRun d (finish_login svr c login now)
unfolding finish_login HasNoRun
finish_login-HasNoRun svr c d login now h =
    let run = (svr.objects c).login_run_id in
    let out = register svr.client_registry login.user login.client_id run login.metadata now in
    let a = set_registry svr out.0 in
    let refused = delete (set_phase a c abandoned) run c in
    if_both (HasNoRun d) out.2
      (update-HasNoRun refused c d (record (refused.objects c) { conn_open = false }) refl
        (delete-HasNoRun (set_phase a c abandoned) run c d
          (update-HasNoRun a c d (record (a.objects c) { phase = abandoned }) refl h)))
      (update-HasNoRun a c d (record (a.objects c) { phase = started }) refl h)

Step-HasNoRun : {svr later : Service} → Step svr later → (d : ℕ) → HasNoRun d svr → HasNoRun d later
unfolding HasNoRun add end_worker
Step-HasNoRun {svr} (adds run_id) d (l, h) = (omega arith, (add-Older svr run_id d l).no_run h)
Step-HasNoRun {svr} (logs_in c login now l w m) d h = finish_login-HasNoRun svr c d login now h
Step-HasNoRun {svr} (ends c now l w) d h =
    let a =
      set_registry svr (mark_offline_by_run_id svr.client_registry (svr.objects c).run_id now) in
    let b = set_phase a c done in
    update-HasNoRun b c d (record (b.objects c) { conn_open = false }) refl
      (update-HasNoRun a c d (record (a.objects c) { phase = done }) refl h)
Step-HasNoRun {svr} (deletes c l w) d h = delete-HasNoRun svr (svr.objects c).login_run_id c d h

Steps-HasNoRun :
    {svr later : Service} → Steps svr later → (d : ℕ) → HasNoRun d svr → HasNoRun d later
Steps-HasNoRun here d h = h
Steps-HasNoRun (more s t) d h = Step-HasNoRun t d (Steps-HasNoRun s d h)

add-HasNoRun :
    (svr : Service) (run_id : Text) (old : ℕ)
    → svr.ctls_by_run_id run_id ≡ some old
    → old < svr.next
    → HasNoRun old (add svr run_id)
unfolding add replaced HasNoRun
add-HasNoRun svr run_id old e l =
    let other : (svr.next == old) ≡ false = ground (arith, nat_beq_iff svr.next old) in
    (omega arith, rw (other, e, eq_refl old) refl)

-- When a client logs in again with the run id of a control, and any steps later the worker of that control
-- ends, the registry of the clients is not changed by this end: it marks nobody offline.
pub replaced_end_keeps_registry :
    {svr later : Service} (run_id : Text) (old now : ℕ)
    → Reached svr
    → svr.ctls_by_run_id run_id ≡ some old
    → old < svr.next
    → Steps (add svr run_id) later
    → (end_worker later old now).client_registry ≡ later.client_registry
unfolding end_worker HasNoRun
replaced_end_keeps_registry {svr} {later} run_id old now r e l s =
    let added = more r (adds run_id) in
    let registry =
      Registry.Reach-agreement (Reached-Registry s (Reached-Registry added Registry.start)) in
    let (there, no_run) = Steps-HasNoRun s old (add-HasNoRun svr run_id old e l) in
    ap (λ run. mark_offline_by_run_id later.client_registry run now) no_run
    ∙ Registry.mark_offline_by_run_id-nil later.client_registry now registry
