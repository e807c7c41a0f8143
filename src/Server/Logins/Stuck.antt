-- ===== src/Server/Logins/Stuck.antt =====
-- A login that waits for a control whose own login was refused.
use frpcv.Prelude.{
  nat_beq_iff, Bool-cases, Text, text_eq, nat_eq, ◌==◌, if_both, ℕ, ◌<◌, ◌≡◌, refl, sym, ap, ◌∙◌,
  subst, ◌≢◌, inl, inr, false, Option, none, some, [], arith,
}
use frpcv.Server.Registry.{ClientRegistry, register, mark_offline_by_run_id}
use frpcv.Server.Logins.{
  Phase, waiting, started, done, abandoned, Control, Service, Login, replaced, replace_old, add,
  holds_control, delete, set_phase, set_registry, close_conn, finish_login, end_worker, MayProceed,
  Step, adds, logs_in, ends, deletes, Steps, here, more,
}

-- A control is the same in a later state, in which no control was allocated.
unfoldable pub Kept : Service → ℕ → Service → Type 0
Kept svr d later = (later.objects d ≡ svr.objects d) × (later.next ≡ svr.next)

kept-kept : (a b c : Service) (d : ℕ) → Kept a d b → Kept b d c → Kept a d c
unfolding Kept
kept-kept a b c d (e, f) (g, h) = (g ∙ e, h ∙ f)

set_phase-Kept :
    (svr : Service) (c d : ℕ) (phase : Phase)
    → (c == d) ≡ false
    → Kept svr d (set_phase svr c phase)
unfolding Kept
set_phase-Kept svr c d phase h = (rw h refl, refl)

close_conn-Kept : (svr : Service) (c d : ℕ) → (c == d) ≡ false → Kept svr d (close_conn svr c)
unfolding Kept
close_conn-Kept svr c d h = (rw h refl, refl)

set_registry-Kept : (svr : Service) (d : ℕ) (cr : ClientRegistry) → Kept svr d (set_registry svr cr)
unfolding Kept
set_registry-Kept svr d cr = (refl, refl)

pub delete-Kept : (svr : Service) (run_id : Text) (c d : ℕ) → Kept svr d (delete svr run_id c)
unfolding delete Kept
delete-Kept svr run_id c d =
    if_both (Kept svr d) (holds_control (svr.ctls_by_run_id run_id) c) (refl, refl) (refl, refl)

pub finish_login-Kept :
    (svr : Service) (c d : ℕ) (login : Login) (now : ℕ)
    → (c == d) ≡ false
    → Kept svr d (finish_login svr c login now)
unfolding finish_login
finish_login-Kept svr c d login now h =
    let run = (svr.objects c).login_run_id in
    let out = register svr.client_registry login.user login.client_id run login.metadata now in
    let a = set_registry svr out.0 in
    let keeps = set_registry-Kept svr d out.0 in
    let b = set_phase a c abandoned in
    let e = delete b run c in
    if_both (Kept svr d) out.2
      (kept-kept svr e (close_conn e c) d
        (kept-kept svr b e d (kept-kept svr a b d keeps (set_phase-Kept a c d abandoned h))
          (delete-Kept b run c d))
        (close_conn-Kept e c d h))
      (kept-kept svr a (set_phase a c started) d keeps (set_phase-Kept a c d started h))

pub end_worker-Kept :
    (svr : Service) (c d now : ℕ) → (c == d) ≡ false → Kept svr d (end_worker svr c now)
unfolding end_worker
end_worker-Kept svr c d now h =
    let a =
      set_registry svr (mark_offline_by_run_id svr.client_registry (svr.objects c).run_id now) in
    let b = set_phase a c done in
    kept-kept svr b (close_conn b c) d
      (kept-kept svr a b d (set_registry-Kept svr d _) (set_phase-Kept a c d done h))
      (close_conn-Kept b c d h)

-- What `Add` leaves of a control that was there.
pub record Older (old new : Control) : Type 0 where
  pub phase : new.phase ≡ old.phase
  pub waits : new.waits_for ≡ old.waits_for
  pub no_run : old.run_id ≡ [] → new.run_id ≡ []

same-Older : (old : Control) → Older old old
same-Older old = record { phase = refl; waits = refl; no_run = λ e. e }

pub add-Older :
    (svr : Service) (run_id : Text) (d : ℕ)
    → d < svr.next
    → Older (svr.objects d) ((add svr run_id).objects d)
unfolding add replaced
add-Older svr run_id d l =
    let other : (svr.next == d) ≡ false = ground (arith, nat_beq_iff svr.next d) in
    rw other (of_old (svr.ctls_by_run_id run_id))
  where
    of_old : (o : Option ℕ) → Older (svr.objects d) (replace_old o svr.objects d)
    of_old none = same-Older (svr.objects d)
    of_old (some old) = elim (Bool-cases (old == d)) [
      | inr e ↦ rw e (same-Older (svr.objects d))
      | inl e ↦ rw e (
          subst (λ (a : ℕ). Older (svr.objects d) (replaced (svr.objects a)))
            (sym ((nat_beq_iff old d).0 e))
            (record { phase = refl; waits = refl; no_run = λ z. refl }))
    ]

-- The login of `e` waits for `p`, which was refused.
pub record Blocked (svr : Service) (p e : ℕ) : Type 0 where
  pub is_old : p < svr.next
  pub is_there : e < svr.next
  pub refused : (svr.objects p).phase ≡ abandoned
  pub unfinished : (svr.objects e).phase ≡ waiting
  pub waits : (svr.objects e).waits_for ≡ some p

kept-Blocked :
    (svr later : Service) (p e : ℕ)
    → Kept svr p later
    → Kept svr e later
    → Blocked svr p e
    → Blocked later p e
unfolding Kept
kept-Blocked svr later p e (a, n) (b, m) v =
    let lp = v.is_old in
    let le = v.is_there in
    record {
      is_old = omega arith;
      is_there = omega arith;
      refused = ap (λ (c : Control). c.phase) a ∙ v.refused;
      unfinished = ap (λ (c : Control). c.phase) b ∙ v.unfinished;
      waits = ap (λ (c : Control). c.waits_for) b ∙ v.waits;
    }

distinct :
    (svr : Service) (c d : ℕ) (x y : Phase)
    → (svr.objects c).phase ≡ x
    → (svr.objects d).phase ≡ y
    → x ≢ y
    → (c == d) ≡ false
distinct svr c d x y h k n = elim (Bool-cases (c == d)) [
  | inr e ↦ e
  | inl e ↦ absurd (n (sym h ∙ ap (λ (a : ℕ). (svr.objects a).phase) ((nat_beq_iff c d).0 e) ∙ k))
]

add-Blocked :
    (svr : Service) (run_id : Text) (p e : ℕ) → Blocked svr p e → Blocked (add svr run_id) p e
unfolding add
add-Blocked svr run_id p e v =
    let op = add-Older svr run_id p v.is_old in
    let oe = add-Older svr run_id e v.is_there in
    let lp = v.is_old in
    let le = v.is_there in
    record {
      is_old = omega arith;
      is_there = omega arith;
      refused = op.phase ∙ v.refused;
      unfinished = oe.phase ∙ v.unfinished;
      waits = oe.waits ∙ v.waits;
    }

proceeds_not : (svr : Service) (c p e : ℕ) → MayProceed svr c → Blocked svr p e → (c == e) ≡ false
proceeds_not svr c p e m v = elim (Bool-cases (c == e)) [
  | inr h ↦ h
  | inl h ↦ absurd (
      let ended =
        m p (ap (λ (a : ℕ). (svr.objects a).waits_for) ((nat_beq_iff c e).0 h) ∙ v.waits) in
      let refused = v.refused in cc)
]

Step-Blocked :
    {svr later : Service} {p e : ℕ} → Step svr later → Blocked svr p e → Blocked later p e
Step-Blocked {svr} {p = p} {e = e} (adds run_id) v = add-Blocked svr run_id p e v
Step-Blocked {svr} {p = p} {e = e} (logs_in c login now l w m) v =
    kept-Blocked svr _ p e
      (finish_login-Kept svr c p login now
        (distinct svr c p waiting abandoned w v.refused (λ h. cc)))
      (finish_login-Kept svr c e login now (proceeds_not svr c p e m v)) v
Step-Blocked {svr} {p = p} {e = e} (ends c now l w) v =
    kept-Blocked svr _ p e
      (end_worker-Kept svr c p now (distinct svr c p started abandoned w v.refused (λ h. cc)))
      (end_worker-Kept svr c e now (distinct svr c e started waiting w v.unfinished (λ h. cc))) v
Step-Blocked {svr} {p = p} {e = e} (deletes c l w) v =
    kept-Blocked svr _ p e (delete-Kept svr _ c p) (delete-Kept svr _ c e) v

-- A login that waits for a control whose own login was refused never comes to its end: in whatever state is
-- reached, it still waits.
pub Steps-waiting :
    {svr later : Service} {p e : ℕ}
    → Steps svr later
    → Blocked svr p e
    → (later.objects e).phase ≡ waiting
Steps-waiting s v = (blocked s v).unfinished
  where
    blocked :
        {svr later : Service} {p e : ℕ} → Steps svr later → Blocked svr p e → Blocked later p e
    blocked here v = v
    blocked (more s t) v = Step-Blocked t (blocked s v)
