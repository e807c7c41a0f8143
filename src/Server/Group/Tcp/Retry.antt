-- ===== src/Server/Group/Tcp/Retry.antt =====
-- The loop of `TCPGroupCtl.Listen`: it goes round again only while other goroutines remove the group
-- between the two critical sections of a round.
use frpcv.Prelude.{
  Bool-cases, text_eq, nat_eq, eq_refl, ℕ, ◌≡◌, refl, ap, ◌≢◌, ◌↔◌, inl, inr, true, false, Option,
  none, some, List, ◌∷◌, arith,
}
use frpcv.Server.Ports.{PortResult, ok, err, PortManager}
use frpcv.Server.Group.Registry.{get_or_create, is_current}
use frpcv.Server.Group.Base.{is_empty}
use frpcv.Server.Group.Tcp.{
  TcpGroupCtl, Env, Request, acquire_failed, listen_failed, group_params_invalid,
  group_different_port, group_auth_failed, group_stale, ListenResult, listener, refused, get_group,
  listen_first, listen_again, listen_group, is_stale_result, listen,
}

first_current :
    (ctl : TcpGroupCtl) (g : ℕ) (req : Request) (env : Env) (r : PortManager × PortResult)
    → (listen_first ctl g req env r).1 ≢ refused group_stale
unfolding listen_first
first_current ctl g req env (pm, err e) h = ground arith
first_current ctl g req env (pm, ok real) h = ground arith

again_current :
    (ctl : TcpGroupCtl) (g : ℕ) (req : Request) → (listen_again ctl g req).1 ≢ refused group_stale
unfolding listen_again
again_current ctl g req h = ground arith

-- `Listen` on a group calls it stale exactly where the group is not the one under the name.
pub stale_iff :
    (ctl : TcpGroupCtl) (g : ℕ) (req : Request) (env : Env)
    → ((listen_group ctl g req env).1 ≡ refused group_stale)
      ↔ (is_current ctl.groups req.group g ≡ false)
unfolding listen_group
stale_iff ctl g req env = elim (Bool-cases (is_current ctl.groups req.group g)) [
  | inr c ↦ rw c (λ h. refl, λ h. refl)
  | inl c ↦ elim (Bool-cases (is_empty (ctl.objects g).lns)) [
    | inl n ↦ rw (c, n) (λ h. absurd (first_current ctl g req env _ h), λ h. cc)
    | inr n ↦ rw (c, n) (λ h. absurd (again_current ctl g req h), λ h. cc)
  ]
]

not_stale : (r : ListenResult) → r ≢ refused group_stale → is_stale_result r ≡ false
not_stale (listener ln p) h = refl
not_stale (refused group_stale) h = absurd (h refl)
not_stale (refused (acquire_failed e)) h = refl
not_stale (refused listen_failed) h = refl
not_stale (refused group_params_invalid) h = refl
not_stale (refused group_different_port) h = refl
not_stale (refused group_auth_failed) h = refl

-- Once the other goroutines leave the group under its name between the lookup and `Listen`, the loop
-- ends in that round, with the answer of `Listen` on that group, which is not that the group is stale.
pub listen_returns :
    (others : TcpGroupCtl → TcpGroupCtl) (env : Env)
    (rounds : List ((TcpGroupCtl → TcpGroupCtl) × Env)) (ctl : TcpGroupCtl) (req : Request)
    → is_current (others (get_group ctl req.group).0).groups req.group (get_group ctl req.group).1
      ≡ true
    → (let answer =
          listen_group (others (get_group ctl req.group).0) (get_group ctl req.group).1 req env in
        (listen ((others, env) ∷ rounds) ctl req ≡ (answer.0, some answer.1))
        × (answer.1 ≢ refused group_stale))
unfolding listen
listen_returns others env rounds ctl req c =
    let g = (get_group ctl req.group).1 in
    let seen = others (get_group ctl req.group).0 in
    let fresh : (listen_group seen g req env).1 ≢ refused group_stale =
      (λ h. cc ((stale_iff seen g req env).0 h, c)) in
    (rw (not_stale _ fresh, listen), fresh)

-- So a call that no other goroutine disturbs ends in its first round.
pub listen_undisturbed :
    (env : Env) (rounds : List ((TcpGroupCtl → TcpGroupCtl) × Env)) (ctl : TcpGroupCtl)
    (req : Request)
    → (listen (((λ c. c), env) ∷ rounds) ctl req).1 ≢ none
unfolding get_group get_or_create is_current
listen_undisturbed env rounds ctl req h = cc (
  h,
  ap (λ (r : TcpGroupCtl × Option ListenResult). r.1)
      (listen_returns (λ c. c) env rounds ctl req (present (ctl.groups req.group) refl)).0,
)
  where
    present :
        (o : Option ℕ)
        → ctl.groups req.group ≡ o
        → is_current (get_group ctl req.group).0.groups req.group (get_group ctl req.group).1 ≡ true
    present none e = rw (e, get_group, get_or_create) (ground (arith, eq_refl req.group))
    present (some g) e = rw (e, get_group, get_or_create) (rw (e, is_current) (eq_refl g))
