-- ===== src/Server/Group/Tcp/Sections.antt =====
-- Each critical section keeps the agreement of the groups, the stages and the names.
use frpcv.Prelude.{
  ltb, nat_beq_iff, Bool-cases, Option-cases, Text, text_beq_iff, text_eq, nat_eq, ◌==◌, eq_refl,
  Map, ℕ, ◌≤◌, ◌<◌, ◌≡◌, refl, ap, ◌∙◌, subst, inl, inr, Bool, true, false, some, arith,
}
use frpcv.Server.Ports.{PortResult, ok, err, PortManager}
use frpcv.Server.Ports.Invariant as Ports
use frpcv.Server.Ports.Invariant.{
  new_manager-Inv, grant-Inv, release-Inv, clean-Inv, reserved_port_allowed, first_available-In,
  Visits, Visits-In, acquire-Inv, releases, cleans, here, Step-Inv, Reach-partition,
}
use frpcv.Server.Ports.Acquire.{acquire-Handed}
use frpcv.Server.Group.Registry.{get_or_create, is_current}
use frpcv.Server.Group.Base.{close_listener}
use frpcv.Server.Group.Tcp.{
  TcpGroupCtl, Env, Request, get_group, open_group, listen_again, leave, forget,
}
use frpcv.Server.Group.Tcp.Invariant.{
  no_listener, get_group-Inv, remove_if-del, open_group-Inv, listen_again-Inv, leave-Inv,
  forget-Inv,
}
use frpcv.Server.Group.Tcp.Steps.{
  Stage, idle, emptied, given_up, checked, acquired, System, set_stage, acquire_for, after_acquire,
  after_leave, with_ports,
}
use frpcv.Server.Group.Tcp.Stages.{
  Fits, Agrees, Fits-weaken, is_current-some, at_stage, one_group-Agrees, same_groups-Agrees,
}

get_group-keeps :
    (ctl : TcpGroupCtl) (name k : Text) (g : ℕ)
    → ctl.groups k ≡ some g
    → (get_group ctl name).0.groups k ≡ some g
unfolding get_group get_or_create
get_group-keeps ctl name k g e = elim (Option-cases (ctl.groups name)) [
  | inr (cur, n) ↦ rw (n, get_group, get_or_create) e
  | inl n ↦ rw (n, get_group, get_or_create) (ground (arith, text_beq_iff name k))
]

listen_again-frame :
    (ctl : TcpGroupCtl) (g : ℕ) (req : Request)
    → ((listen_again ctl g req).0.next ≡ ctl.next)
      × ((listen_again ctl g req).0.groups ≡ ctl.groups)
      × ((h : ℕ) → (g == h) ≡ false → (listen_again ctl g req).0.objects h ≡ ctl.objects h)
unfolding listen_again
listen_again-frame ctl g req = (ground arith, ground arith, λ h other. ground arith)

forget-keeps :
    (ctl : TcpGroupCtl) (g h : ℕ) (k : Text)
    → ctl.groups (ctl.objects g).group ≡ some g
    → (g == h) ≡ false
    → ctl.groups k ≡ some h
    → (forget ctl g).groups k ≡ some h
unfolding forget
forget-keeps ctl g h k registered other e =
    rw (remove_if-del ctl.groups (ctl.objects g).group g registered)
      (ground (arith, text_beq_iff (ctl.objects g).group k, nat_beq_iff g h))

module _ {allowed : ℕ → Bool} {sys : System} (v : Agrees allowed sys) where
  pub looks_up-Agrees :
      (name : Text) → Agrees allowed (record sys { ctl = (get_group sys.ctl name).0 })
  unfolding get_group get_or_create
  looks_up-Agrees name = record {
    state = get_group-Inv name v.state;
    staged = λ g.
        Fits-weaken allowed sys.ctl.groups (get_group sys.ctl name).0.groups g (sys.ctl.objects g)
          (sys.stages g) (λ k e. get_group-keeps sys.ctl name k g e) (v.staged g);
    still = λ g above.
        let grows : sys.ctl.next ≤ (get_group sys.ctl name).0.next = ground arith in
        v.still g (omega (arith, above, grows));
  }

  pub checks-Agrees :
      (g : ℕ) (req : Request)
      → is_current sys.ctl.groups req.group g ≡ true
      → Agrees allowed (record sys { stages = set_stage g (checked req) sys.stages })
  unfolding Fits
  checks-Agrees g req e =
      let registered = is_current-some sys.ctl.groups req.group g e in
      same_groups-Agrees v sys.ctl.port_manager g (checked req) v.state.ports
        (v.state.known req.group g registered) registered

  pub joins-Agrees :
      (g : ℕ) (req : Request)
      → sys.stages g ≡ checked req
      → no_listener sys.ctl g ≡ false
      → Agrees allowed
          (record { ctl = (listen_again sys.ctl g req).0; stages = set_stage g idle sys.stages })
  unfolding Fits
  joins-Agrees g req e n =
      let frame = listen_again-frame sys.ctl g req in
      one_group-Agrees v (listen_again sys.ctl g req).0 g idle (listen_again-Inv v.state g req n)
        (v.state.known req.group g (at_stage v g (checked req) e)) frame.0 tt
        (λ h other. frame.2 h other) (λ h k other f. ap (λ (m : Map Text ℕ). m k) frame.1 ∙ f)

  pub acquires-Agrees :
      (g : ℕ) (req : Request) (env : Env)
      → sys.stages g ≡ checked req
      → no_listener sys.ctl g ≡ true
      → Visits sys.ctl.port_manager env.order
      → Agrees allowed (record {
        ctl = with_ports sys.ctl (acquire_for sys.ctl req env).0;
        stages = set_stage g (after_acquire req (acquire_for sys.ctl req env).1) sys.stages;
      })
  unfolding Fits
  acquires-Agrees g req env e n vis = by_result (acquire_for sys.ctl req env) refl
    where
      registered : sys.ctl.groups req.group ≡ some g
      registered = at_stage v g (checked req) e

      below : g < sys.ctl.next
      below = v.state.known req.group g registered

      pv : Ports.Inv allowed (acquire_for sys.ctl req env).0
      pv = Ports.acquire-Inv v.state.ports env.probe req.proxy_name req.port env.order env.now vis

      by_result :
          (r : PortManager × PortResult)
          → acquire_for sys.ctl req env ≡ r
          → Agrees allowed (record {
            ctl = with_ports sys.ctl r.0;
            stages = set_stage g (after_acquire req r.1) sys.stages;
          })
      by_result (pm, err x) f =
          same_groups-Agrees v pm g idle
            (subst (λ (r : PortManager × PortResult). Ports.Inv allowed r.0) f pv) below tt
      by_result (pm, ok real) f =
          same_groups-Agrees v pm g (acquired req real)
            (subst (λ (r : PortManager × PortResult). Ports.Inv allowed r.0) f pv) below
            (
              registered,
              n,
              (acquire-Handed v.state.ports env.probe req.proxy_name req.port env.order env.now vis
                  pm real f).0,
            )

  pub opens-Agrees :
      (g : ℕ) (req : Request) (real : ℕ)
      → sys.stages g ≡ acquired req real
      → Agrees allowed (record {
        ctl = open_group sys.ctl g req real sys.ctl.port_manager;
        stages = set_stage g idle sys.stages;
      })
  unfolding Fits open_group
  opens-Agrees g req real e =
      let (registered, n, a) = at_stage v g (acquired req real) e in
      one_group-Agrees v (open_group sys.ctl g req real sys.ctl.port_manager) g idle
        (open_group-Inv v.state g req real registered n a) (v.state.known req.group g registered)
        refl tt (λ h other. rw (other) refl) (λ h k other f. f)

  pub leaves-Agrees :
      (g ln : ℕ)
      → sys.stages g ≡ idle
      → no_listener sys.ctl g ≡ false
      → Agrees allowed (record {
        ctl = leave sys.ctl g ln;
        stages = set_stage g (after_leave (no_listener (leave sys.ctl g ln) g)) sys.stages;
      })
  unfolding Fits leave close_listener
  leaves-Agrees g ln e n = by_rest (no_listener (leave sys.ctl g ln) g) refl
    where
      registered : sys.ctl.groups ((leave sys.ctl g ln).objects g).group ≡ some g
      registered = rw (eq_refl g) (v.state.current g n)

      below : g < sys.ctl.next
      below = elim (Bool-cases (ltb g sys.ctl.next)) [
        | inl l ↦ ground arith
        | inr l ↦ absurd (ground (arith, v.state.unborn g))
      ]

      left_with :
          (st : Stage)
          → Fits allowed (leave sys.ctl g ln).groups g ((leave sys.ctl g ln).objects g) st
          → Agrees allowed (record { ctl = leave sys.ctl g ln; stages = set_stage g st sys.stages })
      left_with st fits =
          one_group-Agrees v (leave sys.ctl g ln) g st (leave-Inv v.state g ln n) below refl fits
            (λ h other. rw (other) refl) (λ h k other f. f)

      by_rest :
          (b : Bool)
          → no_listener (leave sys.ctl g ln) g ≡ b
          → Agrees allowed
              (record { ctl = leave sys.ctl g ln; stages = set_stage g (after_leave b) sys.stages })
      by_rest true f = left_with emptied (f, registered)
      by_rest false f = left_with idle tt

  pub forgets-Agrees :
      (g : ℕ)
      → sys.stages g ≡ given_up
      → Agrees allowed (record { ctl = forget sys.ctl g; stages = set_stage g idle sys.stages })
  unfolding Fits forget
  forgets-Agrees g e =
      let (n, registered) = at_stage v g given_up e in
      one_group-Agrees v (forget sys.ctl g) g idle (forget-Inv v.state g n registered)
        (v.state.known (sys.ctl.objects g).group g registered) refl tt (λ h other. refl)
        (λ h k other f. forget-keeps sys.ctl g h k registered other f)
