-- ===== src/Server/Group/Tcp/Stages.antt =====
-- What the holders of the groups' locks rely on, and steps of one holder.
use frpcv.Prelude.{
  ltb, nat_beq_iff, Bool-cases, Option-cases, Text, text_eq, nat_eq, ◌==◌, Map, ℕ, ◌≤◌, ◌<◌, ◌≡◌,
  refl, sym, ap, ◌∙◌, subst, ◌≢◌, inl, inr, Bool, true, false, some, arith,
}
use frpcv.Server.Ports.{PortManager}
use frpcv.Server.Ports.Invariant as Ports
use frpcv.Server.Ports.Invariant.{
  new_manager-Inv, grant-Inv, release-Inv, clean-Inv, reserved_port_allowed, first_available-In,
  Visits, Visits-In, acquire-Inv, releases, cleans, here, Step-Inv, Reach-partition,
}
use frpcv.Server.Group.Registry.{is_current}
use frpcv.Server.Group.Base.{is_empty}
use frpcv.Server.Group.Tcp.{TcpGroup, TcpGroupCtl}
use frpcv.Server.Group.Tcp.Invariant.{Inv, with_ports-Inv}
use frpcv.Server.Group.Tcp.Steps.{
  Stage, idle, emptied, given_up, checked, acquired, unheard, System, set_stage, with_ports,
}

-- What the holder of a group's lock relies on at its stage.
unfoldable pub Fits : (ℕ → Bool) → Map Text ℕ → ℕ → TcpGroup → Stage → Type 0
Fits allowed groups g tg idle = Unit
Fits allowed groups g tg (checked req) = groups req.group ≡ some g
Fits allowed groups g tg (acquired req real) =
    (groups req.group ≡ some g) × (is_empty tg.lns ≡ true) × (allowed real ≡ true)
Fits allowed groups g tg (unheard real) = Unit
Fits allowed groups g tg emptied = (is_empty tg.lns ≡ true) × (groups tg.group ≡ some g)
Fits allowed groups g tg given_up = (is_empty tg.lns ≡ true) × (groups tg.group ≡ some g)

pub record Agrees (allowed : ℕ → Bool) (sys : System) : Type 0 where
  pub state : Inv allowed sys.ctl
  pub staged : (g : ℕ) → Fits allowed sys.ctl.groups g (sys.ctl.objects g) (sys.stages g)
  pub still : (g : ℕ) → sys.ctl.next ≤ g → sys.stages g ≡ idle

pub Fits-weaken :
    (allowed : ℕ → Bool) (groups later : Map Text ℕ) (g : ℕ) (tg : TcpGroup) (st : Stage)
    → ((k : Text) → groups k ≡ some g → later k ≡ some g)
    → Fits allowed groups g tg st
    → Fits allowed later g tg st
unfolding Fits
Fits-weaken allowed groups later g tg idle keep f = f
Fits-weaken allowed groups later g tg (checked req) keep f = keep req.group f
Fits-weaken allowed groups later g tg (acquired req real) keep (a, b, c) = (keep req.group a, b, c)
Fits-weaken allowed groups later g tg (unheard real) keep f = f
Fits-weaken allowed groups later g tg emptied keep (a, b) = (a, keep tg.group b)
Fits-weaken allowed groups later g tg given_up keep (a, b) = (a, keep tg.group b)

-- A change of one group and of its stage
set_stage-Fits :
    (P : ℕ → Stage → Type 0) (g : ℕ) (st : Stage) (stages : ℕ → Stage)
    → P g st
    → ((h : ℕ) → (g == h) ≡ false → P h (stages h))
    → (h : ℕ) → P h (set_stage g st stages h)
set_stage-Fits P g st stages own others h = elim (Bool-cases (g == h)) [
  | inl same ↦ rw (same) (subst (λ i. P i st) ((nat_beq_iff g h).0 same) own)
  | inr other ↦ rw (other) (others h other)
]

pub is_current-some :
    (groups : Map Text ℕ) (k : Text) (g : ℕ) → is_current groups k g ≡ true → groups k ≡ some g
unfolding is_current
is_current-some groups k g e = elim (Option-cases (groups k)) [
  | inl n ↦ absurd (let z = rw (n, is_current) at e in cc)
  | inr (cur, n) ↦ let same = rw (n, is_current) at e in n ∙ ap some ((nat_beq_iff cur g).0 same)
]

module _ {allowed : ℕ → Bool} {sys : System} (v : Agrees allowed sys) where
  pub busy : (g : ℕ) → sys.stages g ≢ idle → g < sys.ctl.next
  busy g b = elim (Bool-cases (ltb g sys.ctl.next)) [
    | inl below ↦ ground arith
    | inr above ↦ absurd (b (v.still g (ground arith)))
  ]

  pub at_stage :
      (g : ℕ) (st : Stage)
      → sys.stages g ≡ st
      → Fits allowed sys.ctl.groups g (sys.ctl.objects g) st
  at_stage g st e = subst (Fits allowed sys.ctl.groups g (sys.ctl.objects g)) e (v.staged g)

  -- A step of the holder of one group's lock
  pub one_group-Agrees :
      (ctl : TcpGroupCtl) (g : ℕ) (st : Stage)
      → Inv allowed ctl
      → g < sys.ctl.next
      → ctl.next ≡ sys.ctl.next
      → Fits allowed ctl.groups g (ctl.objects g) st
      → ((h : ℕ) → (g == h) ≡ false → ctl.objects h ≡ sys.ctl.objects h)
      → ((h : ℕ) (k : Text) → (g == h) ≡ false → sys.ctl.groups k ≡ some h → ctl.groups k ≡ some h)
      → Agrees allowed (record { ctl = ctl; stages = set_stage g st sys.stages })
  one_group-Agrees ctl g st state below same_next fits same keep = record {
    state = state;
    staged =
        set_stage-Fits (λ h. Fits allowed ctl.groups h (ctl.objects h)) g st sys.stages fits
          (λ h other.
            subst (λ tg. Fits allowed ctl.groups h tg (sys.stages h)) (sym (same h other))
              (Fits-weaken allowed sys.ctl.groups ctl.groups h (sys.ctl.objects h) (sys.stages h)
                (λ k e. keep h k other e) (v.staged h)));
    still = λ h above.
        let other : (g == h) ≡ false = ground (arith, nat_beq_iff g h) in
        rw (other) (v.still h (omega arith));
  }

  -- A step that changes no group and no name
  pub same_groups-Agrees :
      (pm : PortManager) (g : ℕ) (st : Stage)
      → Ports.Inv allowed pm
      → g < sys.ctl.next
      → Fits allowed sys.ctl.groups g (sys.ctl.objects g) st
      → Agrees allowed (record { ctl = with_ports sys.ctl pm; stages = set_stage g st sys.stages })
  same_groups-Agrees pm g st pv below fits =
      one_group-Agrees (with_ports sys.ctl pm) g st (with_ports-Inv v.state pm pv) below refl fits
        (λ h other. refl) (λ h k other e. e)
