-- ===== src/Server/Group/Tcp/Invariant.antt =====
-- The groups, the registry and the port manager agree.
use frpcv.Prelude.{
  if◌then◌else◌, Option-cases, Text, text_beq_iff, text_eq, nat_eq, ◌==◌, eq_refl, Map, del, ℕ, ◌+◌,
  ◌≤◌, ◌<◌, ◌≡◌, refl, inl, inr, Bool, true, false, not, ◌||◌, some, List, [], ◌∷◌, ◌++◌, arith,
}
use frpcv.Server.Ports.{PortManager}
use frpcv.Server.Ports.Invariant as Ports
use frpcv.Server.Ports.Invariant.{
  new_manager-Inv, grant-Inv, release-Inv, clean-Inv, reserved_port_allowed, first_available-In,
  Visits, Visits-In, acquire-Inv, Step, acquires, releases, cleans, Reach, here, next, Step-Inv,
  Reach-partition,
}
use frpcv.Server.Group.Registry.{get_or_create, remove_if}
use frpcv.Server.Group.Base.{is_empty, init_base, new_listener, close_listener}
use frpcv.Server.Group.Tcp.{
  TcpGroup, TcpGroupCtl, Request, ListenResult, new_ctl, set_object, get_group, open_group,
  listen_again, leave, forget,
}

abbrev pub no_listener : TcpGroupCtl → ℕ → Bool
no_listener ctl g = is_empty (ctl.objects g).lns

-- Groups with listeners are registered under their name and listen on a port that is allowed; a registered
-- group is an allocated one, registered once.
pub record Inv (allowed : ℕ → Bool) (ctl : TcpGroupCtl) : Type 0 where
  pub ports : Ports.Inv allowed ctl.port_manager
  pub known : (k : Text) (g : ℕ) → ctl.groups k ≡ some g → g < ctl.next
  pub single : (k j : Text) (g : ℕ) → ctl.groups k ≡ some g → ctl.groups j ≡ some g → k ≡ j
  pub named :
      (k : Text) (g : ℕ)
      → ctl.groups k ≡ some g
      → no_listener ctl g ≡ false
      → (ctl.objects g).group ≡ k
  pub current : (g : ℕ) → no_listener ctl g ≡ false → ctl.groups (ctl.objects g).group ≡ some g
  pub real_allowed : (g : ℕ) → no_listener ctl g ≡ false → allowed (ctl.objects g).real_port ≡ true
  pub unborn : (g : ℕ) → ctl.next ≤ g → no_listener ctl g ≡ true
  pub open_with : (g : ℕ) → (ctl.objects g).listening ≡ not (no_listener ctl g)

pub new_ctl-Inv :
    {allowed : ℕ → Bool} (pm : PortManager) → Ports.Inv allowed pm → Inv allowed (new_ctl pm)
unfolding new_ctl
new_ctl-Inv pm v = record {
  ports = v;
  known = λ k g h. cc;
  single = λ k j g h e. cc;
  named = λ k g h e. cc;
  current = λ g h. cc;
  real_allowed = λ g h. cc;
  unborn = λ g h. refl;
  open_with = λ g. refl;
}

pub get_group-Inv :
    {allowed : ℕ → Bool} {ctl : TcpGroupCtl} (name : Text)
    → Inv allowed ctl
    → Inv allowed (get_group ctl name).0
unfolding get_group get_or_create
get_group-Inv {ctl = ctl} name v = elim (Option-cases (ctl.groups name)) [
  | inr (g, e) ↦
      rw (e, get_group, get_or_create)
        (record {
          ports = v.ports;
          known = λ k h p. ground (arith, v.known k h);
          single = v.single;
          named = v.named;
          current = v.current;
          real_allowed = v.real_allowed;
          unborn = λ h p. ground (arith, v.unborn h);
          open_with = v.open_with;
        })
  | inl e ↦
      rw (e, get_group, get_or_create)
        (record {
          ports = v.ports;
          known = λ k h p. ground (arith, v.known k h);
          single = λ k j h p q. ground (
            arith,
            v.single k j h,
            v.known k h,
            v.known j h,
            text_beq_iff name k,
            text_beq_iff name j,
          );
          named = λ k h p l. ground (arith, v.named k h, v.unborn h);
          current = λ h l. ground (arith, v.current h l, text_beq_iff name (ctl.objects h).group);
          real_allowed = v.real_allowed;
          unborn = λ h p. ground (arith, v.unborn h);
          open_with = v.open_with;
        })
]

pub remove_if-del :
    (groups : Map Text ℕ) (k : Text) (g : ℕ)
    → groups k ≡ some g
    → remove_if groups k g ≡ del k groups
unfolding remove_if
remove_if-del groups k g e = rw (e, remove_if, eq_refl g)

is_empty-snoc : (ls : List ℕ) (l : ℕ) → is_empty (ls ++ l ∷ []) ≡ false
is_empty-snoc [] l = refl
is_empty-snoc (x ∷ ls) l = refl

module _ {allowed : ℕ → Bool} {ctl : TcpGroupCtl} (v : Inv allowed ctl) where
  pub with_ports-Inv :
      (pm : PortManager) → Ports.Inv allowed pm → Inv allowed (record ctl { port_manager = pm })
  with_ports-Inv pm pv = record {
    ports = pv;
    known = v.known;
    single = v.single;
    named = v.named;
    current = v.current;
    real_allowed = v.real_allowed;
    unborn = v.unborn;
    open_with = v.open_with;
  }

  module _ (g : ℕ) (req : Request) where
    pub open_group-Inv :
        (real : ℕ)
        → ctl.groups req.group ≡ some g
        → no_listener ctl g ≡ true
        → allowed real ≡ true
        → Inv allowed (open_group ctl g req real ctl.port_manager)
    unfolding open_group new_listener init_base
    open_group-Inv real e n a =
        let snoc = is_empty-snoc (ctl.objects g).lns ctl.next_listener in
        record {
          ports = v.ports;
          known = v.known;
          single = v.single;
          named = λ k h p l. ground (arith, v.named k h, v.single k req.group g);
          current = λ h l. ground (arith, v.current h);
          real_allowed = λ h l. ground (arith, v.real_allowed h);
          unborn = λ h p. ground (arith, v.unborn h, v.known req.group g);
          open_with = λ h. ground (arith, v.open_with h);
        }

    join_group-Inv :
        no_listener ctl g ≡ false
        → (let tg = ctl.objects g in
            Inv allowed
              (record (set_object ctl g
                (record tg { base = new_listener tg.base ctl.next_listener })) {
                  next_listener = ctl.next_listener + 1;
                }))
    unfolding new_listener
    join_group-Inv n =
        let snoc = is_empty-snoc (ctl.objects g).lns ctl.next_listener in
        record {
          ports = v.ports;
          known = v.known;
          single = v.single;
          named = λ k h p l. ground (arith, v.named k h);
          current = λ h l. ground (arith, v.current h);
          real_allowed = λ h l. ground (arith, v.real_allowed h);
          unborn = λ h p. ground (arith, v.unborn h);
          open_with = λ h. ground (arith, v.open_with h);
        }

    pub listen_again-Inv : no_listener ctl g ≡ false → Inv allowed (listen_again ctl g req).0
    unfolding listen_again
    listen_again-Inv n =
        three (not (tg.group == req.group) || not (tg.addr == req.addr)) (not (tg.port == req.port))
          (not (tg.group_key == req.group_key)) _ _ _ _ v v v (join_group-Inv n)
      where
        tg : TcpGroup
        tg = ctl.objects g

        three :
            (a b c : Bool) (x y z w : TcpGroupCtl × ListenResult)
            → Inv allowed x.0
            → Inv allowed y.0
            → Inv allowed z.0
            → Inv allowed w.0
            → Inv allowed (if a then x else if b then y else if c then z else w).0
        three true b c x y z w i j k l = i
        three false true c x y z w i j k l = j
        three false false true x y z w i j k l = k
        three false false false x y z w i j k l = l

  pub leave-Inv : (g ln : ℕ) → no_listener ctl g ≡ false → Inv allowed (leave ctl g ln)
  unfolding leave close_listener
  leave-Inv g ln n = record {
    ports = v.ports;
    known = v.known;
    single = v.single;
    named = λ k h p l. ground (arith, v.named k h);
    current = λ h l. ground (arith, v.current h);
    real_allowed = λ h l. ground (arith, v.real_allowed h);
    unborn = λ h p. ground (arith, v.unborn h);
    open_with = λ h. ground (arith, v.open_with h);
  }

  pub forget-Inv :
      (g : ℕ)
      → no_listener ctl g ≡ true
      → ctl.groups (ctl.objects g).group ≡ some g
      → Inv allowed (forget ctl g)
  unfolding forget
  forget-Inv g n registered =
      rw (remove_if-del ctl.groups (ctl.objects g).group g registered) (record {
        ports = v.ports;
        known = λ k h p. ground (arith, v.known k h);
        single = λ k j h p q. ground (arith, v.single k j h);
        named = λ k h p m. ground (arith, v.named k h);
        current = λ h m.
            ground (arith, v.current h, text_beq_iff (ctl.objects g).group (ctl.objects h).group);
        real_allowed = v.real_allowed;
        unborn = v.unborn;
        open_with = v.open_with;
      })
