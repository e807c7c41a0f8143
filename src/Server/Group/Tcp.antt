-- ===== src/Server/Group/Tcp.antt =====
-- src/server/group/tcp.go: TCP groups over the port manager. `net.Listen` is an argument.
pub mod Invariant
pub mod Steps
pub mod Stages
pub mod Sections
pub mod History
pub mod Listen
pub mod Retry
mod Examples
use frpcv.Prelude.{
  ltb, leb, nat_beq, if◌then◌else◌, nat_beq_iff, Bool-cases, Option-cases, HasEq, Text, text_beq,
  text_beq_refl, text_beq_iff, text_eq, nat_eq, ◌==◌, eq_refl, eq_false, if_both, text, length,
  get_elem?, length-append, keep_if, All, All-weaken, In, Map, is_some, or_else, no_entries, put,
  del, Dict, lookup, insert, erase, lookup-insert, lookup-erase, IsKeyed, keep_entries, kept,
  lookup-keep_entries, keep_entries-IsKeyed, insert-IsKeyed, erase_missing, erase-IsKeyed, ℤ, pos,
  negsuc, pos_part, neg_part, ◌≤ℤ◌, ◌<ℤ◌, ltb_ℤ, leb_ℤ, pred_ℤ, suc_ℤ, ℕ, zero, suc, ◌+◌, ◌-◌, ◌*◌,
  ◌/◌, ◌%◌, ◌^◌, ◌≤◌, ◌<◌, max, min, ◌≡◌, refl, sym, ap, ◌∙◌, fun_ext, subst, ◌≢◌, ◌↔◌, ◌⊎◌, inl,
  inr, Bool, true, false, not, ◌&&◌, ◌||◌, Option, none, some, List, [], ◌∷◌, ◌++◌, map, arith,
}
use frpcv.Server.Ports.{
  min_port, max_port, max_port_reserved_duration, PortError, port_already_used, port_not_allowed,
  port_unavailable, no_available_port, PortResult, ok, err, PortCtx, PortManager, PortsRange, Probe,
  free_at_start, new_manager, is_port_available, grant, first_available, max_try_times,
  acquire_random, acquire_specified, reserved_port, acquire_zero, acquire, release, is_stale,
  clean_reserved_ports,
}
use frpcv.Server.Group.Registry.{get_or_create, is_current, remove_if}
use frpcv.Server.Group.Base.{
  BaseGroup, zero_base, is_empty, init_base, new_listener, remove_first, close_listener,
}

pub record TcpGroup : Type 0 where
  pub base : BaseGroup
  pub open base use *
  pub addr : Text
  pub port : ℕ
  pub real_port : ℕ

pub record TcpGroupCtl : Type 0 where
  pub groups : Map Text ℕ
  pub objects : ℕ → TcpGroup
  pub next : ℕ
  pub next_listener : ℕ
  pub port_manager : PortManager

-- What the outside gives to one call: the probe and the range order of `Acquire`, the times of the
-- acquisition and of a release, and the ports on which `net.Listen` succeeds.
pub record Env : Type 0 where
  pub probe : Probe
  pub order : List ℕ
  pub now : ℕ
  pub later : ℕ
  pub can_listen : ℕ → Bool

pub record Request : Type 0 where
  pub proxy_name : Text
  pub group : Text
  pub group_key : Text
  pub addr : Text
  pub port : ℕ

pub data ListenError : Type 0 where
  acquire_failed : PortError → ListenError
  listen_failed group_params_invalid group_different_port group_auth_failed group_stale :
      ListenError

pub data ListenResult : Type 0 where
  listener : ℕ → ℕ → ListenResult
  refused : ListenError → ListenResult

abbrev pub zero_group : TcpGroup
zero_group = record { base = zero_base; addr = []; port = 0; real_port = 0 }

pub new_ctl : PortManager → TcpGroupCtl
new_ctl pm = record {
  groups = no_entries;
  objects = λ g. zero_group;
  next = 0;
  next_listener = 0;
  port_manager = pm;
}

abbrev pub set_object : TcpGroupCtl → ℕ → TcpGroup → TcpGroupCtl
set_object ctl g tg = record ctl { objects = λ h. if g == h then tg else ctl.objects h }

-- `getOrCreate` of a name, with the allocation of a new group.
pub get_group : TcpGroupCtl → Text → TcpGroupCtl × ℕ
get_group ctl name =
    let (groups, g) = get_or_create ctl.groups name ctl.next in
    (record ctl { groups = groups; next = if g == ctl.next then ctl.next + 1 else ctl.next }, g)

-- The first listener of a group, once `net.Listen` has succeeded.
pub open_group : TcpGroupCtl → ℕ → Request → ℕ → PortManager → TcpGroupCtl
open_group ctl g req real pm =
    record (set_object ctl g (record {
      base =
          new_listener (init_base (ctl.objects g).base req.group req.group_key) ctl.next_listener;
      addr = req.addr;
      port = req.port;
      real_port = real;
    })) { next_listener = ctl.next_listener + 1; port_manager = pm }

pub listen_first :
    TcpGroupCtl → ℕ → Request → Env → PortManager × PortResult → TcpGroupCtl × ListenResult
listen_first ctl g req env (pm, err e) =
    (record ctl { port_manager = pm }, refused (acquire_failed e))
listen_first ctl g req env (pm, ok real) =
    if env.can_listen real
    then (open_group ctl g req real pm, listener ctl.next_listener real)
    else (record ctl { port_manager = release pm real env.later }, refused listen_failed)

-- A further listener of a group.
pub listen_again : TcpGroupCtl → ℕ → Request → TcpGroupCtl × ListenResult
listen_again ctl g req =
    let tg = ctl.objects g in
    if not (tg.group == req.group) || not (tg.addr == req.addr)
    then (ctl, refused group_params_invalid)
    else if not (tg.port == req.port)
    then (ctl, refused group_different_port)
    else if not (tg.group_key == req.group_key)
    then (ctl, refused group_auth_failed)
    else (
      record (set_object ctl g (record tg { base = new_listener tg.base ctl.next_listener })) {
        next_listener = ctl.next_listener + 1;
      },
      listener ctl.next_listener tg.real_port,
    )

-- `TCPGroup.Listen`, as it runs when no call of the port manager or the registry comes between its own
pub listen_group : TcpGroupCtl → ℕ → Request → Env → TcpGroupCtl × ListenResult
listen_group ctl g req env =
    if not (is_current ctl.groups req.group g)
    then (ctl, refused group_stale)
    else if is_empty (ctl.objects g).lns
    then listen_first ctl g req env
        (acquire ctl.port_manager env.probe req.proxy_name req.port env.order env.now)
    else listen_again ctl g req

abbrev pub is_stale_result : ListenResult → Bool
is_stale_result (refused group_stale) = true
is_stale_result _ = false

-- `TCPGroupCtl.Listen`. The two calls of a round are separate critical sections: `others` says what
-- the other goroutines do between them. It is given once for each round that the fuel allows.
pub listen :
    List ((TcpGroupCtl → TcpGroupCtl) × Env)
    → TcpGroupCtl
    → Request
    → TcpGroupCtl × Option ListenResult
listen [] ctl req = (ctl, none)
listen ((others, env) ∷ rounds) ctl req =
    let (created, g) = get_group ctl req.group in
    let (ctl', result) = listen_group (others created) g req env in
    elim (is_stale_result result) [ true ↦ listen rounds ctl' req | false ↦ (ctl', some result) ]

-- `closeListener` up to the group's `cleanupFn`, which is due when no listener is left; the port and the name
-- are given up after it, each under a lock of its own.
unfoldable pub leave : TcpGroupCtl → ℕ → ℕ → TcpGroupCtl
leave ctl g ln =
    set_object ctl g (record (ctl.objects g) { base = close_listener (ctl.objects g).base ln })

unfoldable pub give_back : TcpGroupCtl → ℕ → ℕ → TcpGroupCtl
give_back ctl g now = record ctl {
  port_manager = release ctl.port_manager (ctl.objects g).real_port now;
}

unfoldable pub forget : TcpGroupCtl → ℕ → TcpGroupCtl
forget ctl g = record ctl { groups = remove_if ctl.groups (ctl.objects g).group g }
