-- ===== src/Server/Control.antt =====
-- src/server/control.go: how a control of the server registers and closes the proxies of its client. Its
-- message handlers run one after another. `is_open` says which proxies run: `Run` opens one, `Close`
-- closes it. The other controls share the manager of the proxies.
pub mod Quota
pub mod Registering
pub mod Closing
pub mod Outcomes
pub mod Finishing
mod Examples
use frpcv.Prelude.{
  ltb, if◌then◌else◌, Text, text_eq, nat_eq, ◌==◌, Dict, lookup, insert, erase, ℕ, ◌+◌, ◌-◌, Bool,
  true, false, not, ◌&&◌, Option, none, some, [], ◌∷◌,
}
use frpcv.Server.Proxies.{Proxy, ProxyManager, add, exist, delete}

pub record Control : Type 0 where
  pub proxies : Dict Text Proxy
  pub ports_used_num : ℕ
  pub pxy_manager : ProxyManager
  pub is_open : ℕ → Bool

pub data RegisterError : Type 0 where
  config_invalid not_created exceed_max_ports already_exists run_failed name_in_use : RegisterError

pub data RegisterResult : Type 0 where
  registered : Text → RegisterResult
  failed : RegisterError → RegisterResult

-- What the outside gives to one registration: whether the message makes a configuration, the proxy that
-- `NewProxy` makes of it, what `Run` returns, and what the other controls do to the manager before `Add`.
pub record Env : Type 0 where
  pub config_is_valid : Bool
  pub pxy : Option Proxy
  pub run : Option Text
  pub others : ProxyManager → ProxyManager

abbrev pub new_control : ProxyManager → (ℕ → Bool) → Control
new_control pm is_open = record {
  proxies = [];
  ports_used_num = 0;
  pxy_manager = pm;
  is_open = is_open;
}

abbrev pub set_open : ℕ → Bool → (ℕ → Bool) → ℕ → Bool
set_open id b is_open j = if id == j then b else is_open j

-- The ports that the client may still use, where there is a limit (a limit that is not positive is none).
unfoldable pub exceeds : ℕ → Control → Proxy → Bool
exceeds max_ports ctl pxy =
    ltb 0 max_ports && ltb max_ports (ctl.ports_used_num + pxy.used_ports_num)

unfoldable pub take_ports : ℕ → Control → Proxy → Control
take_ports max_ports ctl pxy = record ctl {
  ports_used_num = ctl.ports_used_num + (if ltb 0 max_ports then pxy.used_ports_num else 0);
}

-- The deferred function of a registration that fails, and the same lines of `CloseProxy`.
unfoldable pub give_ports : ℕ → Control → Proxy → Control
give_ports max_ports ctl pxy = record ctl {
  ports_used_num = ctl.ports_used_num - (if ltb 0 max_ports then pxy.used_ports_num else 0);
}

-- `Add`, and what follows it.
unfoldable pub add_proxy :
    ℕ → Control → Proxy → Text → Text → Option ProxyManager → Control × RegisterResult
unfolding give_ports
add_proxy max_ports ctl pxy name remote_addr none = (
  give_ports max_ports (record ctl { is_open = set_open pxy.id false ctl.is_open }) pxy,
  failed name_in_use,
)
add_proxy max_ports ctl pxy name remote_addr (some pm) = (
  record ctl { proxies = insert pxy.name pxy ctl.proxies; pxy_manager = pm },
  registered remote_addr,
)

-- `pxy.Run`, and what follows it.
unfoldable pub run_and_add :
    ℕ
    → Control
    → Proxy
    → Text
    → Option Text
    → (ProxyManager → ProxyManager)
    → Control × RegisterResult
unfolding add_proxy give_ports
run_and_add max_ports ctl pxy name none others = (give_ports max_ports ctl pxy, failed run_failed)
run_and_add max_ports ctl pxy name (some remote_addr) others =
    let seen = others ctl.pxy_manager in
    add_proxy max_ports
      (record ctl { is_open = set_open pxy.id true ctl.is_open; pxy_manager = seen }) pxy name
      remote_addr (add seen name pxy)

unfoldable pub register_made : ℕ → Control → Text → Env → Proxy → Control × RegisterResult
unfolding exceeds take_ports give_ports run_and_add
register_made max_ports ctl name env pxy =
    if exceeds max_ports ctl pxy
    then (ctl, failed exceed_max_ports)
    else if exist ctl.pxy_manager name
    then (give_ports max_ports (take_ports max_ports ctl pxy) pxy, failed already_exists)
    else run_and_add max_ports (take_ports max_ports ctl pxy) pxy name env.run env.others

-- `RegisterProxy` of a message with a name
unfoldable pub register_proxy : ℕ → Control → Text → Env → Control × RegisterResult
unfolding register_made
register_proxy max_ports ctl name env =
    if not env.config_is_valid then (ctl, failed config_invalid) else elim env.pxy [
      | none ↦ (ctl, failed not_created)
      | some pxy ↦ register_made max_ports ctl name env pxy
    ]

-- `closeProxy`
unfoldable pub close_it : Control → Proxy → Control
close_it ctl pxy = record ctl {
  is_open = set_open pxy.id false ctl.is_open;
  pxy_manager = delete ctl.pxy_manager pxy.name;
}

-- `CloseProxy`
unfoldable pub close_proxy : ℕ → Control → Text → Control
unfolding give_ports close_it
close_proxy max_ports ctl name = elim (lookup name ctl.proxies) [
  | none ↦ ctl
  | some pxy ↦
      close_it (record (give_ports max_ports ctl pxy) { proxies = erase name ctl.proxies }) pxy
]

unfoldable pub close_each : Dict Text Proxy → Control → Control
unfolding close_it
close_each [] ctl = ctl
close_each ((name, pxy) ∷ rest) ctl = close_each rest (close_it ctl pxy)

-- The end of `worker`, when the connection is done.
unfoldable pub finish : Control → Control
unfolding close_each
finish ctl = close_each ctl.proxies (record ctl { proxies = [] })
