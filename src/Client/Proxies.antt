-- ===== src/Client/Proxies.antt =====
-- src/client/proxy/proxy_manager.go: the proxies of a client, started and stopped as the configuration
-- changes. `stopped` holds the wrappers that the manager has stopped, which have sent their close messages
-- to the event handler. A configuration has a health monitor if its health check has a type and its local
-- port is positive.
pub mod Update
pub mod Idempotent
mod Examples
use frpcv.Prelude.{
  if◌then◌else◌, Text, text_eq, nat_eq, is_some, Dict, lookup, insert, keep_entries, ℕ, ◌+◌, Bool,
  false, not, Option, none, some, List, [], ◌∷◌, ◌++◌,
}
use frpcv.Client.Wrapper.{
  Wrapper, new_wrapper, StatusResult, RunResult, set_running_status, stop, in_work_conn,
}
use frpcv.Client.Keyed.{Configurer, key_by}

pub record Entry (C : Type 0) : Type 0 where
  pub cfg : C
  pub wrapper : Wrapper

pub record Manager (C : Type 0) : Type 0 where
  pub proxies : Dict Text (Entry C)
  pub stopped : List Wrapper

pub data StartResult : Type 0 where
  not_found : StartResult
  answered : StatusResult → StartResult

-- What becomes of a work connection.
pub data WorkConnResult : Type 0 where
  handed_over closed_by_wrapper closed_by_manager : WorkConnResult

unfoldable pub new_manager : {C : Type 0} → Manager C
new_manager = record { proxies = []; stopped = [] }

module _ {C : Type 0} where
  unfoldable pub start_proxy_of :
      Manager C → Text → Text → Text → RunResult → ℕ → Manager C × StartResult
  start_proxy_of pm name remote_addr server_resp_err run now = elim (lookup name pm.proxies) [
    | none ↦ (pm, not_found)
    | some pxy ↦
        let (pw, result) = set_running_status pxy.wrapper remote_addr server_resp_err run now in
        (
          record pm { proxies = insert name (record pxy { wrapper = pw }) pm.proxies },
          answered result,
        )
  ]

  -- Every wrapper of the map is stopped.
  unfoldable pub stop_all : Dict Text (Entry C) → List Wrapper
  stop_all [] = []
  stop_all ((name, pxy) ∷ proxies) = stop pxy.wrapper ∷ stop_all proxies

  unfoldable pub close : Manager C → Manager C
  unfolding stop_all
  close pm = record { proxies = []; stopped = pm.stopped ++ stop_all pm.proxies }

  unfoldable pub handle_work_conn : Manager C → Text → WorkConnResult
  handle_work_conn pm name = elim (lookup name pm.proxies) [
    | none ↦ closed_by_manager
    | some pxy ↦ if in_work_conn pxy.wrapper then handed_over else closed_by_wrapper
  ]

  -- `GetProxyStatus`, as the wrapper that has the status
  unfoldable pub get_proxy_status : Manager C → Text → Option Wrapper
  get_proxy_status pm name = elim (lookup name pm.proxies) [
    | none ↦ none
    | some pxy ↦ some pxy.wrapper
  ]

module _ {C : Type 0} (cfgr : Configurer C) where
  abbrev pub matches : C → Option C → Bool
  matches old none = false
  matches old (some cfg) = cfgr.deep_equal.test old cfg

  -- The test of the first loop of `UpdateAll`: a proxy stays if its configuration is still the same.
  unfoldable pub stays : List C → Text → Entry C → Bool
  stays cfgs name pxy = matches pxy.cfg (lookup name (key_by cfgr cfgs []))

  unfoldable pub keep_unchanged : List C → Manager C → Manager C
  unfolding stays stop_all
  keep_unchanged cfgs pm = record {
    proxies = keep_entries (stays cfgs) pm.proxies;
    stopped =
        pm.stopped ++ stop_all (keep_entries (λ name pxy. not (stays cfgs name pxy)) pm.proxies);
  }

  module _ (user : Text) (has_monitor : C → Bool) where
    -- `NewWrapper`; `Start` runs its worker.
    abbrev pub fresh : C → Entry C
    fresh cfg = record { cfg = cfg; wrapper = new_wrapper user (cfgr.name cfg) (has_monitor cfg) }

    -- The second loop of `UpdateAll`.
    unfoldable pub add_missing : List C → Dict Text (Entry C) → Dict Text (Entry C)
    add_missing [] proxies = proxies
    add_missing (cfg ∷ cfgs) proxies = add_missing cfgs (
        if is_some (lookup (cfgr.name cfg) proxies)
        then proxies
        else insert (cfgr.name cfg) (fresh cfg) proxies)

    unfoldable pub update_all : Manager C → List C → Manager C
    unfolding keep_unchanged add_missing
    update_all pm cfgs =
        let pm' = keep_unchanged cfgs pm in record pm' { proxies = add_missing cfgs pm'.proxies }
