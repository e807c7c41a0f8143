-- ===== src/Client/Visitors.antt =====
-- src/client/visitor/visitor_manager.go: the visitors of a client. A running Visitor is known by a number.
-- What `NewVisitor` and `Run` make of a configuration is an argument of each attempt; `closed` holds the
-- visitors that were closed.
pub mod Running
pub mod Histories
mod Examples
use frpcv.Prelude.{
  if◌then◌else◌, Text, text_eq, nat_eq, is_some, Dict, lookup, insert, erase, ℕ, ◌+◌, Bool, false,
  Option, none, some, List, [], ◌∷◌, ◌++◌,
}
use frpcv.Client.Keyed.{Configurer, key_by}

pub record Manager (C : Type 0) : Type 0 where
  pub cfgs : Dict Text C
  pub visitors : Dict Text ℕ
  pub closed : List ℕ

unfoldable pub new_manager : {C : Type 0} → Manager C
new_manager = record { cfgs = []; visitors = []; closed = [] }

abbrev pub close_if_there : Option ℕ → List ℕ → List ℕ
close_if_there none closed = closed
close_if_there (some v) closed = closed ++ v ∷ []

abbrev pub same_cfg : {C : Type 0} → Configurer C → C → Option C → Bool
same_cfg cfgr old none = false
same_cfg cfgr old (some cfg) = cfgr.deep_equal.test old cfg

module _ {C : Type 0} (cfgr : Configurer C) where
  -- `startVisitor`, where the attempt gives a running visitor or fails.
  unfoldable pub start_visitor : (C → Option ℕ) → C → Dict Text ℕ → Dict Text ℕ
  start_visitor attempt cfg visitors = elim (attempt cfg) [
    | none ↦ visitors
    | some v ↦ insert (cfgr.name cfg) v visitors
  ]

  -- One tick of `keepVisitorsRunning`
  unfoldable pub start_missing : (C → Option ℕ) → Dict Text C → Dict Text ℕ → Dict Text ℕ
  unfolding start_visitor
  start_missing attempt [] visitors = visitors
  start_missing attempt ((key, cfg) ∷ cfgs) visitors = start_missing attempt cfgs (
      if is_some (lookup (cfgr.name cfg) visitors)
      then visitors
      else start_visitor attempt cfg visitors)

  unfoldable pub keep_visitors_running : (C → Option ℕ) → Manager C → Manager C
  unfolding start_missing
  keep_visitors_running attempt vm = record vm {
    visitors = start_missing attempt vm.cfgs vm.visitors;
  }

  unfoldable pub stays : List C → Text → C → Bool
  stays cfgs name old = same_cfg cfgr old (lookup name (key_by cfgr cfgs []))

  -- The first loop of `UpdateAll`, over the configurations that the manager has.
  unfoldable pub drop_changed : List C → Dict Text C → Manager C → Manager C
  unfolding stays
  drop_changed cfgs [] vm = vm
  drop_changed cfgs ((name, old) ∷ rest) vm = drop_changed cfgs rest (
      if stays cfgs name old then vm else record {
        cfgs = erase name vm.cfgs;
        visitors = erase name vm.visitors;
        closed = close_if_there (lookup name vm.visitors) vm.closed;
      })

  -- The second loop
  unfoldable pub add_missing : (C → Option ℕ) → List C → Manager C → Manager C
  unfolding start_visitor
  add_missing attempt [] vm = vm
  add_missing attempt (cfg ∷ cfgs) vm = add_missing attempt cfgs (
      if is_some (lookup (cfgr.name cfg) vm.cfgs) then vm else record vm {
        cfgs = insert (cfgr.name cfg) cfg vm.cfgs;
        visitors = start_visitor attempt cfg vm.visitors;
      })

  unfoldable pub update_all : (C → Option ℕ) → Manager C → List C → Manager C
  unfolding drop_changed add_missing
  update_all attempt vm cfgs = add_missing attempt cfgs (drop_changed cfgs vm.cfgs vm)

abbrev pub numbers : Dict Text ℕ → List ℕ
numbers [] = []
numbers ((name, v) ∷ visitors) = v ∷ numbers visitors

module _ {C : Type 0} where
  -- `Close`: the map keeps its entries.
  unfoldable pub close : Manager C → Manager C
  close vm = record vm { closed = vm.closed ++ numbers vm.visitors }

  -- `TransferConn`: the visitor that gets the connection.
  unfoldable pub transfer_conn : Manager C → Text → Option ℕ
  transfer_conn vm name = lookup name vm.visitors

  unfoldable pub get_visitor_cfg : Manager C → Text → Option C
  get_visitor_cfg vm name = lookup name vm.cfgs
