-- ===== src/Config/Store.antt =====
-- src/pkg/config/source/store.go, base_source.go, config_source.go: the sources of configurations.
-- The configurers and their base configurations are parameters, and nil is `none`. Whether a save to the
-- file succeeds is an argument (`saved`); the file holds what was saved last, as the same two maps.
pub mod Sync
pub mod Outcome
mod Examples
use frpcv.Prelude.{
  if◌then◌else◌, Text, text_eq, nat_eq, ◌==◌, is_some, Dict, lookup, insert, erase, Bool, true,
  false, not, Option, none, some, List, [], ◌∷◌,
}

-- The fields of the base configuration that the sources read.
pub record BaseConfig : Type 0 where
  pub name : Text
  pub enabled : Option Bool

pub data OpResult : Type 0 where
  ok nil_config empty_name already_exists not_found persist_failed : OpResult

pub is_done : OpResult → Bool
is_done ok = true
is_done _ = false

module _ {C : Type 0} (base : C → BaseConfig) where
  pub add_named : Dict Text C → C → Bool → Dict Text C × OpResult
  add_named d c saved =
      let name = (base c).name in
      if name == []
      then (d, empty_name)
      else if is_some (lookup name d)
      then (d, already_exists)
      else if saved
      then (insert name c d, ok)
      else (erase name (insert name c d), persist_failed)

  -- AddProxy and AddVisitor
  pub add_to : Dict Text C → Option C → Bool → Dict Text C × OpResult
  unfolding add_named
  add_to d none saved = (d, nil_config)
  add_to d (some c) saved = add_named d c saved

  pub update_named : Dict Text C → C → Bool → Dict Text C × OpResult
  update_named d c saved =
      let name = (base c).name in
      if name == [] then (d, empty_name) else elim (lookup name d) [
        | none ↦ (d, not_found)
        | some old ↦
            if saved
            then (insert name c d, ok)
            else (insert name old (insert name c d), persist_failed)
      ]

  -- UpdateProxy and UpdateVisitor
  pub update_in : Dict Text C → Option C → Bool → Dict Text C × OpResult
  unfolding update_named
  update_in d none saved = (d, nil_config)
  update_in d (some c) saved = update_named d c saved

  unfoldable pub is_enabled : C → Bool
  is_enabled c = elim (base c).enabled [ none ↦ true | some b ↦ b ]

  -- The enabled configurations of `Load`, in the order of the map.
  unfoldable pub load : Dict Text C → List C
  unfolding is_enabled
  load [] = []
  load ((name, c) ∷ d) = let rest = load d in if is_enabled c then c ∷ rest else rest

  -- The loops of `ReplaceAll` and of the reading of the file: the map, or what is wrong.
  pub collect : Dict Text C → List (Option C) → Dict Text C × OpResult
  collect d [] = (d, ok)
  collect d (none ∷ cs) = (d, nil_config)
  collect d (some c ∷ cs) =
      if (base c).name == [] then (d, empty_name) else collect (insert (base c).name c d) cs

-- RemoveProxy and RemoveVisitor
pub remove_from : {C : Type 0} → Dict Text C → Text → Bool → Dict Text C × OpResult
remove_from d name saved = if name == [] then (d, empty_name) else elim (lookup name d) [
  | none ↦ (d, not_found)
  | some old ↦
      if saved then (erase name d, ok) else (insert name old (erase name d), persist_failed)
]

pub record Maps (P V : Type 0) : Type 0 where
  pub proxies : Dict Text P
  pub visitors : Dict Text V

pub record StoreSource (P V : Type 0) : Type 0 where
  pub memory : Maps P V
  pub file : Maps P V

module _ {P V : Type 0} where
  -- A call that succeeded has saved its maps.
  pub commit : StoreSource P V → Maps P V → OpResult → StoreSource P V
  unfolding is_done
  commit s maps r = record { memory = maps; file = if is_done r then maps else s.file }

  pub add_proxy : (P → BaseConfig) → StoreSource P V → Option P → Bool → StoreSource P V × OpResult
  unfolding commit add_to
  add_proxy base s p saved =
      let (d, r) = add_to base s.memory.proxies p saved in
      (commit s (record s.memory { proxies = d }) r, r)

  pub update_proxy :
      (P → BaseConfig) → StoreSource P V → Option P → Bool → StoreSource P V × OpResult
  unfolding commit update_in
  update_proxy base s p saved =
      let (d, r) = update_in base s.memory.proxies p saved in
      (commit s (record s.memory { proxies = d }) r, r)

  pub remove_proxy : StoreSource P V → Text → Bool → StoreSource P V × OpResult
  unfolding commit remove_from
  remove_proxy s name saved =
      let (d, r) = remove_from s.memory.proxies name saved in
      (commit s (record s.memory { proxies = d }) r, r)

  pub add_visitor :
      (V → BaseConfig) → StoreSource P V → Option V → Bool → StoreSource P V × OpResult
  unfolding commit add_to
  add_visitor base s v saved =
      let (d, r) = add_to base s.memory.visitors v saved in
      (commit s (record s.memory { visitors = d }) r, r)

  pub update_visitor :
      (V → BaseConfig) → StoreSource P V → Option V → Bool → StoreSource P V × OpResult
  unfolding commit update_in
  update_visitor base s v saved =
      let (d, r) = update_in base s.memory.visitors v saved in
      (commit s (record s.memory { visitors = d }) r, r)

  pub remove_visitor : StoreSource P V → Text → Bool → StoreSource P V × OpResult
  unfolding commit remove_from
  remove_visitor s name saved =
      let (d, r) = remove_from s.memory.visitors name saved in
      (commit s (record s.memory { visitors = d }) r, r)

  -- `ReplaceAll` of the in-memory source.
  pub replace_all :
      (P → BaseConfig)
      → (V → BaseConfig)
      → Maps P V
      → List (Option P)
      → List (Option V)
      → Maps P V × OpResult
  unfolding collect is_done
  replace_all pbase vbase s proxies visitors =
      let (next_proxies, r) = collect pbase [] proxies in
      if not (is_done r)
      then (s, r)
      else (let (next_visitors, q) = collect vbase [] visitors in
          if not (is_done q)
          then (s, q)
          else (record { proxies = next_proxies; visitors = next_visitors }, ok))
