-- ===== src/Config/Aggregator.antt =====
-- src/pkg/config/source/aggregator.go: the configurations of the in-memory source and of the store, in one.
-- The in-memory source is never nil, since NewAggregator makes one.
use frpcv.Prelude.{
  if◌then◌else◌, Text, text_beq_iff, text_eq, nat_eq, ◌==◌, or_else, Dict, lookup, insert,
  lookup-insert, ◌≡◌, refl, ap, ◌∙◌, Option, none, some, List, [], ◌∷◌, arith,
}
use frpcv.Util.Texts.{text_ltb}
use frpcv.Config.Store.{BaseConfig, is_enabled, load, Maps, StoreSource}
use frpcv.Config.Store.Sync.{or_else_assoc}

pub record Aggregator (P V : Type 0) : Type 0 where
  pub config_source : Maps P V
  pub store_source : Option (StoreSource P V)

module _ {C : Type 0} (base : C → BaseConfig) where
  -- The loop that puts the configurations of a source into the map.
  unfoldable pub put_all : Dict Text C → List C → Dict Text C
  put_all d [] = d
  put_all d (c ∷ cs) = put_all (insert (base c).name c d) cs

  unfoldable pub insert_by_name : C → List C → List C
  insert_by_name c [] = c ∷ []
  insert_by_name c (x ∷ l) =
      let rest = insert_by_name c l in
      if text_ltb (base x).name (base c).name then x ∷ rest else c ∷ x ∷ l

  -- The values of the map by rising name.
  unfoldable pub sorted_values : Dict Text C → List C
  unfolding insert_by_name
  sorted_values [] = []
  sorted_values ((name, c) ∷ d) = insert_by_name c (sorted_values d)

  unfoldable pub merge : Dict Text C → Option (Dict Text C) → Dict Text C
  unfolding put_all
  merge config none = put_all [] (load base config)
  merge config (some store) = put_all (put_all [] (load base config)) (load base store)

module _ {P V : Type 0} where
  unfoldable pub new_aggregator : Option (Maps P V) → Aggregator P V
  new_aggregator none = record {
    config_source = record { proxies = []; visitors = [] };
    store_source = none;
  }
  new_aggregator (some config) = record { config_source = config; store_source = none }

  unfoldable pub set_store_source : Aggregator P V → Option (StoreSource P V) → Aggregator P V
  set_store_source a store = record a { store_source = store }

  unfoldable pub load_all : (P → BaseConfig) → (V → BaseConfig) → Aggregator P V → List P × List V
  unfolding merge sorted_values
  load_all pbase vbase a = elim a.store_source [
    | none ↦ (
      sorted_values pbase (merge pbase a.config_source.proxies none),
      sorted_values vbase (merge vbase a.config_source.visitors none),
    )
    | some s ↦ (
      sorted_values pbase (merge pbase a.config_source.proxies (some s.memory.proxies)),
      sorted_values vbase (merge vbase a.config_source.visitors (some s.memory.visitors)),
    )
  ]

-- A map whose keys are the names of its configurations, each once.
unfoldable pub Keyed : {C : Type 0} → (C → BaseConfig) → Dict Text C → Type 0
Keyed base [] = Unit
Keyed base ((name, c) ∷ d) = ((base c).name ≡ name) × (lookup name d ≡ none) × Keyed base d

pub when_enabled : {C : Type 0} → (C → BaseConfig) → Option C → Option C
when_enabled base none = none
when_enabled base (some c) = if is_enabled base c then some c else none

last_of : {C : Type 0} → (C → BaseConfig) → Text → List C → Option C
last_of base k [] = none
last_of base k (c ∷ cs) = or_else (last_of base k cs) (if (base c).name == k then some c else none)

lookup-put_all :
    {C : Type 0} (base : C → BaseConfig) (k : Text) (cs : List C) (d : Dict Text C)
    → lookup k (put_all base d cs) ≡ or_else (last_of base k cs) (lookup k d)
unfolding put_all last_of
lookup-put_all base k [] d = refl
lookup-put_all base k (c ∷ cs) d =
    lookup-put_all base k cs (insert (base c).name c d)
    ∙ ap (λ o. or_else (last_of base k cs) o) (lookup-insert (base c).name k c d)
    ∙ or_else_assoc (last_of base k cs) ((base c).name == k) c (lookup k d)

last_of-load :
    {C : Type 0} (base : C → BaseConfig) (k : Text) (d : Dict Text C)
    → Keyed base d
    → last_of base k (load base d) ≡ when_enabled base (lookup k d)
unfolding last_of load Keyed when_enabled lookup
last_of-load base k [] v = refl
last_of-load base k ((name, c) ∷ d) (e, n, v) =
    ground (arith, last_of-load base k d v, text_beq_iff name k)

-- A name's configuration is the enabled one of the store, if there is one, and otherwise the enabled one of
-- the in-memory source; so a disabled one of the store does not hide one of the in-memory source.
pub lookup-merge :
    {C : Type 0} (base : C → BaseConfig) (k : Text) (config store : Dict Text C)
    → Keyed base config
    → Keyed base store
    → lookup k (merge base config (some store))
      ≡ or_else (when_enabled base (lookup k store)) (when_enabled base (lookup k config))
unfolding merge lookup
lookup-merge base k config store v w =
    lookup-put_all base k (load base store) (put_all base [] (load base config))
    ∙ rw
        (
          lookup-put_all base k (load base config) [],
          last_of-load base k config v,
          last_of-load base k store w,
        )
        (ap (λ o. or_else (when_enabled base (lookup k store)) o)
          (or_none (when_enabled base (lookup k config))))
  where
    or_none : {C : Type 0} (o : Option C) → or_else o none ≡ o
    or_none none = refl
    or_none (some c) = refl
