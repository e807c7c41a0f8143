-- ===== src/Config/Examples.antt =====
-- Tests of the opening of a store and of the aggregator, and their theorems at concrete inputs.
use frpcv.Prelude.{
  Text, text_beq, text_eq, nat_eq, text, or_else, Dict, lookup, insert, ◌≡◌, refl, true, false,
  none, some, [], ◌∷◌,
}
use frpcv.Util.Texts.{text_ltb}
use frpcv.Config.Store.{BaseConfig, is_enabled, load, StoreSource}
use frpcv.Config.Store.Sync.{Synced, last_named}
use frpcv.Config.Reading.{
  stored, unnamed, collect_decoded, is_loaded, opened, load_failed, open_with, load_from_file,
  new_store_source, AllNamed, new_store_source-lookup,
}
use frpcv.Config.Aggregator.{
  Aggregator, put_all, insert_by_name, sorted_values, merge, new_aggregator, set_store_source,
  load_all, Keyed, when_enabled, lookup-merge,
}

-- A configuration is its base here.
abbrev itself : BaseConfig → BaseConfig
itself b = b

abbrev web : BaseConfig
web = record { name = text "web"; enabled = none }

abbrev off : BaseConfig
off = record { name = text "web"; enabled = some false }

abbrev api : BaseConfig
api = record { name = text "api"; enabled = some true }

abbrev Sources : Type 0
Sources = Aggregator BaseConfig BaseConfig

abbrev source_of : Dict Text BaseConfig → StoreSource BaseConfig BaseConfig
source_of d = record {
  memory = record { proxies = d; visitors = [] };
  file = record { proxies = d; visitors = [] };
}

abbrev config_map : Dict Text BaseConfig
config_map = (text "web", web) ∷ (text "api", api) ∷ []

abbrev store_map : Dict Text BaseConfig
store_map = (text "web", off) ∷ []

abbrev both : Sources
both =
    set_store_source (new_aggregator (some (record { proxies = config_map; visitors = [] })))
      (some (source_of store_map))

order_test : (load_all itself itself both).0 ≡ api ∷ web ∷ []
unfolding load_all merge put_all sorted_values insert_by_name set_store_source new_aggregator load
    is_enabled insert text_beq text_ltb
order_test = refl

config_map-Keyed : Keyed itself config_map
unfolding Keyed lookup text_beq
config_map-Keyed = (refl, refl, (refl, refl, tt))

store_map-Keyed : Keyed itself store_map
unfolding Keyed lookup
store_map-Keyed = (refl, refl, tt)

lookup-merge_example :
    lookup (text "web") (merge itself config_map (some store_map))
    ≡ or_else
        (when_enabled itself (lookup (text "web") store_map))
        (when_enabled itself (lookup (text "web") config_map))
lookup-merge_example =
    lookup-merge itself (text "web") config_map store_map config_map-Keyed store_map-Keyed

unnamed_test :
    new_store_source itself itself
      (text "f")
      (stored (some (record { name = []; enabled = none }) ∷ []) [])
    ≡ load_failed unnamed
unfolding new_store_source load_from_file open_with collect_decoded is_loaded text_beq
unnamed_test = refl

one-AllNamed : AllNamed itself (some web ∷ [])
unfolding AllNamed
one-AllNamed = ((λ e. cc), tt)

none-AllNamed : AllNamed itself []
unfolding AllNamed
none-AllNamed = tt

new_store_source-lookup_holds :
    (s : StoreSource BaseConfig BaseConfig) × (new_store_source itself itself
        (text "f")
        (stored (some web ∷ []) [])
      ≡ opened s)
    × Synced s
    × ((k : Text) → lookup k s.memory.proxies ≡ last_named itself k (some web ∷ []))
    × ((k : Text) → lookup k s.memory.visitors ≡ last_named itself k [])
new_store_source-lookup_holds =
    new_store_source-lookup itself itself (text "f") (some web ∷ []) [] (λ e. cc) one-AllNamed
      none-AllNamed
