-- ===== src/Config/Store/Examples.antt =====
-- Tests of the configuration sources, and their theorems at concrete inputs.
use frpcv.Prelude.{
  if◌then◌else◌, Text, text_beq, text_eq, nat_eq, ◌==◌, text, is_some, Dict, lookup, insert, erase,
  ◌≡◌, refl, ◌≢◌, ◌↔◌, ◌⊎◌, Bool, true, false, ◌&&◌, none, some, [], ◌∷◌,
}
use frpcv.Config.Store.{
  BaseConfig, not_found, persist_failed, is_done, add_named, add_to, update_named, update_in,
  is_enabled, load, remove_from, StoreSource, commit, add_proxy, update_proxy, remove_proxy,
  add_visitor, update_visitor, remove_visitor, replace_all,
}
use frpcv.Config.Store.Outcome.{remove_from-lookup, add_to-lookup, update_in-lookup}
use frpcv.Config.Store.Sync.{
  Same, SameMaps, Synced, adds_proxy, updates_proxy, done, more, Steps-Synced, last_named,
  replace_all-lookup,
}

-- A configuration is its base here.
abbrev itself : BaseConfig → BaseConfig
itself b = b

abbrev web : BaseConfig
web = record { name = text "web"; enabled = none }

abbrev off : BaseConfig
off = record { name = text "web"; enabled = some false }

abbrev nameless : BaseConfig
nameless = record { name = []; enabled = none }

abbrev one : Dict Text BaseConfig
one = (text "web", web) ∷ []

abbrev empty_store : StoreSource BaseConfig BaseConfig
empty_store = record {
  memory = record { proxies = []; visitors = [] };
  file = record { proxies = []; visitors = [] };
}

abbrev added : StoreSource BaseConfig BaseConfig
added = (add_proxy itself empty_store (some web) true).0

load_test : load itself ((text "web", off) ∷ (text "b", nameless) ∷ []) ≡ nameless ∷ []
unfolding load is_enabled
load_test = refl

update_test : update_in itself one (some off) false ≡ (one, persist_failed)
unfolding update_in update_named lookup insert text_beq
update_test = refl

file_test : added.file.proxies ≡ one
unfolding add_proxy add_to add_named commit is_done lookup insert text_beq
file_test = refl

visitor_test :
    (remove_visitor
      (update_visitor itself (add_visitor itself empty_store (some web) true).0 (some off) true).0
      (text "web")
      true).0.memory.visitors
    ≡ []
unfolding add_visitor add_to add_named update_visitor update_in update_named remove_visitor
    remove_from commit is_done lookup insert erase text_beq
visitor_test = refl

remove_test : (remove_proxy added (text "b") true).1 ≡ not_found
unfolding remove_proxy remove_from add_proxy add_to add_named commit is_done lookup insert text_beq
remove_test = refl

update_proxy_test : (update_proxy itself empty_store (some web) true).1 ≡ not_found
unfolding update_proxy update_in update_named lookup text_beq
update_proxy_test = refl

add_to-lookup_holds :
    let (e, r) = add_to itself one (some off) true in
    ((is_done r ≡ true)
      ↔ ((off.name ≢ []) × (lookup off.name one ≡ none) × (◌≡◌ {A = Bool} true true)))
    × (lookup (text "web") e
        ≡ (if is_done r && (off.name == text "web") then some off else lookup (text "web") one))
add_to-lookup_holds = add_to-lookup itself one off true (text "web")

update_in-lookup_test :
    let (e, r) = update_in itself one (some off) true in
    ((is_done r ≡ true)
      ↔ ((off.name ≢ []) × (is_some (lookup off.name one) ≡ true) × (◌≡◌ {A = Bool} true true)))
    × (lookup (text "web") e
        ≡ (if is_done r && (off.name == text "web") then some off else lookup (text "web") one))
update_in-lookup_test = update_in-lookup itself one off true (text "web")

remove_from-lookup_holds :
    let (e, r) = remove_from one (text "web") false in
    ((is_done r ≡ true)
      ↔ ((text "web" ≢ []) × (is_some (lookup (text "web") one) ≡ true) × (false ≡ true)))
    × (lookup (text "web") e
        ≡ (if is_done r && (text "web" == text "web") then none else lookup (text "web") one))
remove_from-lookup_holds = remove_from-lookup one (text "web") false (text "web")

empty_store-Synced : Synced empty_store
unfolding Synced SameMaps Same
empty_store-Synced = (λ k. refl, λ k. refl)

Steps-Synced_example : Synced (update_proxy itself added (some off) false).0
Steps-Synced_example =
    Steps-Synced {pbase = itself} {vbase = itself} empty_store-Synced
      (more (more done (adds_proxy (some web) true)) (updates_proxy (some off) false))

replace_all-lookup_holds :
    let (t, r) = replace_all itself itself empty_store.memory (some web ∷ some off ∷ []) [] in
    ((is_done r ≡ false) × (t ≡ empty_store.memory))
    ⊎ ((is_done r ≡ true)
        × (lookup (text "web") t.proxies
            ≡ last_named itself (text "web") (some web ∷ some off ∷ []))
        × (lookup (text "web") t.visitors ≡ last_named itself (text "web") []))
replace_all-lookup_holds =
    replace_all-lookup itself itself empty_store.memory (some web ∷ some off ∷ []) [] (text "web")
