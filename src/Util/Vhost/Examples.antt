-- ===== src/Util/Vhost/Examples.antt =====
-- Tests of the vhost routers and of the search, and their theorems at concrete inputs.
use frpcv.Prelude.{
  nat_eq, Text, text_beq, text_eq, text, or_else, ℕ, ◌≡◌, refl, ◌≢◌, ◌↔◌, none, some, [], ◌∷◌,
}
use frpcv.Util.Texts.{to_lower, has_prefix, text_ltb, split, join}
use frpcv.Util.Vhost.Router.{
  Router, Routers, AddResult, added, router_config_conflict, new_routers, in_map, routers_at,
  find_exact, find_prefix, insert_sorted, sort_routers, exist, or_empty, store, add, remove, get,
}
use frpcv.Util.Vhost.Router.Order.{Falling}
use frpcv.Util.Vhost.Router.Invariant.{
  new_router, exist-add, add_conflict, exist-remove, adds, Reach, start, next, Reach-Falling,
}
use frpcv.Util.Vhost.Router.Longest.{get_longest, get_missing}
use frpcv.Util.Vhost.Find.{find_router, find_wildcard, get_vhost}
use frpcv.Util.Vhost.Find.Candidates.{
  IsCandidate, wildcard, Serves, ServesNot, get_vhost-some, get_vhost-none, get_vhost_three,
}

abbrev or_same : Routers ℕ → AddResult ℕ → Routers ℕ
or_same r (added q) = q
or_same r router_config_conflict = r

abbrev r0 : Routers ℕ
r0 = new_routers

abbrev r1 : Routers ℕ
r1 = or_same r0 (add r0 (text "Ex.com") (text "/") [] 1)

abbrev r2 : Routers ℕ
r2 = or_same r1 (add r1 (text "ex.com") (text "/api") [] 2)

first_added : add r0 (text "Ex.com") (text "/") [] 1 ≡ added r1
unfolding add exist store or_empty find_exact routers_at in_map sort_routers insert_sorted
    new_routers to_lower text_beq
first_added = refl

second_added : add r1 (text "ex.com") (text "/api") [] 2 ≡ added r2
unfolding add exist store or_empty find_exact routers_at in_map sort_routers insert_sorted
    new_routers to_lower text_beq text_ltb
second_added = refl

r1-Reach : Reach ℕ r1
r1-Reach = next start (adds r1 (text "Ex.com") (text "/") [] 1 first_added)

r2-Reach : Reach ℕ r2
r2-Reach = next r1-Reach (adds r2 (text "ex.com") (text "/api") [] 2 second_added)

abbrev api : Router ℕ
api = new_router (text "ex.com") (text "/api") [] 2

get_test : get r2 (text "EX.com") (text "/api/x") [] ≡ some api
unfolding add exist store or_empty find_exact find_prefix has_prefix get routers_at in_map
    sort_routers insert_sorted new_routers to_lower text_beq text_ltb
get_test = refl

Reach-Falling_holds : Falling (routers_at r2 (text "ex.com") [])
Reach-Falling_holds = Reach-Falling r2-Reach (text "ex.com") []

exist-add_holds : exist r2 (text "ex.com") (text "/api") [] ≡ some api
unfolding to_lower text_beq
exist-add_holds =
    exist-add r1 r2 (text "ex.com") (text "/api") [] 2 (Reach-Falling r1-Reach) second_added
      (text "ex.com") [] (text "/api")

add_conflict_test :
    (add r2 (text "ex.com") (text "/api") [] 3 ≡ router_config_conflict)
    ↔ (exist r2 (to_lower (text "ex.com")) (text "/api") [] ≢ none)
add_conflict_test = add_conflict r2 (text "ex.com") (text "/api") [] 3

exist-remove_test :
    exist (remove r2 (text "ex.com") (text "/api") []) (text "ex.com") (text "/api") [] ≡ none
unfolding to_lower text_beq
exist-remove_test =
    exist-remove r2 (text "ex.com") (text "/api") [] (text "ex.com") [] (text "/api")

get_longest_example : exist r2 (to_lower (text "EX.com")) (text "/api") [] ≡ some api
get_longest_example =
    (get_longest r2 (text "EX.com") (text "/api/x") [] api (Reach-Falling r2-Reach) get_test).0

missing_test : get r1 (text "ex.com") (text "x") [] ≡ none
unfolding add exist store or_empty find_exact find_prefix has_prefix get routers_at in_map
    sort_routers insert_sorted new_routers to_lower text_beq text_ltb
missing_test = refl

get_missing_test : exist r1 (to_lower (text "ex.com")) [] [] ≡ none
unfolding has_prefix
get_missing_test = get_missing r1 (text "ex.com") (text "x") [] missing_test [] refl

vhost_test : get_vhost r2 (text "ex.com") (text "/api") (text "bob") ≡ some api
unfolding add exist store or_empty find_exact find_prefix has_prefix get routers_at in_map
    sort_routers insert_sorted new_routers to_lower text_beq text_ltb get_vhost find_router
vhost_test = refl

get_vhost-some_example :
    (c : Text) × IsCandidate (text "ex.com") c × Serves r2 (text "/api") (text "bob") c api
get_vhost-some_example = get_vhost-some r2 (text "/api") (text "bob") (text "ex.com") api vhost_test

vhost_none_test : get_vhost r2 (text "a.b.net") (text "/") [] ≡ none
unfolding add exist store or_empty find_exact find_prefix has_prefix get routers_at in_map
    sort_routers insert_sorted new_routers to_lower text_beq text_ltb get_vhost find_router
    find_wildcard split join
vhost_none_test = refl

get_vhost-none_test : ServesNot r2 (text "/") [] (text "*.b.net")
unfolding split join
get_vhost-none_test =
    get_vhost-none r2 (text "/") [] (text "a.b.net") (text "*.b.net") vhost_none_test
      (wildcard [] [] (text "a") (text "b") (text "net") refl)

get_vhost_three_holds :
    get_vhost r2 (join b'.' (text "a" ∷ text "b" ∷ text "c" ∷ [])) (text "/") []
    ≡ or_else (find_router r2 (join b'.' (text "a" ∷ text "b" ∷ text "c" ∷ [])) (text "/") []) (
        or_else
          (find_router r2 (join b'.' (text "*" ∷ text "b" ∷ text "c" ∷ [])) (text "/") [])
          (find_router r2 (text "*") (text "/") []))
get_vhost_three_holds =
    get_vhost_three r2 (text "/") [] (text "a") (text "b") (text "c") (refl, tt) (refl, tt)
      (refl, tt)
