-- ===== src/Server/Group/Http/Examples.antt =====
-- Tests of the HTTP groups, and their theorems at concrete inputs.
use frpcv.Prelude.{
  if◌then◌else◌, Text, text_beq, text_eq, nat_eq, text, lookup, insert, ℕ, ◌<◌, ◌≡◌, refl, true,
  false, none, some, List, [], ◌∷◌, arith,
}
use frpcv.Util.Texts.{to_lower}
use frpcv.Util.Vhost.Router.{
  new_routers, in_map, routers_at, find_exact, insert_sorted, sort_routers, exist, or_empty, store,
  add,
}
use frpcv.Util.Vhost.Router.Invariant.{new_routers-Inv}
use frpcv.Server.Group.Registry.{get_or_create, is_current, remove_if}
use frpcv.Server.Group.Http.{
  RouteConfig, Route, HttpGroup, HttpGroupController, registered, new_group, new_controller,
  has_none, add_member, adopt, register_first, register_in, find_group, is_stale_result,
  register_proxy, leave, unregister_in, unregister, advance, name_at, func_of, create_conn,
  choose_endpoint, create_conn_by_endpoint,
}
use frpcv.Server.Group.Http.Members.{Agrees, looks_up, registers, start, next, Reach-Agrees}
use frpcv.Server.Group.Http.Rotation.{requests, create_conn_fair}
use frpcv.Server.Group.Http.Routes.{
  is_key, FirstOutcome, register_first-outcome, unregister_in-route,
}

abbrev cfg : RouteConfig
cfg = record {
  domain = text "a.io";
  location = text "/";
  route_by_http_user = [];
  create_conn_fn = some 7;
}

abbrev ctl : HttpGroupController
ctl = new_controller new_routers

abbrev looked_up : HttpGroupController
looked_up = (find_group ctl (text "web")).0

abbrev one_proxy : HttpGroupController
one_proxy = (register_in looked_up 0 (text "w1") (text "web") (text "k") cfg).0

abbrev two_proxies : HttpGroup
two_proxies = record new_group {
  create_funcs = (text "w1", some 7) ∷ (text "w2", some 8) ∷ [];
  pxy_names = text "w1" ∷ text "w2" ∷ [];
  index = 5;
}

undisturbed : List (HttpGroupController → HttpGroupController)
undisturbed = (λ c. c) ∷ []

register_proxy_test :
    (register_proxy undisturbed ctl (text "w1") (text "web") (text "k") cfg).1 ≡ some registered
unfolding register_proxy find_group get_or_create new_controller register_in is_current
    register_first add_member adopt new_routers routers_at in_map find_exact insert_sorted
    sort_routers exist or_empty store add to_lower lookup insert is_stale_result undisturbed
    text_beq
register_proxy_test = refl

unregister_test : (unregister ctl (text "w1") (text "web")).groups (text "web") ≡ none
unfolding unregister new_controller
unregister_test = refl

choose_endpoint_test : (choose_endpoint two_proxies).1 ≡ some (text "w1")
unfolding choose_endpoint advance name_at text_beq
choose_endpoint_test = refl

create_conn_by_endpoint_test : create_conn_by_endpoint two_proxies (text "w2") ≡ some 8
unfolding create_conn_by_endpoint func_of lookup text_beq
create_conn_by_endpoint_test = refl

Reach-Agrees_example : Agrees (one_proxy.objects 0)
Reach-Agrees_example =
    Reach-Agrees
      (next (next start (looks_up (text "web")))
        (registers 0 (text "w1") (text "web") (text "k") cfg))
      0

create_conn_fair_example :
    (i : ℕ) × (i < 2) × ((create_conn (requests i two_proxies)).1 ≡ func_of two_proxies (text "w2"))
create_conn_fair_example = create_conn_fair two_proxies 1 (text "w2") (omega arith) refl

register_first-outcome_example :
    FirstOutcome looked_up 0
      (text "w1")
      (text "web")
      (text "k")
      cfg
      (register_first looked_up 0 (text "w1") (text "web") (text "k") cfg)
unfolding find_group new_controller
register_first-outcome_example =
    register_first-outcome looked_up 0 (text "w1") (text "web") (text "k") cfg
      (new_routers-Inv Route) refl

unregister_in-route_holds :
    (has_none (leave (one_proxy.objects 0) (text "w1")).create_funcs ≡ true
      → ((d l u : Text)
          → exist (unregister_in one_proxy 0 (text "w1")).vhost_router d l u ≡ (
              if is_key
                (one_proxy.objects 0).domain
                (one_proxy.objects 0).location
                (one_proxy.objects 0).route_by_http_user
                d
                l
                u
              then none
              else exist one_proxy.vhost_router d l u))
        × ((unregister_in one_proxy 0 (text "w1")).groups
            ≡ remove_if one_proxy.groups (one_proxy.objects 0).group 0))
    × (has_none (leave (one_proxy.objects 0) (text "w1")).create_funcs ≡ false
        → ((unregister_in one_proxy 0 (text "w1")).vhost_router ≡ one_proxy.vhost_router)
          × ((unregister_in one_proxy 0 (text "w1")).groups ≡ one_proxy.groups))
unregister_in-route_holds = unregister_in-route one_proxy 0 (text "w1")
