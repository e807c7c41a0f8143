-- ===== src/Server/Group/Http/Routes.antt =====
-- How a group takes its route, and gives it up.
use frpcv.Prelude.{
  if◌then◌else◌, Option-cases, Text, text_eq, nat_eq, ◌==◌, lookup, insert, ℕ, ◌≡◌, refl, ◌≢◌, inl,
  inr, Bool, true, false, ◌&&◌, Option, none, some, [], ◌∷◌, ◌++◌,
}
use frpcv.Util.Texts.{to_lower}
use frpcv.Util.Vhost.Router.{Router, Routers, AddResult, added, router_config_conflict, exist, add}
use frpcv.Util.Vhost.Router.Invariant.{Inv, new_router, exist-add, add_conflict, exist-remove}
use frpcv.Server.Group.Registry.{remove_if}
use frpcv.Server.Group.Http.{
  RouteConfig, Route, of_group, HttpGroupController, RegisterResult, registered, router_conflict,
  set_object, has_none, add_member, adopt, register_first, leave, unregister_in,
}

abbrev pub taken_by : HttpGroupController → RouteConfig → Option (Router Route)
taken_by ctl cfg = exist ctl.vhost_router (to_lower cfg.domain) cfg.location cfg.route_by_http_user

abbrev pub is_key : Text → Text → Text → Text → Text → Text → Bool
is_key domain location user d l u = ((to_lower domain == d) && (user == u)) && (l == location)

-- What the first proxy of a group does.
pub data FirstOutcome (ctl : HttpGroupController) (g : ℕ) (name group group_key : Text)
    (cfg : RouteConfig) : HttpGroupController × RegisterResult → Type 0 where
  occupied :
      taken_by ctl cfg ≢ none → FirstOutcome ctl g name group group_key cfg (ctl, router_conflict)
  routed :
      (routers : Routers Route)
      → taken_by ctl cfg ≡ none
      → ((d l u : Text)
          → exist routers d l u ≡ (
              if is_key cfg.domain cfg.location cfg.route_by_http_user d l u
              then some (new_router cfg.domain cfg.location cfg.route_by_http_user (of_group g))
              else exist ctl.vhost_router d l u))
      → FirstOutcome ctl g name group group_key cfg (
        set_object
            (record ctl { vhost_router = routers })
            g
            (record (adopt (ctl.objects g) group group_key cfg) {
              create_funcs = (name, cfg.create_conn_fn) ∷ [];
              pxy_names = (ctl.objects g).pxy_names ++ name ∷ [];
            }),
        registered,
      )

add-free :
    (r q : Routers Route) (d l u : Text) (x : Route)
    → add r d l u x ≡ added q
    → exist r (to_lower d) l u ≡ none
add-free r q d l u x e = elim (Option-cases (exist r (to_lower d) l u)) [
  | inl n ↦ n
  | inr (w, y) ↦ absurd (let z = (add_conflict r d l u x).1 (λ n. cc) in cc)
]

-- The first proxy of a group is refused exactly where the route of its configuration is taken; else the
-- router has, under this key and no other, a new router for the group, and the group has this one proxy's
-- function and its parameters.
pub register_first-outcome :
    (ctl : HttpGroupController) (g : ℕ) (name group group_key : Text) (cfg : RouteConfig)
    → Inv ctl.vhost_router
    → (ctl.objects g).create_funcs ≡ []
    → FirstOutcome ctl g name group group_key cfg (register_first ctl g name group group_key cfg)
unfolding register_first add_member adopt lookup insert
register_first-outcome ctl g name group group_key cfg v n =
    by_result (add ctl.vhost_router cfg.domain cfg.location cfg.route_by_http_user (of_group g))
      refl
  where
    by_result :
        (r : AddResult Route)
        → add ctl.vhost_router cfg.domain cfg.location cfg.route_by_http_user (of_group g) ≡ r
        → FirstOutcome ctl g name group group_key cfg
            (register_first ctl g name group group_key cfg)
    by_result router_config_conflict e =
        rw (e, register_first)
          (occupied (
            (add_conflict ctl.vhost_router cfg.domain cfg.location cfg.route_by_http_user
                (of_group g)).0
              e))
    by_result (added routers) e =
        rw (e, register_first, n)
          (routed routers
            (add-free ctl.vhost_router routers cfg.domain cfg.location cfg.route_by_http_user _ e)
            (λ d l u.
              exist-add ctl.vhost_router routers cfg.domain cfg.location cfg.route_by_http_user _ v
                e d u l))

-- The last proxy that leaves a group frees the route of the group and no other, and the name of the group,
-- unless the name has another group by now; where functions are left, the routes and the names stay.
pub unregister_in-route :
    (ctl : HttpGroupController) (g : ℕ) (name : Text)
    → (has_none (leave (ctl.objects g) name).create_funcs ≡ true
        → ((d l u : Text)
            → exist (unregister_in ctl g name).vhost_router d l u ≡ (
                if is_key
                  (ctl.objects g).domain
                  (ctl.objects g).location
                  (ctl.objects g).route_by_http_user
                  d
                  l
                  u
                then none
                else exist ctl.vhost_router d l u))
          × ((unregister_in ctl g name).groups ≡ remove_if ctl.groups (ctl.objects g).group g))
      × (has_none (leave (ctl.objects g) name).create_funcs ≡ false
          → ((unregister_in ctl g name).vhost_router ≡ ctl.vhost_router)
            × ((unregister_in ctl g name).groups ≡ ctl.groups))
unfolding unregister_in leave
unregister_in-route ctl g name =
    let hg = ctl.objects g in
    (
      λ e.
          rw (e, unregister_in)
            (
              λ d l u.
                  exist-remove ctl.vhost_router hg.domain hg.location hg.route_by_http_user d u l,
              refl,
            ),
      λ e. rw (e, unregister_in) (refl, refl),
    )
