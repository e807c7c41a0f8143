-- ===== src/Server/Group/Http/Members.antt =====
-- The names and the functions of a group agree, over any history.
use frpcv.Prelude.{
  if◌then◌else◌, Bool-cases, Text, text_beq_iff, text_eq, nat_eq, ◌==◌, if_both, is_some, lookup,
  lookup-insert, lookup-erase, ℕ, ◌+◌, ◌-◌, ◌≡◌, refl, inl, inr, not, Option, List, [], ◌∷◌, ◌++◌,
  arith,
}
use frpcv.Util.Vhost.Router.{Routers, AddResult, added, router_config_conflict, add}
use frpcv.Server.Group.Registry.{is_current}
use frpcv.Server.Group.Http.{
  RouteConfig, Route, of_group, HttpGroup, HttpGroupController, RegisterResult, group_stale,
  router_conflict, group_params_invalid, group_auth_failed, new_controller, set_object, has_none,
  add_member, adopt, register_first, differs, register_again, register_in, find_group, without_name,
  leave, unregister_in, advance, create_conn,
}

-- How often a name is listed.
unfoldable pub times : Text → List Text → ℕ
times name [] = 0
times name (n ∷ names) = (if n == name then 1 else 0) + times name names

-- A name is listed once if it has a function, and not otherwise.
abbrev pub Agrees : HttpGroup → Type 0
Agrees hg =
    (name : Text)
    → times name hg.pxy_names ≡ (if is_some (lookup name hg.create_funcs) then 1 else 0)

times-snoc :
    (name m : Text) (names : List Text)
    → times name (names ++ m ∷ []) ≡ times name names + (if m == name then 1 else 0)
unfolding times
times-snoc name m [] = omega arith
times-snoc name m (n ∷ names) = omega (arith, times-snoc name m names)

times-without :
    (name m : Text) (names : List Text)
    → times name (without_name m names)
      ≡ (if m == name then times name names - 1 else times name names)
unfolding times without_name
times-without name m [] = ground arith
times-without name m (n ∷ names) =
    ground (
      arith,
      times-without name m names,
      text_beq_iff n m,
      text_beq_iff m name,
      text_beq_iff n name,
    )

add_member-Agrees :
    (hg : HttpGroup) (name : Text) (fn : Option ℕ) → Agrees hg → Agrees (add_member hg name fn).0
unfolding add_member
add_member-Agrees hg name fn v k = elim (Bool-cases (is_some (lookup name hg.create_funcs))) [
  | inl e ↦ rw e (v k)
  | inr e ↦ rw e (
      ground (
        arith,
        v k,
        v name,
        times-snoc k name hg.pxy_names,
        lookup-insert name k fn hg.create_funcs,
        text_beq_iff name k,
      ))
]

leave-Agrees : (hg : HttpGroup) (name : Text) → Agrees hg → Agrees (leave hg name)
unfolding leave
leave-Agrees hg name v k = ground (
  arith,
  v k,
  times-without k name hg.pxy_names,
  lookup-erase name k hg.create_funcs,
  text_beq_iff name k,
)

pub record Inv (ctl : HttpGroupController) : Type 0 where
  pub agrees : (g : ℕ) → Agrees (ctl.objects g)

-- The invariant holds of an outcome's state.
Kept : HttpGroupController × RegisterResult → Type 0
Kept r = Inv r.0

kept : (ctl : HttpGroupController) (r : RegisterResult) → Inv ctl → Kept (ctl, r)
unfolding Kept
kept ctl r v = v

state_of : (r : HttpGroupController × RegisterResult) → Kept r → Inv r.0
unfolding Kept
state_of r v = v

set_object-Inv :
    (ctl : HttpGroupController) (g : ℕ) (hg : HttpGroup)
    → Inv ctl
    → Agrees hg
    → Inv (set_object ctl g hg)
set_object-Inv ctl g hg v a = record { agrees = λ h. if_both Agrees (g == h) a (v.agrees h) }

register_first-Kept :
    (ctl : HttpGroupController) (g : ℕ) (name group group_key : Text) (cfg : RouteConfig)
    → Inv ctl
    → Kept (register_first ctl g name group group_key cfg)
unfolding register_first adopt
register_first-Kept ctl g name group group_key cfg v =
    by_result (add ctl.vhost_router cfg.domain cfg.location cfg.route_by_http_user (of_group g))
      refl
  where
    by_result :
        (r : AddResult Route)
        → add ctl.vhost_router cfg.domain cfg.location cfg.route_by_http_user (of_group g) ≡ r
        → Kept (register_first ctl g name group group_key cfg)
    by_result router_config_conflict e = rw (e, register_first) (kept ctl router_conflict v)
    by_result (added routers) e =
        rw (e, register_first)
          (kept _ _ (
            set_object-Inv (record ctl { vhost_router = routers }) g _
              (record { agrees = v.agrees })
              (add_member-Agrees (adopt (ctl.objects g) group group_key cfg) name cfg.create_conn_fn
                (v.agrees g))))

register_again-Kept :
    (ctl : HttpGroupController) (g : ℕ) (name group group_key : Text) (cfg : RouteConfig)
    → Inv ctl
    → Kept (register_again ctl g name group group_key cfg)
unfolding register_again
register_again-Kept ctl g name group group_key cfg v =
    let hg = ctl.objects g in
    let m = add_member hg name cfg.create_conn_fn in
    if_both Kept (differs hg group cfg) (kept ctl group_params_invalid v) (
      if_both Kept (not (hg.group_key == group_key)) (kept ctl group_auth_failed v) (
        kept (set_object ctl g m.0) m.1
          (set_object-Inv ctl g m.0 v (add_member-Agrees hg name cfg.create_conn_fn (v.agrees g)))))

register_in-Kept :
    (ctl : HttpGroupController) (g : ℕ) (name group group_key : Text) (cfg : RouteConfig)
    → Inv ctl
    → Kept (register_in ctl g name group group_key cfg)
unfolding register_in
register_in-Kept ctl g name group group_key cfg v =
    if_both Kept (not (is_current ctl.groups group g)) (kept ctl group_stale v) (
      if_both Kept (has_none (ctl.objects g).create_funcs)
        (register_first-Kept ctl g name group group_key cfg v)
        (register_again-Kept ctl g name group group_key cfg v))

unregister_in-Inv :
    (ctl : HttpGroupController) (g : ℕ) (name : Text) → Inv ctl → Inv (unregister_in ctl g name)
unfolding unregister_in
unregister_in-Inv ctl g name v =
    let left = set_object-Inv ctl g _ v (leave-Agrees (ctl.objects g) name (v.agrees g)) in
    if_both Inv (has_none (leave (ctl.objects g) name).create_funcs)
      (record { agrees = left.agrees }) left

-- One critical section of a goroutine: a group is looked up or made; a proxy registers with a group or
-- leaves it; a request takes the next proxy; other proxies change the routers.
pub data Step (ctl : HttpGroupController) : HttpGroupController → Type 0 where
  looks_up : (group : Text) → Step ctl (find_group ctl group).0
  registers :
      (g : ℕ) (name group group_key : Text) (cfg : RouteConfig)
      → Step ctl (register_in ctl g name group group_key cfg).0
  unregisters : (g : ℕ) (name : Text) → Step ctl (unregister_in ctl g name)
  connects : (g : ℕ) → Step ctl (set_object ctl g (create_conn (ctl.objects g)).0)
  others_route : (routers : Routers Route) → Step ctl (record ctl { vhost_router = routers })

pub data Reach (routers : Routers Route) : HttpGroupController → Type 0 where
  start : Reach routers (new_controller routers)
  next : {ctl dtl : HttpGroupController} → Reach routers ctl → Step ctl dtl → Reach routers dtl

Step-Inv : {ctl dtl : HttpGroupController} → Step ctl dtl → Inv ctl → Inv dtl
unfolding find_group create_conn advance
Step-Inv (looks_up group) v = record { agrees = v.agrees }
Step-Inv {ctl} (registers g name group group_key cfg) v =
    state_of _ (register_in-Kept ctl g name group group_key cfg v)
Step-Inv {ctl} (unregisters g name) v = unregister_in-Inv ctl g name v
Step-Inv {ctl} (connects g) v = set_object-Inv ctl g _ v (v.agrees g)
Step-Inv (others_route routers) v = record { agrees = v.agrees }

-- In every interleaving of registrations, departures, requests and changes of the routers by others, each
-- group lists a proxy exactly once if it has a function for it, and not otherwise.
pub Reach-Agrees :
    {routers : Routers Route} {ctl : HttpGroupController}
    → Reach routers ctl
    → (g : ℕ) → Agrees (ctl.objects g)
unfolding new_controller times lookup
Reach-Agrees start g = λ name. refl
Reach-Agrees (next r s) g = (Step-Inv s (record { agrees = Reach-Agrees r })).agrees g
