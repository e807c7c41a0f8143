-- ===== src/Server/Group/Http.antt =====
-- src/server/group/http.go: groups of HTTP proxies behind one route. An `*HTTPGroup` is an address, a
-- CreateConnFunc is known by a number, and a nil one is `none`. The routers hold the address of the group
-- whose methods the copied route configuration carries, or the number of another route.
pub mod Members
pub mod Rotation
pub mod Routes
mod Examples
use frpcv.Prelude.{
  if◌then◌else◌, Text, text_eq, nat_eq, ◌==◌, length, get_elem?, Map, is_some, no_entries, Dict,
  lookup, insert, erase, ℕ, ◌+◌, ◌%◌, ◌^◌, Bool, true, false, not, ◌||◌, Option, none, some, List,
  [], ◌∷◌, ◌++◌,
}
use frpcv.Util.Vhost.Router.{Routers, added, router_config_conflict, add, remove}
use frpcv.Server.Group.Registry.{get_or_create, is_current, remove_if}

pub record RouteConfig : Type 0 where
  pub domain : Text
  pub location : Text
  pub route_by_http_user : Text
  pub create_conn_fn : Option ℕ

pub data Route : Type 0 where
  of_group of_other : ℕ → Route

pub record HttpGroup : Type 0 where
  pub group : Text
  pub group_key : Text
  pub domain : Text
  pub location : Text
  pub route_by_http_user : Text
  pub create_funcs : Dict Text (Option ℕ)
  pub pxy_names : List Text
  pub index : ℕ

pub record HttpGroupController : Type 0 where
  pub groups : Map Text ℕ
  pub objects : ℕ → HttpGroup
  pub next : ℕ
  pub vhost_router : Routers Route

pub data RegisterResult : Type 0 where
  registered group_stale router_conflict group_params_invalid group_auth_failed proxy_repeated :
      RegisterResult

abbrev pub new_group : HttpGroup
new_group = record {
  group = [];
  group_key = [];
  domain = [];
  location = [];
  route_by_http_user = [];
  create_funcs = [];
  pxy_names = [];
  index = 0;
}

pub new_controller : Routers Route → HttpGroupController
new_controller vhost_router = record {
  groups = no_entries;
  objects = λ g. new_group;
  next = 0;
  vhost_router = vhost_router;
}

abbrev pub set_object : HttpGroupController → ℕ → HttpGroup → HttpGroupController
set_object ctl g hg = record ctl { objects = λ h. if g == h then hg else ctl.objects h }

abbrev pub has_none : Dict Text (Option ℕ) → Bool
has_none [] = true
has_none (e ∷ d) = false

-- The end of `Register`, once the group's parameters are checked or set.
unfoldable pub add_member : HttpGroup → Text → Option ℕ → HttpGroup × RegisterResult
add_member hg name fn = if is_some (lookup name hg.create_funcs) then (hg, proxy_repeated) else (
  record hg {
    create_funcs = insert name fn hg.create_funcs;
    pxy_names = hg.pxy_names ++ name ∷ [];
  },
  registered,
)

-- The first proxy of a group, once the router has the route.
unfoldable pub adopt : HttpGroup → Text → Text → RouteConfig → HttpGroup
adopt hg group group_key cfg = record hg {
  group = group;
  group_key = group_key;
  domain = cfg.domain;
  location = cfg.location;
  route_by_http_user = cfg.route_by_http_user;
}

unfoldable pub register_first :
    HttpGroupController
    → ℕ
    → Text
    → Text
    → Text
    → RouteConfig
    → HttpGroupController × RegisterResult
unfolding add_member adopt
register_first ctl g name group group_key cfg =
    elim (add ctl.vhost_router cfg.domain cfg.location cfg.route_by_http_user (of_group g)) [
      | router_config_conflict ↦ (ctl, router_conflict)
      | added routers ↦
          let (hg, r) =
            add_member (adopt (ctl.objects g) group group_key cfg) name cfg.create_conn_fn in
          (set_object (record ctl { vhost_router = routers }) g hg, r)
    ]

abbrev pub differs : HttpGroup → Text → RouteConfig → Bool
differs hg group cfg =
    not (hg.group == group)
    || not (hg.domain == cfg.domain)
    || not (hg.location == cfg.location)
    || not (hg.route_by_http_user == cfg.route_by_http_user)

unfoldable pub register_again :
    HttpGroupController
    → ℕ
    → Text
    → Text
    → Text
    → RouteConfig
    → HttpGroupController × RegisterResult
unfolding add_member
register_again ctl g name group group_key cfg =
    let hg = ctl.objects g in
    if differs hg group cfg
    then (ctl, group_params_invalid)
    else if not (hg.group_key == group_key)
    then (ctl, group_auth_failed)
    else (let (hg', r) = add_member hg name cfg.create_conn_fn in (set_object ctl g hg', r))

-- `HTTPGroup.Register`
unfoldable pub register_in :
    HttpGroupController
    → ℕ
    → Text
    → Text
    → Text
    → RouteConfig
    → HttpGroupController × RegisterResult
unfolding register_first register_again
register_in ctl g name group group_key cfg =
    if not (is_current ctl.groups group g)
    then (ctl, group_stale)
    else if has_none (ctl.objects g).create_funcs
    then register_first ctl g name group group_key cfg
    else register_again ctl g name group group_key cfg

-- `getOrCreate` with `NewHTTPGroup`
unfoldable pub find_group : HttpGroupController → Text → HttpGroupController × ℕ
find_group ctl name =
    let (groups, g) = get_or_create ctl.groups name ctl.next in
    (record ctl { groups = groups; next = if g == ctl.next then ctl.next + 1 else ctl.next }, g)

unfoldable pub is_stale_result : RegisterResult → Bool
is_stale_result group_stale = true
is_stale_result _ = false

-- `HTTPGroupController.Register`. As for TCP groups, `others` says what the other goroutines do between
-- the two critical sections of a round, and is given once for each round that the fuel allows.
unfoldable pub register_proxy :
    List (HttpGroupController → HttpGroupController)
    → HttpGroupController
    → Text
    → Text
    → Text
    → RouteConfig
    → HttpGroupController × Option RegisterResult
unfolding find_group register_in is_stale_result
register_proxy [] ctl name group group_key cfg = (ctl, none)
register_proxy (others ∷ rounds) ctl name group group_key cfg =
    let (found, g) = find_group ctl group in
    let (ctl', result) = register_in (others found) g name group group_key cfg in
    elim (is_stale_result result) [
      | true ↦ register_proxy rounds ctl' name group group_key cfg
      | false ↦ (ctl', some result)
    ]

-- The first listed position of the name is taken out.
unfoldable pub without_name : Text → List Text → List Text
without_name name [] = []
without_name name (n ∷ names) = if n == name then names else n ∷ without_name name names

unfoldable pub leave : HttpGroup → Text → HttpGroup
unfolding without_name
leave hg name = record hg {
  create_funcs = erase name hg.create_funcs;
  pxy_names = without_name name hg.pxy_names;
}

-- `HTTPGroup.UnRegister`
unfoldable pub unregister_in : HttpGroupController → ℕ → Text → HttpGroupController
unfolding leave
unregister_in ctl g name =
    let hg = leave (ctl.objects g) name in
    let left = set_object ctl g hg in
    if has_none hg.create_funcs
    then record left {
      vhost_router = remove ctl.vhost_router hg.domain hg.location hg.route_by_http_user;
      groups = remove_if ctl.groups hg.group g;
    }
    else left

-- `HTTPGroupController.UnRegister`
unfoldable pub unregister : HttpGroupController → Text → Text → HttpGroupController
unfolding unregister_in
unregister ctl name group = elim (ctl.groups group) [
  | none ↦ ctl
  | some g ↦ unregister_in ctl g name
]

-- atomic.AddUint64(&g.index, 1)
unfoldable pub advance : HttpGroup → HttpGroup
advance hg = record hg { index = (hg.index + 1) % 2 ^ 64 }

-- The name at the new index, if there is one.
unfoldable pub name_at : HttpGroup → Option Text
name_at hg = get_elem? hg.pxy_names (hg.index % length hg.pxy_names)

-- A missing key of the map gives nil.
unfoldable pub func_of : HttpGroup → Text → Option ℕ
func_of hg name = elim (lookup name hg.create_funcs) [ none ↦ none | some fn ↦ fn ]

-- `createConn` up to the call of the function, which is none where the source returns an error.
unfoldable pub create_conn : HttpGroup → HttpGroup × Option ℕ
unfolding advance name_at func_of
create_conn hg =
    let hg' = advance hg in (hg', elim (name_at hg') [ none ↦ none | some name ↦ func_of hg' name ])

-- `chooseEndpoint`
unfoldable pub choose_endpoint : HttpGroup → HttpGroup × Option Text
unfolding advance name_at
choose_endpoint hg =
    let hg' = advance hg in
    (hg', elim (name_at hg') [ none ↦ none | some name ↦ if name == [] then none else some name ])

-- `createConnByEndpoint` up to the call
unfoldable pub create_conn_by_endpoint : HttpGroup → Text → Option ℕ
create_conn_by_endpoint hg endpoint = func_of hg endpoint
