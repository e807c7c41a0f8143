-- ===== src/Util/Vhost/Router.antt =====
-- src/pkg/util/vhost/router.go: routers by domain, HTTP user and location. `A` is the payload's type.
pub mod Order
pub mod Invariant
pub mod Longest
use frpcv.Prelude.{
  if◌then◌else◌, Text, text_eq, nat_eq, ◌==◌, keep_if, Map, is_some, no_entries, put, ◌+◌, not,
  Option, none, some, List, [], ◌∷◌, ◌++◌,
}
use frpcv.Util.Texts.{to_lower, has_prefix, text_ltb}

pub record Router (A : Type 0) : Type 0 where
  pub domain : Text
  pub location : Text
  pub http_user : Text
  pub payload : A

pub record Routers (A : Type 0) : Type 0 where
  pub index_by_domain : Map Text (Map Text (List (Router A)))

pub data AddResult (A : Type 0) : Type 0 where
  added : Routers A → AddResult A
  router_config_conflict : AddResult A

module _ {A : Type 0} where
  unfoldable pub new_routers : Routers A
  new_routers = record { index_by_domain = no_entries }

  -- A missing key is an empty list, as for a nil slice.
  unfoldable pub in_map : Option (Map Text (List (Router A))) → Text → List (Router A)
  in_map none http_user = []
  in_map (some by_user) http_user = elim (by_user http_user) [ none ↦ [] | some vrs ↦ vrs ]

  -- The list under a domain and a user.
  unfoldable pub routers_at : Routers A → Text → Text → List (Router A)
  routers_at r domain http_user = in_map (r.index_by_domain domain) http_user

  -- The loops of `exist` and of `Get`: the first router with the location, or with a prefix of the path.
  unfoldable pub find_exact : Text → List (Router A) → Option (Router A)
  find_exact path [] = none
  find_exact path (vr ∷ vrs) = if path == vr.location then some vr else find_exact path vrs

  unfoldable pub find_prefix : Text → List (Router A) → Option (Router A)
  find_prefix path [] = none
  find_prefix path (vr ∷ vrs) =
      if has_prefix path vr.location then some vr else find_prefix path vrs

  -- slices.SortFunc by falling location, as an insertion sort
  unfoldable pub insert_sorted : Router A → List (Router A) → List (Router A)
  insert_sorted x [] = x ∷ []
  insert_sorted x (y ∷ ys) =
      if text_ltb y.location x.location then x ∷ y ∷ ys else y ∷ insert_sorted x ys

  unfoldable pub sort_routers : List (Router A) → List (Router A)
  sort_routers [] = []
  sort_routers (x ∷ xs) = insert_sorted x (sort_routers xs)

  unfoldable pub exist : Routers A → Text → Text → Text → Option (Router A)
  exist r host path http_user = find_exact path (routers_at r host http_user)

  -- The map of a domain, which `Add` makes if it is missing.
  unfoldable pub or_empty : Option (Map Text (List (Router A))) → Map Text (List (Router A))
  or_empty none = no_entries
  or_empty (some by_user) = by_user

  -- routersByHTTPUser[httpUser] = vrs; r.indexByDomain[domain] = routersByHTTPUser
  unfoldable pub store : Routers A → Text → Text → List (Router A) → Routers A
  store r domain http_user vrs = record r {
    index_by_domain =
        put domain (put http_user vrs (or_empty (r.index_by_domain domain))) r.index_by_domain;
  }

  unfoldable pub add : Routers A → Text → Text → Text → A → AddResult A
  add r domain' location http_user payload =
      let domain = to_lower domain' in
      let vr : Router A = record {
        domain = domain;
        location = location;
        http_user = http_user;
        payload = payload;
      } in
      if is_some (exist r domain location http_user)
      then router_config_conflict
      else added
          (store r domain http_user (sort_routers (routers_at r domain http_user ++ vr ∷ [])))

  unfoldable pub without_location : Text → List (Router A) → List (Router A)
  without_location location = keep_if (λ vr. not (vr.location == location))

  unfoldable pub remove : Routers A → Text → Text → Text → Routers A
  remove r domain' location http_user =
      let domain = to_lower domain' in
      elim (r.index_by_domain domain) [
        | none ↦ r
        | some by_user ↦ elim (by_user http_user) [
          | none ↦ r
          | some vrs ↦ record r {
            index_by_domain =
                put domain (put http_user (without_location location vrs) by_user)
                  r.index_by_domain;
          }
        ]
      ]

  unfoldable pub get : Routers A → Text → Text → Text → Option (Router A)
  get r host path http_user = find_prefix path (routers_at r (to_lower host) http_user)
