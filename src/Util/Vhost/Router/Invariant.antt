-- ===== src/Util/Vhost/Router/Invariant.antt =====
-- The routers as a finite map from domain, HTTP user and exact location.
use frpcv.Prelude.{
  if◌then◌else◌, Bool-cases, Option-cases, ◌==◌, nat_eq, Text, text_beq_iff, text_eq, keep_if, Map,
  put, ◌≡◌, refl, subst, ◌≢◌, ◌↔◌, ◌⊎◌, inl, inr, Bool, true, false, ◌&&◌, Option, none, some, List,
  [], ◌∷◌, ◌++◌, arith,
}
use frpcv.Util.Texts.{to_lower}
use frpcv.Util.Vhost.Router.{
  Router, Routers, added, router_config_conflict, new_routers, in_map, routers_at, find_exact,
  sort_routers, exist, or_empty, store, add, without_location, remove,
}
use frpcv.Util.Vhost.Router.Order.{
  Falling, sort_snoc, sort_snoc-Falling, find_exact-without, without-Falling,
}

module _ {A : Type 0} where
  in_map-if :
      (b : Bool) (m : Map Text (List (Router A))) (o : Option (Map Text (List (Router A))))
      (w : Text)
      → in_map (if b then some m else o) w ≡ (if b then in_map (some m) w else in_map o w)
  in_map-if true m o w = refl
  in_map-if false m o w = refl

  in_map-put :
      (u w : Text) (vrs : List (Router A)) (m : Map Text (List (Router A)))
      → in_map (some (put u vrs m)) w ≡ (if u == w then vrs else in_map (some m) w)
  unfolding in_map
  in_map-put u w vrs m = elim (Bool-cases (u == w)) [
    | inl y ↦ rw (y, in_map)
    | inr n ↦ rw (n, in_map)
  ]

  in_map-or_empty :
      (o : Option (Map Text (List (Router A)))) (w : Text)
      → in_map (some (or_empty o)) w ≡ in_map o w
  unfolding in_map or_empty
  in_map-or_empty none w = refl
  in_map-or_empty (some m) w = refl

  routers_at-store :
      (r : Routers A) (d u e w : Text) (vrs : List (Router A))
      → routers_at (store r d u vrs) e w ≡ (if (d == e) && (u == w) then vrs else routers_at r e w)
  unfolding routers_at store
  routers_at-store r d u e w vrs =
      rw (in_map-if (d == e) (put u vrs (or_empty (r.index_by_domain d))) (r.index_by_domain e) w)
        (elim (Bool-cases (d == e)) [
          | inr n ↦ rw n
          | inl y ↦ rw (
            y,
            in_map-put u w vrs (or_empty (r.index_by_domain d)),
            in_map-or_empty (r.index_by_domain d) w,
            (text_beq_iff d e).0 y,
          )
        ])

  -- Every list is in strictly falling order of location, so no location stands twice in it.
  abbrev pub Inv : Routers A → Type 0
  Inv r = (d u : Text) → Falling (routers_at r d u)

  store-Inv :
      (r : Routers A) (d u : Text) (vrs : List (Router A))
      → Inv r
      → Falling vrs
      → Inv (store r d u vrs)
  store-Inv r d u vrs v f e w = rw routers_at-store (chosen ((d == e) && (u == w)))
    where
      chosen : (b : Bool) → Falling (if b then vrs else routers_at r e w)
      chosen true = f
      chosen false = v e w

  same_key :
      (r : Routers A) (d u e w : Text)
      → ((d == e) && (u == w)) ≡ true
      → routers_at r d u ≡ routers_at r e w
  same_key r d u e w h =
      let y : d ≡ e = ground (arith, text_beq_iff d e) in
      let z : u ≡ w = ground (arith, text_beq_iff u w) in rw (y, z)

  -- Without a list `Del` does nothing; else it stores the list without the location.
  remove-cases :
      (r : Routers A) (d l u : Text)
      → ((routers_at r (to_lower d) u ≡ []) × (remove r d l u ≡ r))
        ⊎ (remove r d l u
            ≡ store r (to_lower d) u (without_location l (routers_at r (to_lower d) u)))
  unfolding remove routers_at in_map store or_empty
  remove-cases r d l u = elim (Option-cases (r.index_by_domain (to_lower d))) [
    | inl e ↦ inl (rw (e, in_map), rw (e, remove))
    | inr (m, e) ↦ elim (Option-cases (m u)) [
      | inl f ↦ inl (rw (e, in_map, f), rw (e, remove, f))
      | inr (vrs, f) ↦ inr (rw (e, remove, f, in_map, or_empty))
    ]
  ]

  -- `Del` keeps the routers of every other key, and those of other locations under its own.
  routers_at-remove :
      (r : Routers A) (d l u e w : Text)
      → routers_at (remove r d l u) e w ≡ (
          if (to_lower d == e) && (u == w)
          then without_location l (routers_at r e w)
          else routers_at r e w)
  unfolding without_location keep_if
  routers_at-remove r d l u e w = elim (remove-cases r d l u) [
    | inl (none_there, same) ↦ elim (Bool-cases ((to_lower d == e) && (u == w))) [
      | inr n ↦ rw (n, same)
      | inl y ↦ rw (y, same, ← same_key r (to_lower d) u e w y, none_there) refl
    ]
    | inr stored ↦
        rw (stored, routers_at-store)
          (elim (Bool-cases ((to_lower d == e) && (u == w))) [
            | inr n ↦ rw n
            | inl y ↦ rw (y, same_key r (to_lower d) u e w y)
          ])
  ]

  pub add-Inv : (r q : Routers A) (d l u : Text) (x : A) → Inv r → add r d l u x ≡ added q → Inv q
  unfolding add exist
  add-Inv r q d l u x v = elim (Option-cases (find_exact l (routers_at r (to_lower d) u))) [
    | inr (w, e) ↦ rw e (λ h. cc)
    | inl e ↦ rw e (λ h.
        let same : store r (to_lower d) u (
              sort_routers (
                routers_at r (to_lower d) u
                ++ record { domain = to_lower d; location = l; http_user = u; payload = x } ∷ []))
            ≡ q =
          cc in
        subst Inv same
          (store-Inv r (to_lower d) u _ v (sort_snoc-Falling _ _ (v (to_lower d) u) e)))
  ]

  pub remove-Inv : (r : Routers A) (d l u : Text) → Inv r → Inv (remove r d l u)
  remove-Inv r d l u v e w = rw routers_at-remove (chosen ((to_lower d == e) && (u == w)))
    where
      chosen :
          (b : Bool)
          → Falling (if b then without_location l (routers_at r e w) else routers_at r e w)
      chosen true = without-Falling l (routers_at r e w) (v e w)
      chosen false = v e w

  -- The router that `Add` makes.
  abbrev pub new_router : Text → Text → Text → A → Router A
  new_router d l u x = record { domain = to_lower d; location = l; http_user = u; payload = x }

  add-store :
      (r q : Routers A) (d l u : Text) (x : A)
      → add r d l u x ≡ added q
      → (find_exact l (routers_at r (to_lower d) u) ≡ none)
        × (q
            ≡ store r
                (to_lower d)
                u
                (sort_routers (routers_at r (to_lower d) u ++ new_router d l u x ∷ [])))
  unfolding add exist
  add-store r q d l u x = elim (Option-cases (find_exact l (routers_at r (to_lower d) u))) [
    | inr (w, e) ↦ rw e (λ h. cc)
    | inl e ↦ rw e (λ h. (refl, cc))
  ]

  -- After a successful `Add`, its key (the domain in lower case, the HTTP user, the location) has the
  -- new router, and every other key has what it had.
  pub exist-add :
      (r q : Routers A) (d l u : Text) (x : A)
      → Inv r
      → add r d l u x ≡ added q
      → (e w k : Text)
      → exist q e k w ≡ (
          if ((to_lower d == e) && (u == w)) && (k == l)
          then some (new_router d l u x)
          else exist r e k w)
  unfolding exist
  exist-add r q d l u x v h e w k =
      let (free, made) = add-store r q d l u x h in
      rw (made, routers_at-store)
        (elim (Bool-cases ((to_lower d == e) && (u == w))) [
          | inr n ↦ rw n
          | inl y ↦ rw (
            y,
            sort_snoc k (new_router d l u x) _ (v (to_lower d) u) free,
            same_key r (to_lower d) u e w y,
          )
        ])

  -- `Add` fails exactly where its key is taken.
  pub add_conflict :
      (r : Routers A) (d l u : Text) (x : A)
      → (add r d l u x ≡ router_config_conflict) ↔ (exist r (to_lower d) l u ≢ none)
  unfolding add
  add_conflict r d l u x = elim (Option-cases (exist r (to_lower d) l u)) [
    | inl e ↦ rw e (λ h. cc, λ h. absurd (h refl))
    | inr (w, e) ↦ rw e (λ h k. cc, λ h. refl)
  ]

  -- After `Del` its key has no router, and every other key has what it had.
  pub exist-remove :
      (r : Routers A) (d l u e w k : Text)
      → exist (remove r d l u) e k w
        ≡ (if ((to_lower d == e) && (u == w)) && (k == l) then none else exist r e k w)
  unfolding exist
  exist-remove r d l u e w k =
      rw routers_at-remove (elim (Bool-cases ((to_lower d == e) && (u == w))) [
        | inr n ↦ rw n
        | inl y ↦ rw (y, find_exact-without)
      ])

pub new_routers-Inv : (A : Type 0) → Inv (new_routers {A = A})
unfolding new_routers routers_at in_map
new_routers-Inv A d u = tt

-- The calls of the proxies, in any order.
pub data Step {A : Type 0} (r : Routers A) : Routers A → Type 0 where
  adds : (q : Routers A) (d l u : Text) (x : A) → add r d l u x ≡ added q → Step r q
  removes : (d l u : Text) → Step r (remove r d l u)

pub data Reach (A : Type 0) : Routers A → Type 0 where
  start : Reach A new_routers
  next : {r q : Routers A} → Reach A r → Step r q → Reach A q

Step-Inv : {A : Type 0} {r q : Routers A} → Inv r → Step r q → Inv q
Step-Inv {r = r} v (adds q d l u x h) = add-Inv r q d l u x v h
Step-Inv {r = r} v (removes d l u) = remove-Inv r d l u v

-- After any history of `Add` and `Del`, each list is in strictly falling order of location.
pub Reach-Falling :
    {A : Type 0} {r : Routers A} → Reach A r → (d u : Text) → Falling (routers_at r d u)
Reach-Falling {A} start = new_routers-Inv A
Reach-Falling (next r s) = Step-Inv (Reach-Falling r) s
