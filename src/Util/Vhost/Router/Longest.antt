-- ===== src/Util/Vhost/Router/Longest.antt =====
-- `Get` against the finite map of the routers: it finds the longest registered prefix of the path.
use frpcv.Prelude.{
  nat_eq, Text, text_beq_refl, text_beq_iff, text_eq, length, ◌≤◌, ◌≡◌, refl, true, none, some,
  List, [], ◌∷◌, arith,
}
use frpcv.Util.Texts.{to_lower, has_prefix, text_ltb, prefix_ltb_length}
use frpcv.Util.Vhost.Router.{Router, Routers, routers_at, find_exact, find_prefix, exist, get}
use frpcv.Util.Vhost.Router.Order.{Below, Falling}
use frpcv.Util.Vhost.Router.Invariant.{Inv}

module _ {A : Type 0} where
  find_prefix_sound :
      (path : Text) (vrs : List (Router A)) (v : Router A)
      → find_prefix path vrs ≡ some v
      → (has_prefix path v.location ≡ true) × (find_exact v.location vrs ≡ some v)
  unfolding find_prefix find_exact
  find_prefix_sound path [] v h = cc
  find_prefix_sound path (x ∷ xs) v h = ground (
    arith,
    text_beq_iff v.location x.location,
    text_beq_refl x.location,
    find_prefix_sound path xs v,
  )

  Below-ltb :
      (x : Router A) (l : Text) (ys : List (Router A)) (w : Router A)
      → Below x ys
      → find_exact l ys ≡ some w
      → text_ltb l x.location ≡ true
  unfolding find_exact
  Below-ltb x l [] w b h = cc
  Below-ltb x l (y ∷ ys) w b h = ground (arith, text_beq_iff l y.location, Below-ltb x l ys w b.1)

  find_prefix-longest :
      (path l : Text) (vrs : List (Router A)) (v w : Router A)
      → Falling vrs
      → find_prefix path vrs ≡ some v
      → find_exact l vrs ≡ some w
      → has_prefix path l ≡ true
      → length l ≤ length v.location
  unfolding find_prefix find_exact
  find_prefix-longest path l [] v w f h k p = cc
  find_prefix-longest path l (x ∷ xs) v w f h k p = ground (
    arith,
    text_beq_iff l x.location,
    Below-ltb x l xs w f.0,
    prefix_ltb_length path l x.location,
    find_prefix-longest path l xs v w f.1,
  )

  find_prefix-none :
      (path l : Text) (vrs : List (Router A))
      → find_prefix path vrs ≡ none
      → has_prefix path l ≡ true
      → find_exact l vrs ≡ none
  unfolding find_prefix find_exact
  find_prefix-none path l [] h p = refl
  find_prefix-none path l (x ∷ xs) h p =
      ground (arith, text_beq_iff l x.location, find_prefix-none path l xs)

  module _ (r : Routers A) (host path http_user : Text) where
    -- What `Get` returns is registered under the host in lower case and the user, its location is a
    -- prefix of the path, and no registered location that is one is longer.
    pub get_longest :
        (v : Router A)
        → Inv r
        → get r host path http_user ≡ some v
        → (exist r (to_lower host) v.location http_user ≡ some v)
          × (has_prefix path v.location ≡ true)
          × ((l : Text) (w : Router A)
              → exist r (to_lower host) l http_user ≡ some w
              → has_prefix path l ≡ true
              → length l ≤ length v.location)
    unfolding get exist
    get_longest v i h =
        let vrs = routers_at r (to_lower host) http_user in
        let (p, e) = find_prefix_sound path vrs v h in
        (e, p, λ l w k q. find_prefix-longest path l vrs v w (i (to_lower host) http_user) h k q)

    -- `Get` fails only where no registered location under the host and the user is a prefix of the path.
    pub get_missing :
        get r host path http_user ≡ none
        → (l : Text) → has_prefix path l ≡ true
        → exist r (to_lower host) l http_user ≡ none
    unfolding get exist
    get_missing h l p = find_prefix-none path l (routers_at r (to_lower host) http_user) h p
