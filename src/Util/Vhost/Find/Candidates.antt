-- ===== src/Util/Vhost/Find/Candidates.antt =====
-- The search for a host's router against the names under which the host may be registered.
use mathlib.Core.List.{append_assoc}
use frpcv.Prelude.{
  Option-cases, nat_eq, Text, text_eq, text, or_else, ◌≡◌, refl, ◌∙◌, ◌⊎◌, inl, inr, Option, none,
  some, List, [], ◌∷◌, ◌++◌, arith,
}
use frpcv.Util.Texts.{split, join, Lacks, split-join}
use frpcv.Util.Vhost.Router.{Router, Routers, get}
use frpcv.Util.Vhost.Find.{find_router, find_wildcard, get_vhost}

-- The host itself; a star for one or more of its first labels, if two or more labels stay; a star.
pub data IsCandidate (name : Text) : Text → Type 0 where
  itself : IsCandidate name name
  wildcard :
      (dropped kept : List Text) (label c d : Text)
      → split b'.' name ≡ (dropped ++ label ∷ []) ++ (c ∷ d ∷ kept)
      → IsCandidate name (join b'.' (text "*" ∷ c ∷ d ∷ kept))
  any_host : IsCandidate name (text "*")

module _ {A : Type 0} (r : Routers A) (path http_user : Text) where
  -- A registered name serves the request for its user, or for any user.
  abbrev pub Serves : Text → Router A → Type 0
  Serves name v =
      (get r name path http_user ≡ some v)
      ⊎ ((get r name path http_user ≡ none) × (get r name path [] ≡ some v))

  abbrev pub ServesNot : Text → Type 0
  ServesNot name = (get r name path http_user ≡ none) × (get r name path [] ≡ none)

  find_router-some :
      (name : Text) (v : Router A) → find_router r name path http_user ≡ some v → Serves name v
  unfolding find_router
  find_router-some name v h = ground arith

  find_router-none : (name : Text) → find_router r name path http_user ≡ none → ServesNot name
  unfolding find_router
  find_router-none name h = ground arith

  wildcard-some :
      (name : Text) (dropped labels : List Text) (v : Router A)
      → split b'.' name ≡ dropped ++ labels
      → find_wildcard r labels path http_user ≡ some v
      → (c : Text) × IsCandidate name c × Serves c v
  unfolding find_wildcard
  wildcard-some name dropped (a ∷ b ∷ c ∷ rest) v e =
      elim (Option-cases (find_router r (join b'.' (text "*" ∷ b ∷ c ∷ rest)) path http_user)) [
        | inl miss ↦
            rw (miss, find_wildcard)
              (wildcard-some name (dropped ++ a ∷ []) (b ∷ c ∷ rest) v (rw append_assoc e))
        | inr (w, hit) ↦
            rw (hit, find_wildcard)
              (λ h. (
                _,
                wildcard dropped rest a b c (rw append_assoc e),
                find_router-some _ v (hit ∙ h),
              ))
      ]
  wildcard-some name dropped (a ∷ b ∷ []) v e = λ h. cc
  wildcard-some name dropped (a ∷ []) v e = λ h. cc
  wildcard-some name dropped [] v e = λ h. cc

  wildcard-tail :
      (a : Text) (labels : List Text)
      → find_wildcard r (a ∷ labels) path http_user ≡ none
      → find_wildcard r labels path http_user ≡ none
  unfolding find_wildcard
  wildcard-tail a [] h = refl
  wildcard-tail a (b ∷ []) h = refl
  wildcard-tail a (b ∷ c ∷ rest) h = ground arith

  wildcard-none :
      (dropped kept : List Text) (label c d : Text)
      → find_wildcard r ((dropped ++ label ∷ []) ++ (c ∷ d ∷ kept)) path http_user ≡ none
      → find_router r (join b'.' (text "*" ∷ c ∷ d ∷ kept)) path http_user ≡ none
  unfolding find_wildcard
  wildcard-none [] kept label c d h = ground arith
  wildcard-none (x ∷ dropped) kept label c d h =
      wildcard-none dropped kept label c d
        (wildcard-tail x ((dropped ++ label ∷ []) ++ (c ∷ d ∷ kept)) h)

  -- What the search returns serves the request under one of the host's candidate names.
  pub get_vhost-some :
      (name : Text) (v : Router A)
      → get_vhost r name path http_user ≡ some v
      → (c : Text) × IsCandidate name c × Serves c v
  unfolding get_vhost
  get_vhost-some name v = elim (Option-cases (find_router r name path http_user)) [
    | inr (w, hit) ↦ rw (hit, get_vhost) (λ h. (name, itself, find_router-some name v (hit ∙ h)))
    | inl miss ↦ elim (Option-cases (find_wildcard r (split b'.' name) path http_user)) [
      | inr (w, hit) ↦ rw (miss, get_vhost, hit) (λ h. wildcard-some name [] _ v refl (hit ∙ h))
      | inl later ↦ rw (miss, get_vhost, later) (λ h. (text "*", any_host, find_router-some _ v h))
    ]
  ]

  -- The search fails only where none of the host's candidate names serves the request.
  pub get_vhost-none :
      (name c : Text) → get_vhost r name path http_user ≡ none → IsCandidate name c → ServesNot c
  unfolding get_vhost
  get_vhost-none name c h itself = find_router-none name (ground arith)
  get_vhost-none name c h (wildcard dropped kept label x y e) = find_router-none _ (
      wildcard-none dropped kept label x y
        (rw e at (missed (find_wildcard r (split b'.' name) path http_user) refl)))
    where
      missed :
          (o : Option (Router A))
          → find_wildcard r (split b'.' name) path http_user ≡ o
          → find_wildcard r (split b'.' name) path http_user ≡ none
      missed none q = q
      missed (some w) q = ground arith
  get_vhost-none name c h any_host = find_router-none (text "*") (ground arith)

  get_vhost_chain :
      (name : Text)
      → get_vhost r name path http_user
        ≡ or_else (find_router r name path http_user) (
            or_else
              (find_wildcard r (split b'.' name) path http_user)
              (find_router r (text "*") path http_user))
  unfolding get_vhost
  get_vhost_chain name = ground arith

  -- For a host of three labels only the star for the first label and the star alone are tried after
  -- the host itself: a router registered for `*.` and the last label is not looked for.
  pub get_vhost_three :
      (a b c : Text)
      → Lacks b'.' a
      → Lacks b'.' b
      → Lacks b'.' c
      → let find = λ (name : Text). find_router r name path http_user in
        get_vhost r (join b'.' (a ∷ b ∷ c ∷ [])) path http_user
        ≡ or_else
            (find (join b'.' (a ∷ b ∷ c ∷ [])))
            (or_else (find (join b'.' (text "*" ∷ b ∷ c ∷ []))) (find (text "*")))
  unfolding find_wildcard
  get_vhost_three a b c la lb lc =
      rw (get_vhost_chain, split-join b'.' a (b ∷ c ∷ []) la (lb, (lc, tt))) (ground arith)
