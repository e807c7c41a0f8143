-- ===== src/Util/Vhost/Find.antt =====
-- `getListener` of src/pkg/util/vhost/vhost.go and `getVhost` of src/pkg/util/vhost/http.go: the same
-- search over the routers, which differ in the payload's type.
pub mod Candidates
use frpcv.Prelude.{Text, text_eq, nat_eq, text, ◌*◌, Option, none, some, List, [], ◌∷◌}
use frpcv.Util.Texts.{split, join}
use frpcv.Util.Vhost.Router.{Router, Routers, get}

module _ {A : Type 0} (r : Routers A) where
  -- `findRouter`: with the HTTP user, then for the routers that name no user
  unfoldable pub find_router : Text → Text → Text → Option (Router A)
  find_router name path http_user = elim (get r name path http_user) [
    | some vr ↦ some vr
    | none ↦ get r name path []
  ]

  -- The loop over the labels, which goes on while there are three or more of them.
  unfoldable pub find_wildcard : List Text → Text → Text → Option (Router A)
  find_wildcard (a ∷ b ∷ c ∷ rest) path http_user =
      let later = find_wildcard (b ∷ c ∷ rest) path http_user in
      elim (find_router (join b'.' (text "*" ∷ b ∷ c ∷ rest)) path http_user) [
        | some vr ↦ some vr
        | none ↦ later
      ]
  find_wildcard _ path http_user = none

  unfoldable pub get_vhost : Text → Text → Text → Option (Router A)
  get_vhost name path http_user = elim (find_router name path http_user) [
    | some vr ↦ some vr
    | none ↦ elim (find_wildcard (split b'.' name) path http_user) [
      | some vr ↦ some vr
      | none ↦ find_router (text "*") path http_user
    ]
  ]
