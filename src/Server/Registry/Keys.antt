-- ===== src/Server/Registry/Keys.antt =====
-- Which users and client ids share a registry key.
use mathlib.Core.List.{append_assoc}
use frpcv.Prelude.{
  ◌==◌, nat_eq, Text, text_eq, eq_false, text, ◌≡◌, refl, ◌≢◌, Bool, true, not, ◌&&◌, [], ◌∷◌, ◌++◌,
  arith,
}
use frpcv.Server.Registry.{compose_client_key}

abbrev pub no_dot : Text → Bool
no_dot [] = true
no_dot (c ∷ s) = not (c == b'.') && no_dot s

-- The first dot of a text without dots before it splits the text in one way.
pub dot_split :
    (u w i j : Text)
    → no_dot u ≡ true
    → no_dot w ≡ true
    → u ++ b'.' ∷ i ≡ w ++ b'.' ∷ j
    → (u ≡ w) × (i ≡ j)
dot_split [] [] i j a b h = (refl, cc)
dot_split [] (d ∷ w) i j a b h = absurd (ground arith)
dot_split (c ∷ u) [] i j a b h = absurd (ground arith)
dot_split (c ∷ u) (d ∷ w) i j a b h =
    let rest = dot_split u w i j (ground arith) (ground arith) (ground arith) in
    (ground (arith, rest.0), rest.1)

compose_dotted :
    (user id : Text) → user ≢ [] → id ≢ [] → compose_client_key user id ≡ user ++ b'.' ∷ id
unfolding compose_client_key
compose_dotted user id nu ni = rw (eq_false user [] nu, eq_false id [] ni, append_assoc) refl

-- Two clients of users whose names have no dot share a key only if users and ids are the same.
pub compose_client_key-injective :
    (u w i j : Text)
    → no_dot u ≡ true
    → no_dot w ≡ true
    → u ≢ []
    → w ≢ []
    → i ≢ []
    → j ≢ []
    → compose_client_key u i ≡ compose_client_key w j
    → (u ≡ w) × (i ≡ j)
compose_client_key-injective u w i j a b nu nw ni nj h =
    dot_split u w i j a b (rw (compose_dotted u i nu ni, compose_dotted w j nw nj) at h)

dotted-ne-nil : (s t : Text) → s ++ text "." ++ t ≢ []
dotted-ne-nil [] t h = cc
dotted-ne-nil (c ∷ s) t h = cc

-- A dot moves freely between user and client id: the client `i.j` of the user `u` and the client `j` of the
-- user `u.i` have one key.
pub compose_client_key_clash :
    (u i j : Text)
    → u ≢ []
    → j ≢ []
    → compose_client_key u (i ++ text "." ++ j) ≡ compose_client_key (u ++ text "." ++ i) j
compose_client_key_clash u i j nu nj =
    rw
      (
        compose_dotted u (i ++ text "." ++ j) nu (dotted-ne-nil i j),
        compose_dotted (u ++ text "." ++ i) j (dotted-ne-nil u i) nj,
      )
      (simp append_assoc)
