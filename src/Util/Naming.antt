-- ===== src/Util/Naming.antt =====
-- src/pkg/naming/names.go: the proxy names on the wire.
mod Examples
use frpcv.Prelude.{
  if◌then◌else◌, Bool-cases, Option-cases, Text, text_eq, nat_eq, ◌==◌, text, ◌+◌, ◌≡◌, refl, sym,
  ◌⊎◌, inl, inr, not, Option, none, some, [], ◌∷◌, ◌++◌, arith,
}

unfoldable pub add_user_prefix : Text → Text → Text
add_user_prefix user name = if user == [] then name else user ++ text "." ++ name

-- strings.CutPrefix
pub cut_prefix : Text → Text → Option Text
cut_prefix s [] = some s
cut_prefix [] (d ∷ p) = none
cut_prefix (c ∷ s) (d ∷ p) = let rest = cut_prefix s p in if c == d then rest else none

unfoldable pub strip_user_prefix : Text → Text → Text
strip_user_prefix user name =
    if user == []
    then name
    else elim (cut_prefix name (user ++ text ".")) [ none ↦ name | some trimmed ↦ trimmed ]

unfoldable pub build_target_server_proxy_name : Text → Text → Text → Text
unfolding add_user_prefix
build_target_server_proxy_name local_user server_user server_name =
    if not (server_user == [])
    then add_user_prefix server_user server_name
    else add_user_prefix local_user server_name

cut_prefix-append : (p s : Text) → cut_prefix (p ++ s) p ≡ some s
unfolding cut_prefix
cut_prefix-append [] [] = refl
cut_prefix-append [] (c ∷ s) = refl
cut_prefix-append (c ∷ p) s = ground (arith, cut_prefix-append p s)

-- Stripping the user's prefix gives back the name to which it was added.
pub strip-add : (user name : Text) → strip_user_prefix user (add_user_prefix user name) ≡ name
unfolding strip_user_prefix add_user_prefix
strip-add user name = elim (Bool-cases (user == [])) [
  | inl e ↦ rw e
  | inr e ↦ rw (e, cut_prefix-append (user ++ text ".") name)
]

cut_prefix-some : (s p t : Text) → cut_prefix s p ≡ some t → s ≡ p ++ t
unfolding cut_prefix
cut_prefix-some [] [] t h = ground arith
cut_prefix-some (c ∷ s) [] t h = ground arith
cut_prefix-some [] (d ∷ p) t h = cc
cut_prefix-some (c ∷ s) (d ∷ p) t h = ground (arith, cut_prefix-some s p t)

-- Stripping changes a name only if it carries the user's prefix, which adding puts back.
pub strip-cases :
    (user name : Text)
    → (strip_user_prefix user name ≡ name)
      ⊎ (add_user_prefix user (strip_user_prefix user name) ≡ name)
unfolding strip_user_prefix add_user_prefix
strip-cases user name = elim (Bool-cases (user == [])) [
  | inl e ↦ inl (rw e)
  | inr e ↦ elim (Option-cases (cut_prefix name (user ++ text "."))) [
    | inl f ↦ inl (rw (e, f))
    | inr (t, f) ↦ inr (rw (e, f) (sym (cut_prefix-some name (user ++ text ".") t f)))
  ]
]
