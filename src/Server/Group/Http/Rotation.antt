-- ===== src/Server/Group/Http/Rotation.antt =====
-- The round robin of the requests over the proxies of a group.
use native.Mathlib.Nat.{mod-eq_of_lt, mod-add-mod, add-mod_right}
use frpcv.Prelude.{
  leb, Bool-cases, Text, text_eq, nat_eq, length, get_elem?, lookup, ℕ, zero, suc, ◌+◌, ◌-◌, ◌%◌,
  ◌^◌, ◌<◌, ◌≡◌, refl, sym, ap, ◌∙◌, inl, inr, none, some, List, [], ◌∷◌, arith,
}
use frpcv.Server.Group.Http.{HttpGroup, advance, name_at, func_of, create_conn}

-- The group after a number of requests.
pub requests : ℕ → HttpGroup → HttpGroup
requests zero hg = hg
requests (suc i) hg = (create_conn (requests i hg)).0

requests_lem :
    (i : ℕ) (hg : HttpGroup)
    → hg.index + i < 2 ^ 64
    → ((requests i hg).index ≡ hg.index + i)
      × ((requests i hg).pxy_names ≡ hg.pxy_names)
      × ((requests i hg).create_funcs ≡ hg.create_funcs)
unfolding requests create_conn advance
requests_lem zero hg h = (omega arith, refl, refl)
requests_lem (suc i) hg h = let (a, b, c) = requests_lem i hg (omega arith) in (omega arith, b, c)

-- Any residue is reached by adding less than the modulus.
add-mod_reach : (a j n : ℕ) → j < n → (i : ℕ) × (i < n) × ((a + i) % n ≡ j)
add-mod_reach a j n h =
    let r : a % n < n = omega arith in
    elim (Bool-cases (leb (a % n) j)) [
      | inl e ↦ (
        j - a % n,
        ground arith,
        sym (mod-add-mod a n (j - a % n)) ∙ ap (λ (k : ℕ). k % n) (ground arith) ∙ mod-eq_of_lt h,
      )
      | inr e ↦ (
        j + n - a % n,
        ground arith,
        sym (mod-add-mod a n (j + n - a % n))
            ∙ ap (λ (k : ℕ). k % n) (ground arith)
            ∙ add-mod_right j n
            ∙ mod-eq_of_lt h,
      )
    ]

get_elem?-length :
    (names : List Text) (j : ℕ) (name : Text) → get_elem? names j ≡ some name → j < length names
get_elem?-length [] j name h = absurd (cc)
get_elem?-length (n ∷ names) zero name h = omega arith
get_elem?-length (n ∷ names) (suc j) name h = omega (arith, get_elem?-length names j name)

serves :
    (hg : HttpGroup) (name : Text)
    → name_at (advance hg) ≡ some name
    → (create_conn hg).1 ≡ func_of hg name
unfolding create_conn advance func_of
serves hg name h = rw (h, create_conn) refl

name_at-advance :
    (hg : HttpGroup) (names : List Text) (k : ℕ)
    → hg.pxy_names ≡ names
    → (hg.index + 1) % 2 ^ 64 ≡ k
    → name_at (advance hg) ≡ get_elem? names (k % length names)
unfolding name_at advance
name_at-advance hg names k e f = cc

func_of-same :
    (a b : HttpGroup) (name : Text)
    → a.create_funcs ≡ b.create_funcs
    → func_of a name ≡ func_of b name
unfolding func_of
func_of-same a b name e = ap (λ d. elim (lookup name d) [ none ↦ none | some fn ↦ fn ]) e

-- As long as the index of 64 bits does not wrap around, any proxy of a group has its function called by
-- one of the next requests, as many as the group has proxies.
pub create_conn_fair :
    (hg : HttpGroup) (j : ℕ) (name : Text)
    → hg.index + length hg.pxy_names < 2 ^ 64
    → get_elem? hg.pxy_names j ≡ some name
    → (i : ℕ) × (i < length hg.pxy_names) × ((create_conn (requests i hg)).1 ≡ func_of hg name)
create_conn_fair hg j name w h =
    let n = length hg.pxy_names in
    let (i, lt, e) = add-mod_reach (hg.index + 1) j n (get_elem?-length hg.pxy_names j name h) in
    let (a, b, c) = requests_lem i hg (omega arith) in
    let y : ((requests i hg).index + 1) % 2 ^ 64 ≡ hg.index + 1 + i = omega arith in
    let there = name_at-advance (requests i hg) hg.pxy_names (hg.index + 1 + i) b y in
    (
      i,
      lt,
      serves (requests i hg) name (there ∙ ap (λ (k : ℕ). get_elem? hg.pxy_names k) e ∙ h)
          ∙ func_of-same (requests i hg) hg name c,
    )
