-- ===== src/Prelude/Maps.antt =====
-- Go maps. `Map` is for a map that the program never ranges over nor measures: a partial function.
-- `Dict` is an association list, for a map whose length or iteration the program uses.
use mathlib.Core.Path.{◌≡◌, refl}
use mathlib.Core.Bool.{Bool, true, false}
use mathlib.Core.List.{List, [], ◌∷◌}
use mathlib.Core.Option.{Option, none, some}
use native.Mathlib.Omega.{arith}
use frpcv.Prelude.Tests.{HasEq, ◌==◌, if◌then◌else◌}

abbrev pub Map {ℓ κ} : Type ℓ → Type κ → Type (ℓ ⊔ κ)
Map K V = K → Option V

abbrev pub is_some {ℓ} : {A : Type ℓ} → Option A → Bool
is_some none = false
is_some (some a) = true

-- The first of two options that is there.
abbrev pub or_else {ℓ} : {A : Type ℓ} → Option A → Option A → Option A
or_else none o = o
or_else (some a) o = some a

module _ {ℓ κ} {K : Type ℓ} {V : Type κ} where
  abbrev pub no_entries : Map K V
  no_entries k = none

module _ {ℓ κ} {K : Type ℓ} ⦃e : HasEq K⦄ {V : Type κ} where
  -- m[k] = v
  abbrev pub put : K → V → Map K V → Map K V
  put k v m j = if k == j then some v else m j

  -- delete(m, k)
  abbrev pub del : K → Map K V → Map K V
  del k m j = if k == j then none else m j

abbrev pub Dict {ℓ κ} : Type ℓ → Type κ → Type (ℓ ⊔ κ)
Dict K V = List (K × V)

module _ {ℓ κ} {K : Type ℓ} ⦃e : HasEq K⦄ {V : Type κ} where
  unfoldable pub lookup : K → Dict K V → Option V
  lookup k [] = none
  lookup k ((j, v) ∷ d) = if j == k then some v else lookup k d

  -- d[k] = v: the entry is replaced where it stands, and a new one comes last.
  unfoldable pub insert : K → V → Dict K V → Dict K V
  insert k v [] = (k, v) ∷ []
  insert k v ((j, w) ∷ d) = if j == k then (j, v) ∷ d else (j, w) ∷ insert k v d

  -- delete(d, k)
  unfoldable pub erase : K → Dict K V → Dict K V
  erase k [] = []
  erase k ((j, w) ∷ d) = let rest = erase k d in if j == k then rest else (j, w) ∷ rest

  pub lookup-insert :
      (k j : K) (v : V) (d : Dict K V)
      → lookup j (insert k v d) ≡ (if k == j then some v else lookup j d)
  unfolding lookup insert
  lookup-insert k j v [] = refl
  lookup-insert k j v ((i, w) ∷ d) =
      ground (arith, e.test_iff k j, e.test_iff i k, e.test_iff i j, lookup-insert k j v d)

  pub lookup-erase :
      (k j : K) (d : Dict K V) → lookup j (erase k d) ≡ (if k == j then none else lookup j d)
  unfolding lookup erase
  lookup-erase k j [] = ground arith
  lookup-erase k j ((i, w) ∷ d) =
      ground (arith, e.test_iff k j, e.test_iff i k, e.test_iff i j, lookup-erase k j d)
