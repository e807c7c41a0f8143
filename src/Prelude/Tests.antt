-- ===== src/Prelude/Tests.antt =====
-- Boolean tests on the native numbers, the conditional, and the equality interface of map keys.
use Prim.Native.Nat.{ℕ, compare, Ordering}
use mathlib.Core.Path.{◌≡◌, refl}
use mathlib.Core.Logic.{◌↔◌, ◌⊎◌, inl, inr}
use mathlib.Core.Bool.{Bool, true, false, ◌&&◌}
use mathlib.Core.Option.{Option, none, some}
use mathlib.Core.List.{List, [], ◌∷◌}
use native.Mathlib.Omega.{arith}

-- These compute to `compare`, which `ground` and `grind` read with no lemma listed.
abbrev pub ltb : ℕ → ℕ → Bool
ltb a b = elim (compare a b) [ Ordering.lt ↦ true | _ ↦ false ]

abbrev pub leb : ℕ → ℕ → Bool
leb a b = elim (compare a b) [ Ordering.gt ↦ false | _ ↦ true ]

abbrev pub nat_beq : ℕ → ℕ → Bool
nat_beq a b = elim (compare a b) [ Ordering.eq ↦ true | _ ↦ false ]

infix 1 if◌then◌else◌
abbrev pub if◌then◌else◌ {ℓ} : {A : Type ℓ} → Bool → A → A → A
if true then x else y = x
if false then x else y = y

pub nat_beq_iff : (a b : ℕ) → (nat_beq a b ≡ true) ↔ (a ≡ b)
nat_beq_iff a b = ground arith

-- To split on a computed value and keep the equation.
pub Bool-cases : (b : Bool) → (b ≡ true) ⊎ (b ≡ false)
Bool-cases true = inl refl
Bool-cases false = inr refl

pub Option-cases {ℓ} : {A : Type ℓ} (o : Option A) → (o ≡ none) ⊎ ((a : A) × (o ≡ some a))
Option-cases none = inl refl
Option-cases (some a) = inr (a, refl)

-- The types that Go's `==` compares.
pub record HasEq {ℓ} (K : Type ℓ) : Type ℓ where
  pub test : (j k : K) → Bool
  -- The test decides equality.
  pub test_iff : (j k : K) → (test j k ≡ true) ↔ (j ≡ k)

-- A Go string is the sequence of its bytes.
abbrev pub Text : Type 0
Text = List ℕ

unfoldable pub text_beq : Text → Text → Bool
text_beq [] [] = true
text_beq [] (d ∷ t) = false
text_beq (c ∷ s) [] = false
text_beq (c ∷ s) (d ∷ t) = nat_beq c d && text_beq s t

text_beq_sound : (s t : Text) → text_beq s t ≡ true → s ≡ t
unfolding text_beq
text_beq_sound [] [] h = refl
text_beq_sound [] (d ∷ t) h = cc
text_beq_sound (c ∷ s) [] h = cc
text_beq_sound (c ∷ s) (d ∷ t) h = ground (arith, text_beq_sound s t)

pub text_beq_refl : (s : Text) → text_beq s s ≡ true
unfolding text_beq
text_beq_refl [] = refl
text_beq_refl (c ∷ s) = ground (arith, text_beq_refl s)

text_beq_complete : (s t : Text) → s ≡ t → text_beq s t ≡ true
text_beq_complete s t e = rw e (text_beq_refl t)

pub text_beq_iff : (s t : Text) → (text_beq s t ≡ true) ↔ (s ≡ t)
text_beq_iff s t = (text_beq_sound s t, text_beq_complete s t)

instance abbrev pub text_eq : HasEq Text
text_eq = record { test_iff = text_beq_iff; test = text_beq }

instance abbrev pub nat_eq : HasEq ℕ
nat_eq = record { test_iff = nat_beq_iff; test = nat_beq }

abbrev pub ◌==◌ {ℓ} : {K : Type ℓ} ⦃h : HasEq K⦄ → (j k : K) → Bool
◌==◌ ⦃h⦄ j k = h.test j k

infix 50 ◌==◌
-- An equality test on equal and on unequal values.
module _ {ℓ} {A : Type ℓ} ⦃e : HasEq A⦄ where
  pub eq_refl : (a : A) → (a == a) ≡ true
  eq_refl a = (e.test_iff a a).1 refl

  pub eq_false : (a b : A) → ¬ (a ≡ b) → (a == b) ≡ false
  eq_false a b ne = elim (Bool-cases (a == b)) [
    | inl t ↦ absurd (ne ((e.test_iff a b).0 t))
    | inr f ↦ f
  ]

-- A conditional has what both of its branches have.
pub if_both {ℓ κ} :
    {T : Type ℓ} (Q : T → Type κ) (test : Bool) {s t : T}
    → (yes_case : Q s) → (no_case : Q t) → Q (if test then s else t)
if_both Q false p q = q
if_both Q true p q = p
