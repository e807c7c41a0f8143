-- ===== src/Prelude/Keys.antt =====
-- Dictionaries in which no key stands twice, as in a Go map.
use mathlib.Core.Path.{◌≡◌, refl, sym, ap, ◌∙◌}
use mathlib.Core.Logic.{inl, inr}
use mathlib.Core.Bool.{Bool}
use mathlib.Core.List.{[], ◌∷◌}
use mathlib.Core.Option.{Option, none, some}
use native.Mathlib.Omega.{arith}
use frpcv.Prelude.Tests.{
  if◌then◌else◌, Bool-cases, Text, text_beq_iff, text_eq, nat_eq, ◌==◌, if_both,
}
use frpcv.Prelude.Maps.{Dict, lookup, insert, erase, lookup-insert, lookup-erase}

-- No key stands twice.
abbrev pub IsKeyed : {V : Type 0} → Dict Text V → Type 0
IsKeyed [] = Unit
IsKeyed ((k, v) ∷ d) = (lookup k d ≡ none) × IsKeyed d

module _ {V : Type 0} where
  -- The loop that deletes what fails a test.
  unfoldable pub keep_entries : (Text → V → Bool) → Dict Text V → Dict Text V
  keep_entries p [] = []
  keep_entries p ((k, v) ∷ d) = let rest = keep_entries p d in if p k v then (k, v) ∷ rest else rest

  abbrev pub kept : (Text → V → Bool) → Text → Option V → Option V
  kept p k none = none
  kept p k (some v) = if p k v then some v else none

  pub lookup-keep_entries :
      (p : Text → V → Bool) (k : Text) (d : Dict Text V)
      → IsKeyed d
      → lookup k (keep_entries p d) ≡ kept p k (lookup k d)
  unfolding lookup keep_entries
  lookup-keep_entries p k [] h = refl
  lookup-keep_entries p k ((j, v) ∷ d) (f, h) =
      let ih = lookup-keep_entries p k d h in
      elim (Bool-cases (j == k)) [
        | inl e ↦
            let same : j ≡ k = (text_beq_iff j k).0 e in
            let tested = ap (λ m. p m v) same in
            let gone : lookup k d ≡ none = sym (ap (λ m. lookup m d) same) ∙ f in
            let dropped : lookup k (keep_entries p d) ≡ none = ih ∙ ap (kept p k) gone in
            ground (arith, tested, dropped, e)
        | inr e ↦ ground (arith, ih, e)
      ]

  pub keep_entries-IsKeyed :
      (p : Text → V → Bool) (d : Dict Text V) → IsKeyed d → IsKeyed (keep_entries p d)
  unfolding keep_entries
  keep_entries-IsKeyed p [] h = tt
  keep_entries-IsKeyed p ((j, v) ∷ d) (f, h) =
      if_both IsKeyed (p j v)
        (lookup-keep_entries p j d h ∙ ap (kept p j) f, keep_entries-IsKeyed p d h)
        (keep_entries-IsKeyed p d h)

  pub insert-IsKeyed : (k : Text) (v : V) (d : Dict Text V) → IsKeyed d → IsKeyed (insert k v d)
  unfolding insert lookup
  insert-IsKeyed k v [] h = (refl, tt)
  insert-IsKeyed k v ((j, w) ∷ d) (f, h) = elim (Bool-cases (j == k)) [
    | inl e ↦ rw e (f, h)
    | inr e ↦ rw e (
      ground (arith, lookup-insert k j v d, text_beq_iff k j, text_beq_iff j k),
      insert-IsKeyed k v d h,
    )
  ]

  -- What is missing is not deleted.
  pub erase_missing : (k : Text) (d : Dict Text V) → lookup k d ≡ none → erase k d ≡ d
  unfolding lookup erase
  erase_missing k [] h = refl
  erase_missing k ((j, w) ∷ d) h = elim (Bool-cases (j == k)) [
    | inl e ↦ absurd (let z = rw e at h in cc)
    | inr e ↦
        let gone : lookup k d ≡ none = rw e at h in
        rw e (ap (λ r. (j, w) ∷ r) (erase_missing k d gone))
  ]

  pub erase-IsKeyed : (k : Text) (d : Dict Text V) → IsKeyed d → IsKeyed (erase k d)
  unfolding erase
  erase-IsKeyed k [] h = tt
  erase-IsKeyed k ((j, w) ∷ d) (f, h) =
      if_both IsKeyed (j == k) (erase-IsKeyed k d h)
        (lookup-erase k j d ∙ ground (arith, f), erase-IsKeyed k d h)
