-- ===== src/Util/FeatureGate/Setting.antt =====
-- What a setting from a map does.
use frpcv.Prelude.{
  if◌then◌else◌, Bool-cases, Option-cases, Text, text_eq, nat_eq, ◌==◌, All, Dict, lookup, insert,
  lookup-insert, ◌≡◌, refl, sym, ap, ◌∙◌, ◌⊎◌, inl, inr, Bool, false, Option, some, [], ◌∷◌,
}
use frpcv.Util.FeatureGate.{
  FeatureSpec, FeatureGate, SetResult, set, unrecognized, locked, refuses, set_each,
  persist_enabled, set_from_map, value_or, is_enabled,
}

-- A setting of a known feature, which is the default where the feature is locked to it.
abbrev pub IsAllowed : Dict Text FeatureSpec → Text × Bool → Type 0
IsAllowed known e =
    (spec : FeatureSpec) × (lookup e.0 known ≡ some spec) × (refuses spec e.1 ≡ false)

-- The value that a list of settings ends with, where the later ones win.
unfoldable pub overlay : Text → Dict Text Bool → Option Bool → Option Bool
overlay key [] old = old
overlay key ((k, v) ∷ m) old = overlay key m (if k == key then some v else old)

data Outcome (known : Dict Text FeatureSpec) (m enabled : Dict Text Bool) : SetResult → Type 0 where
  all_set :
      (enabled' : Dict Text Bool)
      → All (IsAllowed known) m
      → ((key : Text) → lookup key enabled' ≡ overlay key m (lookup key enabled))
      → Outcome known m enabled (set enabled')
  not_known : (k : Text) → ¬ All (IsAllowed known) m → Outcome known m enabled (unrecognized k)
  not_default : (k : Text) → ¬ All (IsAllowed known) m → Outcome known m enabled (locked k)

-- One allowed setting more.
one_more :
    (known : Dict Text FeatureSpec) (k : Text) (v : Bool) (m enabled : Dict Text Bool)
    (r : SetResult)
    → IsAllowed known (k, v)
    → Outcome known m (insert k v enabled) r
    → Outcome known ((k, v) ∷ m) enabled r
unfolding overlay
one_more known k v m enabled _ a (all_set enabled' h l) =
    all_set enabled' (a, h) (λ key. l key ∙ ap (overlay key m) (lookup-insert k key v enabled))
one_more known k v m enabled _ a (not_known j n) = not_known j (λ h. n h.1)
one_more known k v m enabled _ a (not_default j n) = not_default j (λ h. n h.1)

set_each-Outcome :
    (known : Dict Text FeatureSpec) (m enabled : Dict Text Bool)
    → Outcome known m enabled (set_each known m enabled)
unfolding set_each overlay
set_each-Outcome known [] enabled = all_set enabled tt (λ key. refl)
set_each-Outcome known ((k, v) ∷ m) enabled = elim (Option-cases (lookup k known)) [
  | inl e ↦ rw (e, set_each) (not_known k (λ h. let s = h.0.1 in cc))
  | inr (spec, e) ↦ elim (Bool-cases (refuses spec v)) [
    | inl y ↦
        rw (e, y, set_each)
          (not_default k (λ h.
            let found = sym e ∙ h.0.1 in
            let same : spec ≡ h.0.0 = cc in
            let refused = ap (λ s. refuses s v) (sym same) ∙ y in let allowed = h.0.2 in cc))
    | inr n ↦
        rw (e, n, set_each)
          (one_more known k v m enabled _ (spec, e, n)
            (set_each-Outcome known m (insert k v enabled)))
  ]
]

-- Either each setting of the map is allowed, and then each feature has afterwards the last value that is
-- given for it, or the value it had; or some setting is not allowed, and nothing is changed.
pub set_from_map-cases :
    (f : FeatureGate) (m : Dict Text Bool)
    → (All (IsAllowed f.known) m
        × ((key : Text)
            → is_enabled (set_from_map f m).0 key
              ≡ value_or (overlay key m (lookup key f.enabled)) (lookup key f.known)))
      ⊎ ((¬ All (IsAllowed f.known) m) × ((set_from_map f m).0 ≡ f))
unfolding set_from_map is_enabled
set_from_map-cases f m =
    of_outcome (set_each f.known m f.enabled) (set_each-Outcome f.known m f.enabled)
  where
    of_outcome :
        (r : SetResult)
        → Outcome f.known m f.enabled r
        → (All (IsAllowed f.known) m
            × ((key : Text)
                → is_enabled (persist_enabled f r) key
                  ≡ value_or (overlay key m (lookup key f.enabled)) (lookup key f.known)))
          ⊎ ((¬ All (IsAllowed f.known) m) × (persist_enabled f r ≡ f))
    of_outcome _ (all_set enabled' h l) =
        inl (h, λ key. ap (λ o. value_or o (lookup key f.known)) (l key))
    of_outcome _ (not_known k n) = inr (n, refl)
    of_outcome _ (not_default k n) = inr (n, refl)
