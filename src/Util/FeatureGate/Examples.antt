-- ===== src/Util/FeatureGate/Examples.antt =====
-- Tests of the feature gates, and their theorems at concrete inputs.
use frpcv.Prelude.{
  Text, text_beq, text_eq, nat_eq, text, All, Dict, lookup, insert, ◌≡◌, refl, ◌⊎◌, Bool, true,
  false, some, [], ◌∷◌,
}
use frpcv.Util.FeatureGate.{
  beta, FeatureSpec, FeatureGate, unrecognized, locked, new_feature_gate, refuses, set_each,
  set_from_map, add_each, add, value_or, is_enabled,
}
use frpcv.Util.FeatureGate.Setting.{IsAllowed, overlay, set_from_map-cases}
use frpcv.Util.FeatureGate.Locked.{adds, start, next, Reach-Locked}

abbrev settings : Dict Text Bool
settings = (text "VirtualNet", true) ∷ []

abbrev fixed : FeatureSpec
fixed = record { default = true; lock_to_default = true; stage = beta }

abbrev extended : FeatureGate
extended = (add new_feature_gate ((text "Fixed", fixed) ∷ [])).0

set_from_map_test : is_enabled (set_from_map new_feature_gate settings).0 (text "VirtualNet") ≡ true
unfolding set_from_map set_each new_feature_gate is_enabled lookup insert refuses text_beq
set_from_map_test = refl

unrecognized_test :
    (set_from_map new_feature_gate ((text "X", true) ∷ [])).1 ≡ unrecognized (text "X")
unfolding set_from_map set_each new_feature_gate lookup text_beq
unrecognized_test = refl

locked_test : (set_from_map extended ((text "Fixed", false) ∷ [])).1 ≡ locked (text "Fixed")
unfolding set_from_map set_each new_feature_gate add add_each lookup insert refuses text_beq
locked_test = refl

set_from_map-cases_holds :
    (All (IsAllowed new_feature_gate.known) settings
      × ((key : Text)
          → is_enabled (set_from_map new_feature_gate settings).0 key
            ≡ value_or
                (overlay key settings (lookup key new_feature_gate.enabled))
                (lookup key new_feature_gate.known)))
    ⊎ ((¬ All (IsAllowed new_feature_gate.known) settings)
        × ((set_from_map new_feature_gate settings).0 ≡ new_feature_gate))
set_from_map-cases_holds = set_from_map-cases new_feature_gate settings

known : lookup (text "Fixed") extended.known ≡ some fixed
unfolding new_feature_gate add add_each lookup insert text_beq
known = refl

Reach-Locked_example : is_enabled extended (text "Fixed") ≡ true
Reach-Locked_example =
    Reach-Locked (next start (adds ((text "Fixed", fixed) ∷ []))) (text "Fixed") fixed known refl
