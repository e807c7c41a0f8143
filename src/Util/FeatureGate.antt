-- ===== src/Util/FeatureGate.antt =====
-- src/pkg/policy/featuregate/feature_gate.go: the gates of features. A map that is passed in is given in the
-- order of its iteration. The texts for the user (String, KnownFeatures) are left out.
pub mod Locked
pub mod Setting
mod Examples
use frpcv.Prelude.{
  if◌then◌else◌, Text, text_eq, nat_eq, text, Dict, lookup, insert, Bool, true, false, not, ◌&&◌,
  Option, none, some, [], ◌∷◌,
}

pub data FeatureStage : Type 0 where
  alpha beta ga : FeatureStage

pub record FeatureSpec : Type 0 where
  pub default : Bool
  pub lock_to_default : Bool
  pub stage : FeatureStage

pub record FeatureGate : Type 0 where
  pub known : Dict Text FeatureSpec
  pub enabled : Dict Text Bool
  pub closed : Bool

pub data SetResult : Type 0 where
  set : Dict Text Bool → SetResult
  unrecognized locked : Text → SetResult

pub data AddResult : Type 0 where
  added : Dict Text FeatureSpec → AddResult
  different_spec : Text → AddResult
  gate_closed : AddResult

abbrev pub default_features : Dict Text FeatureSpec
default_features =
    (text "VirtualNet", record { default = false; lock_to_default = false; stage = alpha }) ∷ []

unfoldable pub new_feature_gate : FeatureGate
new_feature_gate = record { known = default_features; enabled = []; closed = false }

abbrev pub same_bool : Bool → Bool → Bool
same_bool true b = b
same_bool false b = not b

abbrev pub same_stage : FeatureStage → FeatureStage → Bool
same_stage alpha alpha = true
same_stage beta beta = true
same_stage ga ga = true
same_stage _ _ = false

-- existingSpec == spec
abbrev pub same_spec : FeatureSpec → FeatureSpec → Bool
same_spec a b =
    same_bool a.default b.default
    && same_bool a.lock_to_default b.lock_to_default
    && same_stage a.stage b.stage

-- The test of one setting of `SetFromMap`
unfoldable pub refuses : FeatureSpec → Bool → Bool
refuses spec v = spec.lock_to_default && not (same_bool spec.default v)

-- The loop of `SetFromMap`, on the copy of the settings.
unfoldable pub set_each : Dict Text FeatureSpec → Dict Text Bool → Dict Text Bool → SetResult
set_each known [] enabled = set enabled
set_each known ((k, v) ∷ m) enabled =
    let rest = set_each known m (insert k v enabled) in
    elim (lookup k known) [
      | none ↦ unrecognized k
      | some spec ↦ if refuses spec v then locked k else rest
    ]

abbrev pub persist_enabled : FeatureGate → SetResult → FeatureGate
persist_enabled f (set enabled) = record f { enabled = enabled }
persist_enabled f _ = f

unfoldable pub set_from_map : FeatureGate → Dict Text Bool → FeatureGate × SetResult
unfolding set_each
set_from_map f m = let r = set_each f.known m f.enabled in (persist_enabled f r, r)

-- The loop of `Add`
unfoldable pub add_each : Dict Text FeatureSpec → Dict Text FeatureSpec → AddResult
add_each [] known = added known
add_each ((name, spec) ∷ features) known =
    let rest = add_each features known in
    let more = add_each features (insert name spec known) in
    elim (lookup name known) [
      | none ↦ more
      | some existing ↦ if same_spec existing spec then rest else different_spec name
    ]

abbrev pub persist_known : FeatureGate → AddResult → FeatureGate
persist_known f (added known) = record f { known = known }
persist_known f _ = f

unfoldable pub add : FeatureGate → Dict Text FeatureSpec → FeatureGate × AddResult
unfolding add_each
add f features =
    if f.closed
    then (f, gate_closed)
    else (let r = add_each features f.known in (persist_known f r, r))

abbrev pub value_or : Option Bool → Option FeatureSpec → Bool
value_or (some v) spec = v
value_or none (some spec) = spec.default
value_or none none = false

-- `Enabled`
unfoldable pub is_enabled : FeatureGate → Text → Bool
is_enabled f key = value_or (lookup key f.enabled) (lookup key f.known)
