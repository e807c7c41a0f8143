-- ===== src/Util/FeatureGate/Locked.antt =====
-- A locked feature keeps its default.
use frpcv.Prelude.{
  Bool-cases, Option-cases, Text, text_beq_iff, text_eq, nat_eq, ◌==◌, if_both, Dict, lookup,
  insert, lookup-insert, ◌≡◌, refl, sym, ap, ◌∙◌, inl, inr, Bool, true, false, not, some, [], ◌∷◌,
}
use frpcv.Util.FeatureGate.{
  FeatureSpec, FeatureGate, SetResult, set, unrecognized, locked, AddResult, added, different_spec,
  gate_closed, new_feature_gate, same_bool, same_spec, refuses, set_each, persist_enabled,
  set_from_map, add_each, persist_known, add, is_enabled,
}

-- Each setting is one of a known feature, and the default if that is locked.
pub record Inv (f : FeatureGate) : Type 0 where
  pub respects :
      (k : Text) (v : Bool)
      → lookup k f.enabled ≡ some v
      → (spec : FeatureSpec) × (lookup k f.known ≡ some spec) × (refuses spec v ≡ false)

-- The invariant of settings that the loop has made, and of features that it knows.
Respects : Dict Text FeatureSpec → Dict Text Bool → Type 0
Respects known enabled =
    (k : Text) (v : Bool)
    → lookup k enabled ≡ some v
    → (spec : FeatureSpec) × (lookup k known ≡ some spec) × (refuses spec v ≡ false)

insert-Respects :
    (known : Dict Text FeatureSpec) (enabled : Dict Text Bool) (k : Text) (v : Bool)
    (spec : FeatureSpec)
    → lookup k known ≡ some spec
    → refuses spec v ≡ false
    → Respects known enabled
    → Respects known (insert k v enabled)
unfolding Respects
insert-Respects known enabled k v spec e f h j w g =
    let at = sym (lookup-insert k j v enabled) ∙ g in
    elim (Bool-cases (k == j)) [
      | inl y ↦
          let same : k ≡ j = (text_beq_iff k j).0 y in
          let z : some v ≡ some w = rw y at at in
          let values : v ≡ w = cc in
          (spec, ap (λ n. lookup n known) (sym same) ∙ e, ap (refuses spec) (sym values) ∙ f)
      | inr n ↦ h j w (rw n at at)
    ]

Settles : FeatureGate → SetResult → Type 0
Settles f r = Respects f.known (persist_enabled f r).enabled

set_each-Settles :
    (f : FeatureGate) (m enabled : Dict Text Bool)
    → Respects f.known f.enabled
    → Respects f.known enabled
    → Settles f (set_each f.known m enabled)
unfolding set_each Settles
set_each-Settles f [] enabled o h = h
set_each-Settles f ((k, v) ∷ m) enabled o h = elim (Option-cases (lookup k f.known)) [
  | inl e ↦ rw (e, set_each) o
  | inr (spec, e) ↦ elim (Bool-cases (refuses spec v)) [
    | inl y ↦ rw (e, y, set_each) o
    | inr n ↦
        rw (e, n, set_each)
          (set_each-Settles f m (insert k v enabled) o
            (insert-Respects f.known enabled k v spec e n h))
  ]
]

-- A feature that is known stays known with its specification.
abbrev Extends : Dict Text FeatureSpec → Dict Text FeatureSpec → Type 0
Extends known more =
    (k : Text) (spec : FeatureSpec) → lookup k known ≡ some spec → lookup k more ≡ some spec

Grows : FeatureGate → AddResult → Type 0
Grows f r = Extends f.known (persist_known f r).known

grown : (f : FeatureGate) (r : AddResult) → Extends f.known (persist_known f r).known → Grows f r
unfolding Grows
grown f r h = h

add_each-Grows :
    (f : FeatureGate) (features known : Dict Text FeatureSpec)
    → Extends f.known known
    → Grows f (add_each features known)
unfolding add_each
add_each-Grows f [] known h = grown f (added known) h
add_each-Grows f ((name, spec) ∷ features) known h = elim (Option-cases (lookup name known)) [
  | inl e ↦
      rw (e, add_each)
        (add_each-Grows f features (insert name spec known) (λ k s l.
          let there = h k s l in
          lookup-insert name k spec known ∙ (elim (Bool-cases (name == k)) [
            | inl y ↦ absurd (let same = ap (λ n. lookup n known) ((text_beq_iff name k).0 y) in cc)
            | inr n ↦ rw n there
          ])))
  | inr (old, e) ↦
      rw (e, add_each)
        (if_both (Grows f) (same_spec old spec) (add_each-Grows f features known h)
          (grown f (different_spec name) (λ k s l. l)))
]

settled : (f : FeatureGate) (r : SetResult) → Settles f r → Inv f → Inv (persist_enabled f r)
unfolding Settles Respects
settled f (set enabled) h v = record { respects = h }
settled f (unrecognized k) h v = v
settled f (locked k) h v = v

grown-Inv : (f : FeatureGate) (r : AddResult) → Grows f r → Inv f → Inv (persist_known f r)
unfolding Grows
grown-Inv f (added known) h v = record {
  respects = λ k w e. let (spec, l, n) = v.respects k w e in (spec, h k spec l, n);
}
grown-Inv f (different_spec k) h v = v
grown-Inv f gate_closed h v = v

pub data Step (f : FeatureGate) : FeatureGate → Type 0 where
  sets : (m : Dict Text Bool) → Step f (set_from_map f m).0
  adds : (features : Dict Text FeatureSpec) → Step f (add f features).0

pub data Reach : FeatureGate → Type 0 where
  start : Reach new_feature_gate
  next : {f g : FeatureGate} → Reach f → Step f g → Reach g

Added : FeatureGate × AddResult → Type 0
Added r = Inv r.0

Step-Inv : {f g : FeatureGate} → Step f g → Inv f → Inv g
unfolding set_from_map add Respects Added
Step-Inv {f} (sets m) v =
    settled f (set_each f.known m f.enabled) (set_each-Settles f m f.enabled v.respects v.respects)
      v
Step-Inv {f} (adds features) v =
    if_both Added f.closed v
      (grown-Inv f (add_each features f.known) (add_each-Grows f features f.known (λ k s l. l)) v)

Reach-Inv : {f : FeatureGate} → Reach f → Inv f
unfolding new_feature_gate lookup
Reach-Inv start = record { respects = λ k v e. absurd (cc) }
Reach-Inv (next r s) = Step-Inv s (Reach-Inv r)

refuses-locked :
    (spec : FeatureSpec) (v : Bool)
    → spec.lock_to_default ≡ true
    → refuses spec v ≡ false
    → v ≡ spec.default
unfolding refuses
refuses-locked spec v l n = by_default spec.default v (rw l at n)
  where
    by_default : (d w : Bool) → not (same_bool d w) ≡ false → w ≡ d
    by_default true true h = refl
    by_default true false h = absurd (cc)
    by_default false true h = absurd (cc)
    by_default false false h = refl

-- After any settings and additions of features, accepted or not, a feature that is locked has its default.
pub Reach-Locked :
    {f : FeatureGate}
    → Reach f
    → (k : Text) (spec : FeatureSpec) → lookup k f.known ≡ some spec
    → spec.lock_to_default ≡ true
    → is_enabled f k ≡ spec.default
unfolding is_enabled
Reach-Locked {f} r k spec e l = elim (Option-cases (lookup k f.enabled)) [
  | inl n ↦ rw (n, e) refl
  | inr (v, y) ↦
      let (s, there, allowed) = (Reach-Inv r).respects k v y in
      let found = sym e ∙ there in
      let same : spec ≡ s = cc in
      rw y (refuses-locked spec v l (ap (λ t. refuses t v) same ∙ allowed))
]
