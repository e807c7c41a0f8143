-- ===== src/Config/Store/Outcome.antt =====
-- What the calls of the store do to a map, on each of their branches.
use frpcv.Prelude.{
  if◌then◌else◌, Bool-cases, Option-cases, Text, text_beq_iff, text_eq, nat_eq, ◌==◌, is_some, Dict,
  lookup, insert, erase, lookup-insert, lookup-erase, ◌≡◌, refl, ◌≢◌, ◌↔◌, inl, inr, Bool, true,
  ◌&&◌, none, some, [], arith,
}
use frpcv.Config.Store.{
  BaseConfig, is_done, add_named, add_to, update_named, update_in, remove_from,
}

module _ {C : Type 0} where
  rolled_back :
      (d : Dict Text C) (name k : Text) (c : C)
      → lookup name d ≡ none
      → lookup k (erase name (insert name c d)) ≡ lookup k d
  rolled_back d name k c h =
      let a = lookup-erase name k (insert name c d) in
      let b = lookup-insert name k c d in ground (arith, text_beq_iff name k)

  restored :
      (d : Dict Text C) (name k : Text) (c old : C)
      → lookup name d ≡ some old
      → lookup k (insert name old (insert name c d)) ≡ lookup k d
  restored d name k c old h =
      let a = lookup-insert name k old (insert name c d) in
      let b = lookup-insert name k c d in ground (arith, text_beq_iff name k)

  put_back :
      (d : Dict Text C) (name k : Text) (old : C)
      → lookup name d ≡ some old
      → lookup k (insert name old (erase name d)) ≡ lookup k d
  put_back d name k old h =
      let a = lookup-insert name k old (erase name d) in
      let b = lookup-erase name k d in ground (arith, text_beq_iff name k)

  -- Removing a name succeeds exactly when it is not empty, is there and the save succeeds. Then the map does
  -- not hold it any more; otherwise, and under any other name, the map is as before.
  pub remove_from-lookup :
      (d : Dict Text C) (name : Text) (saved : Bool) (k : Text)
      → let (e, r) = remove_from d name saved in
        ((is_done r ≡ true) ↔ ((name ≢ []) × (is_some (lookup name d) ≡ true) × (saved ≡ true)))
        × (lookup k e ≡ (if is_done r && (name == k) then none else lookup k d))
  unfolding remove_from is_done
  remove_from-lookup d name saved k = elim (Bool-cases (name == [])) [
    | inl e ↦ rw e ((λ h. absurd (cc), λ h. absurd (h.0 ((text_beq_iff name []).0 e))), refl)
    | inr e ↦ elim (Option-cases (lookup name d)) [
      | inl o ↦ rw (e, o) ((λ h. absurd (cc), λ h. absurd (let x = h.1 in cc)), refl)
      | inr (old, o) ↦ elim (Bool-cases saved) [
        | inl s ↦
            rw (e, o, s)
              (
                (λ h. (λ n. absurd (ground (arith, text_beq_iff name [])), refl, refl), λ h. refl),
                lookup-erase name k d,
              )
        | inr s ↦
            rw (e, o, s)
              ((λ h. absurd (cc), λ h. absurd (let x = h.2 in cc)), put_back d name k old o)
      ]
    ]
  ]

module _ {C : Type 0} (base : C → BaseConfig) where
  -- Adding a configuration succeeds exactly when its name is not empty and not taken and the save succeeds.
  -- Then the map holds it under its name; otherwise, and under any other name, the map is as before.
  pub add_to-lookup :
      (d : Dict Text C) (c : C) (saved : Bool) (k : Text)
      → let (e, r) = add_to base d (some c) saved in
        ((is_done r ≡ true)
          ↔ (((base c).name ≢ []) × (lookup (base c).name d ≡ none) × (saved ≡ true)))
        × (lookup k e ≡ (if is_done r && ((base c).name == k) then some c else lookup k d))
  unfolding add_to add_named is_done
  add_to-lookup d c saved k = elim (Bool-cases ((base c).name == [])) [
    | inl e ↦
        rw e ((λ h. absurd (cc), λ h. absurd (h.0 ((text_beq_iff (base c).name []).0 e))), refl)
    | inr e ↦ elim (Option-cases (lookup (base c).name d)) [
      | inr (old, o) ↦ rw (e, o) ((λ h. absurd (cc), λ h. absurd (let x = h.1 in cc)), refl)
      | inl o ↦ elim (Bool-cases saved) [
        | inl s ↦
            rw (e, o, s)
              (
                (
                  λ h. (λ n. absurd (ground (arith, text_beq_iff (base c).name [])), refl, refl),
                  λ h. refl,
                ),
                lookup-insert (base c).name k c d,
              )
        | inr s ↦
            rw (e, o, s)
              (
                (λ h. absurd (cc), λ h. absurd (let x = h.2 in cc)),
                rolled_back d (base c).name k c o,
              )
      ]
    ]
  ]

  -- Updating a configuration succeeds exactly when its name is not empty, it is there and the save
  -- succeeds. Then the map holds it under its name; otherwise, and under any other name, the map is as before.
  pub update_in-lookup :
      (d : Dict Text C) (c : C) (saved : Bool) (k : Text)
      → let (e, r) = update_in base d (some c) saved in
        ((is_done r ≡ true)
          ↔ (((base c).name ≢ []) × (is_some (lookup (base c).name d) ≡ true) × (saved ≡ true)))
        × (lookup k e ≡ (if is_done r && ((base c).name == k) then some c else lookup k d))
  unfolding update_in update_named is_done
  update_in-lookup d c saved k = elim (Bool-cases ((base c).name == [])) [
    | inl e ↦
        rw e ((λ h. absurd (cc), λ h. absurd (h.0 ((text_beq_iff (base c).name []).0 e))), refl)
    | inr e ↦ elim (Option-cases (lookup (base c).name d)) [
      | inl o ↦ rw (e, o) ((λ h. absurd (cc), λ h. absurd (let x = h.1 in cc)), refl)
      | inr (old, o) ↦ elim (Bool-cases saved) [
        | inl s ↦
            rw (e, o, s)
              (
                (
                  λ h. (λ n. absurd (ground (arith, text_beq_iff (base c).name [])), refl, refl),
                  λ h. refl,
                ),
                lookup-insert (base c).name k c d,
              )
        | inr s ↦
            rw (e, o, s)
              (
                (λ h. absurd (cc), λ h. absurd (let x = h.2 in cc)),
                restored d (base c).name k c old o,
              )
      ]
    ]
  ]
