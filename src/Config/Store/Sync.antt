-- ===== src/Config/Store/Sync.antt =====
-- The store's memory and its file, and the replacement of all configurations.
use frpcv.Prelude.{
  if◌then◌else◌, Bool-cases, Text, text_eq, nat_eq, ◌==◌, or_else, Dict, lookup, insert,
  lookup-insert, ◌≡◌, refl, ap, ◌∙◌, ◌⊎◌, inl, inr, Bool, true, false, Option, none, some, List, [],
  ◌∷◌, arith,
}
use frpcv.Config.Store.{
  BaseConfig, OpResult, is_done, add_to, update_in, collect, remove_from, Maps, StoreSource, commit,
  add_proxy, update_proxy, remove_proxy, add_visitor, update_visitor, remove_visitor, replace_all,
}
use frpcv.Config.Store.Outcome.{remove_from-lookup, add_to-lookup, update_in-lookup}

-- Two maps that hold the same under every name.
unfoldable pub Same : {C : Type 0} → Dict Text C → Dict Text C → Type 0
Same d e = (k : Text) → lookup k d ≡ lookup k e

unfoldable pub SameMaps : {P V : Type 0} → Maps P V → Maps P V → Type 0
unfolding Same
SameMaps m n = Same m.proxies n.proxies × Same m.visitors n.visitors

unfoldable pub Synced : {P V : Type 0} → StoreSource P V → Type 0
unfolding SameMaps
Synced s = SameMaps s.memory s.file

module _ {C : Type 0} (base : C → BaseConfig) where
  add_to_failed :
      (d : Dict Text C) (c : Option C) (saved : Bool)
      → is_done (add_to base d c saved).1 ≡ false
      → Same (add_to base d c saved).0 d
  unfolding Same
  add_to_failed d none saved h k = (unfold add_to in refl)
  add_to_failed d (some c) saved h k = (add_to-lookup base d c saved k).1 ∙ rw h refl

  update_in_failed :
      (d : Dict Text C) (c : Option C) (saved : Bool)
      → is_done (update_in base d c saved).1 ≡ false
      → Same (update_in base d c saved).0 d
  unfolding Same
  update_in_failed d none saved h k = (unfold update_in in refl)
  update_in_failed d (some c) saved h k = (update_in-lookup base d c saved k).1 ∙ rw h refl

remove_from_failed :
    {C : Type 0} (d : Dict Text C) (name : Text) (saved : Bool)
    → is_done (remove_from d name saved).1 ≡ false
    → Same (remove_from d name saved).0 d
unfolding Same
remove_from_failed d name saved h k = (remove_from-lookup d name saved k).1 ∙ rw h refl

module _ {P V : Type 0} where
  commit-Synced :
      (s : StoreSource P V) (maps : Maps P V) (r : OpResult)
      → Synced s
      → (is_done r ≡ false → SameMaps maps s.memory)
      → Synced (commit s maps r)
  unfolding commit Synced SameMaps Same
  commit-Synced s maps r v h = elim (Bool-cases (is_done r)) [
    | inl e ↦ rw (e, commit) (λ k. refl, λ k. refl)
    | inr e ↦ rw (e, commit) (λ k. (h e).0 k ∙ v.0 k, λ k. (h e).1 k ∙ v.1 k)
  ]

  -- The calls that change the store, in any order; each save succeeds or fails.
  pub data Step (pbase : P → BaseConfig) (vbase : V → BaseConfig) (s : StoreSource P V)
      : StoreSource P V → Type 0 where
    adds_proxy : (p : Option P) (saved : Bool) → Step pbase vbase s (add_proxy pbase s p saved).0
    updates_proxy :
        (p : Option P) (saved : Bool) → Step pbase vbase s (update_proxy pbase s p saved).0
    removes_proxy : (name : Text) (saved : Bool) → Step pbase vbase s (remove_proxy s name saved).0
    adds_visitor :
        (v : Option V) (saved : Bool) → Step pbase vbase s (add_visitor vbase s v saved).0
    updates_visitor :
        (v : Option V) (saved : Bool) → Step pbase vbase s (update_visitor vbase s v saved).0
    removes_visitor :
        (name : Text) (saved : Bool) → Step pbase vbase s (remove_visitor s name saved).0

  Step-Synced :
      {pbase : P → BaseConfig} {vbase : V → BaseConfig} {s t : StoreSource P V}
      → Synced s
      → Step pbase vbase s t
      → Synced t
  unfolding add_proxy update_proxy remove_proxy add_visitor update_visitor remove_visitor SameMaps
      Same
  Step-Synced {pbase} {vbase} {s} v (adds_proxy p saved) =
      commit-Synced s _ _ v (λ h. (add_to_failed pbase s.memory.proxies p saved h, λ k. refl))
  Step-Synced {pbase} {vbase} {s} v (updates_proxy p saved) =
      commit-Synced s _ _ v (λ h. (update_in_failed pbase s.memory.proxies p saved h, λ k. refl))
  Step-Synced {pbase} {vbase} {s} v (removes_proxy name saved) =
      commit-Synced s _ _ v (λ h. (remove_from_failed s.memory.proxies name saved h, λ k. refl))
  Step-Synced {pbase} {vbase} {s} v (adds_visitor w saved) =
      commit-Synced s _ _ v (λ h. (λ k. refl, add_to_failed vbase s.memory.visitors w saved h))
  Step-Synced {pbase} {vbase} {s} v (updates_visitor w saved) =
      commit-Synced s _ _ v (λ h. (λ k. refl, update_in_failed vbase s.memory.visitors w saved h))
  Step-Synced {pbase} {vbase} {s} v (removes_visitor name saved) =
      commit-Synced s _ _ v (λ h. (λ k. refl, remove_from_failed s.memory.visitors name saved h))

  pub data Steps (pbase : P → BaseConfig) (vbase : V → BaseConfig) (s : StoreSource P V)
      : StoreSource P V → Type 0 where
    done : Steps pbase vbase s s
    more :
        {t u : StoreSource P V}
        → Steps pbase vbase s t
        → Step pbase vbase t u
        → Steps pbase vbase s u

  -- From a store whose file holds what its memory holds, any calls, whose saves succeed or fail, keep it
  -- so: the same proxies and the same visitors under every name.
  pub Steps-Synced :
      {pbase : P → BaseConfig} {vbase : V → BaseConfig} {s t : StoreSource P V}
      → Synced s
      → Steps pbase vbase s t
      → Synced t
  Steps-Synced v done = v
  Steps-Synced v (more l x) = Step-Synced (Steps-Synced v l) x

-- The last configuration of a name.
unfoldable pub last_named : {C : Type 0} → (C → BaseConfig) → Text → List (Option C) → Option C
last_named base k [] = none
last_named base k (none ∷ cs) = last_named base k cs
last_named base k (some c ∷ cs) =
    or_else (last_named base k cs) (if (base c).name == k then some c else none)

pub or_else_assoc :
    {C : Type 0} (a : Option C) (b : Bool) (c : C) (o : Option C)
    → or_else a (if b then some c else o) ≡ or_else (or_else a (if b then some c else none)) o
or_else_assoc none true c o = refl
or_else_assoc none false c o = refl
or_else_assoc (some a) b c o = refl

collect-lookup :
    {C : Type 0} (base : C → BaseConfig) (d : Dict Text C) (cs : List (Option C)) (k : Text)
    → is_done (collect base d cs).1 ≡ true
    → lookup k (collect base d cs).0 ≡ or_else (last_named base k cs) (lookup k d)
unfolding collect last_named is_done
collect-lookup base d [] k h = refl
collect-lookup base d (none ∷ cs) k h = absurd (cc)
collect-lookup base d (some c ∷ cs) k h = elim (Bool-cases ((base c).name == [])) [
  | inl e ↦ absurd (ground arith)
  | inr e ↦
      let ih = collect-lookup base (insert (base c).name c d) cs k (ground arith) in
      rw (e, collect)
        (ih
          ∙ ap (λ o. or_else (last_named base k cs) o) (lookup-insert (base c).name k c d)
          ∙ or_else_assoc (last_named base k cs) ((base c).name == k) c (lookup k d))
]

-- Replacing all configurations is atomic: if one is nil or has no name nothing is changed; otherwise each
-- name has the last configuration given with that name, and nothing else is left.
pub replace_all-lookup :
    {P V : Type 0} (pbase : P → BaseConfig) (vbase : V → BaseConfig) (s : Maps P V)
    (proxies : List (Option P)) (visitors : List (Option V)) (k : Text)
    → let (t, r) = replace_all pbase vbase s proxies visitors in
      ((is_done r ≡ false) × (t ≡ s))
      ⊎ ((is_done r ≡ true)
          × (lookup k t.proxies ≡ last_named pbase k proxies)
          × (lookup k t.visitors ≡ last_named vbase k visitors))
unfolding replace_all is_done lookup
replace_all-lookup pbase vbase s proxies visitors k =
    elim (Bool-cases (is_done (collect pbase [] proxies).1)) [
      | inr e ↦ rw (e, replace_all) (inl (e, refl))
      | inl e ↦ elim (Bool-cases (is_done (collect vbase [] visitors).1)) [
        | inr f ↦ rw (e, f, replace_all) (inl (f, refl))
        | inl f ↦
            rw (e, f, replace_all)
              (inr (
                refl,
                collect-lookup pbase [] proxies k e ∙ or_none (last_named pbase k proxies),
                collect-lookup vbase [] visitors k f ∙ or_none (last_named vbase k visitors),
              ))
      ]
    ]
  where
    or_none : {C : Type 0} (o : Option C) → or_else o none ≡ o
    or_none none = refl
    or_none (some c) = refl
