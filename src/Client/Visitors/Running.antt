-- ===== src/Client/Visitors/Running.antt =====
-- Which visitors run.
use frpcv.Prelude.{
  if◌then◌else◌, Bool-cases, Text, text_beq_iff, text_eq, nat_eq, ◌==◌, eq_refl, if_both, All,
  All-weaken, is_some, Dict, lookup, insert, erase, lookup-insert, lookup-erase, ℕ, ◌≡◌, refl, sym,
  ap, ◌∙◌, subst, ◌⊎◌, inl, inr, Bool, true, false, Option, none, some, [], ◌∷◌, arith,
}
use frpcv.Client.Keyed.{Configurer}
use frpcv.Client.Visitors.{Manager, start_visitor, start_missing}

abbrev pub Has : {V : Type 0} → Dict Text V → Text → Type 0
Has d n = is_some (lookup n d) ≡ true

pub insert-Has :
    {V : Type 0} (k : Text) (v : V) (d : Dict Text V) (n : Text) → Has d n → Has (insert k v d) n
insert-Has k v d n h = ap is_some (lookup-insert k n v d) ∙ ground (arith, h)

pub insert-Has-same : {V : Type 0} (k : Text) (v : V) (d : Dict Text V) → Has (insert k v d) k
insert-Has-same k v d = ap is_some (lookup-insert k k v d) ∙ ground (arith, eq_refl k)

pub erase-Has :
    {V : Type 0} (k : Text) (d : Dict Text V) (n : Text)
    → Has (erase k d) n
    → ((k == n) ≡ false) × Has d n
erase-Has k d n h =
    let at = sym (ap is_some (lookup-erase k n d)) ∙ h in
    elim (Bool-cases (k == n)) [
      | inl e ↦ absurd (let z = rw e at at in cc)
      | inr e ↦ (e, rw e at at)
    ]

pub Has-erase :
    {V : Type 0} (k : Text) (d : Dict Text V) (n : Text)
    → (k == n) ≡ false
    → Has d n
    → Has (erase k d) n
Has-erase k d n e h = ap is_some (lookup-erase k n d) ∙ rw e h

module _ {C : Type 0} (cfgr : Configurer C) where
  abbrev pub AreNamed : Dict Text C → Type 0
  AreNamed d = All (λ (e : Text × C). cfgr.name e.1 ≡ e.0) d

  pub insert-AreNamed : (c : C) (d : Dict Text C) → AreNamed d → AreNamed (insert (cfgr.name c) c d)
  unfolding insert
  insert-AreNamed c [] h = (refl, tt)
  insert-AreNamed c ((j, b) ∷ d) (e, h) = elim (Bool-cases (j == cfgr.name c)) [
    | inl y ↦ rw y (sym ((text_beq_iff j (cfgr.name c)).0 y), h)
    | inr n ↦ rw n (e, insert-AreNamed c d h)
  ]

  pub erase-AreNamed : (k : Text) (d : Dict Text C) → AreNamed d → AreNamed (erase k d)
  unfolding erase
  erase-AreNamed k [] h = tt
  erase-AreNamed k ((j, b) ∷ d) (e, h) =
      if_both AreNamed (j == k) (erase-AreNamed k d h) (e, erase-AreNamed k d h)

  -- Configurations stand under their names, and a visitor runs only for one of them.
  pub record Inv (vm : Manager C) : Type 0 where
    pub named : AreNamed vm.cfgs
    pub configured : (n : Text) → Has vm.visitors n → Has vm.cfgs n

  pub started :
      (attempt : C → Option ℕ) (cfg : C) (visitors : Dict Text ℕ) (n : Text)
      → Has (start_visitor cfgr attempt cfg visitors) n
      → ((cfgr.name cfg == n) ≡ true) ⊎ Has visitors n
  unfolding start_visitor
  started attempt cfg visitors n h = by_attempt (attempt cfg) refl h
    where
      by_attempt :
          (o : Option ℕ)
          → attempt cfg ≡ o
          → is_some
              (lookup n (elim o [ none ↦ visitors | some v ↦ insert (cfgr.name cfg) v visitors ]))
            ≡ true
          → ((cfgr.name cfg == n) ≡ true) ⊎ Has visitors n
      by_attempt none e k = inr k
      by_attempt (some v) e k =
          let at = sym (ap is_some (lookup-insert (cfgr.name cfg) n v visitors)) ∙ k in
          elim (Bool-cases (cfgr.name cfg == n)) [ inl y ↦ inl y | inr z ↦ inr (rw z at at) ]

  -- All entries of a list are among the configurations.
  abbrev pub AreThere : Dict Text C → Dict Text C → Type 0
  AreThere all d = All (λ (e : Text × C). Has all (cfgr.name e.1)) d

  pub start_missing-configured :
      (attempt : C → Option ℕ) (all rest : Dict Text C) (visitors : Dict Text ℕ)
      → AreThere all rest
      → ((n : Text) → Has visitors n → Has all n)
      → (n : Text) → Has (start_missing cfgr attempt rest visitors) n
      → Has all n
  unfolding start_missing
  start_missing-configured attempt all [] visitors h c = c
  start_missing-configured attempt all ((key, cfg) ∷ rest) visitors (e, h) c =
      start_missing-configured attempt all rest _ h (
        if_both (λ (vs : Dict Text ℕ). (n : Text) → Has vs n → Has all n)
          (is_some (lookup (cfgr.name cfg) visitors)) c
          (λ n y. elim (started attempt cfg visitors n y) [
            | inl s ↦ subst (Has all) ((text_beq_iff (cfgr.name cfg) n).0 s) e
            | inr o ↦ c n o
          ]))

  pub entries_there : (d : Dict Text C) → AreNamed d → AreThere d d
  unfolding lookup
  entries_there [] h = tt
  entries_there ((k, c) ∷ d) (e, h) = (
    front (cfgr.name c) (ap (λ m. k == m) e ∙ eq_refl k),
    All-weaken (λ (x : Text × C). Has d (cfgr.name x.1))
        (λ (x : Text × C). Has ((k, c) ∷ d) (cfgr.name x.1)) d (λ x y. behind (cfgr.name x.1) y)
        (entries_there d h),
  )
    where
      front : (n : Text) → (k == n) ≡ true → Has ((k, c) ∷ d) n
      front n y = rw y refl

      behind : (n : Text) → Has d n → Has ((k, c) ∷ d) n
      behind n y = ground (arith, y)

  -- Where every attempt succeeds, a tick of the loop leaves no configured visitor that does not run.
  start_missing-Has :
      (attempt : C → Option ℕ) (rest : Dict Text C) (visitors : Dict Text ℕ) (n : Text)
      → Has visitors n
      → Has (start_missing cfgr attempt rest visitors) n
  unfolding start_missing start_visitor
  start_missing-Has attempt [] visitors n h = h
  start_missing-Has attempt ((key, cfg) ∷ rest) visitors n h = start_missing-Has attempt rest _ n (
      if_both (λ (vs : Dict Text ℕ). Has vs n) (is_some (lookup (cfgr.name cfg) visitors)) h
        (kept (attempt cfg)))
    where
      kept :
          (o : Option ℕ)
          → is_some
              (lookup n (elim o [ none ↦ visitors | some v ↦ insert (cfgr.name cfg) v visitors ]))
            ≡ true
      kept none = h
      kept (some v) = insert-Has (cfgr.name cfg) v visitors n h

  start_visitor-Has :
      (attempt : C → Option ℕ) (cfg : C) (visitors : Dict Text ℕ)
      → is_some (attempt cfg) ≡ true
      → Has (start_visitor cfgr attempt cfg visitors) (cfgr.name cfg)
  unfolding start_visitor
  start_visitor-Has attempt cfg visitors h = by_attempt (attempt cfg) h
    where
      by_attempt :
          (o : Option ℕ)
          → is_some o ≡ true
          → is_some (
              lookup
                (cfgr.name cfg)
                (elim o [ none ↦ visitors | some v ↦ insert (cfgr.name cfg) v visitors ]))
            ≡ true
      by_attempt none e = absurd (cc)
      by_attempt (some v) e = insert-Has-same (cfgr.name cfg) v visitors

  -- What a tick tries is there afterwards, if each attempt succeeds.
  pub start_missing-All :
      (attempt : C → Option ℕ) (rest : Dict Text C) (visitors : Dict Text ℕ)
      → ((c : C) → is_some (attempt c) ≡ true)
      → All (λ (e : Text × C). Has (start_missing cfgr attempt rest visitors) (cfgr.name e.1)) rest
  unfolding start_missing
  start_missing-All attempt [] visitors h = tt
  start_missing-All attempt ((key, cfg) ∷ rest) visitors h = (
    start_missing-Has attempt rest _ (cfgr.name cfg)
        (chosen (is_some (lookup (cfgr.name cfg) visitors)) refl),
    start_missing-All attempt rest _ h,
  )
    where
      chosen :
          (b : Bool)
          → is_some (lookup (cfgr.name cfg) visitors) ≡ b
          → Has (if b then visitors else start_visitor cfgr attempt cfg visitors) (cfgr.name cfg)
      chosen true e = e
      chosen false e = start_visitor-Has attempt cfg visitors (h cfg)

  -- An entry that is looked up is one of the list.
  pub entry_of :
      (P : Text → Type 0) (d : Dict Text C)
      → All (λ (e : Text × C). P (cfgr.name e.1)) d
      → AreNamed d
      → (n : Text) → Has d n
      → P n
  unfolding lookup
  entry_of P [] h k n y = absurd (cc)
  entry_of P ((j, c) ∷ d) (e, h) (f, k) n y = elim (Bool-cases (j == n)) [
    | inl z ↦ subst P (f ∙ (text_beq_iff j n).0 z) e
    | inr z ↦ entry_of P d h k n (rw z at y)
  ]
