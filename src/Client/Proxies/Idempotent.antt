-- ===== src/Client/Proxies/Idempotent.antt =====
-- Updating twice with the same configurations.
use mathlib.Core.List.{append-nil}
use frpcv.Prelude.{
  Bool-cases, Text, text_beq_iff, text_eq, nat_eq, ◌==◌, eq_refl, if_both, All, All-weaken, is_some,
  or_else, Dict, lookup, insert, keep_entries, ◌≡◌, refl, sym, ap, ◌∙◌, inl, inr, Bool, true, not,
  Option, none, some, List, [], ◌∷◌, ◌++◌,
}
use frpcv.Client.Keyed.{Configurer, find_cfg, AreDistinct, lookup-key_by}
use frpcv.Client.Proxies.{
  Entry, Manager, stop_all, matches, stays, keep_unchanged, fresh, add_missing, update_all,
}
use frpcv.Client.Proxies.Update.{made, lookup-add_missing}

module _ {V : Type 0} (p : Text → V → Bool) where
  abbrev Passes : Text × V → Type 0
  Passes e = p e.0 e.1 ≡ true

  keep_entries-Passes : (d : Dict Text V) → All Passes (keep_entries p d)
  unfolding keep_entries
  keep_entries-Passes [] = tt
  keep_entries-Passes ((k, v) ∷ d) = elim (Bool-cases (p k v)) [
    | inl e ↦ rw e (e, keep_entries-Passes d)
    | inr e ↦ rw e (keep_entries-Passes d)
  ]

  insert-Passes :
      (k : Text) (v : V) (d : Dict Text V) → p k v ≡ true → All Passes d → All Passes (insert k v d)
  unfolding insert
  insert-Passes k v [] e h = (e, tt)
  insert-Passes k v ((j, w) ∷ d) e (f, h) = elim (Bool-cases (j == k)) [
    | inl y ↦ rw y (ap (λ m. p m v) ((text_beq_iff j k).0 y) ∙ e, h)
    | inr n ↦ rw n (f, insert-Passes k v d e h)
  ]

  keep-All : (d : Dict Text V) → All Passes d → keep_entries p d ≡ d
  unfolding keep_entries
  keep-All [] h = refl
  keep-All ((k, v) ∷ d) (e, h) = rw e (ap (λ r. (k, v) ∷ r) (keep-All d h))

  drop_none : (d : Dict Text V) → All Passes d → keep_entries (λ k v. not (p k v)) d ≡ []
  unfolding keep_entries
  drop_none [] h = refl
  drop_none ((k, v) ∷ d) (e, h) = rw e (drop_none d h)

module _ {C : Type 0} (cfgr : Configurer C) (user : Text) (has_monitor : C → Bool) where
  abbrev IsFound : List C → C → Type 0
  IsFound cfgs c = find_cfg cfgr (cfgr.name c) cfgs ≡ some c

  -- Among configurations of distinct names, each is found under its name.
  IsFound-All : (cfgs : List C) → AreDistinct cfgr cfgs → All (IsFound cfgs) cfgs
  unfolding find_cfg
  IsFound-All [] h = tt
  IsFound-All (c ∷ cs) (n, h) = (
    rw (eq_refl (cfgr.name c)) refl,
    All-weaken (IsFound cs) (IsFound (c ∷ cs)) cs
        (λ b e. elim (Bool-cases (cfgr.name c == cfgr.name b)) [
          | inl y ↦ absurd (
              let gone =
                ap (λ m. find_cfg cfgr m cs) (sym ((text_beq_iff (cfgr.name c) (cfgr.name b)).0 y))
                ∙ n in
              cc)
          | inr l ↦ rw l e
        ])
        (IsFound-All cs h),
  )

  fresh-stays :
      (cfgs : List C) (c : C)
      → AreDistinct cfgr cfgs
      → IsFound cfgs c
      → stays cfgr cfgs (cfgr.name c) (fresh cfgr user has_monitor c) ≡ true
  unfolding stays lookup
  fresh-stays cfgs c d e =
      ap (matches cfgr c) (lookup-key_by cfgr (cfgr.name c) cfgs [] d ∙ ap (λ o. or_else o none) e)
      ∙ (cfgr.deep_equal.test_iff c c).1 refl

  add_missing-Passes :
      (cfgs cs : List C) (d : Dict Text (Entry C))
      → AreDistinct cfgr cfgs
      → All (IsFound cfgs) cs
      → All (Passes (stays cfgr cfgs)) d
      → All (Passes (stays cfgr cfgs)) (add_missing cfgr user has_monitor cs d)
  unfolding add_missing
  add_missing-Passes cfgs [] d u f h = h
  add_missing-Passes cfgs (c ∷ cs) d u (e, f) h = add_missing-Passes cfgs cs _ u f (
      if_both (All (Passes (stays cfgr cfgs))) (is_some (lookup (cfgr.name c) d)) h (
        insert-Passes (stays cfgr cfgs) (cfgr.name c) (fresh cfgr user has_monitor c) d
          (fresh-stays cfgs c u e) h))

  abbrev IsThere : Dict Text (Entry C) → C → Type 0
  IsThere d c = is_some (lookup (cfgr.name c) d) ≡ true

  nothing_missing :
      (cs : List C) (d : Dict Text (Entry C))
      → All (IsThere d) cs
      → add_missing cfgr user has_monitor cs d ≡ d
  unfolding add_missing
  nothing_missing [] d h = refl
  nothing_missing (c ∷ cs) d (e, h) = rw e (nothing_missing cs d h)

  or_else-there : (o p : Option (Entry C)) (e : Entry C) → p ≡ some e → is_some (or_else o p) ≡ true
  or_else-there none p e h = ap is_some h
  or_else-there (some x) p e h = refl

  nothing_to_do :
      (pm : Manager C) (cfgs : List C)
      → All (Passes (stays cfgr cfgs)) pm.proxies
      → All (IsThere pm.proxies) cfgs
      → update_all cfgr user has_monitor pm cfgs ≡ pm
  unfolding update_all keep_unchanged stop_all
  nothing_to_do pm cfgs passes there =
      let same =
        ap (add_missing cfgr user has_monitor cfgs) (keep-All (stays cfgr cfgs) pm.proxies passes)
        ∙ nothing_missing cfgs pm.proxies there in
      let none_stopped =
        ap (λ d. pm.stopped ++ stop_all d) (drop_none (stays cfgr cfgs) pm.proxies passes)
        ∙ append-nil pm.stopped in
      λ i. record { proxies = same i; stopped = none_stopped i }

  -- A second `UpdateAll` with the same configurations, of distinct names, changes nothing and stops no proxy.
  pub update_all_twice :
      (pm : Manager C) (cfgs : List C)
      → AreDistinct cfgr cfgs
      → update_all cfgr user has_monitor (update_all cfgr user has_monitor pm cfgs) cfgs
        ≡ update_all cfgr user has_monitor pm cfgs
  unfolding update_all keep_unchanged
  update_all_twice pm cfgs h =
      let once =
        add_missing cfgr user has_monitor cfgs (keep_entries (stays cfgr cfgs) pm.proxies) in
      let passes : All (Passes (stays cfgr cfgs)) once =
        add_missing-Passes cfgs cfgs _ h (IsFound-All cfgs h)
          (keep_entries-Passes (stays cfgr cfgs) pm.proxies) in
      let there : All (IsThere once) cfgs =
        All-weaken (IsFound cfgs) (IsThere once) cfgs
          (λ c e.
            ap is_some (lookup-add_missing cfgr user has_monitor (cfgr.name c) cfgs _)
            ∙ or_else-there _ _ _ (ap (made cfgr user has_monitor) e))
          (IsFound-All cfgs h) in
      nothing_to_do (update_all cfgr user has_monitor pm cfgs) cfgs passes there
