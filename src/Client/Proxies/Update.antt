-- ===== src/Client/Proxies/Update.antt =====
-- The proxies after an update are those that a table of the old proxies and the new configurations gives.
use frpcv.Prelude.{
  if◌then◌else◌, Option-cases, Text, text_beq_iff, text_eq, nat_eq, ◌==◌, if_both, is_some, or_else,
  Dict, lookup, insert, lookup-insert, IsKeyed, keep_entries, kept, lookup-keep_entries,
  keep_entries-IsKeyed, insert-IsKeyed, ◌≡◌, refl, sym, ap, ◌∙◌, inl, inr, Bool, true, false,
  Option, none, some, List, [], ◌∷◌, arith,
}
use frpcv.Client.Keyed.{Configurer, key_by, find_cfg, AreDistinct, lookup-key_by}
use frpcv.Client.Proxies.{Entry, Manager, stays, keep_unchanged, fresh, add_missing, update_all}

module _ {C : Type 0} (cfgr : Configurer C) (user : Text) (has_monitor : C → Bool) where
  -- What a name should have: nothing without a configuration; else the old proxy, if it has the same
  -- configuration, or a new one.
  abbrev pub wanted : Option C → Option (Entry C) → Option (Entry C)
  wanted none old = none
  wanted (some cfg) none = some (fresh cfgr user has_monitor cfg)
  wanted (some cfg) (some pxy) =
      if cfgr.deep_equal.test pxy.cfg cfg then some pxy else some (fresh cfgr user has_monitor cfg)

  abbrev pub made : Option C → Option (Entry C)
  made none = none
  made (some cfg) = some (fresh cfgr user has_monitor cfg)

  -- The first configuration of a name that is missing, and of one that is there.
  made_new :
      (b : Bool) (c : C) (old : Option (Entry C)) (later : Option C)
      → (b ≡ true → old ≡ none)
      → or_else (if b then some (fresh cfgr user has_monitor c) else old) (made later)
        ≡ or_else old (made (if b then some c else later))
  made_new true c old later h = rw (h refl) refl
  made_new false c old later h = refl

  made_old :
      (b : Bool) (c : C) (old : Option (Entry C)) (later : Option C) (x : Entry C)
      → (b ≡ true → old ≡ some x)
      → or_else old (made later) ≡ or_else old (made (if b then some c else later))
  made_old true c old later x h = rw (h refl) refl
  made_old false c old later x h = refl

  pub lookup-add_missing :
      (n : Text) (cfgs : List C) (d : Dict Text (Entry C))
      → lookup n (add_missing cfgr user has_monitor cfgs d)
        ≡ or_else (lookup n d) (made (find_cfg cfgr n cfgs))
  unfolding add_missing find_cfg
  lookup-add_missing n [] d = ground arith
  lookup-add_missing n (c ∷ cs) d = elim (Option-cases (lookup (cfgr.name c) d)) [
    | inl e ↦ rw e (
        lookup-add_missing n cs (insert (cfgr.name c) (fresh cfgr user has_monitor c) d)
        ∙ ap (λ o. or_else o (made (find_cfg cfgr n cs)))
            (lookup-insert (cfgr.name c) n (fresh cfgr user has_monitor c) d)
        ∙ made_new (cfgr.name c == n) c (lookup n d) (find_cfg cfgr n cs)
            (λ y. ap (λ m. lookup m d) (sym ((text_beq_iff (cfgr.name c) n).0 y)) ∙ e))
    | inr (x, e) ↦ rw e (
        lookup-add_missing n cs d
        ∙ made_old (cfgr.name c == n) c (lookup n d) (find_cfg cfgr n cs) x
            (λ y. ap (λ m. lookup m d) (sym ((text_beq_iff (cfgr.name c) n).0 y)) ∙ e))
  ]

  or_else-none : (o : Option C) → or_else o none ≡ o
  or_else-none none = refl
  or_else-none (some c) = refl

  kept-wanted :
      (cfgs : List C) (n : Text) (cfg : Option C) (old : Option (Entry C))
      → lookup n (key_by cfgr cfgs []) ≡ cfg
      → or_else (kept (stays cfgr cfgs) n old) (made cfg) ≡ wanted cfg old
  unfolding stays
  kept-wanted cfgs n none none e = refl
  kept-wanted cfgs n (some c) none e = refl
  kept-wanted cfgs n none (some pxy) e = rw e refl
  kept-wanted cfgs n (some c) (some pxy) e = rw e (ground arith)

  -- After `UpdateAll` with configurations of distinct names, the entry of each name is the reference one: none
  -- if the name is not configured, the old proxy if its configuration is the same, and a fresh one otherwise.
  pub lookup-update_all :
      (pm : Manager C) (cfgs : List C)
      → IsKeyed pm.proxies
      → AreDistinct cfgr cfgs
      → (n : Text)
      → lookup n (update_all cfgr user has_monitor pm cfgs).proxies
        ≡ wanted (find_cfg cfgr n cfgs) (lookup n pm.proxies)
  unfolding update_all keep_unchanged stays lookup
  lookup-update_all pm cfgs k d n =
      let configured : lookup n (key_by cfgr cfgs []) ≡ find_cfg cfgr n cfgs =
        lookup-key_by cfgr n cfgs [] d ∙ or_else-none (find_cfg cfgr n cfgs) in
      lookup-add_missing n cfgs (keep_entries (stays cfgr cfgs) pm.proxies)
      ∙ ap (λ o. or_else o (made (find_cfg cfgr n cfgs)))
          (lookup-keep_entries (stays cfgr cfgs) n pm.proxies k)
      ∙ kept-wanted cfgs n (find_cfg cfgr n cfgs) (lookup n pm.proxies) configured

  add_missing-IsKeyed :
      (cfgs : List C) (d : Dict Text (Entry C))
      → IsKeyed d
      → IsKeyed (add_missing cfgr user has_monitor cfgs d)
  unfolding add_missing
  add_missing-IsKeyed [] d h = h
  add_missing-IsKeyed (c ∷ cs) d h = add_missing-IsKeyed cs _ (
      if_both IsKeyed (is_some (lookup (cfgr.name c) d)) h
        (insert-IsKeyed (cfgr.name c) (fresh cfgr user has_monitor c) d h))

  -- `UpdateAll` keeps the map without repeated keys.
  pub update_all-IsKeyed :
      (pm : Manager C) (cfgs : List C)
      → IsKeyed pm.proxies
      → IsKeyed (update_all cfgr user has_monitor pm cfgs).proxies
  unfolding update_all keep_unchanged
  update_all-IsKeyed pm cfgs h =
      add_missing-IsKeyed cfgs _ (keep_entries-IsKeyed (stays cfgr cfgs) pm.proxies h)
