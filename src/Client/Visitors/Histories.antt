-- ===== src/Client/Visitors/Histories.antt =====
-- The histories of the manager of the visitors.
use frpcv.Prelude.{
  Text, text_beq_iff, text_eq, nat_eq, if_both, is_some, Dict, lookup, insert, ℕ, ◌≡◌, subst, inl,
  inr, true, Option, List, [], ◌∷◌,
}
use frpcv.Client.Keyed.{Configurer}
use frpcv.Client.Visitors.{
  Manager, new_manager, start_missing, keep_visitors_running, stays, drop_changed, add_missing,
  update_all, transfer_conn, get_visitor_cfg,
}
use frpcv.Client.Visitors.Running.{
  Has, insert-Has, insert-Has-same, erase-Has, Has-erase, insert-AreNamed, erase-AreNamed, Inv,
  started, start_missing-configured, entries_there, start_missing-All, entry_of,
}

module _ {C : Type 0} (cfgr : Configurer C) where
  drop_changed-Inv :
      (cfgs : List C) (rest : Dict Text C) (vm : Manager C)
      → Inv cfgr vm
      → Inv cfgr (drop_changed cfgr cfgs rest vm)
  unfolding drop_changed
  drop_changed-Inv cfgs [] vm v = v
  drop_changed-Inv cfgs ((name, old) ∷ rest) vm v = drop_changed-Inv cfgs rest _ (
      if_both (Inv cfgr) (stays cfgr cfgs name old) v (record {
        named = erase-AreNamed cfgr name vm.cfgs v.named;
        configured = λ n h.
            let (differs, there) = erase-Has name vm.visitors n h in
            Has-erase name vm.cfgs n differs (v.configured n there);
      }))

  add_missing-Inv :
      (attempt : C → Option ℕ) (cfgs : List C) (vm : Manager C)
      → Inv cfgr vm
      → Inv cfgr (add_missing cfgr attempt cfgs vm)
  unfolding add_missing
  add_missing-Inv attempt [] vm v = v
  add_missing-Inv attempt (cfg ∷ cfgs) vm v = add_missing-Inv attempt cfgs _ (
      if_both (Inv cfgr) (is_some (lookup (cfgr.name cfg) vm.cfgs)) v (record {
        named = insert-AreNamed cfgr cfg vm.cfgs v.named;
        configured = λ n h. elim (started cfgr attempt cfg vm.visitors n h) [
          | inl s ↦
              subst (Has (insert (cfgr.name cfg) cfg vm.cfgs))
                ((text_beq_iff (cfgr.name cfg) n).0 s) (insert-Has-same (cfgr.name cfg) cfg vm.cfgs)
          | inr o ↦ insert-Has (cfgr.name cfg) cfg vm.cfgs n (v.configured n o)
        ];
      }))

  -- What happens to the manager: an update, or a tick of its loop.
  pub data Step (vm : Manager C) : Manager C → Type 0 where
    updates : (attempt : C → Option ℕ) (cfgs : List C) → Step vm (update_all cfgr attempt vm cfgs)
    ticks : (attempt : C → Option ℕ) → Step vm (keep_visitors_running cfgr attempt vm)

  pub data Reach : Manager C → Type 0 where
    start : Reach new_manager
    next : {vm wm : Manager C} → Reach vm → Step vm wm → Reach wm

  Step-Inv : {vm wm : Manager C} → Step vm wm → Inv cfgr vm → Inv cfgr wm
  unfolding update_all keep_visitors_running
  Step-Inv {vm} (updates attempt cfgs) v =
      add_missing-Inv attempt cfgs _ (drop_changed-Inv cfgs vm.cfgs vm v)
  Step-Inv {vm} (ticks attempt) v = record {
    named = v.named;
    configured =
        start_missing-configured cfgr attempt vm.cfgs vm.cfgs vm.visitors
          (entries_there cfgr vm.cfgs v.named) v.configured;
  }

  Reach-Inv : {vm : Manager C} → Reach vm → Inv cfgr vm
  unfolding new_manager lookup
  Reach-Inv start = record { named = tt; configured = λ n h. absurd (cc) }
  Reach-Inv (next r s) = Step-Inv s (Reach-Inv r)

  -- In every history of updates and ticks, whichever attempts to start a visitor fail, a visitor runs only
  -- under the name of a configuration that the manager has.
  pub Reach-Has :
      {vm : Manager C}
      → Reach vm
      → (n : Text) → is_some (transfer_conn vm n) ≡ true
      → is_some (get_visitor_cfg vm n) ≡ true
  unfolding transfer_conn get_visitor_cfg
  Reach-Has r n h = (Reach-Inv r).configured n h

  -- After any history, a tick in which every attempt succeeds leaves a running visitor for each
  -- configuration, also for those whose visitors could not be started before.
  pub tick_starts_all :
      {vm : Manager C} (attempt : C → Option ℕ)
      → Reach vm
      → ((c : C) → is_some (attempt c) ≡ true)
      → (n : Text) → is_some (get_visitor_cfg vm n) ≡ true
      → is_some (transfer_conn (keep_visitors_running cfgr attempt vm) n) ≡ true
  unfolding transfer_conn get_visitor_cfg keep_visitors_running
  tick_starts_all {vm} attempt r h n y =
      entry_of cfgr (Has (start_missing cfgr attempt vm.cfgs vm.visitors)) vm.cfgs
        (start_missing-All cfgr attempt vm.cfgs vm.visitors h) (Reach-Inv r).named n y
