-- ===== src/Client/Health/Failures.antt =====
-- How the failures of the probes are counted, and when the service is reported as down.
use frpcv.Prelude.{
  if◌then◌else◌, Bool-cases, nat_eq, Text, text_eq, pos, ◌≤ℤ◌, ◌<ℤ◌, ℕ, suc, ◌+◌, ◌%◌, ◌^◌, ◌<◌,
  ◌≡◌, refl, ap, ◌∙◌, inl, inr, Bool, true, false, List, [], ◌∷◌, ◌++◌, arith,
}
use frpcv.Client.Health.{
  HealthCheckConfig, Callback, status_normal, status_failed, Monitor, default_to, new_monitor,
  CheckResult, is_ok, int_at_least, check_round, check_worker,
}

unfoldable pub failures : List CheckResult → ℕ
failures [] = 0
failures (r ∷ rs) = let rest = failures rs in if is_ok r then rest else suc rest

round_failed_times :
    (m : Monitor) (r : CheckResult)
    → (check_round m r).failed_times
      ≡ (if is_ok r then m.failed_times else (m.failed_times + 1) % 2 ^ 64)
unfolding check_round
round_failed_times m r = ground arith

failed_times-worker :
    (m : Monitor) (rs : List CheckResult) (n : ℕ)
    → m.failed_times ≡ n % 2 ^ 64
    → (check_worker m rs).failed_times ≡ (n + failures rs) % 2 ^ 64
unfolding check_worker failures
failed_times-worker m [] n h = ground arith
failed_times-worker m (r ∷ rs) n h = elim (Bool-cases (is_ok r)) [
  | inl e ↦
      rw (e, failures)
        (failed_times-worker (check_round m r) rs n (ground (arith, round_failed_times m r)))
  | inr e ↦
      rw (e, failures)
        (let ih =
            failed_times-worker (check_round m r) rs (suc n)
              (ground (arith, round_failed_times m r)) in
          ground arith)
]

-- The failures are counted over the whole life of a monitor (as a number of 64 bits): a successful
-- probe does not reset the count.
pub failed_times-check_worker :
    (cfg : HealthCheckConfig) (addr : Text) (has_normal_fn has_failed_fn : Bool)
    (results : List CheckResult)
    → (check_worker (new_monitor cfg addr has_normal_fn has_failed_fn) results).failed_times
      ≡ failures results % 2 ^ 64
unfolding new_monitor
failed_times-check_worker cfg addr n f results =
    let h = failed_times-worker (new_monitor cfg addr n f) results 0 (omega arith) in
    h ∙ ap (λ (k : ℕ). k % 2 ^ 64) (omega arith)

max-round :
    (m : Monitor) (r : CheckResult) → (check_round m r).max_failed_times ≡ m.max_failed_times
unfolding check_round
max-round m r = ground arith

max-worker :
    (m : Monitor) (rs : List CheckResult)
    → (check_worker m rs).max_failed_times ≡ m.max_failed_times
unfolding check_worker
max-worker m [] = refl
max-worker m (r ∷ rs) = max-worker (check_round m r) rs ∙ max-round m r

fns-round :
    (m : Monitor) (r : CheckResult)
    → ((check_round m r).has_normal_fn ≡ m.has_normal_fn)
      × ((check_round m r).has_failed_fn ≡ m.has_failed_fn)
unfolding check_round
fns-round m r = (ground arith, ground arith)

fns-worker :
    (m : Monitor) (rs : List CheckResult)
    → ((check_worker m rs).has_normal_fn ≡ m.has_normal_fn)
      × ((check_worker m rs).has_failed_fn ≡ m.has_failed_fn)
unfolding check_worker
fns-worker m [] = (refl, refl)
fns-worker m (r ∷ rs) =
    let (a, b) = fns-worker (check_round m r) rs in let (c, d) = fns-round m r in (a ∙ c, b ∙ d)

worker-append :
    (m : Monitor) (rs ss : List CheckResult)
    → check_worker m (rs ++ ss) ≡ check_worker (check_worker m rs) ss
unfolding check_worker
worker-append m [] ss = refl
worker-append m (r ∷ rs) ss = worker-append (check_round m r) rs ss

-- A good probe of a monitor with its callbacks, and a bad one after it.
pair_drops :
    (m : Monitor) (good bad : CheckResult)
    → is_ok good ≡ true
    → is_ok bad ≡ false
    → m.has_normal_fn ≡ true
    → m.has_failed_fn ≡ true
    → m.failed_times + 1 < 2 ^ 63
    → m.max_failed_times ≤ℤ pos (m.failed_times + 1)
    → ((check_round m good).status_ok ≡ true)
      × ((check_round (check_round m good) bad).status_ok ≡ false)
      × ((check_round (check_round m good) bad).calls ≡ status_failed ∷ (check_round m good).calls)
unfolding check_round int_at_least
pair_drops m good bad g b n f lt le = (ground arith, ground arith, ground arith)

-- A monitor with both callbacks whose probes failed as often as its limit says, less one, at any time
-- of its life (fewer than 2^63 - 1 times) reports the service as down at the first failure after a
-- success, although the failures before that success were not continuous with it.
pub one_failure_drops :
    (cfg : HealthCheckConfig) (addr : Text) (before : List CheckResult) (good bad : CheckResult)
    → is_ok good ≡ true
    → is_ok bad ≡ false
    → failures before + 1 < 2 ^ 63
    → default_to 1 cfg.max_failed ≤ℤ pos (failures before + 1)
    → let m = check_worker (new_monitor cfg addr true true) (before ++ good ∷ []) in
      (m.status_ok ≡ true)
      × ((check_worker m (bad ∷ [])).status_ok ≡ false)
      × ((check_worker m (bad ∷ [])).calls ≡ status_failed ∷ m.calls)
unfolding check_worker new_monitor
one_failure_drops cfg addr before good bad g b lt le =
    let m = check_worker (new_monitor cfg addr true true) before in
    let (n, f) = fns-worker (new_monitor cfg addr true true) before in
    let t = failed_times-check_worker cfg addr true true before in
    let x = max-worker (new_monitor cfg addr true true) before in
    let e : m.failed_times ≡ failures before = omega arith in
    let (p, q, r) = pair_drops m good bad g b n f (rw e lt) (rw (e, x) le) in
    rw (worker-append (new_monitor cfg addr true true) before (good ∷ [])) (p, q, r)

-- Whether a callback says that the service is down.
pub is_failed : Callback → Bool
is_failed status_failed = true
is_failed status_normal = false

pub NeverFailed : List Callback → Type 0
NeverFailed [] = Unit
NeverFailed (c ∷ calls) = (is_failed c ≡ false) × NeverFailed calls

round-NeverFailed :
    (m : Monitor) (r : CheckResult)
    → (check_round m r).failed_times < 2 ^ 63
    → pos (check_round m r).failed_times <ℤ m.max_failed_times
    → NeverFailed m.calls
    → NeverFailed (check_round m r).calls
unfolding check_round int_at_least NeverFailed is_failed
round-NeverFailed m r lt le v = ground arith

failed_times_sum :
    (m : Monitor) (rs : List CheckResult)
    → m.failed_times + failures rs < 2 ^ 63
    → (check_worker m rs).failed_times ≡ m.failed_times + failures rs
failed_times_sum m rs lt =
    let h = failed_times-worker m rs m.failed_times (omega arith) in omega arith

worker-NeverFailed :
    (m : Monitor) (rs : List CheckResult)
    → m.failed_times + failures rs < 2 ^ 63
    → pos (m.failed_times + failures rs) <ℤ m.max_failed_times
    → NeverFailed m.calls
    → NeverFailed (check_worker m rs).calls
unfolding check_worker failures
worker-NeverFailed m [] lt le v = v
worker-NeverFailed m (r ∷ rs) lt le v = elim (Bool-cases (is_ok r)) [
  | inl e ↦
      let t = round_failed_times m r in
      let x = max-round m r in
      let f : (check_round m r).failed_times ≡ m.failed_times = ground arith in
      worker-NeverFailed (check_round m r) rs (ground arith) (ground arith)
        (round-NeverFailed m r (ground arith) (ground arith) v)
  | inr e ↦
      let t = round_failed_times m r in
      let x = max-round m r in
      let f : (check_round m r).failed_times ≡ m.failed_times + 1 = ground arith in
      worker-NeverFailed (check_round m r) rs (ground arith) (ground arith)
        (round-NeverFailed m r (ground arith) (ground arith) v)
]

-- While the probes of a new monitor have failed fewer times than its limit, it never reports the service
-- as down.
pub check_worker-NeverFailed :
    (cfg : HealthCheckConfig) (addr : Text) (has_normal_fn has_failed_fn : Bool)
    (results : List CheckResult)
    → failures results < 2 ^ 63
    → pos (failures results) <ℤ default_to 1 cfg.max_failed
    → NeverFailed (check_worker (new_monitor cfg addr has_normal_fn has_failed_fn) results).calls
unfolding new_monitor NeverFailed
check_worker-NeverFailed cfg addr n f results lt le =
    worker-NeverFailed (new_monitor cfg addr n f) results (ground arith) (ground arith) tt
