-- ===== src/Client/Health/Reports.antt =====
-- The order of the callbacks that a monitor makes.
use frpcv.Prelude.{
  Bool-cases, nat_eq, Text, text_eq, ◌+◌, ◌%◌, ◌^◌, ◌≡◌, inl, inr, Bool, true, false, ◌&&◌, List,
  [], ◌∷◌,
}
use frpcv.Client.Health.{
  HealthCheckConfig, Callback, status_normal, status_failed, Monitor, new_monitor, CheckResult,
  is_ok, int_at_least, check_round, check_worker,
}

-- The reports alternate, beginning with status_normal, and the last one fits the status.
abbrev pub Reported : Bool → List Callback → Type 0
Reported false [] = Unit {0}
Reported true [] = ⊥
Reported true (status_normal ∷ calls) = Reported false calls
Reported false (status_normal ∷ calls) = ⊥
Reported false (status_failed ∷ calls) = Reported true calls
Reported true (status_failed ∷ calls) = ⊥

ok_round :
    (m : Monitor) (r : CheckResult)
    → is_ok r ≡ true
    → Reported m.status_ok m.calls
    → Reported (check_round m r).status_ok (check_round m r).calls
unfolding check_round
ok_round m r h v = elim (Bool-cases m.status_ok) [
  | inl e ↦ rw (h, e, check_round) (rw e at v)
  | inr e ↦ elim (Bool-cases m.has_normal_fn) [
    | inl f ↦ rw (h, e, f, check_round) (rw e at v)
    | inr f ↦ rw (h, e, f, check_round) (rw e at v)
  ]
]

failed_round :
    (m : Monitor) (r : CheckResult)
    → is_ok r ≡ false
    → Reported m.status_ok m.calls
    → Reported (check_round m r).status_ok (check_round m r).calls
unfolding check_round
failed_round m r h v = elim (Bool-cases m.status_ok) [
  | inr e ↦ rw (h, e, check_round) (rw e at v)
  | inl e ↦
      elim (Bool-cases
        (int_at_least ((m.failed_times + 1) % 2 ^ 64) m.max_failed_times && m.has_failed_fn)) [
          | inl f ↦ rw (h, e, f, check_round) (rw e at v)
          | inr f ↦ rw (h, e, f, check_round) (rw e at v)
        ]
]

round-Reported :
    (m : Monitor) (r : CheckResult)
    → Reported m.status_ok m.calls
    → Reported (check_round m r).status_ok (check_round m r).calls
round-Reported m r v = elim (Bool-cases (is_ok r)) [
  | inl h ↦ ok_round m r h v
  | inr h ↦ failed_round m r h v
]

worker-Reported :
    (m : Monitor) (rs : List CheckResult)
    → Reported m.status_ok m.calls
    → Reported (check_worker m rs).status_ok (check_worker m rs).calls
unfolding check_worker
worker-Reported m [] v = v
worker-Reported m (r ∷ rs) v = worker-Reported (check_round m r) rs (round-Reported m r v)

-- However the probes of a new monitor end, its callbacks alternate, the first of them says that the
-- service is up, and the last of them agrees with the status that the monitor holds.
pub check_worker-Reported :
    (cfg : HealthCheckConfig) (addr : Text) (has_normal_fn has_failed_fn : Bool)
    (results : List CheckResult)
    → let m = check_worker (new_monitor cfg addr has_normal_fn has_failed_fn) results in
      Reported m.status_ok m.calls
unfolding new_monitor
check_worker-Reported cfg addr n f results = worker-Reported _ results tt
