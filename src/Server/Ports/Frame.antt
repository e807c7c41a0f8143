-- ===== src/Server/Ports/Frame.antt =====
-- What the calls leave as it is in `usedPorts`: the lemmas for the manager's clients.
use frpcv.Prelude.{
  if◌then◌else◌, nat_beq_iff, Bool-cases, Option-cases, ◌==◌, nat_eq, Text, text_eq, is_some, ℕ,
  ◌≡◌, refl, inl, inr, true, Option, none, some, List, arith,
}
use frpcv.Server.Ports.{
  PortManager, Probe, is_port_available, grant, first_available, max_try_times, acquire_random,
  acquire_specified, reserved_port, acquire_zero, acquire, release,
}

pub used-release :
    (pm : PortManager) (p q now : ℕ)
    → (release pm p now).used_ports q ≡ (if p == q then none else pm.used_ports q)
unfolding release
used-release pm p q now = elim (Option-cases (pm.used_ports p)) [
  | inl e ↦ rw (e, release) (ground (arith, nat_beq_iff p q))
  | inr (r, e) ↦ rw (e, release) refl
]

used-grant :
    (pm : PortManager) (name : Text) (p now q : ℕ)
    → is_some (pm.used_ports q) ≡ true
    → is_some ((grant pm name p now).used_ports q) ≡ true
unfolding grant
used-grant pm name p now q h = ground arith

used-random :
    (pm : PortManager) (probe : Probe) (name : Text) (order : List ℕ) (now q : ℕ)
    → is_some (pm.used_ports q) ≡ true
    → is_some ((acquire_random pm probe name order now).0.used_ports q) ≡ true
unfolding acquire_random
used-random pm probe name order now q h =
    elim (Option-cases (first_available max_try_times (is_port_available pm probe) order)) [
      | inl e ↦ rw (e, acquire_random) h
      | inr (k, e) ↦ rw (e, acquire_random) (used-grant pm name k now q h)
    ]

-- A used port stays used, whatever `Acquire` is asked for and answers.
pub used-acquire :
    (pm : PortManager) (probe : Probe) (name : Text) (port : ℕ) (order : List ℕ) (now q : ℕ)
    → is_some (pm.used_ports q) ≡ true
    → is_some ((acquire pm probe name port order now).0.used_ports q) ≡ true
unfolding acquire acquire_zero acquire_specified
used-acquire pm probe name port order now q h = ground (
  arith,
  used-random pm probe name order now q h,
  used-grant pm name port now q h,
  reserved_used (reserved_port pm name) refl,
)
  where
    reserved_used :
        (o : Option ℕ)
        → reserved_port pm name ≡ o
        → is_some ((acquire_zero pm probe name order now).0.used_ports q) ≡ true
    reserved_used none e = rw (e, acquire_zero) (used-random pm probe name order now q h)
    reserved_used (some p) e = elim (Bool-cases (is_port_available pm probe p)) [
      | inl a ↦ rw (e, acquire_zero, a) (used-grant pm name p now q h)
      | inr a ↦ rw (e, acquire_zero, a) (used-random pm probe name order now q h)
    ]
