-- ===== src/Server/Ports/Reserve.antt =====
-- The reservation that outlives a release, and its cleaning after 24 hours.
use frpcv.Prelude.{
  nat_eq, Text, text_eq, eq_refl, ℕ, ◌+◌, ◌≤◌, ◌<◌, ◌≡◌, ap, true, none, some, List, arith,
}
use frpcv.Server.Ports.{
  max_port_reserved_duration, PortResult, ok, PortManager, Probe, is_port_available, grant,
  reserved_port, acquire, release, clean_reserved_ports,
}
use frpcv.Server.Ports.Invariant.{Visits}
use frpcv.Server.Ports.Acquire.{acquire_granted, acquire_reserved}

module _ (pm : PortManager) (name : Text) (p now t clock : ℕ) where
  abbrev after_cleaning : PortManager
  after_cleaning = clean_reserved_ports (release (grant pm name p now) p t) clock

  kept_within : clock ≤ t + max_port_reserved_duration → reserved_port after_cleaning name ≡ some p
  unfolding clean_reserved_ports release grant reserved_port
  kept_within h = ground (arith, eq_refl name, eq_refl p)

  dropped_after : t + max_port_reserved_duration < clock → reserved_port after_cleaning name ≡ none
  unfolding clean_reserved_ports release grant reserved_port
  dropped_after h = ground (arith, eq_refl name, eq_refl p)

module _ (pm : PortManager) (probe : Probe) (name : Text) (port : ℕ) (order : List ℕ) (now : ℕ)
    (vis : Visits pm order) (qm : PortManager) (p : ℕ)
    (h : acquire pm probe name port order now ≡ (qm, ok p)) where
  granted_state : qm ≡ grant pm name p now
  granted_state = (acquire_granted {pm = pm} probe name order now port qm p vis h).state

  -- A proxy that acquires a port, releases it, and asks for any port again gets the same one, if the
  -- probe still accepts it, also after a cleaning round up to 24 hours from the release.
  pub reacquire_same :
      (t clock : ℕ) (probe' : Probe) (order' : List ℕ) (later : ℕ)
      → clock ≤ t + max_port_reserved_duration
      → is_port_available (clean_reserved_ports (release qm p t) clock) probe' p ≡ true
      → (acquire (clean_reserved_ports (release qm p t) clock) probe' name 0 order' later).1 ≡ ok p
  reacquire_same t clock probe' order' later soon a =
      ap (λ (r : PortManager × PortResult). r.1)
        (acquire_reserved _ probe' name order' later p kept a)
    where
      kept : reserved_port (clean_reserved_ports (release qm p t) clock) name ≡ some p
      kept = rw granted_state (kept_within pm name p now t clock soon)

  -- A cleaning round more than 24 hours after the release forgets the reservation.
  pub reservation_expires :
      (t clock : ℕ)
      → t + max_port_reserved_duration < clock
      → reserved_port (clean_reserved_ports (release qm p t) clock) name ≡ none
  reservation_expires t clock late = rw granted_state (dropped_after pm name p now t clock late)
