-- ===== src/Server/Ports/Acquire.antt =====
-- What a successful `Acquire` gives.
use frpcv.Prelude.{
  Bool-cases, Option-cases, nat_eq, Text, text_beq_refl, text_eq, ℕ, ◌≡◌, ◌≢◌, ◌⊎◌, inl, inr, Bool,
  true, false, none, some, List, arith,
}
use frpcv.Server.Ports.{
  ok, PortManager, Probe, is_port_available, grant, first_available, max_try_times, acquire_random,
  acquire_specified, reserved_port, acquire_zero, acquire,
}
use frpcv.Server.Ports.Invariant.{Inv, reserved_port_allowed, first_available-In, Visits, Visits-In}

-- A success is the grant of a port that passed the probe, free or reserved for the name.
pub record Granted (pm : PortManager) (probe : Probe) (name : Text) (port now p : ℕ)
    (qm : PortManager) : Type 0 where
  pub state : qm ≡ grant pm name p now
  pub available : is_port_available pm probe p ≡ true
  pub asked : (port ≡ 0) ⊎ (port ≡ p)
  pub source : (reserved_port pm name ≡ some p) ⊎ (pm.free_ports p ≡ true)

module _ {pm : PortManager} (probe : Probe) (name : Text) (order : List ℕ) (now : ℕ) where
  random_granted :
      (qm : PortManager) (p : ℕ)
      → Visits pm order
      → acquire_random pm probe name order now ≡ (qm, ok p)
      → Granted pm probe name 0 now p qm
  unfolding acquire_random
  random_granted qm p vis =
      elim (Option-cases (first_available max_try_times (is_port_available pm probe) order)) [
        | inl e ↦ rw (e, acquire_random) (λ h. absurd (ground arith))
        | inr (k, e) ↦
            rw (e, acquire_random)
              (λ h. ground (
                arith,
                first_available-In max_try_times (is_port_available pm probe) order k e,
                Visits-In pm order k vis,
              ))
      ]

  zero_granted :
      (qm : PortManager) (p : ℕ)
      → Visits pm order
      → acquire_zero pm probe name order now ≡ (qm, ok p)
      → Granted pm probe name 0 now p qm
  unfolding acquire_zero
  zero_granted qm p vis = elim (Option-cases (reserved_port pm name)) [
    | inl e ↦ rw (e, acquire_zero) (random_granted qm p vis)
    | inr (q, e) ↦ elim (Bool-cases (is_port_available pm probe q)) [
      | inl a ↦ rw (e, acquire_zero, a) (λ h. ground arith)
      | inr a ↦ rw (e, acquire_zero, a) (random_granted qm p vis)
    ]
  ]

  pub acquire_granted :
      (port : ℕ) (qm : PortManager) (p : ℕ)
      → Visits pm order
      → acquire pm probe name port order now ≡ (qm, ok p)
      → Granted pm probe name port now p qm
  unfolding acquire acquire_specified
  acquire_granted port qm p vis h = ground (arith, zero_granted qm p vis)

-- What a caller sees of a grant: the port is used under a new object with the proxy's name and that
-- port, the name's reservation is for it, it is free no longer, and no other port has changed.
pub record Handed (pm : PortManager) (name : Text) (now p : ℕ) (qm : PortManager) : Type 0 where
  pub used : qm.used_ports p ≡ some pm.next
  pub owner : (qm.heap pm.next).proxy_name ≡ name
  pub number : (qm.heap pm.next).port ≡ p
  pub alive : (qm.heap pm.next).closed ≡ false
  pub reserved : reserved_port qm name ≡ some p
  pub taken : qm.free_ports p ≡ false
  pub others_used : (q : ℕ) → p ≢ q → qm.used_ports q ≡ pm.used_ports q
  pub others_free : (q : ℕ) → p ≢ q → qm.free_ports q ≡ pm.free_ports q

grant-Handed :
    (pm : PortManager) (name : Text) (now p : ℕ) → Handed pm name now p (grant pm name p now)
unfolding grant reserved_port
grant-Handed pm name now p = record {
  used = ground arith;
  owner = ground arith;
  number = ground arith;
  alive = ground arith;
  reserved = ground (arith, text_beq_refl name);
  taken = ground arith;
  others_used = λ q h. ground arith;
  others_free = λ q h. ground arith;
}

module _ {allowed : ℕ → Bool} {pm : PortManager} (v : Inv allowed pm) (probe : Probe) (name : Text)
    (port : ℕ) (order : List ℕ) (now : ℕ) (vis : Visits pm order) (qm : PortManager) (p : ℕ)
    (h : acquire pm probe name port order now ≡ (qm, ok p)) where
  granted : Granted pm probe name port now p qm
  granted = acquire_granted probe name order now port qm p vis h

  -- A successful `Acquire` hands over an allowed port, the one asked for unless that was 0, that
  -- the operating system's probe has accepted; the port, its object and the reservation are
  -- recorded, and the free and used state of every other port is as before.
  pub acquire-Handed :
      (allowed p ≡ true)
      × ((port ≡ 0) ⊎ (port ≡ p))
      × (is_port_available pm probe p ≡ true)
      × Handed pm name now p qm
  acquire-Handed = (
    source_allowed granted.source,
    granted.asked,
    granted.available,
    rw granted.state (grant-Handed pm name now p),
  )
    where
      source_allowed :
          (reserved_port pm name ≡ some p) ⊎ (pm.free_ports p ≡ true) → allowed p ≡ true
      source_allowed (inl e) = reserved_port_allowed v name p e
      source_allowed (inr e) = ground (arith, v.partition p)

  -- Where the probe refuses every port that another proxy uses, an acquired port was not in use.
  pub acquire_exclusive :
      ((q r : ℕ) → pm.used_ports q ≡ some r → is_port_available pm probe q ≡ false)
      → pm.used_ports p ≡ none
  acquire_exclusive honest = elim (Option-cases (pm.used_ports p)) [
    | inl e ↦ e
    | inr (r, e) ↦ cc (honest p r e, granted.available)
  ]

-- A reservation wins over the books: asked for port 0, `Acquire` hands out the port that is
-- reserved for the name whenever the probe accepts it, also where `usedPorts` says it is taken.
pub acquire_reserved :
    (pm : PortManager) (probe : Probe) (name : Text) (order : List ℕ) (now p : ℕ)
    → reserved_port pm name ≡ some p
    → is_port_available pm probe p ≡ true
    → acquire pm probe name 0 order now ≡ (grant pm name p now, ok p)
unfolding acquire acquire_zero
acquire_reserved pm probe name order now p e a = ground arith
