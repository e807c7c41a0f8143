-- ===== src/Server/Ports/Errors.antt =====
-- What a failing `Acquire` says, and that it changes nothing.
use frpcv.Prelude.{
  Bool-cases, Option-cases, nat_eq, Text, text_eq, ℕ, zero, suc, ◌≡◌, ◌≢◌, ◌⊎◌, inl, inr, Bool,
  true, false, none, some, List, [], ◌∷◌, arith,
}
use frpcv.Server.Ports.{
  PortError, port_already_used, port_not_allowed, port_unavailable, no_available_port, ok, err,
  PortManager, Probe, is_port_available, grant, first_available, max_try_times, acquire_random,
  acquire_specified, reserved_port, acquire_zero, acquire,
}
use frpcv.Server.Ports.Invariant.{Inv, first_available-In, Visits, Visits-In}

-- Why a request for one port is refused.
pub data Refusal (allowed : ℕ → Bool) (pm : PortManager) (probe : Probe) (port : ℕ)
    : PortError → Type 0 where
  unavailable :
      allowed port ≡ true
      → pm.used_ports port ≡ none
      → is_port_available pm probe port ≡ false
      → Refusal allowed pm probe port port_unavailable
  already_used :
      (r : ℕ) → pm.used_ports port ≡ some r → Refusal allowed pm probe port port_already_used
  not_allowed : allowed port ≡ false → Refusal allowed pm probe port port_not_allowed

module _ {allowed : ℕ → Bool} {pm : PortManager} (v : Inv allowed pm) (probe : Probe) (name : Text)
    (order : List ℕ) (now : ℕ) where
  -- A request for a port other than 0 succeeds, or it leaves the manager as it was and its error is
  -- for a reason that holds: the port is allowed and unused but the probe refuses it, or it is in use,
  -- or it is not allowed.
  pub acquire_refused :
      (port : ℕ)
      → port ≢ 0
      → (acquire pm probe name port order now ≡ (grant pm name port now, ok port))
        ⊎ ((e : PortError) × (acquire pm probe name port order now ≡ (pm, err e))
            × Refusal allowed pm probe port e)
  unfolding acquire acquire_specified
  acquire_refused port nz = elim (Bool-cases (pm.free_ports port)) [
    | inl f ↦ elim (Bool-cases (is_port_available pm probe port)) [
      | inl a ↦ inl (ground arith)
      | inr a ↦ inr (
        port_unavailable,
        ground arith,
        unavailable (ground (arith, v.partition port)) (ground (arith, v.partition port)) a,
      )
    ]
    | inr f ↦ elim (Option-cases (pm.used_ports port)) [
      | inl u ↦ inr (port_not_allowed, ground arith, not_allowed (ground (arith, v.partition port)))
      | inr (r, u) ↦ inr (port_already_used, ground arith, already_used r u)
    ]
  ]

-- None of the first n is available.
abbrev pub NoneAvailable : (ℕ → Bool) → ℕ → List ℕ → Type 0
NoneAvailable available zero ks = Unit {0}
NoneAvailable available (suc n) [] = Unit {0}
NoneAvailable available (suc n) (k ∷ ks) = (available k ≡ false) × NoneAvailable available n ks

first_available-none :
    (n : ℕ) (available : ℕ → Bool) (ks : List ℕ)
    → first_available n available ks ≡ none
    → NoneAvailable available n ks
unfolding first_available
first_available-none zero available ks h = tt
first_available-none (suc n) available [] h = tt
first_available-none (suc n) available (k ∷ ks) h =
    ground (arith, first_available-none n available ks)

module _ {allowed : ℕ → Bool} {pm : PortManager} (v : Inv allowed pm) (probe : Probe) (name : Text)
    (order : List ℕ) (now : ℕ) (vis : Visits pm order) where
  random_fails :
      (qm : PortManager) (e : PortError)
      → allowed 0 ≡ false
      → acquire_random pm probe name order now ≡ (qm, err e)
      → (qm ≡ pm)
        × (e ≡ no_available_port)
        × NoneAvailable (is_port_available pm probe) max_try_times order
  unfolding acquire_random
  random_fails qm x z =
      elim (Option-cases (first_available max_try_times (is_port_available pm probe) order)) [
        | inl e ↦
            rw (e, acquire_random)
              (λ h. (
                ground arith,
                ground arith,
                first_available-none max_try_times (is_port_available pm probe) order e,
              ))
        | inr (k, e) ↦
            rw (e, acquire_random)
              (λ h. absurd (
                ground (
                  arith,
                  first_available-In max_try_times (is_port_available pm probe) order k e,
                  Visits-In pm order k vis,
                  v.partition k,
                )))
      ]

  -- A request for any port (port 0) fails only where the probe refuses the port reserved for the name, if
  -- there is one, and each of the first five free ports that the range visits; then nothing changes.
  pub acquire_any_fails :
      (qm : PortManager) (e : PortError)
      → allowed 0 ≡ false
      → acquire pm probe name 0 order now ≡ (qm, err e)
      → (qm ≡ pm)
        × (e ≡ no_available_port)
        × NoneAvailable (is_port_available pm probe) max_try_times order
        × ((p : ℕ) → reserved_port pm name ≡ some p → is_port_available pm probe p ≡ false)
  unfolding acquire acquire_zero
  acquire_any_fails qm x z = elim (Option-cases (reserved_port pm name)) [
    | inl e ↦
        rw (e, acquire_zero) (λ h. let (a, b, c) = random_fails qm x z h in (a, b, c, λ p r. cc))
    | inr (q, e) ↦ elim (Bool-cases (is_port_available pm probe q)) [
      | inl a ↦ rw (e, acquire_zero, a) (λ h. absurd (ground arith))
      | inr a ↦
          rw (e, acquire_zero, a)
            (λ h. let (b, c, d) = random_fails qm x z h in (b, c, d, λ p r. ground arith))
    ]
  ]
