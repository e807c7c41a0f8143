-- ===== src/Server/Ports/Invariant.antt =====
-- The state of a port manager over any history of calls.
use frpcv.Prelude.{
  Bool-cases, Option-cases, ◌==◌, nat_eq, Text, text_eq, All, In, is_some, ℕ, zero, suc, ◌<◌, ◌≡◌,
  inl, inr, Bool, true, not, ◌&&◌, some, List, [], ◌∷◌, arith,
}
use frpcv.Server.Ports.{
  PortManager, PortsRange, Probe, free_at_start, new_manager, is_port_available, grant,
  first_available, max_try_times, acquire_random, acquire_specified, reserved_port, acquire_zero,
  acquire, release, clean_reserved_ports,
}

-- Every allowed port is free or used and never both, no other port is either; the references point
-- at objects that exist; and a reservation remembers an allowed port.
pub record Inv (allowed : ℕ → Bool) (pm : PortManager) : Type 0 where
  pub partition : (p : ℕ) → pm.free_ports p ≡ (allowed p && not (is_some (pm.used_ports p)))
  pub used_allowed : (p r : ℕ) → pm.used_ports p ≡ some r → allowed p ≡ true
  pub used_fresh : (p r : ℕ) → pm.used_ports p ≡ some r → r < pm.next
  pub used_port : (p r : ℕ) → pm.used_ports p ≡ some r → (pm.heap r).port ≡ p
  pub reserved_fresh : (n : Text) (r : ℕ) → pm.reserved_ports n ≡ some r → r < pm.next
  pub reserved_allowed :
      (n : Text) (r : ℕ) → pm.reserved_ports n ≡ some r → allowed (pm.heap r).port ≡ true

pub new_manager-Inv :
    (net_type : Text) (ranges : List PortsRange)
    → Inv (free_at_start ranges) (new_manager net_type ranges)
unfolding new_manager
new_manager-Inv net_type ranges = record {
  partition = λ p. ground arith;
  used_allowed = λ p r h. ground arith;
  used_fresh = λ p r h. ground arith;
  used_port = λ p r h. ground arith;
  reserved_fresh = λ n r h. ground arith;
  reserved_allowed = λ n r h. ground arith;
}

module _ {allowed : ℕ → Bool} {pm : PortManager} (v : Inv allowed pm) where
  -- Granting an allowed port, be it free or in use, keeps the state well formed.
  pub grant-Inv :
      (name : Text) (port now : ℕ) → allowed port ≡ true → Inv allowed (grant pm name port now)
  unfolding grant
  grant-Inv name port now a = record {
    partition = λ p. ground (arith, v.partition p);
    used_allowed = λ p r h. ground (arith, v.used_allowed p r);
    used_fresh = λ p r h. ground (arith, v.used_fresh p r);
    used_port = λ p r h. ground (arith, v.used_fresh p r, v.used_port p r);
    reserved_fresh = λ n r h. ground (arith, v.reserved_fresh n r);
    reserved_allowed = λ n r h. ground (arith, v.reserved_fresh n r, v.reserved_allowed n r);
  }

  pub release-Inv : (port now : ℕ) → Inv allowed (release pm port now)
  unfolding release
  release-Inv port now = elim (Option-cases (pm.used_ports port)) [
    | inl e ↦ rw (e, release) v
    | inr (ref, e) ↦
        rw (e, release)
          (record {
            partition = λ p. ground (arith, v.partition p, v.used_allowed p ref);
            used_allowed = λ p r h. ground (arith, v.used_allowed p r);
            used_fresh = λ p r h. ground (arith, v.used_fresh p r);
            used_port = λ p r h. ground (arith, v.used_port p r);
            reserved_fresh = λ n r h. ground (arith, v.reserved_fresh n r);
            reserved_allowed = λ n r h. ground (arith, v.reserved_allowed n r);
          })
  ]

  pub clean-Inv : (now : ℕ) → Inv allowed (clean_reserved_ports pm now)
  unfolding clean_reserved_ports
  clean-Inv now = record {
    partition = v.partition;
    used_allowed = v.used_allowed;
    used_fresh = v.used_fresh;
    used_port = v.used_port;
    reserved_fresh = λ n r h. ground (arith, v.reserved_fresh n r);
    reserved_allowed = λ n r h. ground (arith, v.reserved_allowed n r);
  }

  pub reserved_port_allowed :
      (name : Text) (p : ℕ) → reserved_port pm name ≡ some p → allowed p ≡ true
  unfolding reserved_port
  reserved_port_allowed name p h = elim (Option-cases (pm.reserved_ports name)) [
    | inl e ↦ ground arith
    | inr (r, e) ↦ ground (arith, v.reserved_allowed name r)
  ]

  free_allowed : (p : ℕ) → pm.free_ports p ≡ true → allowed p ≡ true
  free_allowed p h = ground (arith, v.partition p)

-- What is found is one of the visited ports, and it is available.
pub first_available-In :
    (n : ℕ) (available : ℕ → Bool) (ks : List ℕ) (k : ℕ)
    → first_available n available ks ≡ some k
    → In k ks × (available k ≡ true)
unfolding first_available
first_available-In zero available ks k h = cc
first_available-In (suc n) available [] k h = cc
first_available-In (suc n) available (x ∷ ks) k h =
    ground (arith, first_available-In n available ks k)

-- Go's range over `freePorts` visits free ports only.
abbrev pub Visits : PortManager → List ℕ → Type 0
Visits pm order = All (λ k. pm.free_ports k ≡ true) order

pub Visits-In :
    (pm : PortManager) (order : List ℕ) (k : ℕ)
    → Visits pm order
    → In k order
    → pm.free_ports k ≡ true
Visits-In pm [] k a m = elim m [ ]
Visits-In pm (x ∷ ks) k a (inl e) = rw (← e) a.0
Visits-In pm (x ∷ ks) k a (inr m) = Visits-In pm ks k a.1 m

module _ {allowed : ℕ → Bool} {pm : PortManager} (v : Inv allowed pm) (probe : Probe) where
  acquire_random-Inv :
      (name : Text) (order : List ℕ) (now : ℕ)
      → Visits pm order
      → Inv allowed (acquire_random pm probe name order now).0
  unfolding acquire_random
  acquire_random-Inv name order now vis =
      elim (Option-cases (first_available max_try_times (is_port_available pm probe) order)) [
        | inl e ↦ rw (e, acquire_random) v
        | inr (k, e) ↦
            rw (e, acquire_random)
              (grant-Inv v name k now
                (free_allowed v k (Visits-In pm order k vis (first_available-In _ _ order k e).0)))
      ]

  acquire_zero-Inv :
      (name : Text) (order : List ℕ) (now : ℕ)
      → Visits pm order
      → Inv allowed (acquire_zero pm probe name order now).0
  unfolding acquire_zero
  acquire_zero-Inv name order now vis = elim (Option-cases (reserved_port pm name)) [
    | inl e ↦ rw (e, acquire_zero) (acquire_random-Inv name order now vis)
    | inr (p, e) ↦ elim (Bool-cases (is_port_available pm probe p)) [
      | inl a ↦ rw (e, acquire_zero, a) (grant-Inv v name p now (reserved_port_allowed v name p e))
      | inr a ↦ rw (e, acquire_zero, a) (acquire_random-Inv name order now vis)
    ]
  ]

  acquire_specified-Inv :
      (name : Text) (port now : ℕ) → Inv allowed (acquire_specified pm probe name port now).0
  unfolding acquire_specified
  acquire_specified-Inv name port now = elim (Bool-cases (pm.free_ports port)) [
    | inl f ↦ elim (Bool-cases (is_port_available pm probe port)) [
      | inl a ↦ rw (f, a) (grant-Inv v name port now (free_allowed v port f))
      | inr a ↦ rw (f, a) v
    ]
    | inr f ↦ rw f v
  ]

  -- Whatever `Acquire` is asked for and answers, it keeps the state well formed.
  pub acquire-Inv :
      (name : Text) (port : ℕ) (order : List ℕ) (now : ℕ)
      → Visits pm order
      → Inv allowed (acquire pm probe name port order now).0
  unfolding acquire
  acquire-Inv name port order now vis = elim (Bool-cases (port == 0)) [
    | inl z ↦ rw z (acquire_zero-Inv name order now vis)
    | inr z ↦ rw z (acquire_specified-Inv name port now)
  ]

-- The calls of the proxies and of the cleaning goroutine, in any order.
pub data Step (pm : PortManager) : PortManager → Type 0 where
  acquires :
      (probe : Probe) (name : Text) (port : ℕ) (order : List ℕ) (now : ℕ)
      → Visits pm order
      → Step pm (acquire pm probe name port order now).0
  releases : (port now : ℕ) → Step pm (release pm port now)
  cleans : (now : ℕ) → Step pm (clean_reserved_ports pm now)

pub data Reach (start : PortManager) : PortManager → Type 0 where
  here : Reach start start
  next : {pm qm : PortManager} → Reach start pm → Step pm qm → Reach start qm

pub Step-Inv :
    {allowed : ℕ → Bool} {pm qm : PortManager} → Inv allowed pm → Step pm qm → Inv allowed qm
Step-Inv v (acquires probe name port order now vis) = acquire-Inv v probe name port order now vis
Step-Inv v (releases port now) = release-Inv v port now
Step-Inv v (cleans now) = clean-Inv v now

Reach-Inv :
    {allowed : ℕ → Bool} {start pm : PortManager}
    → Inv allowed start
    → Reach start pm
    → Inv allowed pm
Reach-Inv v here = v
Reach-Inv v (next r s) = Step-Inv (Reach-Inv v r) s

-- After any history of calls on a new manager, whatever the probes answer, the allowed ports are
-- the free and the used ones, no port is both, and each used port's object carries that port.
pub Reach-partition :
    (net_type : Text) (ranges : List PortsRange) {pm : PortManager}
    → Reach (new_manager net_type ranges) pm
    → Inv (free_at_start ranges) pm
Reach-partition net_type ranges r = Reach-Inv (new_manager-Inv net_type ranges) r
