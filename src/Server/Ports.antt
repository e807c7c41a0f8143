-- ===== src/Server/Ports.antt =====
-- src/server/ports/ports.go: the manager of the remote ports of TCP and UDP proxies.
-- A `*PortCtx` is an address of `heap`, since `reservedPorts` and `usedPorts` share the objects.
-- The ports are natural numbers and times are nanoseconds. What the operating system answers to a
-- probe, and the order in which Go ranges over `freePorts`, are arguments of `acquire`.
pub mod Invariant
pub mod Acquire
pub mod Reserve
pub mod Frame
pub mod Errors
mod Examples
use frpcv.Prelude.{
  ltb, if◌then◌else◌, Text, text_eq, nat_eq, ◌==◌, text, Map, is_some, no_entries, put, del, ℕ,
  zero, suc, ◌+◌, ◌-◌, Bool, true, false, ◌&&◌, Option, none, some, List, [], ◌∷◌,
}

abbrev pub min_port : ℕ
min_port = 1

abbrev pub max_port : ℕ
max_port = 65535

-- 24 hours
abbrev pub max_port_reserved_duration : ℕ
max_port_reserved_duration = 86_400_000_000_000

pub data PortError : Type 0 where
  port_already_used port_not_allowed port_unavailable no_available_port : PortError

pub data PortResult : Type 0 where
  ok : ℕ → PortResult
  err : PortError → PortResult

pub record PortCtx : Type 0 where
  pub proxy_name : Text
  pub port : ℕ
  pub closed : Bool
  pub update_time : ℕ

pub record PortManager : Type 0 where
  pub heap : ℕ → PortCtx
  pub next : ℕ
  pub reserved_ports : Map Text ℕ
  pub used_ports : Map ℕ ℕ
  pub free_ports : ℕ → Bool
  pub net_type : Text

pub record PortsRange : Type 0 where
  pub start : ℕ
  pub end : ℕ
  pub single : ℕ

-- The operating system's answers to `isPortAvailable`.
pub record Probe : Type 0 where
  pub resolve_udp : ℕ → Bool
  pub listen_udp : ℕ → Bool
  pub listen : Text → ℕ → Bool

abbrev empty_ctx : PortCtx
empty_ctx = record { proxy_name = []; port = 0; closed = false; update_time = 0 }

abbrev add_port : ℕ → (ℕ → Bool) → ℕ → Bool
add_port p free q = if p == q then true else free q

-- `for i := from; i <= to; i++`, by the number of rounds
add_ports : ℕ → ℕ → (ℕ → Bool) → ℕ → Bool
add_ports i zero free = free
add_ports i (suc rounds) free = add_ports (i + 1) rounds (add_port i free)

abbrev add_range : ℕ → ℕ → (ℕ → Bool) → ℕ → Bool
add_range from to = add_ports from (to + 1 - from)

add_allowed : List PortsRange → (ℕ → Bool) → ℕ → Bool
unfolding add_ports
add_allowed [] free = free
add_allowed (pair ∷ rest) free =
    add_allowed rest
      (if ltb 0 pair.single then add_port pair.single free else add_range pair.start pair.end free)

unfoldable pub free_at_start : List PortsRange → ℕ → Bool
unfolding add_allowed
free_at_start [] = add_range min_port max_port (λ p. false)
free_at_start (pair ∷ rest) = add_allowed (pair ∷ rest) (λ p. false)

unfoldable pub new_manager : Text → List PortsRange → PortManager
new_manager net_type allow_ports = record {
  heap = λ r. empty_ctx;
  next = 0;
  reserved_ports = no_entries;
  used_ports = no_entries;
  free_ports = free_at_start allow_ports;
  net_type = net_type;
}

unfoldable pub is_port_available : PortManager → Probe → ℕ → Bool
is_port_available pm probe port =
    if pm.net_type == text "udp"
    then probe.resolve_udp port && probe.listen_udp port
    else probe.listen pm.net_type port

-- The assignments that the three successful branches of `Acquire` share, for a new `portCtx`.
unfoldable pub grant : PortManager → Text → ℕ → ℕ → PortManager
grant pm name real_port now = record pm {
  heap = λ r. if pm.next == r then ctx else pm.heap r;
  next = pm.next + 1;
  used_ports = put real_port pm.next pm.used_ports;
  reserved_ports = put name pm.next pm.reserved_ports;
  free_ports = λ p. if real_port == p then false else pm.free_ports p;
}
  where
    ctx : PortCtx
    ctx = record { proxy_name = name; port = real_port; closed = false; update_time = now }

-- The loop over `freePorts`: the first of at most `n` visited ports that is available.
unfoldable pub first_available : ℕ → (ℕ → Bool) → List ℕ → Option ℕ
first_available zero available ks = none
first_available (suc n) available [] = none
first_available (suc n) available (k ∷ ks) =
    let rest = first_available n available ks in if available k then some k else rest

abbrev pub max_try_times : ℕ
max_try_times = 5

unfoldable pub acquire_random : PortManager → Probe → Text → List ℕ → ℕ → PortManager × PortResult
acquire_random pm probe name order now =
    elim (first_available max_try_times (is_port_available pm probe) order) [
      | none ↦ (pm, err no_available_port)
      | some k ↦ (grant pm name k now, if k == 0 then err no_available_port else ok k)
    ]

unfoldable pub acquire_specified : PortManager → Probe → Text → ℕ → ℕ → PortManager × PortResult
acquire_specified pm probe name port now =
    if pm.free_ports port
    then (if is_port_available pm probe port
        then (grant pm name port now, ok port)
        else (pm, err port_unavailable))
    else (pm, err (if is_some (pm.used_ports port) then port_already_used else port_not_allowed))

-- The port that a reservation of the name remembers.
unfoldable pub reserved_port : PortManager → Text → Option ℕ
reserved_port pm name = elim (pm.reserved_ports name) [
  | none ↦ none
  | some r ↦ some (pm.heap r).port
]

unfoldable pub acquire_zero : PortManager → Probe → Text → List ℕ → ℕ → PortManager × PortResult
acquire_zero pm probe name order now = elim (reserved_port pm name) [
  | none ↦ acquire_random pm probe name order now
  | some p ↦
      if is_port_available pm probe p
      then (grant pm name p now, ok p)
      else acquire_random pm probe name order now
]

unfoldable pub acquire : PortManager → Probe → Text → ℕ → List ℕ → ℕ → PortManager × PortResult
acquire pm probe name port order now =
    if port == 0
    then acquire_zero pm probe name order now
    else acquire_specified pm probe name port now

unfoldable pub release : PortManager → ℕ → ℕ → PortManager
release pm port now = elim (pm.used_ports port) [
  | none ↦ pm
  | some ref ↦ record pm {
    free_ports = add_port port pm.free_ports;
    used_ports = del port pm.used_ports;
    heap = λ r.
        if ref == r then record (pm.heap r) { closed = true; update_time = now } else pm.heap r;
  }
]

-- `time.Since(ctx.UpdateTime) > MaxPortReservedDuration`
abbrev pub is_stale : ℕ → PortCtx → Bool
is_stale now ctx = ctx.closed && ltb (ctx.update_time + max_port_reserved_duration) now

-- One round of `cleanReservedPortsWorker`, which starts its rounds every hour.
unfoldable pub clean_reserved_ports : PortManager → ℕ → PortManager
clean_reserved_ports pm now = record pm {
  reserved_ports = λ name. elim (pm.reserved_ports name) [
    | none ↦ none
    | some r ↦ if is_stale now (pm.heap r) then none else some r
  ];
}
