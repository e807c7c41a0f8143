-- ===== src/Nathole/Decisions/Answers.antt =====
-- What the two peers are told.
use frpcv.Prelude.{
  leb, Bool-cases, Text, text_eq, nat_eq, ℕ, ◌+◌, ◌*◌, ◌≤◌, ◌<◌, ◌≡◌, ap, inl, inr, Option, some,
  List, arith,
}
use frpcv.Nathole.Analyzer.{Analyzer}
use frpcv.Nathole.Decisions.{last_text, port_range, get_range_ports}

module _ (split_host_port : Text → Option (Text × Text)) (atoi : Text → Option ℕ)
    (md5_hex : Text → Text) where
  -- Where the last known port of the other side is valid: the range that a peer is told to try, if there is
  -- one, has valid ends, contains that port, and spans at most twice the number of the behaviour and one port.
  pub get_range_ports_around :
      (addrs : List Text) (difference max_number : ℕ) (from to port : ℕ) (addr ip port_str : Text)
      → last_text addrs ≡ some addr
      → split_host_port addr ≡ some (ip, port_str)
      → atoi port_str ≡ some port
      → 0 < port
      → port ≤ 65535
      → get_range_ports split_host_port atoi md5_hex addrs difference max_number ≡ some (from, to)
      → (0 < from) × (from ≤ port) × (port ≤ to) × (to ≤ 65535) × (to ≤ from + 2 * max_number)
  unfolding get_range_ports port_range
  get_range_ports_around addrs difference max_number from to port addr ip port_str e f g l h r =
      elim (Bool-cases (leb max_number 0)) [
        | inl n ↦ absurd (let z = rw (n, get_range_ports) at r in cc)
        | inr n ↦
            let z = rw (n, get_range_ports, e, f, g) at r in
            let same : port_range port difference max_number ≡ (from, to) = cc in
            let lower = ap (λ (q : ℕ × ℕ). q.0) same in
            let upper = ap (λ (q : ℕ × ℕ). q.1) same in
            let positive : 0 < max_number = ground arith in
            (omega arith, omega arith, omega arith, omega arith, omega arith)
      ]
