-- ===== src/Client/Health/Probes.antt =====
-- When a probe succeeds.
use frpcv.Prelude.{
  nat_beq_iff, Bool-cases, Option-cases, ◌==◌, nat_eq, Text, text_beq, text_beq_iff, text_eq, text,
  ℕ, ◌/◌, ◌≤◌, ◌<◌, ◌≡◌, refl, ◌↔◌, inl, inr, Bool, true, Option, some, [], arith,
}
use frpcv.Client.Health.{Monitor, do_tcp_check, do_http_check, do_check, is_ok}

-- A TCP probe succeeds when no address is given or the address can be dialled; an HTTP probe when the
-- request is answered with a status from 200 to 299; a probe of another type never.
pub data Alive (dial : Text → Bool) (fetch : Text → Option ℕ) (m : Monitor) : Type 0 where
  no_address : m.check_type ≡ text "tcp" → m.addr ≡ [] → Alive dial fetch m
  dialled : m.check_type ≡ text "tcp" → dial m.addr ≡ true → Alive dial fetch m
  answered :
      (status : ℕ)
      → m.check_type ≡ text "http"
      → fetch m.url ≡ some status
      → 200 ≤ status
      → status < 300
      → Alive dial fetch m

module _ (dial : Text → Bool) (fetch : Text → Option ℕ) where
  tcp_sound :
      (m : Monitor)
      → m.check_type ≡ text "tcp"
      → is_ok (do_tcp_check dial fetch m) ≡ true
      → Alive dial fetch m
  unfolding do_tcp_check is_ok
  tcp_sound m t h = elim (Bool-cases (m.addr == [])) [
    | inl e ↦ no_address t ((text_beq_iff m.addr []).0 e)
    | inr e ↦ elim (Bool-cases (dial m.addr)) [
      | inl d ↦ dialled t d
      | inr d ↦ absurd (ground arith)
    ]
  ]

  http_sound :
      (m : Monitor)
      → m.check_type ≡ text "http"
      → is_ok (do_http_check dial fetch m) ≡ true
      → Alive dial fetch m
  unfolding do_http_check is_ok
  http_sound m t h = elim (Option-cases (fetch m.url)) [
    | inl e ↦ absurd (ground arith)
    | inr (status, e) ↦
        let q : status / 100 ≡ 2 = ground (arith, nat_beq_iff (status / 100) 2) in
        answered status t e (omega arith) (omega arith)
  ]

  sound : (m : Monitor) → is_ok (do_check dial fetch m) ≡ true → Alive dial fetch m
  unfolding do_check is_ok
  sound m h = elim (Bool-cases (m.check_type == text "tcp")) [
    | inl e ↦ tcp_sound m ((text_beq_iff m.check_type (text "tcp")).0 e) (ground arith)
    | inr e ↦ elim (Bool-cases (m.check_type == text "http")) [
      | inl f ↦ http_sound m ((text_beq_iff m.check_type (text "http")).0 f) (ground arith)
      | inr f ↦ absurd (ground arith)
    ]
  ]

  complete : (m : Monitor) → Alive dial fetch m → is_ok (do_check dial fetch m) ≡ true
  unfolding do_check do_tcp_check do_http_check is_ok text_beq
  complete m (no_address t a) = rw (t, a, do_check) refl
  complete m (dialled t d) = rw (t, d, do_check) (ground arith)
  complete m (answered status t f a b) =
      let q : status / 100 ≡ 2 = omega arith in rw (t, f, q, do_check, do_http_check) refl

  -- A probe succeeds exactly when the service is alive as its type of check defines it, whatever the
  -- network does.
  pub do_check_iff : (m : Monitor) → (is_ok (do_check dial fetch m) ≡ true) ↔ Alive dial fetch m
  do_check_iff m = (sound m, complete m)
