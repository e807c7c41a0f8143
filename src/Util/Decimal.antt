-- ===== src/Util/Decimal.antt =====
-- What the program uses of Go's package strconv: decimal numbers that are not negative, of 64 bits.
use frpcv.Prelude.{
  ltb, leb, if◌then◌else◌, nat_beq_iff, Bool-cases, Text, text_eq, nat_eq, ◌==◌, All, ℕ, zero, suc,
  ◌+◌, ◌-◌, ◌*◌, ◌/◌, ◌%◌, ◌^◌, ◌≤◌, ◌<◌, ◌≡◌, refl, ap, ◌∙◌, ◌≢◌, inl, inr, false, ◌&&◌, Option,
  none, some, [], ◌∷◌, ◌++◌, arith,
}

-- The number behind `n` that the digits spell.
unfoldable pub spelled : Text → ℕ → Option ℕ
spelled [] n = some n
spelled (c ∷ s) n =
    let rest = spelled s (n * 10 + (c - b'0')) in if leb b'0' c && leb c b'9' then rest else none

abbrev in_range : Option ℕ → Option ℕ
in_range none = none
in_range (some n) = if ltb n (2 ^ 63) then some n else none

-- strconv.ParseInt(s, 10, 64) of a text without a minus sign; a plus sign may stand first.
unfoldable pub parse_int : Text → Option ℕ
parse_int [] = none
parse_int (c ∷ []) = spelled (c ∷ []) 0
parse_int (c ∷ d ∷ s) =
    if c == b'+' then in_range (spelled (d ∷ s) 0) else in_range (spelled (c ∷ d ∷ s) 0)

unfoldable pub digits : ℕ → ℕ → Text
digits zero n = (b'0' + n % 10) ∷ []
digits (suc fuel) n =
    if ltb n 10 then (b'0' + n) ∷ [] else digits fuel (n / 10) ++ (b'0' + n % 10) ∷ []

-- strconv.Itoa: a number has no more digits than its value, and one if it is 0.
unfoldable pub itoa : ℕ → Text
itoa n = digits n n

abbrev pub IsDigit : ℕ → Type 0
IsDigit c = (b'0' ≤ c) × (c ≤ b'9')

digits_snoc : (s : Text) (c : ℕ) → All IsDigit s → IsDigit c → All IsDigit (s ++ c ∷ [])
digits_snoc [] c h k = (k, tt)
digits_snoc (d ∷ s) c (a, h) k = (a, digits_snoc s c h k)

snoc-ne-nil : (s : Text) (c : ℕ) → s ++ c ∷ [] ≢ []
snoc-ne-nil [] c h = cc
snoc-ne-nil (d ∷ s) c h = cc

digits-IsDigit : (fuel n : ℕ) → n ≤ fuel → All IsDigit (digits fuel n)
unfolding digits
digits-IsDigit zero n h = ((omega arith, omega arith), tt)
digits-IsDigit (suc fuel) n h = elim (Bool-cases (ltb n 10)) [
  | inl y ↦ rw y ((omega arith, ground arith), tt)
  | inr l ↦ rw l (
      digits_snoc (digits fuel (n / 10)) (b'0' + n % 10)
        (digits-IsDigit fuel (n / 10) (ground arith)) (omega arith, omega arith))
]

pub itoa-IsDigit : (n : ℕ) → All IsDigit (itoa n)
unfolding itoa
itoa-IsDigit n = digits-IsDigit n n (omega arith)

spelled-append :
    (s : Text) (c n m : ℕ)
    → spelled s n ≡ some m
    → IsDigit c
    → spelled (s ++ c ∷ []) n ≡ some (m * 10 + (c - b'0'))
unfolding spelled
spelled-append [] c n m h k = ground arith
spelled-append (d ∷ s) c n m h k = ground (arith, spelled-append s c (n * 10 + (d - b'0')) m)

spelled-digits : (fuel n : ℕ) → n ≤ fuel → spelled (digits fuel n) 0 ≡ some n
unfolding digits
spelled-digits zero n h = unfold spelled in ground arith
spelled-digits (suc fuel) n h = elim (Bool-cases (ltb n 10)) [
  | inl y ↦ rw y (unfold spelled in ground arith)
  | inr l ↦ rw l (
      let e =
        spelled-append (digits fuel (n / 10)) (b'0' + n % 10) 0 (n / 10)
          (spelled-digits fuel (n / 10) (ground arith)) (omega arith, omega arith) in
      e ∙ ap some (omega arith))
]

-- A text of digits has no plus sign.
parse_int-digits :
    (s : Text) (n : ℕ)
    → All IsDigit s
    → s ≢ []
    → spelled s 0 ≡ some n
    → n < 2 ^ 63
    → parse_int s ≡ some n
unfolding parse_int
parse_int-digits [] n a e h l = absurd (e refl)
parse_int-digits (c ∷ []) n a e h l = h
parse_int-digits (c ∷ d ∷ s) n ((x, y), a) e h l =
    let no_sign : (c == b'+') ≡ false = ground (arith, nat_beq_iff c b'+') in
    rw (no_sign, h) (ground arith)

digits-ne-nil : (fuel n : ℕ) → digits fuel n ≢ []
unfolding digits
digits-ne-nil zero n h = cc
digits-ne-nil (suc fuel) n h = ground (arith, snoc-ne-nil (digits fuel (n / 10)) (b'0' + n % 10))

pub parse_int-itoa : (n : ℕ) → n < 2 ^ 63 → parse_int (itoa n) ≡ some n
unfolding itoa
parse_int-itoa n l =
    parse_int-digits (digits n n) n (digits-IsDigit n n (omega arith)) (digits-ne-nil n n)
      (spelled-digits n n (omega arith)) l

in_range_lt : (r : Option ℕ) (n : ℕ) → in_range r ≡ some n → n < 2 ^ 63
in_range_lt none n h = cc
in_range_lt (some m) n h = ground arith

pub parse_int_lt : (s : Text) (n : ℕ) → parse_int s ≡ some n → n < 2 ^ 63
unfolding parse_int
parse_int_lt [] n h = cc
parse_int_lt (c ∷ []) n h = unfold spelled in ground arith
parse_int_lt (c ∷ d ∷ s) n h =
    ground (arith, in_range_lt (spelled (d ∷ s) 0) n, in_range_lt (spelled (c ∷ d ∷ s) 0) n)
