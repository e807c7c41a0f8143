-- ===== src/Config/PortsRanges/Trip.antt =====
-- Printed ranges are read back.
use frpcv.Prelude.{
  ltb, nat_beq_iff, Bool-cases, Text, text_eq, nat_eq, ◌==◌, if_both, All, All-weaken, ℕ, ◌^◌, ◌≤◌,
  ◌<◌, ◌≡◌, refl, sym, ap, ◌∙◌, ◌≢◌, inl, inr, false, some, List, [], ◌∷◌, ◌++◌, map, arith,
}
use frpcv.Util.Texts.{split, join, Lacks, split-join}
use frpcv.Util.Decimal.{parse_int, itoa, IsDigit, itoa-IsDigit, parse_int-itoa}
use frpcv.Server.Ports.{PortsRange}
use frpcv.Config.PortsRanges.{
  is_space, trim_left, cons_trimmed, trim_right, trim_space, range_string, ranges_string,
  single_range, range_between, parse_range, parse_ranges, new_ports_range_slice_from_string,
}

-- The ranges that a text can stand for: a single port or two ends in order, in 64 bits.
abbrev pub IsWritten : PortsRange → Type 0
IsWritten v =
    (v.single < 2 ^ 63)
    × (v.end < 2 ^ 63)
    × (v.start ≤ v.end)
    × (0 < v.single → (v.start ≡ 0) × (v.end ≡ 0))

abbrev Solid : Text → Type 0
Solid s = All (λ c. is_space c ≡ false) s

trim_left-Solid : (s : Text) → Solid s → trim_left s ≡ s
unfolding trim_left
trim_left-Solid [] h = refl
trim_left-Solid (c ∷ s) (h, k) = rw h refl

trim_right-Solid : (s : Text) → Solid s → trim_right s ≡ s
unfolding trim_right
trim_right-Solid [] h = refl
trim_right-Solid (c ∷ []) (h, k) = rw h refl
trim_right-Solid (c ∷ d ∷ s) (h, k) = ap (cons_trimmed c) (trim_right-Solid (d ∷ s) k)

trim_space-Solid : (s : Text) → Solid s → trim_space s ≡ s
unfolding trim_space
trim_space-Solid s h = ap trim_right (trim_left-Solid s h) ∙ trim_right-Solid s h

All-both : (P : ℕ → Type 0) (s t : Text) → All P s → All P t → All P (s ++ t)
All-both P [] t h k = k
All-both P (c ∷ s) t (a, h) k = (a, All-both P s t h k)

number-Solid : (n : ℕ) → Solid (itoa n)
number-Solid n =
    All-weaken IsDigit (λ c. is_space c ≡ false) (itoa n)
      (λ c h. ground (arith, nat_beq_iff c b' ')) (itoa-IsDigit n)

number-Lacks : (n sep : ℕ) → sep < b'0' → Lacks sep (itoa n)
number-Lacks n sep l =
    All-weaken IsDigit (λ c. (c == sep) ≡ false) (itoa n) (λ c h. ground (arith, nat_beq_iff c sep))
      (itoa-IsDigit n)

read_number : (n : ℕ) → n < 2 ^ 63 → parse_int (trim_space (itoa n)) ≡ some n
read_number n l = ap parse_int (trim_space-Solid (itoa n) (number-Solid n)) ∙ parse_int-itoa n l

range_string-Solid : (v : PortsRange) → Solid (range_string v)
unfolding range_string
range_string-Solid v = if_both Solid (ltb 0 v.single) (number-Solid v.single) (
    All-both _ (itoa v.start) (b'-' ∷ itoa v.end) (number-Solid v.start) (refl, number-Solid v.end))

range_string-Lacks : (v : PortsRange) → Lacks b',' (range_string v)
unfolding range_string
range_string-Lacks v =
    if_both (Lacks b',') (ltb 0 v.single) (number-Lacks v.single b',' (omega arith)) (
      All-both _ (itoa v.start) (b'-' ∷ itoa v.end) (number-Lacks v.start b',' (omega arith))
        (refl, number-Lacks v.end b',' (omega arith)))

split_number : (n : ℕ) → split b'-' (itoa n) ≡ itoa n ∷ []
unfolding join
split_number n = split-join b'-' (itoa n) [] (number-Lacks n b'-' (omega arith)) tt

split_numbers : (m n : ℕ) → split b'-' (itoa m ++ b'-' ∷ itoa n) ≡ itoa m ∷ itoa n ∷ []
unfolding join
split_numbers m n =
    split-join b'-' (itoa m) (itoa n ∷ []) (number-Lacks m b'-' (omega arith))
      (number-Lacks n b'-' (omega arith), tt)

same_range :
    (a b c : ℕ) (v : PortsRange)
    → v.start ≡ a
    → v.end ≡ b
    → v.single ≡ c
    → record { start = a; end = b; single = c } ≡ v
same_range a b c v d e f = λ i. record { start = sym d i; end = sym e i; single = sym f i }

range_between_ordered :
    (a b : ℕ)
    → a ≤ b
    → range_between (some a) (some b) ≡ some (record { start = a; end = b; single = 0 })
range_between_ordered a b h = ground arith

parse_range-string :
    (v : PortsRange) → IsWritten v → parse_range (split b'-' (range_string v)) ≡ some v
unfolding range_string parse_range
parse_range-string v (a, b, c, d) = elim (Bool-cases (ltb 0 v.single)) [
  | inl y ↦
      let (x, z) = d (ground arith) in
      rw (y, split_number v.single)
        (ap single_range (read_number v.single a) ∙ ap some (same_range 0 0 v.single v x z refl))
  | inr n ↦
      rw (n, split_numbers v.start v.end)
        (ap (λ s. range_between s (parse_int (trim_space (itoa v.end))))
            (read_number v.start (omega arith))
          ∙ ap (range_between (some v.start)) (read_number v.end b)
          ∙ range_between_ordered v.start v.end c
          ∙ ap some (same_range v.start v.end 0 v refl refl (ground arith)))
]

parse_ranges-string :
    (rs : List PortsRange) → All IsWritten rs → parse_ranges (map range_string rs) ≡ some rs
unfolding parse_ranges
parse_ranges-string [] h = refl
parse_ranges-string (v ∷ rs) (a, h) =
    let e = parse_range-string v a in let f = parse_ranges-string rs h in cc

join-Solid : (pieces : List Text) → All Solid pieces → Solid (join b',' pieces)
unfolding join
join-Solid [] h = tt
join-Solid (p ∷ []) (a, h) = a
join-Solid (p ∷ q ∷ pieces) (a, h) = All-both _ p _ a (refl, join-Solid (q ∷ pieces) h)

strings-Solid : (rs : List PortsRange) → All Solid (map range_string rs)
strings-Solid [] = tt
strings-Solid (v ∷ rs) = (range_string-Solid v, strings-Solid rs)

strings-Lack : (rs : List PortsRange) → All (Lacks b',') (map range_string rs)
strings-Lack [] = tt
strings-Lack (v ∷ rs) = (range_string-Lacks v, strings-Lack rs)

-- A list of ranges that is not empty, each a single port or two ends in order, below 2 ^ 63, is read back
-- from what `PortsRangeSlice.String` prints of it.
pub from_string-ranges_string :
    (rs : List PortsRange)
    → rs ≢ []
    → All IsWritten rs
    → new_ports_range_slice_from_string (ranges_string rs) ≡ some rs
unfolding new_ports_range_slice_from_string ranges_string
from_string-ranges_string [] n h = absurd (n refl)
from_string-ranges_string (v ∷ rs) n h =
    ap (λ s. parse_ranges (split b',' s))
      (trim_space-Solid (join b',' (map range_string (v ∷ rs)))
        (join-Solid (map range_string (v ∷ rs)) (strings-Solid (v ∷ rs))))
    ∙ ap parse_ranges (
        split-join b',' (range_string v) (map range_string rs) (range_string-Lacks v)
          (strings-Lack rs))
    ∙ parse_ranges-string (v ∷ rs) h
