-- ===== src/Config/PortsRanges/Canonical.antt =====
-- What is read can be printed and read again.
use frpcv.Prelude.{
  ltb, Bool-cases, Text, text_eq, nat_eq, All, ℕ, ◌^◌, ◌<◌, ◌≡◌, refl, subst, ◌≢◌, inl, inr, Option,
  none, some, List, [], ◌∷◌, arith,
}
use frpcv.Util.Texts.{split, split-ne-nil}
use frpcv.Util.Decimal.{parse_int_lt}
use frpcv.Server.Ports.{PortsRange}
use frpcv.Config.PortsRanges.{
  trim_space, ranges_string, single_range, range_between, parse_range, and_rest, parse_ranges,
  new_ports_range_slice_from_string,
}
use frpcv.Config.PortsRanges.Trip.{IsWritten, from_string-ranges_string}

Written : Option PortsRange → Type 0
Written r = (v : PortsRange) → r ≡ some v → IsWritten v

written : (v : PortsRange) → IsWritten v → Written (some v)
unfolding Written
written v w u e = let same : v ≡ u = cc in subst IsWritten same w

unwritten : Written none
unfolding Written
unwritten v e = absurd (cc)

single-Written : (o : Option ℕ) → ((n : ℕ) → o ≡ some n → n < 2 ^ 63) → Written (single_range o)
single-Written none f = unwritten
single-Written (some n) f = written _ (f n refl, omega arith, omega arith, λ l. (refl, refl))

between-Written :
    (o p : Option ℕ) → ((n : ℕ) → p ≡ some n → n < 2 ^ 63) → Written (range_between o p)
between-Written none p f = unwritten
between-Written (some m) none f = unwritten
between-Written (some m) (some n) f = elim (Bool-cases (ltb n m)) [
  | inl y ↦ rw y unwritten
  | inr l ↦ rw l (written _ (omega arith, f n refl, ground arith, λ z. absurd (omega arith)))
]

parse_range-Written : (pieces : List Text) → Written (parse_range pieces)
unfolding parse_range
parse_range-Written [] = unwritten
parse_range-Written (num ∷ []) = single-Written _ (parse_int_lt (trim_space num))
parse_range-Written (lower ∷ upper ∷ []) = between-Written _ _ (parse_int_lt (trim_space upper))
parse_range-Written (lower ∷ upper ∷ more ∷ pieces) = unwritten

and_rest-IsWritten :
    (r : Option PortsRange) (l : Option (List PortsRange)) (rs : List PortsRange)
    → Written r
    → ((vs : List PortsRange) → l ≡ some vs → All IsWritten vs)
    → and_rest r l ≡ some rs
    → (rs ≢ []) × All IsWritten rs
unfolding Written
and_rest-IsWritten none l rs f g e = absurd (cc)
and_rest-IsWritten (some r) none rs f g e = absurd (cc)
and_rest-IsWritten (some r) (some l) rs f g e =
    let same : r ∷ l ≡ rs = cc in
    subst (λ vs. (vs ≢ []) × All IsWritten vs) same (λ z. cc, (f r refl, g l refl))

parse_ranges-IsWritten :
    (pieces : List Text) (rs : List PortsRange) → parse_ranges pieces ≡ some rs → All IsWritten rs
unfolding parse_ranges
parse_ranges-IsWritten [] rs e = let same : [] ≡ rs = cc in subst (All IsWritten) same tt
parse_ranges-IsWritten (piece ∷ pieces) rs e =
    (and_rest-IsWritten _ _ rs (parse_range-Written (split b'-' piece))
      (parse_ranges-IsWritten pieces) e).1

from_string-IsWritten :
    (str : Text) (rs : List PortsRange)
    → new_ports_range_slice_from_string str ≡ some rs
    → (rs ≢ []) × All IsWritten rs
unfolding new_ports_range_slice_from_string parse_ranges
from_string-IsWritten str rs e =
    of_pieces (split b',' (trim_space str)) (split-ne-nil b',' (trim_space str)) e
  where
    of_pieces :
        (pieces : List Text)
        → pieces ≢ []
        → parse_ranges pieces ≡ some rs
        → (rs ≢ []) × All IsWritten rs
    of_pieces [] n e = absurd (n refl)
    of_pieces (piece ∷ pieces) n e =
        and_rest-IsWritten _ _ rs (parse_range-Written (split b'-' piece))
          (parse_ranges-IsWritten pieces) e

-- Whatever text is accepted, with spaces, signs or leading zeros, the ranges it is read as are printed as a
-- text that is read as the same ranges; they are not empty, and each is a single port or two ends in order.
pub string_canonical :
    (str : Text) (rs : List PortsRange)
    → new_ports_range_slice_from_string str ≡ some rs
    → (new_ports_range_slice_from_string (ranges_string rs) ≡ some rs)
      × (rs ≢ [])
      × All IsWritten rs
string_canonical str rs e =
    let (n, w) = from_string-IsWritten str rs e in (from_string-ranges_string rs n w, n, w)
