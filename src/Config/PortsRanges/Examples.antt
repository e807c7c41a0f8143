-- ===== src/Config/PortsRanges/Examples.antt =====
-- Tests of the texts of port ranges, and their theorems at concrete inputs.
use frpcv.Prelude.{text_eq, nat_eq, text, All, ◌≡◌, refl, ◌≢◌, none, some, List, [], ◌∷◌, arith}
use frpcv.Util.Texts.{split, join}
use frpcv.Util.Decimal.{spelled, parse_int, digits, itoa}
use frpcv.Server.Ports.{PortsRange}
use frpcv.Config.PortsRanges.{
  trim_left, trim_right, trim_space, range_string, ranges_string, parse_range, parse_ranges,
  new_ports_range_slice_from_string,
}
use frpcv.Config.PortsRanges.Trip.{IsWritten, from_string-ranges_string}
use frpcv.Config.PortsRanges.Canonical.{string_canonical}

abbrev ranges : List PortsRange
ranges =
    record { start = 1000; end = 2000; single = 0 }
    ∷ record { start = 0; end = 0; single = 3000 }
    ∷ []

ranges_string_test : ranges_string ranges ≡ text "1000-2000,3000"
unfolding ranges_string range_string itoa digits join
ranges_string_test = refl

read_test : new_ports_range_slice_from_string (text " 1000 - 2000,+3000 ") ≡ some ranges
unfolding new_ports_range_slice_from_string parse_ranges parse_range trim_space trim_left trim_right
    split parse_int spelled
read_test = refl

wrong_order_test : new_ports_range_slice_from_string (text "2-1") ≡ none
unfolding new_ports_range_slice_from_string parse_ranges parse_range trim_space trim_left trim_right
    split parse_int spelled
wrong_order_test = refl

from_string-ranges_string_holds :
    new_ports_range_slice_from_string (ranges_string ranges) ≡ some ranges
from_string-ranges_string_holds = from_string-ranges_string ranges (cc) (
  (omega arith, omega arith, omega arith, λ l. absurd (omega arith)),
  ((omega arith, omega arith, omega arith, λ l. (refl, refl)), tt),
)

string_canonical_example :
    (new_ports_range_slice_from_string (ranges_string ranges) ≡ some ranges)
    × (ranges ≢ [])
    × All IsWritten ranges
string_canonical_example = string_canonical (text " 1000 - 2000,+3000 ") ranges read_test
