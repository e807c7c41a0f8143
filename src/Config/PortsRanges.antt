-- ===== src/Config/PortsRanges.antt =====
-- src/pkg/config/types/types.go: the ranges of ports, printed and read. The numbers are not negative.
-- `strings.TrimSpace` is that of ASCII.
pub mod Trip
pub mod Canonical
mod Examples
use frpcv.Prelude.{
  ltb, leb, if◌then◌else◌, Text, text_eq, nat_eq, ◌==◌, ℕ, ◌+◌, ◌-◌, Bool, ◌&&◌, ◌||◌, Option, none,
  some, List, [], ◌∷◌, ◌++◌, map,
}
use frpcv.Util.Texts.{split, join}
use frpcv.Util.Decimal.{parse_int, itoa}
use frpcv.Server.Ports.{PortsRange}

abbrev pub is_space : ℕ → Bool
is_space c = c == b' ' || (leb 9 c && leb c 13)

unfoldable pub trim_left : Text → Text
trim_left [] = []
trim_left (c ∷ s) = let rest = trim_left s in if is_space c then rest else c ∷ s

abbrev pub cons_trimmed : ℕ → Text → Text
cons_trimmed c [] = if is_space c then [] else c ∷ []
cons_trimmed c (d ∷ s) = c ∷ d ∷ s

unfoldable pub trim_right : Text → Text
trim_right [] = []
trim_right (c ∷ s) = cons_trimmed c (trim_right s)

unfoldable pub trim_space : Text → Text
trim_space s = trim_right (trim_left s)

-- What `PortsRangeSlice.String` appends for one range.
unfoldable pub range_string : PortsRange → Text
range_string v = if ltb 0 v.single then itoa v.single else itoa v.start ++ b'-' ∷ itoa v.end

unfoldable pub ranges_string : List PortsRange → Text
ranges_string p = join b',' (map range_string p)

abbrev pub single_range : Option ℕ → Option PortsRange
single_range none = none
single_range (some single_num) = some (record { start = 0; end = 0; single = single_num })

abbrev pub range_between : Option ℕ → Option ℕ → Option PortsRange
range_between none max_num = none
range_between (some min_num) none = none
range_between (some min_num) (some max_num) =
    if ltb max_num min_num
    then none
    else some (record { start = min_num; end = max_num; single = 0 })

-- One round of the loop over the pieces.
unfoldable pub parse_range : List Text → Option PortsRange
parse_range (num ∷ []) = single_range (parse_int (trim_space num))
parse_range (lower ∷ upper ∷ []) =
    range_between (parse_int (trim_space lower)) (parse_int (trim_space upper))
parse_range _ = none

abbrev pub and_rest : Option PortsRange → Option (List PortsRange) → Option (List PortsRange)
and_rest none rest = none
and_rest (some r) none = none
and_rest (some r) (some rs) = some (r ∷ rs)

unfoldable pub parse_ranges : List Text → Option (List PortsRange)
parse_ranges [] = some []
parse_ranges (piece ∷ pieces) = and_rest (parse_range (split b'-' piece)) (parse_ranges pieces)

unfoldable pub new_ports_range_slice_from_string : Text → Option (List PortsRange)
unfolding parse_ranges
new_ports_range_slice_from_string str = parse_ranges (split b',' (trim_space str))
