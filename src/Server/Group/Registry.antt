-- ===== src/Server/Group/Registry.antt =====
-- src/server/group/registry.go: named groups. A `*TCPGroup` or `*HTTPGroup` is an address, and the
-- tests that the callers pass (`cur == g`) compare addresses.
use frpcv.Prelude.{
  if◌then◌else◌, ◌==◌, nat_eq, Text, text_eq, Map, put, del, ℕ, Bool, false, none, some,
}

-- `getOrCreate`: the address under the name, or the one that `newFn` has allocated.
unfoldable pub get_or_create : Map Text ℕ → Text → ℕ → Map Text ℕ × ℕ
get_or_create groups key fresh = elim (groups key) [
  | none ↦ (put key fresh groups, fresh)
  | some g ↦ (groups, g)
]

-- `isCurrent` with the test for one address
unfoldable pub is_current : Map Text ℕ → Text → ℕ → Bool
is_current groups key g = elim (groups key) [ none ↦ false | some cur ↦ cur == g ]

-- `removeIf` with the test for one address
unfoldable pub remove_if : Map Text ℕ → Text → ℕ → Map Text ℕ
remove_if groups key g = elim (groups key) [
  | none ↦ groups
  | some cur ↦ if cur == g then del key groups else groups
]
