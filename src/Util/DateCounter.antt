-- ===== src/Util/DateCounter.antt =====
-- src/pkg/util/metric/date_counter.go: counts of the last days. A time is a number of seconds; what
-- `time.Date` makes of it, the start of its day in the local zone, is a parameter. Counts are int64, kept
-- as residues modulo 2 ^ 64, and `make` of a negative length panics.
pub mod Days
pub mod Runs
pub mod Snapshots
mod Examples
use frpcv.Prelude.{
  ltb, leb, if◌then◌else◌, text_eq, nat_eq, ℤ, pos, negsuc, pos_part, leb_ℤ, ℕ, zero, suc, ◌+◌, ◌-◌,
  ◌/◌, ◌%◌, ◌^◌, Option, none, some, List, [], ◌∷◌, ◌++◌,
}

pub record DateCounter : Type 0 where
  pub reserve_days : ℕ
  pub counts : List ℕ
  pub last_update_date : ℕ

-- 24 hours
abbrev pub day : ℕ
day = 86400

unfoldable pub zeros : ℕ → List ℕ
zeros zero = []
zeros (suc n) = 0 ∷ zeros n

unfoldable pub first : ℕ → List ℕ → List ℕ
first zero xs = []
first (suc n) [] = []
first (suc n) (x ∷ xs) = x ∷ first n xs

-- c.counts[0]
unfoldable pub head_count : List ℕ → ℕ
head_count [] = 0
head_count (x ∷ xs) = x

-- c.counts[0] = f(c.counts[0])
unfoldable pub set_head : (ℕ → ℕ) → List ℕ → List ℕ
set_head f [] = []
set_head f (x ∷ xs) = f x ∷ xs

module _ (midnight : ℕ → ℕ) where
  unfoldable pub new_standard_date_counter : ℕ → ℕ → DateCounter
  new_standard_date_counter reserve_days now = record {
    reserve_days = reserve_days;
    counts = zeros reserve_days;
    last_update_date = midnight now;
  }

  unfoldable pub new_date_counter : ℤ → ℕ → DateCounter
  unfolding new_standard_date_counter
  new_date_counter reserve_days now =
      if leb_ℤ reserve_days (pos 0)
      then new_standard_date_counter 1 now
      else new_standard_date_counter (pos_part reserve_days) now

  -- A time before the last update gives days ≤ 0, as the difference 0 does here.
  unfoldable pub rotate : DateCounter → ℕ → DateCounter
  rotate c now =
      let days = (midnight now - c.last_update_date) / day in
      let moved = record c { last_update_date = midnight now } in
      if leb days 0
      then moved
      else if leb c.reserve_days days
      then record moved { counts = zeros c.reserve_days }
      else record moved { counts = zeros days ++ first (c.reserve_days - days) c.counts }

  unfoldable pub today_count : DateCounter → ℕ → DateCounter × ℕ
  today_count c now = let c' = rotate c now in (c', head_count c'.counts)

  unfoldable pub get_last_days_count : DateCounter → ℤ → ℕ → DateCounter × Option (List ℕ)
  get_last_days_count c (negsuc n) now = (c, none)
  get_last_days_count c (pos n) now =
      let lastdays = if ltb c.reserve_days n then c.reserve_days else n in
      let c' = rotate c now in (c', some (first lastdays c'.counts))

  unfoldable pub inc : DateCounter → ℕ → ℕ → DateCounter
  inc c count now =
      let c' = rotate c now in record c' { counts = set_head (λ x. (x + count) % 2 ^ 64) c'.counts }

  unfoldable pub dec : DateCounter → ℕ → ℕ → DateCounter
  dec c count now =
      let c' = rotate c now in
      record c' { counts = set_head (λ x. (x + (2 ^ 64 - count % 2 ^ 64)) % 2 ^ 64) c'.counts }

  unfoldable pub snapshot : DateCounter → ℕ → DateCounter
  unfolding new_standard_date_counter
  snapshot c now = record (new_standard_date_counter c.reserve_days now) {
    counts = first c.reserve_days c.counts;
  }

unfoldable pub clear : DateCounter → DateCounter
clear c = record c { counts = zeros c.reserve_days }
