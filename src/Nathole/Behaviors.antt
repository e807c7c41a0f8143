-- ===== src/Nathole/Behaviors.antt =====
-- src/pkg/nathole/analysis.go: what the two peers are told to do, by mode and index.
-- The strings that name the roles are data; `no_role` is the empty one.
pub mod Tables
use frpcv.Prelude.{
  if◌then◌else◌, text_eq, nat_eq, ◌==◌, get_elem?, ℤ, ℕ, ◌+◌, Bool, true, false, none, some, List,
  [], ◌∷◌,
}

pub data Role : Type 0 where
  no_role sender receiver : Role

pub record RecommandBehavior : Type 0 where
  pub role : Role
  pub ttl : ℕ
  pub send_delay_ms : ℕ
  pub ports_range_number : ℕ
  pub ports_random_number : ℕ
  pub listen_random_ports : ℕ

-- A behaviour of which only the role is set.
abbrev pub only : Role → RecommandBehavior
only role = record {
  role = role;
  ttl = 0;
  send_delay_ms = 0;
  ports_range_number = 0;
  ports_random_number = 0;
  listen_random_ports = 0;
}

abbrev pub late : ℕ → RecommandBehavior
late ms = record (only sender) { send_delay_ms = ms }

abbrev pub short : ℕ → RecommandBehavior
short ttl = record (only receiver) { ttl = ttl }

abbrev pub Pair : Type 0
Pair = RecommandBehavior × RecommandBehavior

unfoldable pub mode_0_behaviors : List Pair
mode_0_behaviors =
    (only sender, short 7)
    ∷ (short 7, only sender)
    ∷ (only sender, short 4)
    ∷ (short 4, only sender)
    ∷ (only sender, only receiver)
    ∷ (only receiver, only sender)
    ∷ (late 5000, only receiver)
    ∷ (late 10000, only receiver)
    ∷ (only receiver, late 5000)
    ∷ (only receiver, late 10000)
    ∷ []

abbrev pub ranged : ℕ → RecommandBehavior → RecommandBehavior
ranged n b = record b { ports_range_number = n }

unfoldable pub mode_1_behaviors : List Pair
mode_1_behaviors =
    (only sender, ranged 10 (short 7))
    ∷ (late 2000, ranged 10 (short 7))
    ∷ (only sender, ranged 10 (short 4))
    ∷ (late 2000, ranged 10 (short 4))
    ∷ (only sender, ranged 10 (only receiver))
    ∷ (late 2000, ranged 10 (only receiver))
    ∷ []

abbrev pub spraying : RecommandBehavior
spraying = record (late 3000) { ports_random_number = 1000 }

abbrev pub listening : RecommandBehavior → RecommandBehavior
listening b = record b { listen_random_ports = 256 }

unfoldable pub mode_2_behaviors : List Pair
mode_2_behaviors =
    (spraying, listening (short 7))
    ∷ (spraying, listening (short 4))
    ∷ (spraying, listening (only receiver))
    ∷ []

unfoldable pub mode_3_behaviors : List Pair
mode_3_behaviors =
    (ranged 10 (only sender), ranged 10 (short 7))
    ∷ (ranged 10 (only sender), ranged 10 (short 4))
    ∷ (ranged 10 (only sender), ranged 10 (only receiver))
    ∷ (ranged 10 (short 7), ranged 10 (only sender))
    ∷ (ranged 10 (short 4), ranged 10 (only sender))
    ∷ (ranged 10 (only receiver), ranged 10 (only sender))
    ∷ []

unfoldable pub mode_4_behaviors : List Pair
mode_4_behaviors =
    (spraying, ranged 2 (listening (short 7)))
    ∷ (spraying, ranged 2 (listening (short 4)))
    ∷ (spraying, ranged 2 (listening (only receiver)))
    ∷ []

unfoldable pub get_behavior_by_mode : ℕ → List Pair
unfolding mode_0_behaviors mode_1_behaviors mode_2_behaviors mode_3_behaviors mode_4_behaviors
get_behavior_by_mode mode =
    if mode == 0
    then mode_0_behaviors
    else if mode == 1
    then mode_1_behaviors
    else if mode == 2
    then mode_2_behaviors
    else if mode == 3
    then mode_3_behaviors
    else if mode == 4
    then mode_4_behaviors
    else mode_0_behaviors

unfoldable pub get_behavior_by_mode_and_index : ℕ → ℕ → Pair
unfolding get_behavior_by_mode
get_behavior_by_mode_and_index mode index = elim (get_elem? (get_behavior_by_mode mode) index) [
  | none ↦ (only no_role, only no_role)
  | some pair ↦ pair
]

pub record BehaviorScore : Type 0 where
  pub mode : ℕ
  pub index : ℕ
  pub score : ℤ

unfoldable pub is_sender : RecommandBehavior → Bool
is_sender b = elim b.role [ sender ↦ true | _ ↦ false ]

-- The scores from an index on.
unfoldable pub scores_from : ℕ → ℤ → ℤ → ℕ → List Pair → List BehaviorScore
unfolding is_sender
scores_from mode sender_score receiver_score i [] = []
scores_from mode sender_score receiver_score i (b ∷ behaviors) =
    record {
      mode = mode;
      index = i;
      score = if is_sender b.0 then sender_score else receiver_score;
    }
    ∷ scores_from mode sender_score receiver_score (i + 1) behaviors

unfoldable pub get_behavior_scores_by_mode_2 : ℕ → ℤ → ℤ → List BehaviorScore
unfolding scores_from get_behavior_by_mode
get_behavior_scores_by_mode_2 mode sender_score receiver_score =
    scores_from mode sender_score receiver_score 0 (get_behavior_by_mode mode)

unfoldable pub get_behavior_scores_by_mode : ℕ → ℤ → List BehaviorScore
unfolding get_behavior_scores_by_mode_2
get_behavior_scores_by_mode mode score = get_behavior_scores_by_mode_2 mode score score
