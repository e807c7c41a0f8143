-- ===== src/Nathole/Decisions/Examples.antt =====
-- Tests of the decisions, and their theorems at concrete inputs.
use frpcv.Prelude.{
  Text, text_eq, nat_eq, text, is_some, no_entries, put, ℕ, ◌+◌, ◌*◌, ◌≤◌, ◌<◌, ◌≡◌, refl, false,
  Option, none, some, [], ◌∷◌, arith,
}
use frpcv.Nathole.Classify.{easy_nat, no_change, NatFeature}
use frpcv.Nathole.Analyzer.{new_analyzer}
use frpcv.Nathole.Sessions.{VisitorMsg, ClientMsg, Controller, new_controller, new_session}
use frpcv.Nathole.Decisions.{port_range, get_range_ports, Decision, decide_for, decide}
use frpcv.Nathole.Decisions.Repeats.{repeated_address_leaves_no_ports}
use frpcv.Nathole.Decisions.Answers.{get_range_ports_around}

-- Each address is the host h and the port p, which is 100.
abbrev split_address : Text → Option (Text × Text)
split_address addr = some (text "h", text "p")

abbrev number : Text → Option ℕ
number s = some 100

abbrev same_text : Text → Text
same_text s = s

abbrev controller : Controller
controller = record (new_controller (new_analyzer 10)) {
  client_cfgs = put (text "web") (record { sk = text "s"; allow_users = text "u" ∷ [] }) no_entries;
}

abbrev visitor : VisitorMsg
visitor = record {
  transaction_id = text "t";
  proxy_name = text "web";
  sign_key = text "s";
  timestamp = 1;
  mapped_addrs = text "a" ∷ text "b" ∷ [];
  assisted_addrs = [];
}

abbrev client : ClientMsg
client = record {
  transaction_id = text "c";
  sid = text "1";
  mapped_addrs = text "a" ∷ text "b" ∷ [];
  assisted_addrs = [];
}

abbrev plain : NatFeature
plain = record {
  nat_type = easy_nat;
  behavior = no_change;
  ports_difference = 0;
  regular_ports_change = false;
  public_network = false;
}

decide_test : is_some (decide split_address number same_text controller (text "1") 5).1 ≡ false
unfolding decide
decide_test = refl

abbrev decision : Decision split_address number same_text
decision =
    decide_for split_address number same_text (new_analyzer 10) (new_session visitor) client plain
      plain 5

range : get_range_ports split_address number same_text (text "a" ∷ []) 0 3 ≡ some (97, 103)
unfolding get_range_ports port_range
range = refl

get_range_ports_around_example :
    (0 < 97) × (97 ≤ 100) × (100 ≤ 103) × (103 ≤ 65535) × (103 ≤ 97 + 2 * 3)
get_range_ports_around_example =
    get_range_ports_around split_address number same_text (text "a" ∷ []) 0 3 97 103 100 (text "a")
      (text "h") (text "p") refl refl refl (omega arith) (omega arith) range

-- No port where there is none to split
abbrev split_some : Text → Option (Text × Text)
split_some [] = none
split_some (b ∷ s) = some (text "h", b ∷ s)

abbrev repeating : ClientMsg
repeating = record client { mapped_addrs = text "a" ∷ text "b" ∷ text "b" ∷ [] }

repeated_address_leaves_no_ports_example :
    (decide_for split_some number same_text
      (new_analyzer 10)
      (new_session visitor)
      repeating
      plain
      plain
      5).v_resp.behavior.candidate_ports
    ≡ none
repeated_address_leaves_no_ports_example =
    repeated_address_leaves_no_ports split_some number same_text (new_analyzer 10)
      (new_session visitor) repeating plain plain 5 (text "a" ∷ []) (text "b") [] refl refl
