-- ===== src/Nathole/Decisions.antt =====
-- src/pkg/nathole/controller.go: what the two peers of a session are told. `net.SplitHostPort`, `strconv.Atoi`
-- and the MD5 of a text are parameters. The ids and the protocol that the answers repeat and the texts of
-- errors are left out.
pub mod Answers
pub mod Repeats
pub mod Signed
mod Examples
use frpcv.Prelude.{
  ltb, leb, if◌then◌else◌, Text, text_eq, nat_eq, ◌==◌, text, put, ℕ, ◌+◌, ◌-◌, max, min, Bool,
  true, false, ◌||◌, Option, none, some, List, [], ◌∷◌, ◌++◌,
}
use frpcv.Nathole.Classify.{
  NatType, easy_nat, hard_nat, NatBehavior, no_change, ip_changed, port_changed, both_changed,
  NatFeature, ok, not_enough_addresses, bad_address, classify_nat_feature,
}
use frpcv.Nathole.Behaviors.{Role, RecommandBehavior}
use frpcv.Nathole.Analyzer.{Analyzer, get_recommand_behaviors}
use frpcv.Nathole.Sessions.{ClientMsg, Session, Controller}

-- One side's answer.
pub record DetectBehavior : Type 0 where
  pub mode : ℕ
  pub role : Role
  pub ttl : ℕ
  pub send_delay_ms : ℕ
  pub read_timeout_ms : ℕ
  pub send_random_ports : ℕ
  pub listen_random_ports : ℕ
  pub candidate_ports : Option (ℕ × ℕ)

-- One side's response, with the addresses of the other side.
pub record Response : Type 0 where
  pub candidate_addrs : List Text
  pub assisted_addrs : List Text
  pub behavior : DetectBehavior

-- slices.Compact after a text, and the blanks it leaves behind the texts it keeps
unfoldable pub compact_after : Text → List Text → List Text
compact_after s [] = []
compact_after s (t ∷ ss) = let rest = compact_after t ss in if s == t then rest else t ∷ rest

unfoldable pub blanks_after : Text → List Text → List Text
blanks_after s [] = []
blanks_after s (t ∷ ss) = let rest = blanks_after t ss in if s == t then [] ∷ rest else rest

unfoldable pub compact : List Text → List Text
unfolding compact_after
compact [] = []
compact (s ∷ ss) = s ∷ compact_after s ss

-- The slice that was given to slices.Compact, afterwards: the rest is cleared.
unfoldable pub compacted : List Text → List Text
unfolding compact_after blanks_after
compacted [] = []
compacted (s ∷ ss) = (s ∷ compact_after s ss) ++ blanks_after s ss

abbrev pub nat_type_text : NatType → Text
nat_type_text easy_nat = text "EasyNAT"
nat_type_text hard_nat = text "HardNAT"

abbrev pub behavior_text : NatBehavior → Text
behavior_text no_change = text "BehaviorNoChange"
behavior_text ip_changed = text "BehaviorIPChanged"
behavior_text port_changed = text "BehaviorPortChanged"
behavior_text both_changed = text "BehaviorBothChanged"

abbrev pub bool_text : Bool → Text
bool_text true = text "true"
bool_text false = text "false"

-- The first text of a list, if there is one: the only one of the compacted list that is written.
abbrev pub first_text : List Text → Text
first_text [] = []
first_text (s ∷ ss) = s

abbrev pub last_text : List Text → Option Text
last_text [] = none
last_text (s ∷ []) = some s
last_text (s ∷ t ∷ ss) = last_text (t ∷ ss)

-- What one peer writes into the hash.
unfoldable pub peer_text : List Text → NatFeature → Text
peer_text ips f =
    first_text ips
    ++ (nat_type_text f.nat_type ++ (behavior_text f.behavior ++ bool_text f.regular_ports_change))

-- The largest timeout that one side's delay is taken from.
unfoldable pub timeout_ms : RecommandBehavior → RecommandBehavior → ℕ
timeout_ms c v =
    max c.send_delay_ms v.send_delay_ms
    + 5000
    + (if ltb 0 c.listen_random_ports || ltb 0 v.listen_random_ports then 30000 else 0)

-- The port from which the range is taken, with the differences; 1 is a lower bound of both sides.
unfoldable pub port_range : ℕ → ℕ → ℕ → ℕ × ℕ
port_range port difference max_number = (
  max (max (port - difference - 5) (port - max_number)) 1,
  min (min (port + difference + 5) (port + max_number)) 65535,
)

module _ (split_host_port : Text → Option (Text × Text)) (atoi : Text → Option ℕ)
    (md5_hex : Text → Text) where
  unfoldable pub parse_ips : List Text → List Text
  parse_ips [] = []
  parse_ips (addr ∷ addrs) =
      let rest = parse_ips addrs in
      elim (split_host_port addr) [ none ↦ rest | some (ip, port) ↦ ip ∷ rest ]

  unfoldable pub gen_analysis_key : List Text → NatFeature → List Text → NatFeature → Text
  gen_analysis_key v_addrs v c_addrs c =
      md5_hex (peer_text (parse_ips v_addrs) v ++ peer_text (parse_ips c_addrs) c)

  unfoldable pub get_range_ports : List Text → ℕ → ℕ → Option (ℕ × ℕ)
  unfolding port_range
  get_range_ports addrs difference max_number =
      if leb max_number 0 then none else elim (last_text addrs) [
        | none ↦ none
        | some addr ↦ elim (split_host_port addr) [
          | none ↦ none
          | some (ip, port_str) ↦ elim (atoi port_str) [
            | none ↦ none
            | some port ↦ some (port_range port difference max_number)
          ]
        ]
      ]

  -- The answer for the side with a behaviour, about the addresses of the other side.
  unfoldable pub answer : ℕ → ℕ → RecommandBehavior → List Text → ℕ → DetectBehavior
  unfolding get_range_ports
  answer mode timeout b addrs difference = record {
    mode = mode;
    role = b.role;
    ttl = b.ttl;
    send_delay_ms = b.send_delay_ms;
    read_timeout_ms = timeout - b.send_delay_ms;
    send_random_ports = b.ports_random_number;
    listen_random_ports = b.listen_random_ports;
    candidate_ports = get_range_ports addrs difference b.ports_range_number;
  }

  pub record Decision : Type 0 where
    pub session : Session
    pub analyzer : Analyzer
    pub v_resp : Response
    pub c_resp : Response

  -- The response for one side. slices.Compact changes the other side's addresses before the ports are
  -- taken from them.
  unfoldable pub respond : ℕ → ℕ → RecommandBehavior → List Text → List Text → ℕ → Response
  unfolding compact compacted answer
  respond mode timeout b mapped assisted difference = record {
    candidate_addrs = compact mapped;
    assisted_addrs = compact assisted;
    behavior = answer mode timeout b (compacted mapped) difference;
  }

  -- `analysis`, once the NATs are classified
  unfoldable pub decide_for :
      Analyzer → Session → ClientMsg → NatFeature → NatFeature → ℕ → Decision
  unfolding gen_analysis_key timeout_ms compacted respond
  decide_for a s cm c v now =
      let vm = s.visitor_msg in
      let key = gen_analysis_key vm.mapped_addrs v cm.mapped_addrs c in
      let (advice, a') = get_recommand_behaviors a key c v now in
      let timeout = timeout_ms advice.c_behavior advice.v_behavior in
      record {
        session = record s {
          visitor_msg = record vm {
            mapped_addrs = compacted vm.mapped_addrs;
            assisted_addrs = compacted vm.assisted_addrs;
          };
          client_msg = some (record cm {
            mapped_addrs = compacted cm.mapped_addrs;
            assisted_addrs = compacted cm.assisted_addrs;
          });
          analysis_key = key;
          recommand_mode = advice.mode;
          recommand_index = advice.index;
        };
        analyzer = a';
        v_resp =
            respond advice.mode timeout advice.v_behavior cm.mapped_addrs cm.assisted_addrs
              c.ports_difference;
        c_resp =
            respond advice.mode timeout advice.c_behavior vm.mapped_addrs vm.assisted_addrs
              v.ports_difference;
      }

  -- `analysis`: `none` is an error of the classification.
  unfoldable pub analysis : Analyzer → Session → ClientMsg → ℕ → Option Decision
  unfolding decide_for
  analysis a s cm now =
      elim (classify_nat_feature split_host_port atoi cm.mapped_addrs
        (parse_ips cm.assisted_addrs)) [
          | not_enough_addresses ↦ none
          | bad_address ↦ none
          | ok c ↦
              elim (classify_nat_feature split_host_port atoi s.visitor_msg.mapped_addrs
                (parse_ips s.visitor_msg.assisted_addrs)) [
                  | not_enough_addresses ↦ none
                  | bad_address ↦ none
                  | ok v ↦ some (decide_for a s cm c v now)
                ]
        ]

  -- `HandleVisitor` after the client's message, up to the sending of the answers.
  unfoldable pub decide : Controller → Text → ℕ → Controller × Option Decision
  unfolding analysis
  decide c sid now = elim (c.sessions sid) [
    | none ↦ (c, none)
    | some s ↦ elim s.client_msg [
      | none ↦ (c, none)
      | some cm ↦ elim (analysis c.analyzer s cm now) [
        | none ↦ (c, none)
        | some d ↦
            (record c { sessions = put sid d.session c.sessions; analyzer = d.analyzer }, some d)
      ]
    ]
  ]
