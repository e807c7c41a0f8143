-- ===== src/Nathole/Sessions/Examples.antt =====
-- Tests of the sessions, and the theorem about them at a concrete input.
use frpcv.Prelude.{
  Text, text_beq, text_eq, nat_eq, text, is_some, no_entries, put, ℕ, ◌≡◌, refl, true, false,
  Option, none, some, [], ◌∷◌,
}
use frpcv.Nathole.Classify.{contains}
use frpcv.Nathole.Analyzer.{new_analyzer}
use frpcv.Nathole.Sessions.{
  VisitorMsg, ClientMsg, Controller, accepted, user_not_allowed, new_controller, listen_client,
  close_client, pre_check, new_session, handle_client, end_session, handle_report, open_session,
}
use frpcv.Nathole.Decisions.Signed.{
  Past, listens, opens, joins, Reach, start, next, IsSigned, session-IsSigned,
}

abbrev key : Text → ℕ → Text
key sk timestamp = sk

abbrev controller : Controller
controller = record (new_controller (new_analyzer 10)) {
  client_cfgs = put (text "web") (record { sk = text "s"; allow_users = text "u" ∷ [] }) no_entries;
}

abbrev visitor : VisitorMsg
visitor = record {
  transaction_id = text "t";
  proxy_name = text "web";
  sign_key = text "s";
  timestamp = 1;
  mapped_addrs = text "a" ∷ text "b" ∷ [];
  assisted_addrs = [];
}

abbrev client : ClientMsg
client = record {
  transaction_id = text "c";
  sid = text "1";
  mapped_addrs = text "a" ∷ text "b" ∷ [];
  assisted_addrs = [];
}

abbrev opened : Controller
opened = (open_session key controller (text "1") visitor).0

abbrev joined : Controller
joined = handle_client opened client

listen_client_test : is_some (listen_client controller (text "web") [] []) ≡ false
unfolding listen_client text_beq
listen_client_test = refl

close_client_test : (close_client controller (text "web")).client_cfgs (text "web") ≡ none
unfolding close_client text_beq
close_client_test = refl

end_session_test : (end_session joined (text "1")).sessions (text "1") ≡ none
unfolding end_session text_beq
end_session_test = refl

handle_report_test : handle_report controller (text "1") true 5 ≡ controller
unfolding handle_report
handle_report_test = refl

-- A visitor whose user is not allowed is told so when it checks before; with the key, its session is opened.
pre_check_test : pre_check controller (text "web") (text "x") ≡ user_not_allowed
unfolding pre_check contains text_beq
pre_check_test = refl

open_session_test : (open_session key controller (text "1") visitor).1 ≡ accepted
unfolding open_session text_beq
open_session_test = refl

-- Each address is the host h and the port p, which is 100.
abbrev split_address : Text → Option (Text × Text)
split_address addr = some (text "h", text "p")

abbrev number : Text → Option ℕ
number s = some 100

abbrev same_text : Text → Text
same_text s = s

abbrev past : Past
past = (text "web", record { sk = text "s"; allow_users = text "u" ∷ [] }) ∷ []

listened :
    listen_client (new_controller (new_analyzer 10)) (text "web") (text "s") (text "u" ∷ [])
    ≡ some controller
unfolding listen_client
listened = refl

joined-Reach : Reach split_address number same_text key joined past
joined-Reach =
    next
      (next (next (start 10) (listens (text "web") (text "s") (text "u" ∷ []) controller listened))
        (opens (text "1") visitor))
      (joins client)

session_there :
    joined.sessions (text "1") ≡ some (record (new_session visitor) { client_msg = some client })
unfolding open_session handle_client text_beq
session_there = refl

session-IsSigned_example :
    IsSigned split_address number same_text key past visitor
    × ((cm : ClientMsg) → some client ≡ some cm → cm.sid ≡ text "1")
session-IsSigned_example =
    session-IsSigned split_address number same_text key joined-Reach (text "1")
      (record (new_session visitor) { client_msg = some client }) session_there
