-- ===== src/Nathole/Sessions.antt =====
-- src/pkg/nathole/controller.go: the sessions in which a visitor and a client are told how to make a hole.
-- The key of a secret and a time is a parameter. The waits of HandleVisitor part it into steps: opening,
-- deciding (in Nathole/Decisions), ending.
mod Examples
use frpcv.Prelude.{
  if◌then◌else◌, Text, text_eq, nat_eq, ◌==◌, text, Map, is_some, no_entries, put, del, ℕ, ◌*◌,
  Bool, not, ◌&&◌, Option, none, some, List, [],
}
use frpcv.Nathole.Classify.{contains}
use frpcv.Nathole.Analyzer.{Analyzer, report}

pub record ClientCfg : Type 0 where
  pub sk : Text
  pub allow_users : List Text

pub record VisitorMsg : Type 0 where
  pub transaction_id : Text
  pub proxy_name : Text
  pub sign_key : Text
  pub timestamp : ℕ
  pub mapped_addrs : List Text
  pub assisted_addrs : List Text

pub record ClientMsg : Type 0 where
  pub transaction_id : Text
  pub sid : Text
  pub mapped_addrs : List Text
  pub assisted_addrs : List Text

pub record Session : Type 0 where
  pub visitor_msg : VisitorMsg
  pub client_msg : Option ClientMsg
  pub analysis_key : Text
  pub recommand_mode : ℕ
  pub recommand_index : ℕ

pub record Controller : Type 0 where
  pub client_cfgs : Map Text ClientCfg
  pub sessions : Map Text Session
  pub analyzer : Analyzer

pub data VisitorResult : Type 0 where
  accepted no_server auth_failed user_not_allowed : VisitorResult

abbrev pub new_controller : Analyzer → Controller
new_controller analyzer = record {
  client_cfgs = no_entries;
  sessions = no_entries;
  analyzer = analyzer;
}

-- `none` is the error that the proxy is repeated.
unfoldable pub listen_client : Controller → Text → Text → List Text → Option Controller
listen_client c name sk allow_users =
    if is_some (c.client_cfgs name)
    then none
    else some (record c {
      client_cfgs = put name (record { sk = sk; allow_users = allow_users }) c.client_cfgs;
    })

unfoldable pub close_client : Controller → Text → Controller
close_client c name = record c { client_cfgs = del name c.client_cfgs }

-- `HandleVisitor` of a message that only checks
unfoldable pub pre_check : Controller → Text → Text → VisitorResult
pre_check c proxy_name visitor_user = elim (c.client_cfgs proxy_name) [
  | none ↦ no_server
  | some cfg ↦
      if not (contains visitor_user cfg.allow_users) && not (contains (text "*") cfg.allow_users)
      then user_not_allowed
      else accepted
]

abbrev pub new_session : VisitorMsg → Session
new_session m = record {
  visitor_msg = m;
  client_msg = none;
  analysis_key = [];
  recommand_mode = 0;
  recommand_index = 0;
}

unfoldable pub handle_client : Controller → ClientMsg → Controller
handle_client c m = elim (c.sessions m.sid) [
  | none ↦ c
  | some session ↦ record c {
    sessions = put m.sid (record session { client_msg = some m }) c.sessions;
  }
]

-- The deferred function of `HandleVisitor`
unfoldable pub end_session : Controller → Text → Controller
end_session c sid = record c { sessions = del sid c.sessions }

unfoldable pub handle_report : Controller → Text → Bool → ℕ → Controller
handle_report c sid success now = elim (c.sessions sid) [
  | none ↦ c
  | some session ↦
      if success
      then record c {
        analyzer =
            report c.analyzer session.analysis_key session.recommand_mode session.recommand_index
              now;
      }
      else c
]

module _ (get_auth_key : Text → ℕ → Text) where
  -- `HandleVisitor` up to its first wait, with the new session's id.
  unfoldable pub open_session : Controller → Text → VisitorMsg → Controller × VisitorResult
  open_session c sid m = elim (c.client_cfgs m.proxy_name) [
    | none ↦ (c, no_server)
    | some cfg ↦
        if not (m.sign_key == get_auth_key cfg.sk m.timestamp)
        then (c, auth_failed)
        else (record c { sessions = put sid (new_session m) c.sessions }, accepted)
  ]
