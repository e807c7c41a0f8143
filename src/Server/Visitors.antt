-- ===== src/Server/Visitors.antt =====
-- src/server/visitor/visitor.go: the listeners that visitors connect to. What `util.GetAuthKey` makes of a
-- secret and a time is a parameter, as is whether the encryption of a connection and the listener's queue
-- take it.
pub mod Access
mod Examples
use frpcv.Prelude.{
  if◌then◌else◌, Text, text_eq, nat_eq, ◌==◌, text, Map, is_some, no_entries, put, del, ℕ, ◌+◌, ◌*◌,
  Bool, false, not, ◌&&◌, ◌||◌, Option, none, some, List, [], ◌∷◌,
}

pub record ListenerBundle : Type 0 where
  pub l : ℕ
  pub sk : Text
  pub allow_users : List Text

pub record Manager : Type 0 where
  pub listeners : Map Text ListenerBundle
  pub next : ℕ

-- A connection is put into the queue of a listener, or refused.
pub data ConnResult : Type 0 where
  put_conn : ℕ → ConnResult
  auth_failed user_not_allowed encryption_failed queue_closed no_listener : ConnResult

pub record Request : Type 0 where
  pub name : Text
  pub timestamp : ℕ
  pub sign_key : Text
  pub use_encryption : Bool
  pub visitor_user : Text

abbrev pub new_manager : Manager
new_manager = record { listeners = no_entries; next = 0 }

-- `none` is the error that the listener is repeated.
unfoldable pub listen : Manager → Text → Text → List Text → Manager × Option ℕ
listen vm name sk allow_users = if is_some (vm.listeners name) then (vm, none) else (
  record {
    listeners = put name (record { l = vm.next; sk = sk; allow_users = allow_users }) vm.listeners;
    next = vm.next + 1;
  },
  some vm.next,
)

-- slices.Contains
unfoldable pub contains : List Text → Text → Bool
contains [] user = false
contains (u ∷ us) user = let rest = contains us user in u == user || rest

module _ (get_auth_key : Text → ℕ → Text) (encrypts : Text → Bool) (queue_takes : ℕ → Bool) where
  unfoldable pub conn_to : ListenerBundle → Request → ConnResult
  conn_to b req =
      if not (get_auth_key b.sk req.timestamp == req.sign_key)
      then auth_failed
      else if not (contains b.allow_users req.visitor_user)
          && not (contains b.allow_users (text "*"))
      then user_not_allowed
      else if req.use_encryption && not (encrypts b.sk)
      then encryption_failed
      else if queue_takes b.l
      then put_conn b.l
      else queue_closed

  unfoldable pub new_conn : Manager → Request → ConnResult
  unfolding conn_to
  new_conn vm req = elim (vm.listeners req.name) [ none ↦ no_listener | some b ↦ conn_to b req ]

unfoldable pub close_listener : Manager → Text → Manager
close_listener vm name = record vm { listeners = del name vm.listeners }
