-- ===== src/Server/Registry.antt =====
-- src/server/registry/registry.go: the clients that the server knows, by key and by run id.
-- Times are nanoseconds and 0 is the zero time. The `*ClientInfo` objects are reached through the
-- map `clients` only, so they are stored by value.
pub mod Keys
pub mod Invariant
pub mod Sessions
mod Examples
use frpcv.Prelude.{
  if◌then◌else◌, Text, text_eq, nat_eq, ◌==◌, text, Map, no_entries, put, del, Dict, lookup, insert,
  erase, ℕ, ◌+◌, Bool, true, false, not, ◌&&◌, Option, none, some, List, [], ◌++◌, map,
}

pub record ClientInfo : Type 0 where
  pub key : Text
  pub user : Text
  pub raw_client_id : Text
  pub run_id : Text
  pub hostname : Text
  pub ip : Text
  pub version : Text
  pub first_connected_at : ℕ
  pub last_connected_at : ℕ
  pub disconnected_at : ℕ
  pub online : Bool

pub record ClientRegistry : Type 0 where
  pub clients : Dict Text ClientInfo
  pub run_index : Map Text Text

-- The arguments of `Register` beside the key's parts.
pub record Metadata : Type 0 where
  pub hostname : Text
  pub version : Text
  pub remote_addr : Text

abbrev pub new_client_registry : ClientRegistry
new_client_registry = record { clients = []; run_index = no_entries }

unfoldable pub compose_client_key : Text → Text → Text
compose_client_key user id =
    if user == [] then id else if id == [] then user else user ++ text "." ++ id

unfoldable pub effective_id : Text → Text → Text
effective_id raw run = if raw == [] then run else raw

-- The test for another session that is online under the key.
abbrev pub conflicts : Text → Text → Option ClientInfo → Bool
conflicts raw run none = false
conflicts raw run (some info) =
    not (raw == []) && (info.online && (not (info.run_id == []) && not (info.run_id == run)))

-- The entry that `Register` works on: the one that is there, or a new one.
unfoldable pub entry : Text → Text → ℕ → Option ClientInfo → ClientInfo
entry key user now none = record {
  key = key;
  user = user;
  raw_client_id = [];
  run_id = [];
  hostname = [];
  ip = [];
  version = [];
  first_connected_at = now;
  last_connected_at = 0;
  disconnected_at = 0;
  online = false;
}
entry key user now (some info) = info

-- The previous run id of an entry loses its index.
unfoldable pub forget_run : Option ClientInfo → Map Text Text → Map Text Text
forget_run none index = index
forget_run (some info) index = if info.run_id == [] then index else del info.run_id index

unfoldable pub connected : Text → Text → Text → Text → Metadata → ℕ → Option ClientInfo → ClientInfo
unfolding entry
connected key user raw run meta now old = record info {
  raw_client_id = raw;
  run_id = run;
  hostname = meta.hostname;
  ip = meta.remote_addr;
  version = meta.version;
  first_connected_at = if info.first_connected_at == 0 then now else info.first_connected_at;
  last_connected_at = now;
  disconnected_at = 0;
  online = true;
}
  where
    info : ClientInfo
    info = entry key user now old

-- The rest of `Register`, for an empty run id and a conflict ruled out.
unfoldable pub accept : ClientRegistry → Text → Text → Text → Text → Metadata → ℕ → ClientRegistry
unfolding forget_run
accept cr key user raw run meta now =
    let old = lookup key cr.clients in
    record cr {
      clients = insert key (connected key user raw run meta now old) cr.clients;
      run_index = put run key (forget_run old cr.run_index);
    }

unfoldable pub register :
    ClientRegistry → Text → Text → Text → Metadata → ℕ → ClientRegistry × Text × Bool
register cr user raw run meta now =
    let key = compose_client_key user (effective_id raw run) in
    if run == []
    then (cr, [], false)
    else if conflicts raw run (lookup key cr.clients)
    then (cr, key, true)
    else (accept cr key user raw run meta now, key, false)

-- The entry's part of `MarkOfflineByRunID`.
pub disconnect : Text → ℕ → Text → Dict Text ClientInfo → Dict Text ClientInfo
disconnect run now key clients = elim (lookup key clients) [
  | none ↦ clients
  | some info ↦
      if info.run_id == run
      then (if info.raw_client_id == []
          then erase key clients
          else insert key (record info { run_id = []; online = false; disconnected_at = now })
              clients)
      else clients
]

pub mark_offline_by_run_id : ClientRegistry → Text → ℕ → ClientRegistry
mark_offline_by_run_id cr run now = elim (cr.run_index run) [
  | none ↦ cr
  | some key ↦ record {
    clients = disconnect run now key cr.clients;
    run_index = del run cr.run_index;
  }
]

-- `List`: the values, in Go's order of iteration.
pub list : ClientRegistry → List ClientInfo
list cr = map (λ (kv : Text × ClientInfo). kv.1) cr.clients

pub get_by_key : ClientRegistry → Text → Option ClientInfo
get_by_key cr key = lookup key cr.clients

pub client_id : ClientInfo → Text
client_id info = if info.raw_client_id == [] then info.run_id else info.raw_client_id
