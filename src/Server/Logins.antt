-- ===== src/Server/Logins.antt =====
-- src/server/control.go: ControlManager; src/server/service.go: how RegisterControl logs a client in, and how
-- the control of the client ends. A `*Control` is an address. `waits_for` is the control whose end the login
-- waits for. A step is what happens between two waits; the shutdown of the server is left out.
pub mod Replaced
pub mod Stuck
mod Examples
use frpcv.Prelude.{
  if◌then◌else◌, Text, text_eq, nat_eq, ◌==◌, Map, no_entries, put, del, ℕ, ◌+◌, ◌<◌, ◌≡◌, Bool,
  true, false, Option, none, some, [],
}
use frpcv.Server.Registry.{
  ClientRegistry, Metadata, new_client_registry, register, mark_offline_by_run_id,
}

-- `waiting` until the login is registered; `started` once its worker runs; `done` when the worker has
-- closed `doneCh`; `abandoned` when the login was refused before the worker was started.
pub data Phase : Type 0 where
  waiting started done abandoned : Phase

pub record Control : Type 0 where
  pub run_id : Text
  pub login_run_id : Text
  pub phase : Phase
  pub waits_for : Option ℕ
  pub conn_open : Bool

pub record Service : Type 0 where
  pub ctls_by_run_id : Map Text ℕ
  pub objects : ℕ → Control
  pub next : ℕ
  pub client_registry : ClientRegistry

pub record Login : Type 0 where
  pub user : Text
  pub client_id : Text
  pub metadata : Metadata

abbrev pub no_control : Control
no_control = record {
  run_id = [];
  login_run_id = [];
  phase = abandoned;
  waits_for = none;
  conn_open = false;
}

abbrev pub new_service : Service
new_service = record {
  ctls_by_run_id = no_entries;
  objects = λ c. no_control;
  next = 0;
  client_registry = new_client_registry;
}

abbrev pub set_control : ℕ → Control → (ℕ → Control) → ℕ → Control
set_control c ctl objects d = if c == d then ctl else objects d

-- `Control.Replaced`
unfoldable pub replaced : Control → Control
replaced ctl = record ctl { run_id = []; conn_open = false }

abbrev pub replace_old : Option ℕ → (ℕ → Control) → ℕ → Control
replace_old none objects = objects
replace_old (some old) objects = set_control old (replaced (objects old)) objects

-- `NewControl` and `ControlManager.Add`
unfoldable pub add : Service → Text → Service
unfolding replaced
add svr run_id =
    let old = svr.ctls_by_run_id run_id in
    record svr {
      objects =
          set_control svr.next
            (record {
              run_id = run_id;
              login_run_id = run_id;
              phase = waiting;
              waits_for = old;
              conn_open = true;
            })
            (replace_old old svr.objects);
      ctls_by_run_id = put run_id svr.next svr.ctls_by_run_id;
      next = svr.next + 1;
    }

abbrev pub holds_control : Option ℕ → ℕ → Bool
holds_control none c = false
holds_control (some d) c = d == c

-- `ControlManager.Del`
unfoldable pub delete : Service → Text → ℕ → Service
delete svr run_id c =
    if holds_control (svr.ctls_by_run_id run_id) c
    then record svr { ctls_by_run_id = del run_id svr.ctls_by_run_id }
    else svr

abbrev pub set_phase : Service → ℕ → Phase → Service
set_phase svr c phase = record svr {
  objects = set_control c (record (svr.objects c) { phase = phase }) svr.objects;
}

abbrev pub set_registry : Service → ClientRegistry → Service
set_registry svr cr = record svr { client_registry = cr }

abbrev pub close_conn : Service → ℕ → Service
close_conn svr c = record svr {
  objects = set_control c (record (svr.objects c) { conn_open = false }) svr.objects;
}

-- `RegisterControl` after the wait
unfoldable pub finish_login : Service → ℕ → Login → ℕ → Service
unfolding delete
finish_login svr c login now =
    let run = (svr.objects c).login_run_id in
    let (cr, key, conflict) =
      register svr.client_registry login.user login.client_id run login.metadata now in
    if conflict
    then close_conn (delete (set_phase (set_registry svr cr) c abandoned) run c) c
    else set_phase (set_registry svr cr) c started

-- The end of `worker`: the client is marked offline, and `doneCh` is closed.
unfoldable pub end_worker : Service → ℕ → ℕ → Service
end_worker svr c now =
    close_conn
      (set_phase
        (set_registry svr (mark_offline_by_run_id svr.client_registry (svr.objects c).run_id now)) c
        done)
      c

-- What the login of a control waits for has happened.
abbrev pub MayProceed : Service → ℕ → Type 0
MayProceed svr c = (p : ℕ) → (svr.objects c).waits_for ≡ some p → (svr.objects p).phase ≡ done

-- One step of a goroutine.
pub data Step (svr : Service) : Service → Type 0 where
  adds : (run_id : Text) → Step svr (add svr run_id)
  logs_in :
      (c : ℕ) (login : Login) (now : ℕ)
      → c < svr.next
      → (svr.objects c).phase ≡ waiting
      → MayProceed svr c
      → Step svr (finish_login svr c login now)
  ends :
      (c now : ℕ) → c < svr.next → (svr.objects c).phase ≡ started → Step svr (end_worker svr c now)
  deletes :
      (c : ℕ)
      → c < svr.next
      → (svr.objects c).phase ≡ done
      → Step svr (delete svr (svr.objects c).login_run_id c)

pub data Steps (svr : Service) : Service → Type 0 where
  here : Steps svr svr
  more : {mid last : Service} → Steps svr mid → Step mid last → Steps svr last
