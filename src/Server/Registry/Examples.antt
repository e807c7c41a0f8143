-- ===== src/Server/Registry/Examples.antt =====
-- Tests of the client registry, and its theorems at concrete inputs.
use mathlib.Core.Option
use frpcv.Prelude.{
  nat_eq, text_beq, text_eq, text, lookup, insert, ◌≡◌, refl, ◌↔◌, inr, true, false, none, some,
}
use frpcv.Server.Registry.{
  ClientRegistry, Metadata, new_client_registry, compose_client_key, effective_id, connected,
  accept, register, mark_offline_by_run_id, get_by_key,
}
use frpcv.Server.Registry.Keys.{compose_client_key-injective, compose_client_key_clash}
use frpcv.Server.Registry.Invariant.{Inv, registers, Reach, start, next, Reach-agreement}
use frpcv.Server.Registry.Sessions.{
  OnlineElsewhere, key_of, register_conflict_iff, register_refused, IsConnected,
  register-IsConnected, offline_session,
}

abbrev meta : Metadata
meta = record { hostname = text "box"; version = text "0.67"; remote_addr = text "10.0.0.7" }

-- The user `u` with the client id `c` in the session `r1`.
abbrev one_client : ClientRegistry
one_client = (register new_client_registry (text "u") (text "c") (text "r1") meta 5).0

one_client-Reach : Reach one_client
one_client-Reach = next start (registers (text "u") (text "c") (text "r1") meta 5)

key_test : key_of (text "u") (text "c") (text "r1") ≡ text "u.c"
unfolding compose_client_key effective_id text_beq
key_test = refl

online_test : Option.map (λ i. i.online) (get_by_key one_client (text "u.c")) ≡ some true
unfolding register accept connected compose_client_key effective_id text_beq lookup insert
    get_by_key
online_test = refl

indexed_test : one_client.run_index (text "r1") ≡ some (text "u.c")
unfolding register accept connected compose_client_key effective_id text_beq lookup insert
indexed_test = refl

Reach-agreement_example : Inv one_client
Reach-agreement_example = Reach-agreement one_client-Reach

register_conflict_iff_example :
    ((register one_client (text "u") (text "c") (text "r2") meta 6).2 ≡ true)
    ↔ OnlineElsewhere (text "r2") (get_by_key one_client (key_of (text "u") (text "c") (text "r2")))
register_conflict_iff_example =
    register_conflict_iff (Reach-agreement one_client-Reach) (text "u") (text "c") (text "r2") meta
      6 (λ e. cc) (λ e. cc)

conflict_test : (register one_client (text "u") (text "c") (text "r2") meta 6).2 ≡ true
unfolding register accept connected compose_client_key effective_id text_beq lookup insert
conflict_test = refl

register_refused_test :
    (register one_client (text "u") (text "c") (text "r2") meta 6).0 ≡ one_client
register_refused_test =
    register_refused (Reach-agreement one_client-Reach) (text "u") (text "c") (text "r2") meta 6
      (inr conflict_test)

no_conflict : (register new_client_registry (text "u") (text "c") (text "r1") meta 5).2 ≡ false
unfolding register accept connected compose_client_key effective_id text_beq lookup insert
no_conflict = refl

register-IsConnected_holds :
    IsConnected new_client_registry
      (key_of (text "u") (text "c") (text "r1"))
      (text "c")
      (text "r1")
      meta
      5
      one_client
register-IsConnected_holds =
    register-IsConnected new_client_registry (text "u") (text "c") (text "r1") meta 5 (λ e. cc)
      no_conflict

offline_session_holds :
    (mark_offline_by_run_id one_client (text "r1") 8).run_index (text "r1") ≡ none
offline_session_holds =
    (offline_session (Reach-agreement one_client-Reach) (text "r1") (text "u.c") 8 indexed_test).2

compose_client_key-injective_test : text "u" ≡ text "u"
compose_client_key-injective_test =
    (compose_client_key-injective (text "u") (text "u") (text "c.d") (text "c.d") refl refl
      (λ e. cc) (λ e. cc) (λ e. cc) (λ e. cc) refl).0

compose_client_key_clash_holds :
    compose_client_key (text "u") (text "a.b") ≡ compose_client_key (text "u.a") (text "b")
compose_client_key_clash_holds =
    compose_client_key_clash (text "u") (text "a") (text "b") (λ e. cc) (λ e. cc)
