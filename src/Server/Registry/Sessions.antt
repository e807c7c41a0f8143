-- ===== src/Server/Registry/Sessions.antt =====
-- What registering and disconnecting do to a client's session.
use frpcv.Prelude.{
  if◌then◌else◌, Bool-cases, ◌==◌, nat_eq, Text, text_beq_iff, text_eq, eq_refl, eq_false, lookup,
  lookup-insert, ℕ, ◌<◌, ◌≡◌, refl, ◌≢◌, ◌↔◌, ◌⊎◌, inl, inr, true, false, Option, none, some, [],
  arith,
}
use frpcv.Server.Registry.{
  ClientInfo, ClientRegistry, Metadata, compose_client_key, effective_id, conflicts, connected,
  accept, register, mark_offline_by_run_id, get_by_key,
}
use frpcv.Server.Registry.Invariant.{IsEntry, Inv, indexed_entry, parted, lookup-disconnect}

-- The client is online in a session other than `run`.
abbrev pub OnlineElsewhere : Text → Option ClientInfo → Type 0
OnlineElsewhere run none = ⊥
OnlineElsewhere run (some info) = (info.online ≡ true) × (info.run_id ≢ run)

abbrev pub key_of : Text → Text → Text → Text
key_of user raw run = compose_client_key user (effective_id raw run)

conflicts_iff :
    (raw run k : Text) (o : Option ClientInfo)
    → (raw == []) ≡ false
    → IsEntry k o
    → (conflicts raw run o ≡ true) ↔ OnlineElsewhere run o
conflicts_iff raw run k none r e = (λ h. cc, λ h. absurd h)
conflicts_iff raw run k (some info) r e = (
  λ h. (ground arith, ground (arith, text_beq_iff info.run_id run)),
  λ h. ground (arith, text_beq_iff info.run_id run),
)

module _ {cr : ClientRegistry} (v : Inv cr) (user raw run : Text) (meta : Metadata) (now : ℕ) where
  -- A client with an id of its own and a run id is told of a conflict exactly when its key is online under
  -- another run id.
  pub register_conflict_iff :
      raw ≢ []
      → run ≢ []
      → ((register cr user raw run meta now).2 ≡ true)
        ↔ OnlineElsewhere run (get_by_key cr (key_of user raw run))
  unfolding register get_by_key
  register_conflict_iff nr ne =
      let at_key = lookup (key_of user raw run) cr.clients in
      let iff =
        conflicts_iff raw run (key_of user raw run) at_key (eq_false raw [] nr)
          (v.entries (key_of user raw run)) in
      rw (eq_false run [] ne) (elim (Bool-cases (conflicts raw run at_key)) [
        | inl c ↦ rw c (λ h. iff.0 c, λ h. refl)
        | inr c ↦ rw c (λ h. cc, λ h. cc (iff.1 h))
      ])

  -- A registration that reports a conflict, or that has no run id, leaves the registry as it was.
  pub register_refused :
      (run ≡ []) ⊎ ((register cr user raw run meta now).2 ≡ true)
      → (register cr user raw run meta now).0 ≡ cr
  unfolding register
  register_refused (inl e) = rw ((text_beq_iff run []).1 e)
  register_refused (inr e) = ground arith

-- What a client's entry says after it has registered.
pub record IsConnected (cr : ClientRegistry) (key raw run : Text) (meta : Metadata) (now : ℕ)
    (dr : ClientRegistry) : Type 0 where
  pub info : ClientInfo
  pub found : get_by_key dr key ≡ some info
  pub online : info.online ≡ true
  pub run_id : info.run_id ≡ run
  pub raw_client_id : info.raw_client_id ≡ raw
  pub hostname : info.hostname ≡ meta.hostname
  pub version : info.version ≡ meta.version
  pub ip : info.ip ≡ meta.remote_addr
  pub last : info.last_connected_at ≡ now
  pub disconnected : info.disconnected_at ≡ 0
  pub first :
      (old : ClientInfo)
      → get_by_key cr key ≡ some old
      → 0 < old.first_connected_at
      → info.first_connected_at ≡ old.first_connected_at
  pub indexed : dr.run_index run ≡ some key
  pub others : (k : Text) → key ≢ k → get_by_key dr k ≡ get_by_key cr k

accept-IsConnected :
    (cr : ClientRegistry) (key user raw run : Text) (meta : Metadata) (now : ℕ)
    → IsConnected cr key raw run meta now (accept cr key user raw run meta now)
unfolding accept get_by_key connected
accept-IsConnected cr key user raw run meta now = record {
  info = connected key user raw run meta now (lookup key cr.clients);
  found = rw lookup-insert (ground (arith, eq_refl key));
  online = refl;
  run_id = refl;
  raw_client_id = refl;
  hostname = refl;
  version = refl;
  ip = refl;
  last = refl;
  disconnected = refl;
  first = λ old e pos. rw e (ground arith);
  indexed = ground (arith, eq_refl run);
  others = λ k ne. rw lookup-insert (ground (arith, eq_false key k ne));
}

-- A registration with a run id that reports no conflict connects the client: its entry is online with
-- the new run id and metadata and its first connection time kept, the run id leads to it, and the
-- other entries are as before.
pub register-IsConnected :
    (cr : ClientRegistry) (user raw run : Text) (meta : Metadata) (now : ℕ)
    → run ≢ []
    → (register cr user raw run meta now).2 ≡ false
    → IsConnected cr (key_of user raw run) raw run meta now (register cr user raw run meta now).0
unfolding register
register-IsConnected cr user raw run meta now ne =
    rw (eq_false run [] ne)
      (elim (Bool-cases (conflicts raw run (lookup (key_of user raw run) cr.clients))) [
        | inl c ↦ rw c (λ h. cc)
        | inr c ↦ rw c (λ h. accept-IsConnected cr (key_of user raw run) user raw run meta now)
      ])

-- Ending a session that the index knows: the run id leads nowhere any more; the client's entry is
-- dropped if it has no id of its own, and otherwise is offline with its metadata kept; the other
-- entries are as before.
pub offline_session :
    {cr : ClientRegistry} (v : Inv cr) (run key : Text) (now : ℕ)
    → cr.run_index run ≡ some key
    → (info : ClientInfo) × (get_by_key cr key ≡ some info)
      × ((mark_offline_by_run_id cr run now).run_index run ≡ none)
      × ((k : Text)
          → get_by_key (mark_offline_by_run_id cr run now) k ≡ (
              if key == k
              then (if info.raw_client_id == [] then none else some (parted run now info))
              else get_by_key cr k))
unfolding mark_offline_by_run_id get_by_key
offline_session {cr} v run key now e =
    let (info, found, same) = indexed_entry v run key e in
    rw (e, mark_offline_by_run_id)
      (
        info,
        found,
        ground (arith, eq_refl run),
        λ k. lookup-disconnect cr.clients run key k now info found same,
      )
