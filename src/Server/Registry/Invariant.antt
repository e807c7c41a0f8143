-- ===== src/Server/Registry/Invariant.antt =====
-- The registry over any history: the run index and the entries agree.
use frpcv.Prelude.{
  if◌then◌else◌, Bool-cases, Option-cases, Text, text_beq_refl, text_beq_iff, text_eq, nat_eq, ◌==◌,
  eq_refl, del, Dict, lookup, lookup-insert, lookup-erase, ℕ, ◌≡◌, refl, inl, inr, false, not, ◌&&◌,
  Option, none, some, [], arith,
}
use frpcv.Server.Registry.{
  ClientInfo, ClientRegistry, Metadata, new_client_registry, compose_client_key, effective_id,
  conflicts, connected, accept, register, disconnect, mark_offline_by_run_id,
}

abbrev pub run_of : Option ClientInfo → Option Text
run_of none = none
run_of (some info) = some info.run_id

-- What holds of an entry under its key.
abbrev pub IsEntry : Text → Option ClientInfo → Type 0
IsEntry k none = Unit {0}
IsEntry k (some info) =
    (info.key ≡ k)
    × (info.online ≡ not (info.run_id == []))
    × ((info.raw_client_id == []) && (info.run_id == []) ≡ false)

-- A run id of the index is that of the entry which it leads to, and is not empty. An entry stands under
-- its own key, is online exactly when it has a run id, and is not offline without a raw client id.
pub record Inv (cr : ClientRegistry) : Type 0 where
  pub indexed : (r k : Text) → cr.run_index r ≡ some k → run_of (lookup k cr.clients) ≡ some r
  pub nonempty : (r k : Text) → cr.run_index r ≡ some k → (r == []) ≡ false
  pub entries : (k : Text) → IsEntry k (lookup k cr.clients)

new_client_registry-Inv : Inv new_client_registry
unfolding lookup
new_client_registry-Inv = record {
  indexed = λ r k h. cc;
  nonempty = λ r k h. cc;
  entries = λ k. tt;
}

pub connected-IsEntry :
    (key user raw run : Text) (meta : Metadata) (now : ℕ) (old : Option ClientInfo)
    → (run == []) ≡ false
    → IsEntry key old
    → IsEntry key (some (connected key user raw run meta now old))
unfolding connected
connected-IsEntry key user raw run meta now none h e = (ground arith, ground arith, ground arith)
connected-IsEntry key user raw run meta now (some info) h e =
    (ground arith, ground arith, ground arith)

pub run-connected :
    (key user raw run : Text) (meta : Metadata) (now : ℕ) (old : Option ClientInfo)
    → (connected key user raw run meta now old).run_id ≡ run
unfolding connected
run-connected key user raw run meta now old = refl

IsEntry-if :
    (k j : Text) (info : ClientInfo) (o : Option ClientInfo)
    → IsEntry k (some info)
    → IsEntry j o
    → IsEntry j (if k == j then some info else o)
IsEntry-if k j info o a b = elim (Bool-cases (k == j)) [
  | inl e ↦ rw e (rw (← (text_beq_iff k j).0 e) a)
  | inr e ↦ rw e b
]

module _ {cr : ClientRegistry} (v : Inv cr) where
  accept_indexed :
      (key user raw run : Text) (meta : Metadata) (now : ℕ) (r k : Text)
      → (accept cr key user raw run meta now).run_index r ≡ some k
      → run_of (lookup k (accept cr key user raw run meta now).clients) ≡ some r
  unfolding accept
  accept_indexed key user raw run meta now r k = elim (Option-cases (lookup key cr.clients)) [
    | inl e ↦ rw e (
        simp lookup-insert λ h. ground (
          arith,
          text_beq_iff run r,
          text_beq_iff key k,
          v.indexed r k,
          run-connected key user raw run meta now none,
        ))
    | inr (info, e) ↦ rw e (
        simp lookup-insert λ h. ground (
          arith,
          text_beq_iff run r,
          text_beq_iff key k,
          v.indexed r k,
          v.nonempty r k,
          text_beq_iff info.run_id r,
          run-connected key user raw run meta now (some info),
        ))
  ]

  accept_nonempty :
      (key user raw run : Text) (meta : Metadata) (now : ℕ) (r k : Text)
      → (run == []) ≡ false
      → (accept cr key user raw run meta now).run_index r ≡ some k
      → (r == []) ≡ false
  unfolding accept
  accept_nonempty key user raw run meta now r k ne = elim (Option-cases (lookup key cr.clients)) [
    | inl e ↦ rw e (λ h. ground (arith, text_beq_iff run r, v.nonempty r k))
    | inr (info, e) ↦ rw e (λ h. ground (arith, text_beq_iff run r, v.nonempty r k))
  ]

  pub accept-Inv :
      (key user raw run : Text) (meta : Metadata) (now : ℕ)
      → (run == []) ≡ false
      → Inv (accept cr key user raw run meta now)
  unfolding accept
  accept-Inv key user raw run meta now ne = record {
    indexed = λ r k. accept_indexed key user raw run meta now r k;
    nonempty = λ r k. accept_nonempty key user raw run meta now r k ne;
    entries = λ k. rw lookup-insert (
        IsEntry-if key k _ _ (connected-IsEntry key user raw run meta now _ ne (v.entries key))
          (v.entries k));
  }

  pub register-Inv :
      (user raw run : Text) (meta : Metadata) (now : ℕ) → Inv (register cr user raw run meta now).0
  unfolding register
  register-Inv user raw run meta now = elim (Bool-cases (run == [])) [
    | inl e ↦ rw e v
    | inr e ↦
        elim (Bool-cases (
          conflicts raw run (lookup (compose_client_key user (effective_id raw run)) cr.clients))) [
            | inl c ↦ rw (e, c) v
            | inr c ↦ rw (e, c) (accept-Inv _ user raw run meta now e)
          ]
  ]

-- The entry that the index leads to is the one of the run id.
pub indexed_entry :
    {cr : ClientRegistry} (v : Inv cr) (run key : Text)
    → cr.run_index run ≡ some key
    → (info : ClientInfo) × (lookup key cr.clients ≡ some info) × (info.run_id ≡ run)
indexed_entry {cr} v run key h = elim (Option-cases (lookup key cr.clients)) [
  | inl e ↦ absurd (ground (arith, v.indexed run key))
  | inr (info, e) ↦ (info, e, ground (arith, v.indexed run key))
]

abbrev pub parted : Text → ℕ → ClientInfo → ClientInfo
parted run now info = record info { run_id = []; online = false; disconnected_at = now }

-- What disconnecting an indexed run does to the entries: only its own is changed.
pub lookup-disconnect :
    (clients : Dict Text ClientInfo) (run key k : Text) (now : ℕ) (info : ClientInfo)
    → lookup key clients ≡ some info
    → info.run_id ≡ run
    → lookup k (disconnect run now key clients) ≡ (
        if key == k
        then (if info.raw_client_id == [] then none else some (parted run now info))
        else lookup k clients)
unfolding disconnect
lookup-disconnect clients run key k now info e r =
    rw (e, disconnect, (text_beq_iff info.run_id run).1 r)
      (elim (Bool-cases (info.raw_client_id == [])) [
        | inl z ↦ rw z (lookup-erase key k clients)
        | inr z ↦ rw z (lookup-insert key k _ clients)
      ])

module _ {cr : ClientRegistry} (v : Inv cr) where
  offline_entry :
      (run key : Text) (now : ℕ) (info : ClientInfo)
      → lookup key cr.clients ≡ some info
      → info.run_id ≡ run
      → Inv
          (record { clients = disconnect run now key cr.clients; run_index = del run cr.run_index })
  offline_entry run key now info e same = record {
    indexed = λ r k h.
        rw (lookup-disconnect cr.clients run key k now info e same)
          (ground (arith, text_beq_iff run r, text_beq_iff key k, v.indexed r k));
    nonempty = λ r k h. ground (arith, v.nonempty r k);
    entries = λ k.
        rw (lookup-disconnect cr.clients run key k now info e same) (remaining k (v.entries k));
  }
    where
      remaining :
          (k : Text)
          → IsEntry k (lookup k cr.clients)
          → IsEntry k (
              if key == k
              then (if info.raw_client_id == [] then none else some (parted run now info))
              else lookup k cr.clients)
      remaining k a = elim (Bool-cases (key == k)) [
        | inr n ↦ rw n a
        | inl y ↦ elim (Bool-cases (info.raw_client_id == [])) [
          | inl z ↦ rw (y, z) tt
          | inr z ↦
              rw (y, z)
                (
                  ground (arith, text_beq_iff key k, rw e at (v.entries key)),
                  ground (arith, eq_refl {A = Text} []),
                  ground arith,
                )
        ]
      ]

  pub offline-Inv : (run : Text) (now : ℕ) → Inv (mark_offline_by_run_id cr run now)
  unfolding mark_offline_by_run_id
  offline-Inv run now = elim (Option-cases (cr.run_index run)) [
    | inl e ↦ rw (e, mark_offline_by_run_id) v
    | inr (key, e) ↦
        let (info, found, same) = indexed_entry v run key e in
        rw (e, mark_offline_by_run_id) (offline_entry run key now info found same)
  ]

-- The calls that change the registry, in any order.
pub data Step (cr : ClientRegistry) : ClientRegistry → Type 0 where
  registers :
      (user raw run : Text) (meta : Metadata) (now : ℕ)
      → Step cr (register cr user raw run meta now).0
  disconnects : (run : Text) (now : ℕ) → Step cr (mark_offline_by_run_id cr run now)

pub data Reach : ClientRegistry → Type 0 where
  start : Reach new_client_registry
  next : {cr dr : ClientRegistry} → Reach cr → Step cr dr → Reach dr

Step-Inv : {cr dr : ClientRegistry} → Inv cr → Step cr dr → Inv dr
Step-Inv v (registers user raw run meta now) = register-Inv v user raw run meta now
Step-Inv v (disconnects run now) = offline-Inv v run now

-- After any history of registrations and disconnections of a new registry: a run id of the index is
-- nonempty and is that of the entry which the index leads to; and each entry stands under its own
-- key, is online exactly when it has a run id, and is online if it has no raw client id.
pub Reach-agreement : {cr : ClientRegistry} → Reach cr → Inv cr
Reach-agreement start = new_client_registry-Inv
Reach-agreement (next r s) = Step-Inv (Reach-agreement r) s

-- No session has the empty run id, so its end changes nothing.
pub mark_offline_by_run_id-nil :
    (cr : ClientRegistry) (now : ℕ) → Inv cr → mark_offline_by_run_id cr [] now ≡ cr
unfolding mark_offline_by_run_id
mark_offline_by_run_id-nil cr now v = elim (Option-cases (cr.run_index [])) [
  | inl e ↦ rw (e, mark_offline_by_run_id) refl
  | inr (k, e) ↦ absurd (let z = v.nonempty [] k e in let y = text_beq_refl [] in cc)
]
