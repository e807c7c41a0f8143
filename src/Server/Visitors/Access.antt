-- ===== src/Server/Visitors/Access.antt =====
-- Who is let through to a listener.
use frpcv.Prelude.{
  Bool-cases, Option-cases, Text, text_beq_iff, text_eq, nat_eq, ◌==◌, if_both, text, In, ℕ, ◌≡◌,
  refl, ◌≢◌, ◌⊎◌, inl, inr, Bool, true, false, not, ◌&&◌, some, List, [], ◌∷◌,
}
use frpcv.Server.Visitors.{
  ListenerBundle, Manager, ConnResult, put_conn, auth_failed, user_not_allowed, encryption_failed,
  queue_closed, Request, contains, conn_to, new_conn,
}

-- The name has a listener; the request is signed with its secret, by a user whom it allows.
pub record MayConnect (get_auth_key : Text → ℕ → Text) (vm : Manager) (req : Request) (l : ℕ)
    : Type 0 where
  pub bundle : ListenerBundle
  pub listens : vm.listeners req.name ≡ some bundle
  pub is_it : bundle.l ≡ l
  pub signed : get_auth_key bundle.sk req.timestamp ≡ req.sign_key
  pub allowed : In req.visitor_user bundle.allow_users ⊎ In (text "*") bundle.allow_users

contains-In : (us : List Text) (user : Text) → contains us user ≡ true → In user us
unfolding contains
contains-In [] user h = absurd (cc)
contains-In (u ∷ us) user h = elim (Bool-cases (u == user)) [
  | inl e ↦ inl ((text_beq_iff u user).0 e)
  | inr e ↦ inr (contains-In us user (rw e at h))
]

Admits : (Text → ℕ → Text) → Manager → Request → ConnResult → Type 0
Admits get_auth_key vm req r = (l : ℕ) → r ≡ put_conn l → MayConnect get_auth_key vm req l

module _ (get_auth_key : Text → ℕ → Text) (encrypts : Text → Bool) (queue_takes : ℕ → Bool) where
  refuses :
      (vm : Manager) (req : Request) (r : ConnResult)
      → ((l : ℕ) → r ≢ put_conn l)
      → Admits get_auth_key vm req r
  unfolding Admits
  refuses vm req r n l e = absurd (n l e)

  admits :
      (vm : Manager) (req : Request) (b : ListenerBundle)
      → vm.listeners req.name ≡ some b
      → get_auth_key b.sk req.timestamp ≡ req.sign_key
      → In req.visitor_user b.allow_users ⊎ In (text "*") b.allow_users
      → Admits get_auth_key vm req (put_conn b.l)
  unfolding Admits
  admits vm req b e s a l f = record {
    bundle = b;
    listens = e;
    is_it = cc;
    signed = s;
    allowed = a;
  }

  allows :
      (b : ListenerBundle) (user : Text)
      → (not (contains b.allow_users user) && not (contains b.allow_users (text "*"))) ≡ false
      → In user b.allow_users ⊎ In (text "*") b.allow_users
  allows b user h = elim (Bool-cases (contains b.allow_users user)) [
    | inl e ↦ inl (contains-In b.allow_users user e)
    | inr e ↦ inr (
        contains-In b.allow_users (text "*")
          (by_star (contains b.allow_users (text "*")) (rw e at h)))
  ]
    where
      by_star : (s : Bool) → (not false && not s) ≡ false → s ≡ true
      by_star true k = refl
      by_star false k = absurd (cc)

  conn_to-Admits :
      (vm : Manager) (req : Request) (b : ListenerBundle)
      → vm.listeners req.name ≡ some b
      → Admits get_auth_key vm req (conn_to get_auth_key encrypts queue_takes b req)
  unfolding conn_to
  conn_to-Admits vm req b e =
      let P = Admits get_auth_key vm req in
      elim (Bool-cases (get_auth_key b.sk req.timestamp == req.sign_key)) [
        | inr n ↦ rw n (refuses vm req auth_failed (λ l. cc))
        | inl s ↦
            let tested =
              not (contains b.allow_users req.visitor_user)
              && not (contains b.allow_users (text "*")) in
            elim (Bool-cases tested) [
              | inl n ↦ rw (s, n) (refuses vm req user_not_allowed (λ l. cc))
              | inr a ↦
                  rw (s, a)
                    (if_both P (req.use_encryption && not (encrypts b.sk))
                      (refuses vm req encryption_failed (λ l. cc))
                      (if_both P (queue_takes b.l)
                        (admits vm req b e
                          ((text_beq_iff (get_auth_key b.sk req.timestamp) req.sign_key).0 s)
                          (allows b req.visitor_user a))
                        (refuses vm req queue_closed (λ l. cc))))
            ]
      ]

  -- A connection is put only into the queue of the listener of its name, and only if it is signed with the
  -- listener's secret by a user whom the listener allows, by name or as any user.
  pub new_conn-MayConnect :
      (vm : Manager) (req : Request) (l : ℕ)
      → new_conn get_auth_key encrypts queue_takes vm req ≡ put_conn l
      → MayConnect get_auth_key vm req l
  unfolding new_conn Admits
  new_conn-MayConnect vm req l h = elim (Option-cases (vm.listeners req.name)) [
    | inl e ↦ absurd (let z = rw (e, new_conn) at h in cc)
    | inr (b, e) ↦ conn_to-Admits vm req b e l (rw (e, new_conn) at h)
  ]
