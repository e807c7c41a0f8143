-- ===== src/Server/Group/Tcp/Listen.antt =====
-- What `Listen` does to a group that has listeners, on every branch.
use frpcv.Prelude.{
  nat_beq_iff, Bool-cases, text_beq_iff, text_eq, nat_eq, ◌==◌, eq_refl, ℕ, ◌≡◌, ◌≢◌, ◌⊎◌, inl, inr,
  true, false, [], ◌∷◌, ◌++◌, arith,
}
use frpcv.Server.Group.Registry.{is_current}
use frpcv.Server.Group.Base.{new_listener}
use frpcv.Server.Group.Tcp.{
  TcpGroup, TcpGroupCtl, Env, Request, ListenError, group_params_invalid, group_different_port,
  group_auth_failed, listener, refused, listen_again, listen_group,
}
use frpcv.Server.Group.Tcp.Invariant.{no_listener}

-- Why a proxy may not join a group that has listeners.
pub data Mismatch (tg : TcpGroup) (req : Request) : ListenError → Type 0 where
  other_params :
      (tg.group ≢ req.group) ⊎ (tg.addr ≢ req.addr) → Mismatch tg req group_params_invalid
  other_port :
      tg.group ≡ req.group
      → tg.addr ≡ req.addr
      → tg.port ≢ req.port
      → Mismatch tg req group_different_port
  other_key :
      tg.group ≡ req.group
      → tg.addr ≡ req.addr
      → tg.port ≡ req.port
      → tg.group_key ≢ req.group_key
      → Mismatch tg req group_auth_failed

-- A proxy joins a group that has listeners, on the group's port and without the port manager, if the group's
-- name, address, port and key are its own; otherwise nothing changes and the error names a part that differs.
pub join_or_refuse :
    (ctl : TcpGroupCtl) (g : ℕ) (req : Request) (env : Env)
    → is_current ctl.groups req.group g ≡ true
    → no_listener ctl g ≡ false
    → (let tg = ctl.objects g in
        ((listen_group ctl g req env).1 ≡ listener ctl.next_listener tg.real_port)
        × (((listen_group ctl g req env).0.objects g).lns ≡ tg.lns ++ ctl.next_listener ∷ [])
        × ((listen_group ctl g req env).0.port_manager ≡ ctl.port_manager)
        × (tg.group ≡ req.group)
        × (tg.addr ≡ req.addr)
        × (tg.port ≡ req.port)
        × (tg.group_key ≡ req.group_key))
      ⊎ ((e : ListenError) × (listen_group ctl g req env ≡ (ctl, refused e))
          × Mismatch (ctl.objects g) req e)
unfolding listen_group listen_again new_listener
join_or_refuse ctl g req env cur n =
    let tg = ctl.objects g in
    elim (Bool-cases (tg.group == req.group)) [
      | inr a ↦ inr (
        group_params_invalid,
        rw (cur, n, a),
        other_params (inl (λ e. ground (arith, text_beq_iff tg.group req.group))),
      )
      | inl a ↦ elim (Bool-cases (tg.addr == req.addr)) [
        | inr b ↦ inr (
          group_params_invalid,
          rw (cur, n, a, b),
          other_params (inr (λ e. ground (arith, text_beq_iff tg.addr req.addr))),
        )
        | inl b ↦ elim (Bool-cases (tg.port == req.port)) [
          | inr c ↦ inr (
            group_different_port,
            rw (cur, n, a, b, c),
            other_port ((text_beq_iff tg.group req.group).0 a) ((text_beq_iff tg.addr req.addr).0 b)
                (λ e. ground (arith, nat_beq_iff tg.port req.port)),
          )
          | inl c ↦ elim (Bool-cases (tg.group_key == req.group_key)) [
            | inr d ↦ inr (
              group_auth_failed,
              rw (cur, n, a, b, c, d),
              other_key ((text_beq_iff tg.group req.group).0 a)
                  ((text_beq_iff tg.addr req.addr).0 b) ((nat_beq_iff tg.port req.port).0 c)
                  (λ e. ground (arith, text_beq_iff tg.group_key req.group_key)),
            )
            | inl d ↦ inl (
              rw (cur, n, a, b, c, d),
              rw (cur, n, a, b, c, d, eq_refl g),
              rw (cur, n, a, b, c, d),
              (text_beq_iff tg.group req.group).0 a,
              (text_beq_iff tg.addr req.addr).0 b,
              (nat_beq_iff tg.port req.port).0 c,
              (text_beq_iff tg.group_key req.group_key).0 d,
            )
          ]
        ]
      ]
    ]
