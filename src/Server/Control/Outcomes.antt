-- ===== src/Server/Control/Outcomes.antt =====
-- What a registration does, accepted or refused.
use frpcv.Prelude.{
  ltb, if◌then◌else◌, nat_beq_iff, Bool-cases, Option-cases, Text, text_eq, nat_eq, ◌==◌, eq_refl,
  put, insert, ℕ, ◌+◌, ◌≤◌, ◌<◌, ◌≡◌, refl, sym, ap, ◌∙◌, ◌⊎◌, inl, inr, Bool, true, false, not,
  Option, none, some, arith,
}
use frpcv.Server.Proxies.{Proxy, add, exist}
use frpcv.Server.Control.{
  Control, RegisterError, config_invalid, not_created, exceed_max_ports, already_exists, run_failed,
  name_in_use, RegisterResult, registered, failed, Env, set_open, exceeds, take_ports, give_ports,
  add_proxy, run_and_add, register_made, register_proxy,
}

-- Why a registration is refused.
pub data Cause (max_ports : ℕ) (ctl : Control) (name : Text) (env : Env)
    : RegisterError → Type 0 where
  bad_config : env.config_is_valid ≡ false → Cause max_ports ctl name env config_invalid
  no_proxy : env.config_is_valid ≡ true → env.pxy ≡ none → Cause max_ports ctl name env not_created
  too_many :
      (pxy : Proxy)
      → env.pxy ≡ some pxy
      → 0 < max_ports
      → max_ports < ctl.ports_used_num + pxy.used_ports_num
      → Cause max_ports ctl name env exceed_max_ports
  name_taken :
      (q : Proxy) → ctl.pxy_manager.pxys name ≡ some q → Cause max_ports ctl name env already_exists
  not_running : env.run ≡ none → Cause max_ports ctl name env run_failed
  taken_meanwhile :
      (q : Proxy)
      → (env.others ctl.pxy_manager).pxys name ≡ some q
      → Cause max_ports ctl name env name_in_use

-- Refused: the cause holds, the control's proxies and its count are as before, and no proxy is left open that
-- was not. Accepted: none of the causes holds, the proxy runs, the control and the manager have it under the
-- name, and its ports are counted if there is a limit.
pub data Outcome (max_ports : ℕ) (ctl : Control) (name : Text) (env : Env)
    : Control × RegisterResult → Type 0 where
  refused :
      (c : Control) (e : RegisterError)
      → Cause max_ports ctl name env e
      → c.proxies ≡ ctl.proxies
      → c.ports_used_num ≡ ctl.ports_used_num
      → (c.pxy_manager ≡ ctl.pxy_manager) ⊎ (c.pxy_manager ≡ env.others ctl.pxy_manager)
      → ((pxy : Proxy) (j : ℕ)
          → env.pxy ≡ some pxy
          → ctl.is_open pxy.id ≡ false
          → c.is_open j ≡ ctl.is_open j)
      → Outcome max_ports ctl name env (c, failed e)
  accepted :
      (c : Control) (pxy : Proxy) (remote_addr : Text)
      → env.config_is_valid ≡ true
      → env.pxy ≡ some pxy
      → (max_ports ≡ 0) ⊎ (ctl.ports_used_num + pxy.used_ports_num ≤ max_ports)
      → ctl.pxy_manager.pxys name ≡ none
      → env.run ≡ some remote_addr
      → (env.others ctl.pxy_manager).pxys name ≡ none
      → c.proxies ≡ insert pxy.name pxy ctl.proxies
      → c.ports_used_num ≡ ctl.ports_used_num + (if ltb 0 max_ports then pxy.used_ports_num else 0)
      → c.pxy_manager ≡ record { pxys = put name pxy (env.others ctl.pxy_manager).pxys }
      → c.is_open pxy.id ≡ true
      → Outcome max_ports ctl name env (c, registered remote_addr)

opened_and_closed :
    (is_open : ℕ → Bool) (id j : ℕ)
    → is_open id ≡ false
    → set_open id false (set_open id true is_open) j ≡ is_open j
opened_and_closed is_open id j h = elim (Bool-cases (id == j)) [
  | inl e ↦ rw e (sym h ∙ ap is_open ((nat_beq_iff id j).0 e))
  | inr e ↦ rw e refl
]

within_limit :
    (max_ports : ℕ) (ctl : Control) (pxy : Proxy)
    → exceeds max_ports ctl pxy ≡ false
    → (max_ports ≡ 0) ⊎ (ctl.ports_used_num + pxy.used_ports_num ≤ max_ports)
unfolding exceeds
within_limit max_ports ctl pxy e = elim (Bool-cases (ltb 0 max_ports)) [
  | inl some_limit ↦ inr (ground arith)
  | inr no_limit ↦ inl (ground arith)
]

beyond_limit :
    (max_ports : ℕ) (ctl : Control) (pxy : Proxy)
    → exceeds max_ports ctl pxy ≡ true
    → (0 < max_ports) × (max_ports < ctl.ports_used_num + pxy.used_ports_num)
unfolding exceeds
beyond_limit max_ports ctl pxy e = (ground arith, ground arith)

module _ (max_ports : ℕ) (ctl : Control) (name : Text) (env : Env) (pxy : Proxy)
    (valid : env.config_is_valid ≡ true) (made : env.pxy ≡ some pxy) where
  run_and_add-Outcome :
      (run : Option Text)
      → env.run ≡ run
      → exceeds max_ports ctl pxy ≡ false
      → ctl.pxy_manager.pxys name ≡ none
      → Outcome max_ports ctl name env
          (run_and_add max_ports (take_ports max_ports ctl pxy) pxy name run env.others)
  unfolding run_and_add take_ports give_ports add_proxy add
  run_and_add-Outcome none f small free =
      refused _ run_failed (not_running f) refl (omega arith) (inl refl) (λ q j g h. refl)
  run_and_add-Outcome (some remote_addr) f small free =
      elim (Option-cases ((env.others ctl.pxy_manager).pxys name)) [
        | inl n ↦ rw n (
            accepted _ pxy remote_addr valid made (within_limit max_ports ctl pxy small) free f n
              refl refl refl (rw (eq_refl pxy.id) refl))
        | inr (q, n) ↦ rw n (
            refused _ name_in_use (taken_meanwhile q n) refl (omega arith) (inr refl) (λ p j g h.
              let same : some pxy ≡ some p = sym made ∙ g in
              opened_and_closed ctl.is_open pxy.id j (cc)))
      ]

  register_made-Outcome : Outcome max_ports ctl name env (register_made max_ports ctl name env pxy)
  unfolding register_made give_ports take_ports exist
  register_made-Outcome = elim (Bool-cases (exceeds max_ports ctl pxy)) [
    | inl e ↦
        let (limited, over) = beyond_limit max_ports ctl pxy e in
        rw e (
          refused ctl exceed_max_ports (too_many pxy made limited over) refl refl (inl refl)
            (λ q j g h. refl))
    | inr e ↦ elim (Option-cases (ctl.pxy_manager.pxys name)) [
      | inl n ↦ rw (e, n) (run_and_add-Outcome env.run refl e n)
      | inr (q, n) ↦
          rw (e, n)
            (refused _ already_exists (name_taken q n) refl (omega arith) (inl refl)
              (λ p j g h. refl))
    ]
  ]

-- A registration is refused or accepted. It is refused only for a cause that holds: the configuration is not
-- valid, no proxy is made, the limit would be exceeded, the name is taken before or when the proxy is added,
-- or the proxy does not run; then the control's proxies and its count are as before, and no proxy is left open
-- that was not. It is accepted only when none of these holds; then the proxy runs, the control has it under its
-- name and the manager under the name of the message, and its ports are counted if there is a limit. The other
-- controls may change the manager before the proxy is added.
pub register_proxy-Outcome :
    (max_ports : ℕ) (ctl : Control) (name : Text) (env : Env)
    → Outcome max_ports ctl name env (register_proxy max_ports ctl name env)
unfolding register_proxy
register_proxy-Outcome max_ports ctl name env = by_config env.config_is_valid refl
  where
    by_made :
        env.config_is_valid ≡ true
        → (o : Option Proxy) → env.pxy ≡ o
        → Outcome max_ports ctl name env (elim o [
          | none ↦ (ctl, failed not_created)
          | some pxy ↦ register_made max_ports ctl name env pxy
        ])
    by_made valid none e =
        refused ctl not_created (no_proxy valid e) refl refl (inl refl) (λ q j g h. refl)
    by_made valid (some pxy) e = register_made-Outcome max_ports ctl name env pxy valid e

    by_config :
        (b : Bool)
        → env.config_is_valid ≡ b
        → Outcome max_ports ctl name env (
            if not b then (ctl, failed config_invalid) else elim env.pxy [
              | none ↦ (ctl, failed not_created)
              | some pxy ↦ register_made max_ports ctl name env pxy
            ])
    by_config false bad =
        refused ctl config_invalid (bad_config bad) refl refl (inl refl) (λ q j g h. refl)
    by_config true valid = by_made valid env.pxy refl
