-- ===== src/Server/Control/Registering.antt =====
-- Every branch of a registration keeps the invariant.
use frpcv.Prelude.{
  Bool-cases, Option-cases, Text, text_eq, nat_eq, if_both, ℕ, ◌≡◌, refl, subst, inl, inr, Bool,
  true, false, not, Option, none, some, arith,
}
use frpcv.Server.Proxies.{Proxy, ProxyManager, add, exist}
use frpcv.Server.Control.{
  Control, not_created, failed, Env, set_open, exceeds, take_ports, give_ports, add_proxy,
  run_and_add, register_made, register_proxy,
}
use frpcv.Server.Control.Quota.{
  Inv, Honest, MadeFor, ports-Inv, Kept, kept_of, others-Inv, added-Inv,
}

add_proxy-Kept :
    (max_ports : ℕ) (ctl : Control) (pxy : Proxy) (remote_addr : Text) (is_open : ℕ → Bool)
    → Inv max_ports ctl
    → exceeds max_ports ctl pxy ≡ false
    → Kept max_ports (
        add_proxy max_ports
          (record (take_ports max_ports ctl pxy) { is_open = is_open })
          pxy
          pxy.name
          remote_addr
          (add ctl.pxy_manager pxy.name pxy))
unfolding add_proxy add give_ports take_ports
add_proxy-Kept max_ports ctl pxy remote_addr is_open v l =
    elim (Option-cases (ctl.pxy_manager.pxys pxy.name)) [
      | inl e ↦ rw e (kept_of max_ports _ _ (added-Inv max_ports ctl pxy is_open v e l))
      | inr (q, e) ↦ rw e (kept_of max_ports _ _ (ports-Inv max_ports ctl _ _ v (omega arith)))
    ]

run_and_add-Kept :
    (max_ports : ℕ) (ctl : Control) (pxy : Proxy) (run : Option Text)
    (others : ProxyManager → ProxyManager)
    → Inv max_ports ctl
    → Honest ctl.proxies others
    → exceeds max_ports ctl pxy ≡ false
    → Kept max_ports (run_and_add max_ports (take_ports max_ports ctl pxy) pxy pxy.name run others)
unfolding run_and_add give_ports take_ports exceeds
run_and_add-Kept max_ports ctl pxy none others v h l =
    kept_of max_ports _ _ (ports-Inv max_ports ctl _ ctl.is_open v (omega arith))
run_and_add-Kept max_ports ctl pxy (some remote_addr) others v h l =
    add_proxy-Kept max_ports (record ctl { pxy_manager = others ctl.pxy_manager }) pxy remote_addr
      (set_open pxy.id true ctl.is_open) (others-Inv max_ports ctl others v h) l

register_made-Kept :
    (max_ports : ℕ) (ctl : Control) (pxy : Proxy) (env : Env)
    → Inv max_ports ctl
    → Honest ctl.proxies env.others
    → Kept max_ports (register_made max_ports ctl pxy.name env pxy)
unfolding register_made give_ports take_ports
register_made-Kept max_ports ctl pxy env v h = elim (Bool-cases (exceeds max_ports ctl pxy)) [
  | inl e ↦ rw e (kept_of max_ports ctl _ v)
  | inr e ↦ rw e (
      if_both (Kept max_ports) (exist ctl.pxy_manager pxy.name)
        (kept_of max_ports _ _ (ports-Inv max_ports ctl _ ctl.is_open v (omega arith)))
        (run_and_add-Kept max_ports ctl pxy env.run env.others v h e))
]

pub register_proxy-Inv :
    (max_ports : ℕ) (ctl : Control) (name : Text) (env : Env)
    → Inv max_ports ctl
    → Honest ctl.proxies env.others
    → MadeFor name env
    → Inv max_ports (register_proxy max_ports ctl name env).0
unfolding register_proxy Kept
register_proxy-Inv max_ports ctl name env v h m =
    if_both (Kept max_ports) (not env.config_is_valid) v (by_made env.pxy refl)
  where
    by_made :
        (o : Option Proxy)
        → env.pxy ≡ o
        → Kept max_ports (elim o [
          | none ↦ (ctl, failed not_created)
          | some pxy ↦ register_made max_ports ctl name env pxy
        ])
    by_made none e = v
    by_made (some pxy) e =
        subst (λ n. Kept max_ports (register_made max_ports ctl n env pxy)) (m pxy e)
          (register_made-Kept max_ports ctl pxy env v h)
