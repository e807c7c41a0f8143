-- ===== src/Server/Control/Closing.antt =====
-- A closed proxy gives its ports back; the histories of a control.
use frpcv.Prelude.{
  Bool-cases, Option-cases, Text, text_eq, nat_eq, ◌==◌, Dict, lookup, erase, lookup-erase,
  erase-IsKeyed, ℕ, ◌≤◌, ◌<◌, ◌≡◌, sym, ap, ◌∙◌, inl, inr, Bool, false, none, some, arith,
}
use frpcv.Server.Proxies.{Proxy, ProxyManager, delete}
use frpcv.Server.Control.{
  Control, Env, new_control, give_ports, register_proxy, close_it, close_proxy,
}
use frpcv.Server.Control.Quota.{
  total, total-erase, Inv, Honest, MadeFor, new_control-Inv, others-Inv,
}
use frpcv.Server.Control.Registering.{register_proxy-Inv}

left_over :
    (name n : Text) (d : Dict Text Proxy) (p : Proxy)
    → lookup n (erase name d) ≡ some p
    → ((name == n) ≡ false) × (lookup n d ≡ some p)
left_over name n d p h =
    let at = sym (lookup-erase name n d) ∙ h in
    elim (Bool-cases (name == n)) [
      | inl e ↦ absurd (let z : none ≡ some p = rw e at at in cc)
      | inr e ↦ (e, rw e at at)
    ]

closed-Inv :
    (max_ports : ℕ) (ctl : Control) (name : Text) (pxy : Proxy)
    → Inv max_ports ctl
    → lookup name ctl.proxies ≡ some pxy
    → Inv max_ports
        (close_it (record (give_ports max_ports ctl pxy) { proxies = erase name ctl.proxies }) pxy)
unfolding close_it give_ports delete
closed-Inv max_ports ctl name pxy v e =
    let same : pxy.name ≡ name = v.named name pxy e in
    record {
      keyed = erase-IsKeyed name ctl.proxies v.keyed;
      named = λ n p h. v.named n p (left_over name n ctl.proxies p h).1;
      known = λ n p h.
          let (differs, there) = left_over name n ctl.proxies p h in
          let apart : (pxy.name == n) ≡ false = ap (λ (m : Text). m == n) same ∙ differs in
          rw apart (v.known n p there);
      exact = ground (arith, v.exact, total-erase name pxy ctl.proxies v.keyed e);
      within = λ h. let l = v.within h in omega arith;
    }

close_proxy-Inv :
    (max_ports : ℕ) (ctl : Control) (name : Text)
    → Inv max_ports ctl
    → Inv max_ports (close_proxy max_ports ctl name)
unfolding close_proxy
close_proxy-Inv max_ports ctl name v = elim (Option-cases (lookup name ctl.proxies)) [
  | inl e ↦ rw (e, close_proxy) v
  | inr (pxy, e) ↦ rw (e, close_proxy) (closed-Inv max_ports ctl name pxy v e)
]

-- A handler of the control's messages, or what other controls do to the shared manager between two.
pub data Step (max_ports : ℕ) (ctl : Control) : Control → Type 0 where
  registers :
      (name : Text) (env : Env)
      → Honest ctl.proxies env.others
      → MadeFor name env
      → Step max_ports ctl (register_proxy max_ports ctl name env).0
  closes : (name : Text) → Step max_ports ctl (close_proxy max_ports ctl name)
  others_act :
      (others : ProxyManager → ProxyManager)
      → Honest ctl.proxies others
      → Step max_ports ctl (record ctl { pxy_manager = others ctl.pxy_manager })

pub data Reach (max_ports : ℕ) (pm : ProxyManager) (is_open : ℕ → Bool) : Control → Type 0 where
  start : Reach max_ports pm is_open (new_control pm is_open)
  next :
      {ctl dtl : Control}
      → Reach max_ports pm is_open ctl
      → Step max_ports ctl dtl
      → Reach max_ports pm is_open dtl

Step-Inv :
    {max_ports : ℕ} {ctl dtl : Control}
    → Step max_ports ctl dtl
    → Inv max_ports ctl
    → Inv max_ports dtl
Step-Inv {max_ports} {ctl} (registers name env h m) v =
    register_proxy-Inv max_ports ctl name env v h m
Step-Inv {max_ports} {ctl} (closes name) v = close_proxy-Inv max_ports ctl name v
Step-Inv {max_ports} {ctl} (others_act others h) v = others-Inv max_ports ctl others v h

pub Reach-Inv :
    {max_ports : ℕ} {pm : ProxyManager} {is_open : ℕ → Bool} {ctl : Control}
    → Reach max_ports pm is_open ctl
    → Inv max_ports ctl
Reach-Inv {max_ports} {pm} {is_open} start = new_control-Inv max_ports pm is_open
Reach-Inv (next r s) = Step-Inv s (Reach-Inv r)

-- In every history of a control with a limit, whatever the other controls do to proxies that are not its
-- own, the ports that it counts are the sum of those of its proxies, and do not exceed the limit.
pub Reach-Quota :
    {max_ports : ℕ} {pm : ProxyManager} {is_open : ℕ → Bool} {ctl : Control}
    → Reach max_ports pm is_open ctl
    → 0 < max_ports
    → (ctl.ports_used_num ≡ total ctl.proxies) × (total ctl.proxies ≤ max_ports)
Reach-Quota r h =
    let v = Reach-Inv r in (ground (arith, v.exact), ground (arith, v.exact, v.within h))
