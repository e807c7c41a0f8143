-- ===== src/Server/Control/Finishing.antt =====
-- When the connection of a control is done, its proxies are gone and no other is.
use frpcv.Prelude.{
  if◌then◌else◌, nat_beq_iff, Bool-cases, Text, text_beq_iff, text_eq, nat_eq, ◌==◌, eq_refl, All,
  is_some, Dict, lookup, IsKeyed, ℕ, ◌≡◌, refl, sym, ap, ◌∙◌, inl, inr, false, none, some, [], ◌∷◌,
  arith,
}
use frpcv.Server.Proxies.{Proxy, delete}
use frpcv.Server.Control.{Control, close_it, close_each, finish}
use frpcv.Server.Control.Quota.{Inv}

abbrev AreNamed : Dict Text Proxy → Type 0
AreNamed d = All (λ (e : Text × Proxy). e.1.name ≡ e.0) d

all_named :
    (d : Dict Text Proxy)
    → IsKeyed d
    → ((n : Text) (p : Proxy) → lookup n d ≡ some p → p.name ≡ n)
    → AreNamed d
unfolding lookup
all_named [] k h = tt
all_named ((n, p) ∷ d) (f, k) h = (
  h n p (rw (eq_refl n) refl),
  all_named d k (λ m q e. h m q (elim (Bool-cases (n == m)) [
    | inl y ↦
        absurd (let gone = sym (ap (λ (t : Text). lookup t d) ((text_beq_iff n m).0 y)) ∙ f in cc)
    | inr l ↦ rw l e
  ])),
)

close_each_lem :
    (d : Dict Text Proxy) (ctl : Control)
    → AreNamed d
    → (n : Text)
    → (close_each d ctl).pxy_manager.pxys n
      ≡ (if is_some (lookup n d) then none else ctl.pxy_manager.pxys n)
unfolding close_each close_it delete lookup
close_each_lem [] ctl h n = refl
close_each_lem ((m, p) ∷ d) ctl (e, h) n =
    close_each_lem d (close_it ctl p) h n
    ∙ (let tested : (p.name == n) ≡ (m == n) = ap (λ (t : Text). t == n) e in
        ground (arith, tested))

close_each-proxies :
    (d : Dict Text Proxy) (ctl : Control) → (close_each d ctl).proxies ≡ ctl.proxies
unfolding close_each close_it
close_each-proxies [] ctl = refl
close_each-proxies ((m, p) ∷ d) ctl = close_each-proxies d (close_it ctl p)

close_each-closed :
    (d : Dict Text Proxy) (ctl : Control) (j : ℕ)
    → ctl.is_open j ≡ false
    → (close_each d ctl).is_open j ≡ false
unfolding close_each close_it
close_each-closed [] ctl j h = h
close_each-closed ((m, p) ∷ d) ctl j h = close_each-closed d (close_it ctl p) j (ground (arith, h))

close_each-open :
    (d : Dict Text Proxy) (ctl : Control) (n : Text) (p : Proxy)
    → lookup n d ≡ some p
    → (close_each d ctl).is_open p.id ≡ false
unfolding close_each lookup close_it
close_each-open [] ctl n p h = absurd (cc)
close_each-open ((m, q) ∷ d) ctl n p h = elim (Bool-cases (m == n)) [
  | inl e ↦
      let same : some q ≡ some p = rw e at h in
      close_each-closed d (close_it ctl q) p.id
        (let ids : q.id ≡ p.id = cc in ground (arith, nat_beq_iff q.id p.id, ids))
  | inr e ↦ close_each-open d (close_it ctl q) n p (rw e at h)
]

-- At the end of a control, the manager has no longer the names of its proxies, and has every other name as
-- before; each of its proxies is closed.
pub finish_clears :
    (max_ports : ℕ) (ctl : Control)
    → Inv max_ports ctl
    → ((finish ctl).proxies ≡ [])
      × ((n : Text)
          → (finish ctl).pxy_manager.pxys n
            ≡ (if is_some (lookup n ctl.proxies) then none else ctl.pxy_manager.pxys n))
      × ((n : Text) (p : Proxy) → lookup n ctl.proxies ≡ some p → (finish ctl).is_open p.id ≡ false)
unfolding finish
finish_clears max_ports ctl v =
    let cleared = record ctl { proxies = [] } in
    (
      close_each-proxies ctl.proxies cleared,
      close_each_lem ctl.proxies cleared (all_named ctl.proxies v.keyed v.named),
      close_each-open ctl.proxies cleared,
    )
