-- ===== src/Server/Control/Quota.antt =====
-- The ports that a client uses are counted exactly, and stay within the limit.
use frpcv.Prelude.{
  ltb, if◌then◌else◌, Bool-cases, Option-cases, Text, text_beq_iff, text_eq, nat_eq, ◌==◌, put,
  Dict, lookup, insert, erase, lookup-insert, IsKeyed, insert-IsKeyed, erase_missing, ℕ, ◌+◌, ◌≤◌,
  ◌<◌, ◌≡◌, sym, ap, ◌∙◌, inl, inr, Bool, true, false, none, some, [], ◌∷◌, arith,
}
use frpcv.Server.Proxies.{Proxy, ProxyManager}
use frpcv.Server.Control.{Control, RegisterResult, Env, new_control, exceeds, take_ports}

-- The ports of all proxies.
unfoldable pub total : Dict Text Proxy → ℕ
total [] = 0
total ((name, pxy) ∷ d) = pxy.used_ports_num + total d

total-insert :
    (k : Text) (pxy : Proxy) (d : Dict Text Proxy)
    → lookup k d ≡ none
    → total (insert k pxy d) ≡ total d + pxy.used_ports_num
unfolding total lookup insert
total-insert k pxy [] h = omega arith
total-insert k pxy ((j, q) ∷ d) h = ground (arith, total-insert k pxy d)

pub total-erase :
    (k : Text) (pxy : Proxy) (d : Dict Text Proxy)
    → IsKeyed d
    → lookup k d ≡ some pxy
    → total (erase k d) + pxy.used_ports_num ≡ total d
unfolding total lookup erase
total-erase k pxy [] w h = cc
total-erase k pxy ((j, q) ∷ d) (f, w) h = elim (Bool-cases (j == k)) [
  | inr e ↦
      rw e (
        let there : lookup k d ≡ some pxy = rw e at h in omega (arith, total-erase k pxy d w there))
  | inl e ↦
      let gone : lookup k d ≡ none = sym (ap (λ m. lookup m d) ((text_beq_iff j k).0 e)) ∙ f in
      let same : some q ≡ some pxy = rw e at h in
      let kept = ap total (erase_missing k d gone) in rw e (ground (arith, kept, same))
]

abbrev counted : ℕ → Dict Text Proxy → ℕ
counted max_ports d = if ltb 0 max_ports then total d else 0

-- The proxies of the control stand under their names, also in the shared manager; their ports are counted.
pub record Inv (max_ports : ℕ) (ctl : Control) : Type 0 where
  pub keyed : IsKeyed ctl.proxies
  pub named : (n : Text) (p : Proxy) → lookup n ctl.proxies ≡ some p → p.name ≡ n
  pub known :
      (n : Text) (p : Proxy) → lookup n ctl.proxies ≡ some p → ctl.pxy_manager.pxys n ≡ some p
  pub exact : ctl.ports_used_num ≡ counted max_ports ctl.proxies
  pub within : 0 < max_ports → ctl.ports_used_num ≤ max_ports

-- The other controls leave the proxies of this one in the manager.
abbrev pub Honest : Dict Text Proxy → (ProxyManager → ProxyManager) → Type 0
Honest d others =
    (pm : ProxyManager) (n : Text) (p : Proxy)
    → lookup n d ≡ some p
    → pm.pxys n ≡ some p
    → (others pm).pxys n ≡ some p

-- The proxy that is made for a message has the name of the message.
abbrev pub MadeFor : Text → Env → Type 0
MadeFor name env = (p : Proxy) → env.pxy ≡ some p → p.name ≡ name

pub new_control-Inv :
    (max_ports : ℕ) (pm : ProxyManager) (is_open : ℕ → Bool)
    → Inv max_ports (new_control pm is_open)
unfolding lookup total
new_control-Inv max_ports pm is_open = record {
  keyed = tt;
  named = λ n p h. absurd (cc);
  known = λ n p h. absurd (cc);
  exact = ground arith;
  within = λ h. omega arith;
}

-- The invariant does not read what is open.
pub ports-Inv :
    (max_ports : ℕ) (ctl : Control) (k : ℕ) (is_open : ℕ → Bool)
    → Inv max_ports ctl
    → k ≡ ctl.ports_used_num
    → Inv max_ports (record ctl { ports_used_num = k; is_open = is_open })
ports-Inv max_ports ctl k is_open v e = record {
  keyed = v.keyed;
  named = v.named;
  known = v.known;
  exact = e ∙ v.exact;
  within = λ h. let l = v.within h in omega arith;
}

-- The invariant of an outcome's control.
unfoldable pub Kept : ℕ → Control × RegisterResult → Type 0
Kept max_ports r = Inv max_ports r.0

pub kept_of :
    (max_ports : ℕ) (ctl : Control) (r : RegisterResult)
    → Inv max_ports ctl
    → Kept max_ports (ctl, r)
unfolding Kept
kept_of max_ports ctl r v = v

pub others-Inv :
    (max_ports : ℕ) (ctl : Control) (others : ProxyManager → ProxyManager)
    → Inv max_ports ctl
    → Honest ctl.proxies others
    → Inv max_ports (record ctl { pxy_manager = others ctl.pxy_manager })
others-Inv max_ports ctl others v h = record {
  keyed = v.keyed;
  named = v.named;
  known = λ n p l. h ctl.pxy_manager n p l (v.known n p l);
  exact = v.exact;
  within = v.within;
}

data Found (k : Text) (x : Proxy) (d : Dict Text Proxy) (n : Text) (p : Proxy) : Type 0 where
  as_new : (k == n) ≡ true → p ≡ x → Found k x d n p
  as_old : (k == n) ≡ false → lookup n d ≡ some p → Found k x d n p

found :
    (k : Text) (x : Proxy) (d : Dict Text Proxy) (n : Text) (p : Proxy)
    → lookup n (insert k x d) ≡ some p
    → Found k x d n p
found k x d n p h =
    let at = sym (lookup-insert k n x d) ∙ h in
    elim (Bool-cases (k == n)) [
      | inl e ↦ as_new e (let z : some x ≡ some p = rw e at at in cc)
      | inr e ↦ as_old e (rw e at at)
    ]

-- A name that the manager does not have is not one of the control.
pub added-Inv :
    (max_ports : ℕ) (ctl : Control) (pxy : Proxy) (is_open : ℕ → Bool)
    → Inv max_ports ctl
    → ctl.pxy_manager.pxys pxy.name ≡ none
    → exceeds max_ports ctl pxy ≡ false
    → Inv max_ports (record (take_ports max_ports ctl pxy) {
      proxies = insert pxy.name pxy ctl.proxies;
      pxy_manager = record { pxys = put pxy.name pxy ctl.pxy_manager.pxys };
      is_open = is_open;
    })
unfolding exceeds take_ports
added-Inv max_ports ctl pxy is_open v free l =
    let absent : lookup pxy.name ctl.proxies ≡ none =
      elim (Option-cases (lookup pxy.name ctl.proxies)) [
        | inl e ↦ e
        | inr (p, e) ↦ absurd (let z = v.known pxy.name p e in cc)
      ] in
    record {
      keyed = insert-IsKeyed pxy.name pxy ctl.proxies v.keyed;
      named = λ n p h. elim (found pxy.name pxy ctl.proxies n p h) [
        | as_new e s ↦ ap (λ (q : Proxy). q.name) s ∙ (text_beq_iff pxy.name n).0 e
        | as_old e s ↦ v.named n p s
      ];
      known = λ n p h. elim (found pxy.name pxy ctl.proxies n p h) [
        | as_new e s ↦ rw e (ap some (sym s))
        | as_old e s ↦ rw e (v.known n p s)
      ];
      exact = ground (arith, v.exact, total-insert pxy.name pxy ctl.proxies absent);
      within = λ h. ground (arith, l, v.within h);
    }
