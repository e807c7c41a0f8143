-- ===== src/Nathole/Classify/Features.antt =====
-- The features that an address list shows.
use frpcv.Prelude.{
  if◌then◌else◌, Bool-cases, Text, text_beq, text_eq, nat_eq, ◌==◌, eq_false, length, ℕ, ◌+◌, ◌-◌,
  ◌≤◌, ◌<◌, max, min, ◌≡◌, refl, ap, ◌∙◌, ◌≢◌, ◌↔◌, inl, inr, Bool, true, false, not, ◌&&◌, ◌||◌,
  Option, some, List, [], ◌∷◌, arith,
}
use frpcv.Nathole.Classify.{
  easy_nat, NatBehavior, no_change, ip_changed, port_changed, both_changed, NatFeature, ok, Scan,
  no_scan, contains, scan_address, nat_behavior, nat_type_of, is_port_changed, feature_of,
  scan_addresses, classify_nat_feature,
}

pub record Endpoint : Type 0 where
  pub ip : Text
  pub port : Text
  pub port_num : ℕ

pub other_ip : Endpoint → List Endpoint → Bool
other_ip e [] = false
other_ip e (f ∷ l) = not (e.ip == f.ip) || other_ip e l

pub other_port : Endpoint → List Endpoint → Bool
other_port e [] = false
other_port e (f ∷ l) = not (e.port == f.port) || other_port e l

pub local_ip : List Text → List Endpoint → Bool
local_ip local_ips [] = false
local_ip local_ips (f ∷ l) = contains f.ip local_ips || local_ip local_ips l

pub greatest_port : ℕ → List Endpoint → ℕ
greatest_port n [] = n
greatest_port n (f ∷ l) = greatest_port (max n f.port_num) l

pub least_port : ℕ → List Endpoint → ℕ
least_port n [] = n
least_port n (f ∷ l) = least_port (min n f.port_num) l

-- What changes between the first address and the others.
abbrev pub changes : Bool → Bool → NatBehavior
changes ip_differs port_differs =
    if ip_differs
    then (if port_differs then both_changed else ip_changed)
    else (if port_differs then port_changed else no_change)

-- The NAT is easy exactly when no address or port differs from the first, and its behaviour says which of the
-- two differ. The difference of the ports is that of the greatest and the least if only ports differ, and 0
-- otherwise. The ports change regularly exactly when only ports differ and they lie within five. The network
-- is public when a local address was seen.
pub record Shows (local_ips : List Text) (e : Endpoint) (l : List Endpoint) (f : NatFeature)
    : Type 0 where
  pub easy : (f.nat_type ≡ easy_nat) ↔ ((other_ip e l ≡ false) × (other_port e l ≡ false))
  pub behaves : f.behavior ≡ changes (other_ip e l) (other_port e l)
  pub difference : f.ports_difference ≡ (
      if not (other_ip e l) && other_port e l
      then greatest_port e.port_num l - least_port e.port_num l
      else 0)
  pub regular : (f.regular_ports_change ≡ true) ↔ (
      (other_ip e l ≡ false)
      × (other_port e l ≡ true)
      × (least_port e.port_num l < greatest_port e.port_num l)
      × (greatest_port e.port_num l ≤ least_port e.port_num l + 5))
  pub public : f.public_network ≡ local_ip local_ips (e ∷ l)

nat_type_of-easy :
    (a b : Bool) → (nat_type_of (nat_behavior a b) ≡ easy_nat) ↔ ((a ≡ false) × (b ≡ false))
unfolding nat_type_of nat_behavior
nat_type_of-easy true true = ((λ e. cc), (λ e. cc))
nat_type_of-easy true false = ((λ e. cc), (λ e. cc))
nat_type_of-easy false true = ((λ e. cc), (λ e. cc))
nat_type_of-easy false false = ((λ e. (refl, refl)), (λ e. refl))

is_port_changed-true :
    (a b : Bool) → (is_port_changed (nat_behavior a b) ≡ true) ↔ ((a ≡ false) × (b ≡ true))
unfolding is_port_changed nat_behavior
is_port_changed-true true true = ((λ e. cc), (λ e. cc))
is_port_changed-true true false = ((λ e. cc), (λ e. cc))
is_port_changed-true false true = ((λ e. (refl, refl)), (λ e. refl))
is_port_changed-true false false = ((λ e. cc), (λ e. cc))

nat_behavior-changes : (a b : Bool) → nat_behavior a b ≡ changes a b
unfolding nat_behavior
nat_behavior-changes true true = refl
nat_behavior-changes true false = refl
nat_behavior-changes false true = refl
nat_behavior-changes false false = refl

is_port_changed-only :
    (a b : Bool) (m n : ℕ)
    → (if is_port_changed (nat_behavior a b) then m - n else 0) ≡ (if not a && b then m - n else 0)
unfolding is_port_changed nat_behavior
is_port_changed-only true true m n = refl
is_port_changed-only true false m n = refl
is_port_changed-only false true m n = refl
is_port_changed-only false false m n = refl

abbrev scanned : List Text → Endpoint → List Endpoint → Scan → Scan
scanned local_ips e l s = record {
  public_network = s.public_network || local_ip local_ips l;
  base_ip = s.base_ip;
  base_port = s.base_port;
  port_max = greatest_port s.port_max l;
  port_min = least_port s.port_min l;
  ip_changed = s.ip_changed || other_ip e l;
  port_changed = s.port_changed || other_port e l;
}

-- After the first address.
abbrev first_scan : List Text → Endpoint → Scan
first_scan local_ips e = record {
  public_network = contains e.ip local_ips;
  base_ip = e.ip;
  base_port = e.port;
  port_max = e.port_num;
  port_min = e.port_num;
  ip_changed = false;
  port_changed = false;
}

scan-first :
    (local_ips : List Text) (e : Endpoint)
    → scan_address local_ips e.ip e.port e.port_num no_scan ≡ first_scan local_ips e
unfolding scan_address no_scan text_beq
scan-first local_ips e = refl

feature-Shows :
    (local_ips : List Text) (e : Endpoint) (l : List Endpoint)
    → Shows local_ips e l (feature_of (scanned local_ips e l (first_scan local_ips e)))
unfolding feature_of local_ip
feature-Shows local_ips e l =
    let (p, q) = is_port_changed-true (other_ip e l) (other_port e l) in
    record {
      easy = nat_type_of-easy (other_ip e l) (other_port e l);
      behaves = nat_behavior-changes (other_ip e l) (other_port e l);
      difference =
          is_port_changed-only (other_ip e l) (other_port e l) (greatest_port e.port_num l)
            (least_port e.port_num l);
      regular = elim (Bool-cases (is_port_changed (nat_behavior (other_ip e l) (other_port e l)))) [
        | inl t ↦
            rw t (λ x. (let (a, b) = p t in (a, b, ground arith, ground arith)), λ x. ground arith)
        | inr t ↦ rw t (λ x. absurd (cc), λ x. absurd (let y = q (x.0, x.1) in cc))
      ];
      public = refl;
    }

module _ (split_host_port : Text → Option (Text × Text)) (atoi : Text → Option ℕ) where
  -- The addresses read as endpoints, one for one.
  unfoldable pub Endpoints : List Text → List Endpoint → Type 0
  Endpoints [] [] = Unit
  Endpoints [] (e ∷ l) = ⊥
  Endpoints (addr ∷ addresses) [] = ⊥
  Endpoints (addr ∷ addresses) (e ∷ l) =
      (split_host_port addr ≡ some (e.ip, e.port))
      × (atoi e.port ≡ some e.port_num)
      × Endpoints addresses l

  or_assoc : (a b c : Bool) → ((a || b) || c) ≡ (a || (b || c))
  or_assoc true b c = refl
  or_assoc false b c = refl

  scan_rest :
      (local_ips addresses : List Text) (e : Endpoint) (l : List Endpoint) (s : Scan)
      → Endpoints addresses l
      → s.base_ip ≡ e.ip
      → s.base_port ≡ e.port
      → (e.ip == []) ≡ false
      → scan_addresses split_host_port atoi local_ips addresses s ≡ some (scanned local_ips e l s)
  unfolding Endpoints scan_addresses scan_address other_ip other_port local_ip greatest_port
      least_port
  scan_rest local_ips [] e [] s v b p n = ground arith
  scan_rest local_ips [] e (f ∷ l) s v b p n = absurd v
  scan_rest local_ips (addr ∷ addresses) e [] s v b p n = absurd v
  scan_rest local_ips (addr ∷ addresses) e (f ∷ l) s (h, k, v) b p n =
      let next = scan_address local_ips f.ip f.port f.port_num s in
      let nb : next.base_ip ≡ e.ip = ground arith in
      let np : next.base_port ≡ e.port = ground arith in
      let ih = scan_rest local_ips addresses e l next v nb np n in
      rw (h, scan_addresses, k)
        (ih
          ∙ ap some (
              ground (
                arith,
                or_assoc s.public_network (contains f.ip local_ips) (local_ip local_ips l),
                or_assoc s.ip_changed (not (e.ip == f.ip)) (other_ip e l),
                or_assoc s.port_changed (not (e.port == f.port)) (other_port e l),
              )))

  scan_all :
      (local_ips : List Text) (addr : Text) (addresses : List Text) (e : Endpoint)
      (l : List Endpoint)
      → Endpoints (addr ∷ addresses) (e ∷ l)
      → e.ip ≢ []
      → scan_addresses split_host_port atoi local_ips (addr ∷ addresses) no_scan
        ≡ some (scanned local_ips e l (first_scan local_ips e))
  unfolding scan_addresses Endpoints
  scan_all local_ips addr addresses e l (h, k, v) n =
      rw (h, scan_addresses, k)
        (ap (λ (t : Scan). scan_addresses split_host_port atoi local_ips addresses t)
            (scan-first local_ips e)
          ∙ scan_rest local_ips addresses e l (first_scan local_ips e) v refl refl
              (eq_false e.ip [] n))

  -- Of two or more addresses that can be read, the first of which has a host, the features are those that
  -- the addresses show: whether the NAT is easy, which of host and port change, the difference of the ports,
  -- whether they change regularly, and whether a local address was seen.
  pub classify_nat_feature-Shows :
      (local_ips addresses : List Text) (e f : Endpoint) (l : List Endpoint)
      → Endpoints addresses (e ∷ f ∷ l)
      → e.ip ≢ []
      → (feature : NatFeature) × (classify_nat_feature split_host_port atoi addresses local_ips
          ≡ ok feature)
        × Shows local_ips e (f ∷ l) feature
  unfolding classify_nat_feature Endpoints
  classify_nat_feature-Shows local_ips [] e f l v n = absurd v
  classify_nat_feature-Shows local_ips (addr ∷ []) e f l v n = absurd (v.2)
  classify_nat_feature-Shows local_ips (addr ∷ addr' ∷ addresses) e f l v n = (
    feature_of (scanned local_ips e (f ∷ l) (first_scan local_ips e)),
    enough (addr ∷ addr' ∷ addresses) (omega arith)
        (scan_all local_ips addr (addr' ∷ addresses) e (f ∷ l) v n),
    feature-Shows local_ips e (f ∷ l),
  )
    where
      enough :
          (a : List Text) {s : Scan}
          → 1 < length a
          → scan_addresses split_host_port atoi local_ips a no_scan ≡ some s
          → classify_nat_feature split_host_port atoi a local_ips ≡ ok (feature_of s)
      enough a h r = rw (r, classify_nat_feature) (ground arith)
