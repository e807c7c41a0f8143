-- ===== src/Nathole/Classify.antt =====
-- src/pkg/nathole/classify.go: the features of a NAT, from the addresses that a peer was seen at.
-- The strings that name the NAT types and the behaviours are data. A port is a natural number.
pub mod Features
use frpcv.Prelude.{
  leb, if◌then◌else◌, Text, text_eq, nat_eq, ◌==◌, length, ℕ, ◌+◌, ◌-◌, max, min, Bool, true, false,
  not, ◌&&◌, ◌||◌, Option, none, some, List, [], ◌∷◌,
}

pub data NatType : Type 0 where
  easy_nat hard_nat : NatType

pub data NatBehavior : Type 0 where
  no_change ip_changed port_changed both_changed : NatBehavior

pub record NatFeature : Type 0 where
  pub nat_type : NatType
  pub behavior : NatBehavior
  pub ports_difference : ℕ
  pub regular_ports_change : Bool
  pub public_network : Bool

pub data ClassifyResult : Type 0 where
  ok : NatFeature → ClassifyResult
  not_enough_addresses bad_address : ClassifyResult

-- The variables of the loop over the addresses.
pub record Scan : Type 0 where
  pub public_network : Bool
  pub base_ip : Text
  pub base_port : Text
  pub port_max : ℕ
  pub port_min : ℕ
  pub ip_changed : Bool
  pub port_changed : Bool

unfoldable pub no_scan : Scan
no_scan = record {
  public_network = false;
  base_ip = [];
  base_port = [];
  port_max = 0;
  port_min = 0;
  ip_changed = false;
  port_changed = false;
}

-- slices.Contains
unfoldable pub contains : Text → List Text → Bool
contains s [] = false
contains s (t ∷ l) = s == t || contains s l

-- The loop's body at an address that is split into its host and port.
unfoldable pub scan_address : List Text → Text → Text → ℕ → Scan → Scan
unfolding contains
scan_address local_ips ip port port_num s =
    let public_network = s.public_network || contains ip local_ips in
    if s.base_ip == []
    then record s {
      public_network = public_network;
      base_ip = ip;
      base_port = port;
      port_max = port_num;
      port_min = port_num;
    }
    else record s {
      public_network = public_network;
      port_max = max s.port_max port_num;
      port_min = min s.port_min port_num;
      ip_changed = s.ip_changed || not (s.base_ip == ip);
      port_changed = s.port_changed || not (s.base_port == port);
    }

unfoldable pub nat_behavior : Bool → Bool → NatBehavior
nat_behavior true true = both_changed
nat_behavior true false = ip_changed
nat_behavior false true = port_changed
nat_behavior false false = no_change

unfoldable pub nat_type_of : NatBehavior → NatType
nat_type_of no_change = easy_nat
nat_type_of _ = hard_nat

unfoldable pub is_port_changed : NatBehavior → Bool
is_port_changed port_changed = true
is_port_changed _ = false

unfoldable pub feature_of : Scan → NatFeature
unfolding nat_behavior nat_type_of is_port_changed
feature_of s =
    let behavior = nat_behavior s.ip_changed s.port_changed in
    let difference = if is_port_changed behavior then s.port_max - s.port_min else 0 in
    record {
      nat_type = nat_type_of behavior;
      behavior = behavior;
      ports_difference = difference;
      regular_ports_change = is_port_changed behavior && leb difference 5 && leb 1 difference;
      public_network = s.public_network;
    }

module _ (split_host_port : Text → Option (Text × Text)) (atoi : Text → Option ℕ) where
  unfoldable pub scan_addresses : List Text → List Text → Scan → Option Scan
  unfolding scan_address
  scan_addresses local_ips [] s = some s
  scan_addresses local_ips (addr ∷ addresses) s = elim (split_host_port addr) [
    | none ↦ none
    | some (ip, port) ↦ elim (atoi port) [
      | none ↦ none
      | some port_num ↦
          scan_addresses local_ips addresses (scan_address local_ips ip port port_num s)
    ]
  ]

  unfoldable pub classify_nat_feature : List Text → List Text → ClassifyResult
  unfolding scan_addresses no_scan feature_of
  classify_nat_feature addresses local_ips =
      if leb (length addresses) 1
      then not_enough_addresses
      else elim (scan_addresses local_ips addresses no_scan) [
        | none ↦ bad_address
        | some s ↦ ok (feature_of s)
      ]

unfoldable pub is_easy : NatFeature → Bool
is_easy f = elim f.nat_type [ easy_nat ↦ true | hard_nat ↦ false ]

pub record FeatureCount : Type 0 where
  pub easy_count : ℕ
  pub hard_count : ℕ
  pub ports_changed_regular_count : ℕ

unfoldable pub count_feature : FeatureCount → NatFeature → FeatureCount
unfolding is_easy
count_feature n f =
    if is_easy f
    then record n { easy_count = n.easy_count + 1 }
    else if f.regular_ports_change
    then record n {
      hard_count = n.hard_count + 1;
      ports_changed_regular_count = n.ports_changed_regular_count + 1;
    }
    else record n { hard_count = n.hard_count + 1 }

unfoldable pub count_from : FeatureCount → List NatFeature → FeatureCount
unfolding count_feature
count_from n [] = n
count_from n (f ∷ features) = count_from (count_feature n f) features

unfoldable pub classify_feature_count : List NatFeature → FeatureCount
unfolding count_from
classify_feature_count features =
    count_from (record { easy_count = 0; hard_count = 0; ports_changed_regular_count = 0 }) features
