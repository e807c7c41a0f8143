-- ===== src/Server/Ports/Examples.antt =====
-- Tests of the port manager, and its theorems at concrete inputs.
use frpcv.Prelude.{
  ◌==◌, nat_eq, text_beq, text_eq, text, ℕ, ◌≡◌, refl, ◌⊎◌, true, false, not, ◌&&◌, none, some,
  List, [], ◌∷◌, arith,
}
use frpcv.Server.Ports.{
  PortError, no_available_port, ok, err, PortManager, PortsRange, Probe, free_at_start, new_manager,
  is_port_available, grant, first_available, acquire_random, reserved_port, acquire_zero, acquire,
  release, clean_reserved_ports,
}
use frpcv.Server.Ports.Invariant.{
  Inv, new_manager-Inv, Visits, acquires, releases, here, next, Reach-partition,
}
use frpcv.Server.Ports.Acquire.{Handed, acquire-Handed, acquire_exclusive, acquire_reserved}
use frpcv.Server.Ports.Errors.{Refusal, acquire_refused, NoneAvailable, acquire_any_fails}
use frpcv.Server.Ports.Reserve.{reacquire_same, reservation_expires}

abbrev single_port : ℕ → PortsRange
single_port p = record { start = 0; end = 0; single = p }

abbrev ranges : List PortsRange
ranges = single_port 6000 ∷ record { start = 7000; end = 7002; single = 0 } ∷ []

abbrev fresh : PortManager
fresh = new_manager (text "tcp") ranges

-- A probe that accepts every port but those of a list of two.
abbrev refusing : ℕ → ℕ → Probe
refusing a b = record {
  resolve_udp = λ p. true;
  listen_udp = λ p. true;
  listen = λ net p. not (p == a) && not (p == b);
}

abbrev order : List ℕ
order = 7001 ∷ 6000 ∷ 7000 ∷ 7002 ∷ []

fresh-Inv : Inv (free_at_start ranges) fresh
fresh-Inv = new_manager-Inv (text "tcp") ranges

order-Visits : Visits fresh order
unfolding new_manager free_at_start
order-Visits = (refl, (refl, (refl, (refl, tt))))

range_test : free_at_start ranges 7003 ≡ false
unfolding free_at_start
range_test = refl

random_test : (acquire fresh (refusing 7001 7000) (text "ssh") 0 order 5).1 ≡ ok 6000
unfolding acquire acquire_zero acquire_random reserved_port first_available is_port_available
    new_manager free_at_start text_beq
random_test = refl

abbrev granted : PortManager
granted = (acquire fresh (refusing 7001 7000) (text "ssh") 0 order 5).0

granted_eq : acquire fresh (refusing 7001 7000) (text "ssh") 0 order 5 ≡ (granted, ok 6000)
unfolding acquire acquire_zero acquire_random reserved_port first_available is_port_available
    new_manager free_at_start text_beq
granted_eq = refl

Reach-partition_example : Inv (free_at_start ranges) (release granted 6000 9)
Reach-partition_example = Reach-partition (text "tcp") ranges (
    next (next here (acquires (refusing 7001 7000) (text "ssh") 0 order 5 order-Visits))
      (releases 6000 9))

acquire-Handed_example : Handed fresh (text "ssh") 5 6000 granted
acquire-Handed_example =
    (acquire-Handed fresh-Inv (refusing 7001 7000) (text "ssh") 0 order 5 order-Visits granted 6000
      granted_eq).3

none_used :
    (q r : ℕ) → fresh.used_ports q ≡ some r → is_port_available fresh (refusing 7001 7000) q ≡ false
unfolding new_manager
none_used q r h = cc

acquire_exclusive_holds : fresh.used_ports 6000 ≡ none
acquire_exclusive_holds =
    acquire_exclusive fresh-Inv (refusing 7001 7000) (text "ssh") 0 order 5 order-Visits granted
      6000 granted_eq none_used

reserved_granted : reserved_port granted (text "ssh") ≡ some 6000
reserved_granted =
    (acquire-Handed fresh-Inv (refusing 7001 7000) (text "ssh") 0 order 5 order-Visits granted 6000
      granted_eq).3.reserved

available_again : is_port_available granted (refusing 1 2) 6000 ≡ true
unfolding acquire acquire_zero acquire_random reserved_port first_available is_port_available
    new_manager free_at_start text_beq grant
available_again = refl

-- The port is in use, and is handed out once more.
acquire_reserved_holds :
    acquire granted (refusing 1 2) (text "ssh") 0 [] 6
    ≡ (grant granted (text "ssh") 6000 6, ok 6000)
acquire_reserved_holds =
    acquire_reserved granted (refusing 1 2) (text "ssh") [] 6 6000 reserved_granted available_again

available_later :
    is_port_available (clean_reserved_ports (release granted 6000 10) 20) (refusing 1 2) 6000 ≡ true
unfolding acquire acquire_zero acquire_random reserved_port first_available is_port_available
    new_manager free_at_start text_beq grant release clean_reserved_ports
available_later = refl

reacquire_same_holds :
    (acquire
      (clean_reserved_ports (release granted 6000 10) 20)
      (refusing 1 2)
      (text "ssh")
      0
      []
      30).1
    ≡ ok 6000
reacquire_same_holds =
    reacquire_same fresh (refusing 7001 7000) (text "ssh") 0 order 5 order-Visits granted 6000
      granted_eq 10 20 (refusing 1 2) [] 30 (omega arith) available_later

reservation_expires_test :
    reserved_port (clean_reserved_ports (release granted 6000 10) 86_400_000_000_011) (text "ssh")
    ≡ none
reservation_expires_test =
    reservation_expires fresh (refusing 7001 7000) (text "ssh") 0 order 5 order-Visits granted 6000
      granted_eq 10 86_400_000_000_011 (omega arith)

acquire_refused_example :
    (acquire fresh (refusing 1 2) (text "ssh") 80 [] 5 ≡ (grant fresh (text "ssh") 80 5, ok 80))
    ⊎ ((e : PortError) × (acquire fresh (refusing 1 2) (text "ssh") 80 [] 5 ≡ (fresh, err e))
        × Refusal (free_at_start ranges) fresh (refusing 1 2) 80 e)
acquire_refused_example =
    acquire_refused fresh-Inv (refusing 1 2) (text "ssh") [] 5 80 (omega arith)

zero_not_allowed : free_at_start ranges 0 ≡ false
unfolding free_at_start
zero_not_allowed = refl

all_refused :
    acquire fresh (refusing 7001 6000) (text "ssh") 0 (7001 ∷ 6000 ∷ []) 5
    ≡ (fresh, err no_available_port)
unfolding acquire acquire_zero acquire_random reserved_port first_available is_port_available
    new_manager free_at_start text_beq
all_refused = refl

two-Visits : Visits fresh (7001 ∷ 6000 ∷ [])
unfolding new_manager free_at_start
two-Visits = (refl, (refl, tt))

acquire_any_fails_test :
    NoneAvailable (is_port_available fresh (refusing 7001 6000)) 5 (7001 ∷ 6000 ∷ [])
acquire_any_fails_test =
    (acquire_any_fails fresh-Inv (refusing 7001 6000) (text "ssh") (7001 ∷ 6000 ∷ []) 5 two-Visits
      fresh no_available_port zero_not_allowed all_refused).2
