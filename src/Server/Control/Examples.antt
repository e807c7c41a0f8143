-- ===== src/Server/Control/Examples.antt =====
-- Tests of the controls, and their theorems at concrete inputs.
use frpcv.Prelude.{
  if◌then◌else◌, Text, text_beq, text_eq, nat_eq, text, is_some, Dict, lookup, insert, erase, ◌≤◌,
  ◌≡◌, refl, sym, true, false, none, some, [], arith,
}
use frpcv.Server.Proxies.{Proxy, new_proxy_manager, add, exist, delete, get_by_name}
use frpcv.Server.Control.{
  Control, exceed_max_ports, already_exists, registered, failed, Env, new_control, exceeds,
  take_ports, give_ports, add_proxy, run_and_add, register_made, register_proxy, close_it,
  close_proxy, finish,
}
use frpcv.Server.Control.Quota.{total, Honest, MadeFor}
use frpcv.Server.Control.Closing.{registers, Reach, start, next, Reach-Inv, Reach-Quota}
use frpcv.Server.Control.Outcomes.{Outcome, register_proxy-Outcome}
use frpcv.Server.Control.Finishing.{finish_clears}

abbrev web : Proxy
web = record { id = 1; name = text "web"; used_ports_num = 1 }

abbrev env : Env
env = record { config_is_valid = true; pxy = some web; run = some (text ":80"); others = λ pm. pm }

abbrev empty : Control
empty = new_control new_proxy_manager (λ id. false)

abbrev one : Control
one = (register_proxy 1 empty (text "web") env).0

register_proxy_test : (register_proxy 1 empty (text "web") env).1 ≡ registered (text ":80")
unfolding register_proxy register_made exceeds take_ports give_ports run_and_add add_proxy exist add
register_proxy_test = refl

-- The limit of one port is used up.
exceed_test : (register_proxy 1 one (text "web") env).1 ≡ failed exceed_max_ports
unfolding register_proxy register_made exceeds take_ports give_ports run_and_add add_proxy exist add
    insert
exceed_test = refl

repeated_test : (register_proxy 2 one (text "web") env).1 ≡ failed already_exists
unfolding register_proxy register_made exceeds take_ports give_ports run_and_add add_proxy exist add
    insert text_beq
repeated_test = refl

close_proxy_test : (close_proxy 1 one (text "web")).ports_used_num ≡ 0
unfolding close_proxy close_it register_proxy register_made exceeds take_ports give_ports
    run_and_add add_proxy exist add insert lookup text_beq delete erase
close_proxy_test = refl

get_by_name_test : get_by_name new_proxy_manager (text "web") ≡ none
unfolding get_by_name
get_by_name_test = refl

honest : (d : Dict Text Proxy) → Honest d (λ pm. pm)
honest d pm n p h k = k

made : MadeFor (text "web") env
made p e = let same : some web ≡ some p = e in let names : web.name ≡ p.name = cc in sym names

reached : Reach 1 new_proxy_manager (λ id. false) one
reached = next start (registers (text "web") env (honest _) made)

Reach-Quota_example : (one.ports_used_num ≡ total one.proxies) × (total one.proxies ≤ 1)
Reach-Quota_example = Reach-Quota reached (omega arith)

register_proxy-Outcome_example :
    Outcome 1 empty (text "web") env (register_proxy 1 empty (text "web") env)
register_proxy-Outcome_example = register_proxy-Outcome 1 empty (text "web") env

finish_clears_example :
    ((finish one).proxies ≡ [])
    × ((n : Text)
        → (finish one).pxy_manager.pxys n
          ≡ (if is_some (lookup n one.proxies) then none else one.pxy_manager.pxys n))
    × ((n : Text) (p : Proxy) → lookup n one.proxies ≡ some p → (finish one).is_open p.id ≡ false)
finish_clears_example = finish_clears 1 one (Reach-Inv reached)
