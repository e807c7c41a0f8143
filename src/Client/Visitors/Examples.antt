-- ===== src/Client/Visitors/Examples.antt =====
-- Tests of the manager of the visitors, and its theorems at concrete inputs.
use frpcv.Prelude.{
  Text, text_beq, text_eq, nat_eq, text, is_some, lookup, insert, ℕ, ◌≡◌, refl, true, Option, none,
  some, [], ◌∷◌,
}
use frpcv.Client.Keyed.{Configurer, key_by}
use frpcv.Client.Visitors.{
  Manager, new_manager, start_visitor, start_missing, keep_visitors_running, stays, drop_changed,
  add_missing, update_all, close, transfer_conn, get_visitor_cfg,
}
use frpcv.Client.Visitors.Histories.{updates, ticks, Reach, start, next, Reach-Has, tick_starts_all}

-- A configuration is its name.
abbrev names : Configurer Text
names = record { name = λ c. c; deep_equal = text_eq }

abbrev fails : Text → Option ℕ
fails c = none

abbrev runs : Text → Option ℕ
runs c = some 7

-- The visitor of the configuration could not be started.
abbrev vm : Manager Text
vm = update_all names fails new_manager (text "a" ∷ [])

update_all_test : vm.visitors ≡ []
unfolding update_all drop_changed add_missing start_visitor new_manager lookup
update_all_test = refl

removed_test :
    (update_all names runs (update_all names runs new_manager (text "a" ∷ [])) []).closed ≡ 7 ∷ []
unfolding update_all drop_changed add_missing start_visitor new_manager lookup stays key_by insert
    text_beq
removed_test = refl

close_test : (close (keep_visitors_running names runs vm)).closed ≡ 7 ∷ []
unfolding close keep_visitors_running start_missing update_all drop_changed add_missing
    start_visitor new_manager lookup insert
close_test = refl

configured : is_some (get_visitor_cfg vm (text "a")) ≡ true
unfolding get_visitor_cfg update_all drop_changed add_missing start_visitor new_manager lookup
    insert text_beq
configured = refl

reached : Reach names vm
reached = next start (updates fails (text "a" ∷ []))

tick_starts_all_example :
    is_some (transfer_conn (keep_visitors_running names runs vm) (text "a")) ≡ true
tick_starts_all_example = tick_starts_all names runs reached (λ c. refl) (text "a") configured

running : is_some (transfer_conn (keep_visitors_running names runs vm) (text "a")) ≡ true
unfolding transfer_conn keep_visitors_running start_missing update_all drop_changed add_missing
    start_visitor new_manager lookup insert text_beq
running = refl

Reach-Has_holds : is_some (get_visitor_cfg (keep_visitors_running names runs vm) (text "a")) ≡ true
Reach-Has_holds = Reach-Has names (next reached (ticks runs)) (text "a") running
