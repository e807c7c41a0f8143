-- ===== src/Client/Proxies/Examples.antt =====
-- Tests of the manager of the proxies, and its theorems at concrete inputs.
use frpcv.Prelude.{
  Text, text_beq, text_eq, nat_eq, text, length, lookup, insert, IsKeyed, keep_entries, ◌≡◌, refl,
  Bool, false, some, List, [], ◌∷◌,
}
use frpcv.Client.Wrapper.{new_wrapper, is_wait_start, not_wait_start, runs, set_running_status}
use frpcv.Client.Keyed.{Configurer, key_by, find_cfg, AreDistinct}
use frpcv.Client.Proxies.{
  Entry, Manager, answered, closed_by_manager, new_manager, start_proxy_of, stop_all, close,
  handle_work_conn, get_proxy_status, stays, keep_unchanged, fresh, add_missing, update_all,
}
use frpcv.Client.Proxies.Update.{wanted, lookup-update_all, update_all-IsKeyed}
use frpcv.Client.Proxies.Idempotent.{update_all_twice}

-- A configuration is a text, and its first letter is its name.
abbrev first_letter : Text → Text
first_letter [] = []
first_letter (c ∷ s) = c ∷ []

abbrev texts : Configurer Text
texts = record { name = first_letter; deep_equal = text_eq }

abbrev never : Text → Bool
never cfg = false

abbrev entry : Text → Entry Text
entry = fresh texts (text "u") never

abbrev before : Manager Text
before = record {
  proxies = (text "a", entry (text "a1")) ∷ (text "b", entry (text "b1")) ∷ [];
  stopped = [];
}

abbrev cfgs : List Text
cfgs = text "b2" ∷ text "c1" ∷ []

update_all_test :
    (update_all texts (text "u") never before cfgs).proxies
    ≡ (text "b", entry (text "b2")) ∷ (text "c", entry (text "c1")) ∷ []
unfolding update_all keep_unchanged add_missing stays key_by keep_entries lookup insert text_beq
update_all_test = refl

-- With two configurations of one name, the first is started and the second decides what stays: an update
-- with the same list stops the proxy and starts it again.
repeated_name_test :
    length
      (update_all texts
        (text "u")
        never
        (update_all texts (text "u") never new_manager (text "a1" ∷ text "a2" ∷ []))
        (text "a1" ∷ text "a2" ∷ [])).stopped
    ≡ 1
unfolding update_all keep_unchanged add_missing stays key_by keep_entries lookup insert new_manager
    stop_all text_beq
repeated_name_test = refl

close_test : length (close before).stopped ≡ 2
unfolding close stop_all
close_test = refl

start_proxy_of_test :
    (start_proxy_of before (text "a") (text ":80") [] runs 5).1 ≡ answered not_wait_start
unfolding start_proxy_of lookup set_running_status new_wrapper is_wait_start text_beq
start_proxy_of_test = refl

handle_work_conn_test : handle_work_conn before (text "c") ≡ closed_by_manager
unfolding handle_work_conn lookup text_beq
handle_work_conn_test = refl

get_proxy_status_test : get_proxy_status before (text "b") ≡ some (entry (text "b1")).wrapper
unfolding get_proxy_status lookup text_beq
get_proxy_status_test = refl

distinct : AreDistinct texts cfgs
unfolding find_cfg text_beq
distinct = (refl, (refl, tt))

keyed : IsKeyed before.proxies
unfolding lookup text_beq
keyed = (refl, (refl, tt))

lookup-update_all_example :
    lookup (text "b") (update_all texts (text "u") never before cfgs).proxies
    ≡ wanted texts
        (text "u")
        never
        (find_cfg texts (text "b") cfgs)
        (lookup (text "b") before.proxies)
lookup-update_all_example =
    lookup-update_all texts (text "u") never before cfgs keyed distinct (text "b")

update_all_twice_holds :
    update_all texts (text "u") never (update_all texts (text "u") never before cfgs) cfgs
    ≡ update_all texts (text "u") never before cfgs
update_all_twice_holds = update_all_twice texts (text "u") never before cfgs distinct

update_all-IsKeyed_holds : IsKeyed (update_all texts (text "u") never before cfgs).proxies
update_all-IsKeyed_holds = update_all-IsKeyed texts (text "u") never before cfgs keyed
