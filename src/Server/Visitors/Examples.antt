-- ===== src/Server/Visitors/Examples.antt =====
-- Tests of the visitors' listeners, and their theorem at a concrete input.
use frpcv.Prelude.{Text, text_beq, text_eq, nat_eq, text, ℕ, ◌≡◌, refl, true, false, none, [], ◌∷◌}
use frpcv.Server.Visitors.{
  Manager, put_conn, auth_failed, no_listener, Request, new_manager, listen, contains, conn_to,
  new_conn, close_listener,
}
use frpcv.Server.Visitors.Access.{MayConnect, new_conn-MayConnect}

-- A key that is the secret itself.
abbrev key : Text → ℕ → Text
key sk timestamp = sk

abbrev vm : Manager
vm = (listen new_manager (text "web") (text "s") (text "*" ∷ [])).0

abbrev req : Request
req = record {
  name = text "web";
  timestamp = 5;
  sign_key = text "s";
  use_encryption = false;
  visitor_user = text "u";
}

let_through : new_conn key (λ sk. true) (λ l. true) vm req ≡ put_conn 0
unfolding new_conn conn_to listen contains text_beq
let_through = refl

repeated_test : (listen vm (text "web") (text "t") []).1 ≡ none
unfolding listen text_beq
repeated_test = refl

closed_test :
    new_conn key (λ sk. true) (λ l. true) (close_listener vm (text "web")) req ≡ no_listener
unfolding new_conn close_listener listen text_beq
closed_test = refl

wrong_key_test :
    new_conn key (λ sk. true) (λ l. true) vm (record req { sign_key = text "x" }) ≡ auth_failed
unfolding new_conn conn_to listen text_beq
wrong_key_test = refl

new_conn-MayConnect_example : MayConnect key vm req 0
new_conn-MayConnect_example = new_conn-MayConnect key (λ sk. true) (λ l. true) vm req 0 let_through
