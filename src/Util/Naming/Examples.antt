-- ===== src/Util/Naming/Examples.antt =====
-- Tests of the proxy names, and their theorems at concrete inputs.
use frpcv.Prelude.{nat_eq, text_beq, text_eq, text, ◌≡◌, refl, ◌⊎◌, some, []}
use frpcv.Util.Naming.{
  add_user_prefix, cut_prefix, strip_user_prefix, build_target_server_proxy_name, strip-add,
  strip-cases,
}

target_test : build_target_server_proxy_name (text "me") (text "you") (text "web") ≡ text "you.web"
unfolding build_target_server_proxy_name add_user_prefix text_beq
target_test = refl

own_test : build_target_server_proxy_name (text "me") [] (text "web") ≡ text "me.web"
unfolding build_target_server_proxy_name add_user_prefix text_beq
own_test = refl

cut_test : cut_prefix (text "me.web") (text "me.") ≡ some (text "web")
unfolding cut_prefix
cut_test = refl

strip-add_test :
    strip_user_prefix (text "me") (add_user_prefix (text "me") (text "web")) ≡ text "web"
strip-add_test = strip-add (text "me") (text "web")

strip-cases_test :
    (strip_user_prefix (text "me") (text "web") ≡ text "web")
    ⊎ (add_user_prefix (text "me") (strip_user_prefix (text "me") (text "web")) ≡ text "web")
strip-cases_test = strip-cases (text "me") (text "web")
