-- ===== src/Util/Transporter/Examples.antt =====
-- Tests of the transporter, and its theorem at a concrete input.
use frpcv.Prelude.{
  Text, text_beq, text_eq, nat_eq, text, ◌≡◌, refl, true, false, none, some, List, [], ◌∷◌,
}
use frpcv.Util.Transporter.{
  Transporter, missed, delivered, new_message_transporter, lanes_of, dispatch_with_type, begin_do,
  end_do,
}
use frpcv.Util.Transporter.Lanes.{IsFresh, dispatch_all, AllApart, begin_do_answered}

not_sent_test :
    lanes_of
      (begin_do new_message_transporter false (text "1") (text "Resp")).0
      (text "Resp")
      (text "1")
    ≡ none
unfolding begin_do text_beq
not_sent_test = refl

-- The first of two calls with one lane takes the lane of the second away when it ends.
abbrev twice : Transporter
twice =
    let first = (begin_do new_message_transporter true (text "1") (text "Resp")).0 in
    let second = (begin_do first true (text "1") (text "Resp")).0 in
    (end_do second true 0 (text "1") (text "Resp")).0

twice_test : (dispatch_with_type twice (text "m") (text "Resp") (text "1")).1 ≡ missed
unfolding begin_do end_do dispatch_with_type text_beq
twice_test = refl

abbrev others : List (Text × (Text × Text))
others = (text "x", (text "Resp", text "2")) ∷ (text "y", (text "Sid", text "1")) ∷ []

new_message_transporter-IsFresh : IsFresh new_message_transporter
unfolding IsFresh
new_message_transporter-IsFresh ty lane ch e = absurd (let missing : none ≡ some ch = e in cc)

apart : AllApart (text "Resp") (text "1") others
unfolding AllApart text_beq
apart = (refl, (refl, tt))

begin_do_answered_example :
    let t' =
      dispatch_all (begin_do new_message_transporter true (text "1") (text "Resp")).0 others in
    let (after, result) = dispatch_with_type t' (text "m") (text "Resp") (text "1") in
    (result ≡ delivered) × ((end_do after false 0 (text "1") (text "Resp")).1 ≡ some (text "m"))
begin_do_answered_example =
    begin_do_answered new_message_transporter (text "1") (text "Resp") (text "m") others
      new_message_transporter-IsFresh apart
