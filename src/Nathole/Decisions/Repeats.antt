-- ===== src/Nathole/Decisions/Repeats.antt =====
-- What slices.Compact leaves of a list that repeats an address.
use frpcv.Prelude.{
  leb, if◌then◌else◌, Bool-cases, Text, text_eq, nat_eq, ◌==◌, eq_refl, ℕ, ◌≡◌, refl, inl, inr,
  Bool, true, false, Option, none, some, List, [], ◌∷◌, ◌++◌,
}
use frpcv.Nathole.Classify.{NatFeature}
use frpcv.Nathole.Analyzer.{Analyzer}
use frpcv.Nathole.Sessions.{ClientMsg, Session}
use frpcv.Nathole.Decisions.{
  compact_after, blanks_after, compacted, last_text, get_range_ports, answer, respond, decide_for,
}

last_text-cons : (x y : Text) (ss : List Text) → last_text ss ≡ some y → last_text (x ∷ ss) ≡ some y
last_text-cons x y [] e = absurd (let missing : none ≡ some y = e in cc)
last_text-cons x y (s ∷ ss) e = e

last_text-append :
    (xs ys : List Text) (y : Text) → last_text ys ≡ some y → last_text (xs ++ ys) ≡ some y
last_text-append [] ys y e = e
last_text-append (x ∷ xs) ys y e = last_text-cons x y (xs ++ ys) (last_text-append xs ys y e)

last_text-if :
    (b : Bool) (y : Text) (ss : List Text)
    → last_text ss ≡ some y
    → last_text (if b then [] ∷ ss else ss) ≡ some y
last_text-if true y ss e = last_text-cons [] y ss e
last_text-if false y ss e = e

blanks_after-blank : (p : Text) (ss : List Text) → last_text ([] ∷ blanks_after p ss) ≡ some []
unfolding blanks_after
blanks_after-blank p [] = refl
blanks_after-blank p (t ∷ ss) = elim (Bool-cases (p == t)) [
  | inl e ↦ rw (e) (blanks_after-blank t ss)
  | inr e ↦ rw (e) (blanks_after-blank t ss)
]

blanks_after-same : (s : Text) (ys : List Text) → last_text (blanks_after s (s ∷ ys)) ≡ some []
unfolding blanks_after
blanks_after-same s ys = rw (eq_refl s) (blanks_after-blank s ys)

blanks_after-repeated :
    (p : Text) (xs : List Text) (s : Text) (ys : List Text)
    → last_text (blanks_after p (xs ++ s ∷ s ∷ ys)) ≡ some []
unfolding blanks_after
blanks_after-repeated p [] s ys =
    last_text-if (p == s) [] (blanks_after s (s ∷ ys)) (blanks_after-same s ys)
blanks_after-repeated p (x ∷ xs) s ys =
    last_text-if (p == x) [] (blanks_after x (xs ++ s ∷ s ∷ ys)) (blanks_after-repeated x xs s ys)

compacted-repeated :
    (xs : List Text) (s : Text) (ys : List Text)
    → last_text (compacted (xs ++ s ∷ s ∷ ys)) ≡ some []
unfolding compacted
compacted-repeated [] s ys =
    last_text-append (s ∷ compact_after s (s ∷ ys)) (blanks_after s (s ∷ ys)) []
      (blanks_after-same s ys)
compacted-repeated (x ∷ xs) s ys =
    last_text-append (x ∷ compact_after x (xs ++ s ∷ s ∷ ys)) (blanks_after x (xs ++ s ∷ s ∷ ys)) []
      (blanks_after-repeated x xs s ys)

module _ (split_host_port : Text → Option (Text × Text)) (atoi : Text → Option ℕ)
    (md5_hex : Text → Text) where
  no_ports_of_blank :
      (addrs : List Text) (difference max_number : ℕ)
      → last_text addrs ≡ some []
      → split_host_port [] ≡ none
      → get_range_ports split_host_port atoi md5_hex addrs difference max_number ≡ none
  unfolding get_range_ports
  no_ports_of_blank addrs difference max_number e f = elim (Bool-cases (leb max_number 0)) [
    | inl n ↦ rw (n) refl
    | inr n ↦ rw (n, e, f) refl
  ]

  -- A client that reports the same address twice in a row: the visitor is told no ports to try, whatever
  -- the behaviour asks for, since the ports are taken from the addresses after slices.Compact has cleared
  -- the end of them. The empty text is not split into a host and a port.
  pub repeated_address_leaves_no_ports :
      (a : Analyzer) (s : Session) (cm : ClientMsg) (c v : NatFeature) (now : ℕ) (xs : List Text)
      (addr : Text) (ys : List Text)
      → cm.mapped_addrs ≡ xs ++ addr ∷ addr ∷ ys
      → split_host_port [] ≡ none
      → (decide_for split_host_port atoi md5_hex a s cm c v now).v_resp.behavior.candidate_ports
        ≡ none
  unfolding decide_for respond answer
  repeated_address_leaves_no_ports a s cm c v now xs addr ys e f =
      no_ports_of_blank (compacted cm.mapped_addrs) _ _ (rw (e) (compacted-repeated xs addr ys)) f
