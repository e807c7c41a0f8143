-- ===== src/Util/Texts.antt =====
-- What the program uses of Go's package strings, on bytes. `to_lower` is that of ASCII.
use frpcv.Prelude.{
  ltb, leb, if◌then◌else◌, ◌==◌, nat_eq, Text, text_eq, length, All, ℕ, ◌+◌, ◌<◌, ◌≡◌, refl, ap,
  ◌≢◌, ◌⊎◌, inl, inr, Bool, true, false, ◌&&◌, ◌||◌, List, [], ◌∷◌, ◌++◌, arith,
}

-- strings.ToLower
abbrev lower_byte : ℕ → ℕ
lower_byte c = if leb b'A' c && leb c b'Z' then c + 32 else c

unfoldable pub to_lower : Text → Text
to_lower [] = []
to_lower (c ∷ s) = lower_byte c ∷ to_lower s

-- strings.HasPrefix
unfoldable pub has_prefix : Text → Text → Bool
has_prefix s [] = true
has_prefix [] (d ∷ p) = false
has_prefix (c ∷ s) (d ∷ p) = c == d && has_prefix s p

-- cmp.Compare(a, b) < 0
unfoldable pub text_ltb : Text → Text → Bool
text_ltb [] [] = false
text_ltb [] (d ∷ t) = true
text_ltb (c ∷ s) [] = false
text_ltb (c ∷ s) (d ∷ t) = ltb c d || (c == d && text_ltb s t)

-- strings.Split by a one-byte separator: the piece that is being read comes first.
abbrev push_byte : ℕ → List Text → List Text
push_byte c [] = (c ∷ []) ∷ []
push_byte c (piece ∷ rest) = (c ∷ piece) ∷ rest

unfoldable pub split : ℕ → Text → List Text
split sep [] = [] ∷ []
split sep (c ∷ s) = let rest = split sep s in if c == sep then [] ∷ rest else push_byte c rest

-- strings.Join by a one-byte separator
unfoldable pub join : ℕ → List Text → Text
join sep [] = []
join sep (piece ∷ []) = piece
join sep (piece ∷ next ∷ rest) = piece ++ sep ∷ join sep (next ∷ rest)

pub to_lower_idem : (s : Text) → to_lower (to_lower s) ≡ to_lower s
unfolding to_lower
to_lower_idem [] = refl
to_lower_idem (c ∷ s) = ground (arith, to_lower_idem s)

pub text_ltb_irrefl : (s : Text) → text_ltb s s ≡ false
unfolding text_ltb
text_ltb_irrefl [] = refl
text_ltb_irrefl (c ∷ s) = ground (arith, text_ltb_irrefl s)

pub text_ltb_trans :
    (s t u : Text) → text_ltb s t ≡ true → text_ltb t u ≡ true → text_ltb s u ≡ true
unfolding text_ltb
text_ltb_trans [] [] u h k = cc
text_ltb_trans [] (d ∷ t) [] h k = cc
text_ltb_trans [] (d ∷ t) (x ∷ u) h k = refl
text_ltb_trans (c ∷ s) [] u h k = cc
text_ltb_trans (c ∷ s) (d ∷ t) [] h k = cc
text_ltb_trans (c ∷ s) (d ∷ t) (x ∷ u) h k = ground (arith, text_ltb_trans s t u)

-- Two texts are equal or one is below the other.
pub text_ltb_total : (s t : Text) → (s ≡ t) ⊎ (text_ltb s t ≡ true) ⊎ (text_ltb t s ≡ true)
unfolding text_ltb
text_ltb_total [] [] = inl refl
text_ltb_total [] (d ∷ t) = inr (inl refl)
text_ltb_total (c ∷ s) [] = inr (inr refl)
text_ltb_total (c ∷ s) (d ∷ t) = ground (arith, text_ltb_total s t)

-- Of two prefixes of one text, the lower is the shorter.
pub prefix_ltb_length :
    (s p q : Text)
    → has_prefix s p ≡ true
    → has_prefix s q ≡ true
    → text_ltb p q ≡ true
    → length p < length q
unfolding has_prefix text_ltb
prefix_ltb_length s [] [] a b h = cc
prefix_ltb_length [] [] (d ∷ q) a b h = cc
prefix_ltb_length (c ∷ s) [] (d ∷ q) a b h = omega arith
prefix_ltb_length s (d ∷ p) [] a b h = cc
prefix_ltb_length [] (d ∷ p) (x ∷ q) a b h = cc
prefix_ltb_length (c ∷ s) (d ∷ p) (x ∷ q) a b h = ground (arith, prefix_ltb_length s p q)

pub has_prefix-append : (p s : Text) → has_prefix (p ++ s) p ≡ true
unfolding has_prefix
has_prefix-append [] s = refl
has_prefix-append (c ∷ p) s = ground (arith, has_prefix-append p s)

-- What reading one more byte does to the pieces, and to their join.
pub split-ne-nil : (sep : ℕ) (s : Text) → split sep s ≢ []
unfolding split
split-ne-nil sep [] h = cc
split-ne-nil sep (c ∷ s) h = more (split sep s) h
  where
    more : (l : List Text) → (if c == sep then [] ∷ l else push_byte c l) ≢ []
    more [] k = ground arith
    more (p ∷ l) k = ground arith

join_step :
    (sep c : ℕ) (l : List Text) (s : Text)
    → l ≢ []
    → join sep l ≡ s
    → join sep (if c == sep then [] ∷ l else push_byte c l) ≡ c ∷ s
unfolding join
join_step sep c [] s ne h = absurd (ne refl)
join_step sep c (p ∷ []) s ne h = ground arith
join_step sep c (p ∷ q ∷ r) s ne h = ground arith

-- The pieces of a split text, joined, are the text.
pub join-split : (sep : ℕ) (s : Text) → join sep (split sep s) ≡ s
unfolding split
join-split sep [] = unfold join in refl
join-split sep (c ∷ s) = join_step sep c (split sep s) s (split-ne-nil sep s) (join-split sep s)

abbrev pub Lacks : ℕ → Text → Type 0
Lacks sep s = All (λ c. (c == sep) ≡ false) s

split-piece : (sep : ℕ) (p s : Text) → Lacks sep p → split sep (p ++ sep ∷ s) ≡ p ∷ split sep s
unfolding split
split-piece sep [] s l = ground arith
split-piece sep (c ∷ p) s l = rw (split-piece sep p s l.1, l.0)

split-single : (sep : ℕ) (p : Text) → Lacks sep p → split sep p ≡ p ∷ []
unfolding split
split-single sep [] l = refl
split-single sep (c ∷ p) l = rw (split-single sep p l.1, l.0)

-- Pieces without the separator are got back from their join.
pub split-join :
    (sep : ℕ) (piece : Text) (rest : List Text)
    → Lacks sep piece
    → All (Lacks sep) rest
    → split sep (join sep (piece ∷ rest)) ≡ piece ∷ rest
unfolding join
split-join sep piece [] l ls = split-single sep piece l
split-join sep piece (next ∷ rest) l ls =
    rw (split-piece sep piece (join sep (next ∷ rest)) l)
      (ap (λ (t : List Text). piece ∷ t) (split-join sep next rest ls.0 ls.1))
