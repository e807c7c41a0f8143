-- ===== src/Util/Vhost/Router/Order.antt =====
-- Lists of routers in strictly falling order of location, and what the loops find in them.
use frpcv.Prelude.{
  if◌then◌else◌, Bool-cases, Option-cases, ◌==◌, nat_eq, Text, text_beq_iff, text_eq, keep_if, All,
  ◌≡◌, refl, ◌⊎◌, inl, inr, true, false, none, some, List, [], ◌∷◌, ◌++◌, arith,
}
use frpcv.Util.Texts.{text_ltb, text_ltb_irrefl, text_ltb_trans, text_ltb_total}
use frpcv.Util.Vhost.Router.{Router, find_exact, insert_sorted, sort_routers, without_location}

module _ {A : Type 0} where
  abbrev pub Below : Router A → List (Router A) → Type 0
  Below x ys = All (λ y. text_ltb y.location x.location ≡ true) ys

  abbrev pub Falling : List (Router A) → Type 0
  Falling [] = Unit {0}
  Falling (x ∷ xs) = Below x xs × Falling xs

  pub location-find_exact :
      (l : Text) (ys : List (Router A)) (w : Router A) → find_exact l ys ≡ some w → w.location ≡ l
  unfolding find_exact
  location-find_exact l [] w h = cc
  location-find_exact l (y ∷ ys) w h =
      ground (arith, text_beq_iff l y.location, location-find_exact l ys w)

  Below-find_exact :
      (x : Router A) (l : Text) (ys : List (Router A)) (w : Router A)
      → Below x ys
      → find_exact l ys ≡ some w
      → text_ltb l x.location ≡ true
  unfolding find_exact
  Below-find_exact x l [] w b h = cc
  Below-find_exact x l (y ∷ ys) w b h =
      ground (arith, text_beq_iff l y.location, Below-find_exact x l ys w b.1)

  Below-fresh : (x : Router A) (ys : List (Router A)) → Below x ys → find_exact x.location ys ≡ none
  Below-fresh x ys b = elim (Option-cases (find_exact x.location ys)) [
    | inl e ↦ e
    | inr (w, e) ↦ cc (Below-find_exact x x.location ys w b e, text_ltb_irrefl x.location)
  ]

  find_exact-insert_sorted :
      (l : Text) (x : Router A) (ys : List (Router A))
      → find_exact x.location ys ≡ none
      → find_exact l (insert_sorted x ys) ≡ (if l == x.location then some x else find_exact l ys)
  unfolding find_exact insert_sorted
  find_exact-insert_sorted l x [] h = refl
  find_exact-insert_sorted l x (y ∷ ys) h = ground (
    arith,
    text_beq_iff l x.location,
    text_beq_iff l y.location,
    text_beq_iff x.location y.location,
    find_exact-insert_sorted l x ys,
  )

  Below-insert_sorted :
      (z x : Router A) (ys : List (Router A))
      → text_ltb x.location z.location ≡ true
      → Below z ys
      → Below z (insert_sorted x ys)
  unfolding insert_sorted
  Below-insert_sorted z x [] h b = (h, tt)
  Below-insert_sorted z x (y ∷ ys) h b = ground (arith, Below-insert_sorted z x ys h b.1)

  Below-trans :
      (z x : Router A) (ys : List (Router A))
      → text_ltb x.location z.location ≡ true
      → Below x ys
      → Below z ys
  Below-trans z x [] h b = tt
  Below-trans z x (y ∷ ys) h b =
      (text_ltb_trans y.location x.location z.location b.0 h, Below-trans z x ys h b.1)

  insert_sorted-Falling :
      (x : Router A) (ys : List (Router A))
      → Falling ys
      → find_exact x.location ys ≡ none
      → Falling (insert_sorted x ys)
  unfolding insert_sorted find_exact
  insert_sorted-Falling x [] f h = (tt, tt)
  insert_sorted-Falling x (y ∷ ys) f h = elim (Bool-cases (text_ltb y.location x.location)) [
    | inl lt ↦ rw lt ((lt, Below-trans x y ys lt f.0), f)
    | inr ge ↦ rw ge (
      Below-insert_sorted y x ys (below_head ge (text_ltb_total x.location y.location)) f.0,
      insert_sorted-Falling x ys f.1 (ground arith),
    )
  ]
    where
      below_head :
          text_ltb y.location x.location ≡ false
          → (x.location ≡ y.location)
            ⊎ (text_ltb x.location y.location ≡ true)
            ⊎ (text_ltb y.location x.location ≡ true)
          → text_ltb x.location y.location ≡ true
      below_head ge c = ground (arith, text_beq_iff x.location y.location)

  pub sort_snoc :
      (l : Text) (vr : Router A) (vrs : List (Router A))
      → Falling vrs
      → find_exact vr.location vrs ≡ none
      → find_exact l (sort_routers (vrs ++ vr ∷ []))
        ≡ (if l == vr.location then some vr else find_exact l vrs)
  unfolding find_exact sort_routers insert_sorted
  sort_snoc l vr [] f h = refl
  sort_snoc l vr (x ∷ xs) f h =
      let ne : (x.location == vr.location) ≡ false =
        ground (arith, text_beq_iff x.location vr.location, text_beq_iff vr.location x.location) in
      let tail : find_exact vr.location xs ≡ none = ground arith in
      let fresh : find_exact x.location (sort_routers (xs ++ vr ∷ [])) ≡ none =
        rw (sort_snoc x.location vr xs f.1 tail, ne) (Below-fresh x xs f.0) in
      rw
        (
          find_exact-insert_sorted l x (sort_routers (xs ++ vr ∷ [])) fresh,
          sort_snoc l vr xs f.1 tail,
        )
        (ground (
          arith,
          text_beq_iff l x.location,
          text_beq_iff l vr.location,
          text_beq_iff x.location vr.location,
        ))

  pub sort_snoc-Falling :
      (vr : Router A) (vrs : List (Router A))
      → Falling vrs
      → find_exact vr.location vrs ≡ none
      → Falling (sort_routers (vrs ++ vr ∷ []))
  unfolding find_exact sort_routers insert_sorted
  sort_snoc-Falling vr [] f h = (tt, tt)
  sort_snoc-Falling vr (x ∷ xs) f h =
      let ne : (x.location == vr.location) ≡ false =
        ground (arith, text_beq_iff x.location vr.location, text_beq_iff vr.location x.location) in
      let tail : find_exact vr.location xs ≡ none = ground arith in
      insert_sorted-Falling x _ (sort_snoc-Falling vr xs f.1 tail)
        (rw (sort_snoc x.location vr xs f.1 tail, ne) (Below-fresh x xs f.0))

  pub find_exact-without :
      (l k : Text) (vrs : List (Router A))
      → find_exact l (without_location k vrs) ≡ (if l == k then none else find_exact l vrs)
  unfolding find_exact without_location keep_if
  find_exact-without l k [] = ground arith
  find_exact-without l k (x ∷ xs) = ground (
    arith,
    text_beq_iff l x.location,
    text_beq_iff x.location k,
    text_beq_iff l k,
    find_exact-without l k xs,
  )

  Below-without :
      (x : Router A) (k : Text) (vrs : List (Router A))
      → Below x vrs
      → Below x (without_location k vrs)
  unfolding without_location keep_if
  Below-without x k [] b = tt
  Below-without x k (y ∷ ys) b = ground (arith, Below-without x k ys b.1)

  pub without-Falling :
      (k : Text) (vrs : List (Router A)) → Falling vrs → Falling (without_location k vrs)
  unfolding without_location keep_if
  without-Falling k [] f = tt
  without-Falling k (y ∷ ys) f = ground (arith, Below-without y k ys f.0, without-Falling k ys f.1)
