-- ===== src/Util/Transporter/Lanes.antt =====
-- A message reaches the call that waits for it.
use frpcv.Prelude.{
  if◌then◌else◌, Bool-cases, Text, text_beq_iff, text_eq, nat_eq, ◌==◌, eq_refl, eq_false, Map,
  is_some, put, ℕ, ◌<◌, ◌≡◌, refl, sym, ap, ◌∙◌, subst, ◌≢◌, inl, inr, true, false, ◌&&◌, Option,
  none, some, List, [], ◌∷◌, arith,
}
use frpcv.Util.Transporter.{
  Channel, Transporter, delivered, lanes_in, lanes_of, register_msg_chan, dispatch_to,
  dispatch_with_type, begin_do, end_do,
}

unfoldable pub IsFresh : Transporter → Type 0
IsFresh t = (ty lane : Text) (ch : ℕ) → lanes_of t ty lane ≡ some ch → ch < t.next

pub record Waits (t : Transporter) (ch : ℕ) (lane ty : Text) : Type 0 where
  pub registered : lanes_of t ty lane ≡ some ch
  pub alone :
      (lane' ty' : Text) → lanes_of t ty' lane' ≡ some ch → (ty == ty') && (lane == lane') ≡ true
  pub empty : (t.channels ch).buffer ≡ none
  pub opened : (t.channels ch).closed ≡ false

lanes_of-register_msg_chan :
    (t : Transporter) (lane ty lane' ty' : Text)
    → lanes_of (register_msg_chan t lane ty).0 ty' lane'
      ≡ (if (ty == ty') && (lane == lane') then some t.next else lanes_of t ty' lane')
unfolding register_msg_chan
lanes_of-register_msg_chan t lane ty lane' ty' = elim (Bool-cases (ty == ty')) [
  | inl same ↦
      let equal = (text_beq_iff ty ty').0 same in
      subst
        (λ x.
          lanes_in (if x == ty' then some (put lane t.next (lanes_of t x)) else t.registry ty')
            lane'
          ≡ (if (x == ty') && (lane == lane') then some t.next else lanes_of t ty' lane'))
        (sym equal) (rw (eq_refl ty') refl)
  | inr other ↦ rw (other) refl
]

register_msg_chan-Waits :
    (t : Transporter) (lane ty : Text)
    → IsFresh t
    → Waits (register_msg_chan t lane ty).0 t.next lane ty
unfolding IsFresh register_msg_chan
register_msg_chan-Waits t lane ty fresh = record {
  registered = lanes_of-register_msg_chan t lane ty lane ty ∙ rw (eq_refl ty, eq_refl lane) refl;
  alone = λ lane' ty' e. elim (Bool-cases ((ty == ty') && (lane == lane'))) [
    | inl same ↦ same
    | inr other ↦
        let found = sym (lanes_of-register_msg_chan t lane ty lane' ty') ∙ e in
        let old : lanes_of t ty' lane' ≡ some t.next = (let seen = rw (other) at found in seen) in
        let below = fresh ty' lane' t.next old in absurd (omega arith)
  ];
  empty = rw (eq_refl t.next) refl;
  opened = rw (eq_refl t.next) refl;
}

dispatch_to-registry :
    (t : Transporter) (m : Text) (o : Option ℕ) → (dispatch_to t m o).0.registry ≡ t.registry
unfolding dispatch_to
dispatch_to-registry t m none = refl
dispatch_to-registry t m (some ch) = elim (Bool-cases (t.channels ch).closed) [
  | inl closed ↦ rw (closed) refl
  | inr opened ↦ elim (Bool-cases (is_some (t.channels ch).buffer)) [
    | inl full ↦ rw (opened, full) refl
    | inr empty ↦ rw (opened, empty) refl
  ]
]

dispatch_to-channels :
    (t : Transporter) (m : Text) (o : Option ℕ) (ch : ℕ)
    → o ≢ some ch
    → (dispatch_to t m o).0.channels ch ≡ t.channels ch
unfolding dispatch_to
dispatch_to-channels t m none ch apart = refl
dispatch_to-channels t m (some i) ch apart =
    let other : (i == ch) ≡ false = eq_false i ch (λ e. apart (ap some e)) in
    elim (Bool-cases (t.channels i).closed) [
      | inl closed ↦ rw (closed) refl
      | inr opened ↦ elim (Bool-cases (is_some (t.channels i).buffer)) [
        | inl full ↦ rw (opened, full) refl
        | inr empty ↦ rw (opened, empty, other) refl
      ]
    ]

dispatch_with_type-Waits :
    (t : Transporter) (ch : ℕ) (lane ty m lane' ty' : Text)
    → Waits t ch lane ty
    → ((ty == ty') && (lane == lane')) ≡ false
    → Waits (dispatch_with_type t m ty' lane').0 ch lane ty
unfolding dispatch_with_type
dispatch_with_type-Waits t ch lane ty m lane' ty' w apart =
    let o = lanes_of t ty' lane' in
    let kept = dispatch_to-registry t m o in
    let same = dispatch_to-channels t m o ch (λ e. let found = w.alone lane' ty' e in absurd cc) in
    record {
      registered = ap (λ (r : Map Text (Map Text ℕ)). lanes_in (r ty) lane) kept ∙ w.registered;
      alone = λ lane'' ty'' e.
          w.alone lane'' ty''
            (ap (λ (r : Map Text (Map Text ℕ)). lanes_in (r ty'') lane'') (sym kept) ∙ e);
      empty = ap (λ (c : Channel). c.buffer) same ∙ w.empty;
      opened = ap (λ (c : Channel). c.closed) same ∙ w.opened;
    }

-- Other messages: each has a type and a lane.
unfoldable pub dispatch_all : Transporter → List (Text × (Text × Text)) → Transporter
dispatch_all t [] = t
dispatch_all t ((m, (ty, lane)) ∷ ms) = dispatch_all (dispatch_with_type t m ty lane).0 ms

unfoldable pub AllApart : Text → Text → List (Text × (Text × Text)) → Type 0
AllApart ty lane [] = Unit
AllApart ty lane ((m, (ty', lane')) ∷ ms) =
    (((ty == ty') && (lane == lane')) ≡ false) × AllApart ty lane ms

dispatch_all-Waits :
    (t : Transporter) (ch : ℕ) (lane ty : Text) (ms : List (Text × (Text × Text)))
    → Waits t ch lane ty
    → AllApart ty lane ms
    → Waits (dispatch_all t ms) ch lane ty
unfolding dispatch_all AllApart
dispatch_all-Waits t ch lane ty [] w apart = w
dispatch_all-Waits t ch lane ty ((m, (ty', lane')) ∷ ms) w (first, rest) =
    dispatch_all-Waits (dispatch_with_type t m ty' lane').0 ch lane ty ms
      (dispatch_with_type-Waits t ch lane ty m lane' ty' w first) rest

delivered_to :
    (t : Transporter) (ch : ℕ) (lane ty m : Text)
    → Waits t ch lane ty
    → ((dispatch_with_type t m ty lane).1 ≡ delivered)
      × ((end_do (dispatch_with_type t m ty lane).0 false ch lane ty).1 ≡ some m)
unfolding dispatch_with_type dispatch_to end_do
delivered_to t ch lane ty m w =
    let found : lanes_in (t.registry ty) lane ≡ some ch = w.registered in
    (
      rw (found, dispatch_to, w.opened, w.empty) refl,
      rw (found, dispatch_to, w.opened, w.empty) (rw (eq_refl ch) refl),
    )

-- A request whose message is sent gets the answer that comes for its type and its lane, whatever messages
-- come before for another type or another lane. The channels in use are older than the next one.
pub begin_do_answered :
    (t : Transporter) (lane ty m : Text) (ms : List (Text × (Text × Text)))
    → IsFresh t
    → AllApart ty lane ms
    → let t' = dispatch_all (begin_do t true lane ty).0 ms in
      let (after, result) = dispatch_with_type t' m ty lane in
      (result ≡ delivered) × ((end_do after false t.next lane ty).1 ≡ some m)
unfolding begin_do
begin_do_answered t lane ty m ms fresh apart =
    let began = (register_msg_chan t lane ty).0 in
    delivered_to (dispatch_all began ms) t.next lane ty m
      (dispatch_all-Waits began t.next lane ty ms (register_msg_chan-Waits t lane ty fresh) apart)

-- A new request leaves the channels in use older than the next one.
begin_do-IsFresh :
    (t : Transporter) (lane ty : Text) → IsFresh t → IsFresh (begin_do t true lane ty).0
unfolding begin_do IsFresh register_msg_chan
begin_do-IsFresh t lane ty fresh ty' lane' ch e =
    elim (Bool-cases ((ty == ty') && (lane == lane'))) [
      | inl same ↦
          let found = sym (lanes_of-register_msg_chan t lane ty lane' ty') ∙ e in
          let own : some t.next ≡ some ch = (let seen = rw (same) at found in seen) in
          let equal : t.next ≡ ch = cc in omega arith
      | inr other ↦
          let found = sym (lanes_of-register_msg_chan t lane ty lane' ty') ∙ e in
          let old : lanes_of t ty' lane' ≡ some ch = (let seen = rw (other) at found in seen) in
          let below = fresh ty' lane' ch old in omega arith
    ]
