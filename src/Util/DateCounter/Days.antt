-- ===== src/Util/DateCounter/Days.antt =====
-- The counter implements a tally of all days, where every day has 24 hours.
use frpcv.Prelude.{
  ltb, leb, if◌then◌else◌, nat_beq_iff, Bool-cases, text_eq, nat_eq, ◌==◌, ℕ, zero, suc, ◌+◌, ◌-◌,
  ◌*◌, ◌/◌, ◌%◌, ◌^◌, ◌≤◌, ◌<◌, ◌≡◌, refl, ap, ◌∙◌, inl, inr, List, [], ◌∷◌, ◌++◌, arith,
}
use frpcv.Util.DateCounter.{DateCounter, day, zeros, first, set_head, rotate}

-- The abstract counter: the last day on which it was used, and what each day has counted.
pub record Tally : Type 0 where
  pub today : ℕ
  pub count_of : ℕ → ℕ

pub data Call : Type 0 where
  incs decs : ℕ → ℕ → Call
  reads : ℕ → Call
  clears : Call

abbrev pub set_day : (ℕ → ℕ) → ℕ → ℕ → ℕ → ℕ
set_day f d x e = if d == e then x else f e

-- A call on the abstract counter, at a day and not at a time.
unfoldable pub tally_call : Call → Tally → Tally
tally_call (incs n t) s = record {
  today = t / day;
  count_of = set_day s.count_of (t / day) ((s.count_of (t / day) + n) % 2 ^ 64);
}
tally_call (decs n t) s = record {
  today = t / day;
  count_of = set_day s.count_of (t / day) ((s.count_of (t / day) + (2 ^ 64 - n % 2 ^ 64)) % 2 ^ 64);
}
tally_call (reads t) s = record s { today = t / day }
tally_call clears s = record s { count_of = λ d. 0 }

unfoldable pub tally_run : List Call → Tally → Tally
tally_run [] s = s
tally_run (call ∷ calls) s = tally_run calls (tally_call call s)

-- The count of the i-th day before today.
abbrev pub ago : Tally → ℕ → ℕ
ago s i = if leb i s.today then s.count_of (s.today - i) else 0

unfoldable pub tabulate : (ℕ → ℕ) → ℕ → List ℕ
tabulate f zero = []
tabulate f (suc n) = f 0 ∷ tabulate (λ i. f (suc i)) n

pub tabulate_ext :
    (n : ℕ) (f g : ℕ → ℕ) → ((i : ℕ) → i < n → f i ≡ g i) → tabulate f n ≡ tabulate g n
unfolding tabulate
tabulate_ext zero f g h = refl
tabulate_ext (suc n) f g h =
    let a = h 0 (omega arith) in
    let b = tabulate_ext n (λ i. f (suc i)) (λ i. g (suc i)) (λ i l. h (suc i) (omega arith)) in cc

pub zeros-tabulate : (n : ℕ) → zeros n ≡ tabulate (λ i. 0) n
unfolding zeros tabulate
zeros-tabulate zero = refl
zeros-tabulate (suc n) = ap (λ xs. 0 ∷ xs) (zeros-tabulate n)

pub first-tabulate : (f : ℕ → ℕ) (k n : ℕ) → k ≤ n → first k (tabulate f n) ≡ tabulate f k
unfolding first tabulate
first-tabulate f zero n h = refl
first-tabulate f (suc k) zero h = absurd (omega arith)
first-tabulate f (suc k) (suc n) h =
    ap (λ xs. f 0 ∷ xs) (first-tabulate (λ i. f (suc i)) k n (omega arith))

abbrev shifted : ℕ → (ℕ → ℕ) → ℕ → ℕ
shifted k f i = if ltb i k then 0 else f (i - k)

zeros-append :
    (k m n : ℕ) (f : ℕ → ℕ) → k + m ≡ n → zeros k ++ tabulate f m ≡ tabulate (shifted k f) n
unfolding zeros tabulate
zeros-append zero m n f e =
    let same : m ≡ n = omega arith in
    ap (tabulate f) same ∙ tabulate_ext n f (shifted 0 f) (λ i l. ground arith)
zeros-append (suc k) m zero f e = absurd (omega arith)
zeros-append (suc k) m (suc n) f e =
    let tail =
      zeros-append k m n f (omega arith)
      ∙ tabulate_ext n (shifted k f) (λ i. shifted (suc k) f (suc i)) (λ i l. ground arith) in
    let head : 0 ≡ shifted (suc k) f 0 = ground arith in cc

-- What the list holds is what the tally has for the last days, and nothing is counted for a later day.
pub record Represents (c : DateCounter) (s : Tally) : Type 0 where
  pub updated : c.last_update_date ≡ s.today * day
  pub positive : 0 < c.reserve_days
  pub holds : c.counts ≡ tabulate (ago s) c.reserve_days
  pub no_later : (d : ℕ) → s.today < d → s.count_of d ≡ 0

-- Every day starts 24 hours after the one before.
abbrev pub RegularDays : (ℕ → ℕ) → Type 0
RegularDays midnight = (t : ℕ) → midnight t ≡ t / day * day

abbrev pub at_day : Tally → ℕ → Tally
at_day s d = record s { today = d }

days_lem : (a b : ℕ) → (a * day - b * day) / day ≡ a - b
days_lem a b = omega arith

ago-at_day :
    (s : Tally) (d i : ℕ)
    → ((e : ℕ) → s.today < e → s.count_of e ≡ 0)
    → s.today ≤ d
    → shifted (d - s.today) (ago s) i ≡ ago (at_day s d) i
ago-at_day s d i no_later h = elim (Bool-cases (ltb i (d - s.today))) [
  | inl y ↦ ground (arith, no_later (d - i) (ground arith))
  | inr n ↦
      let same : s.today - (i - (d - s.today)) ≡ d - i = ground arith in
      let counted = ap s.count_of same in ground (arith, counted)
]

module _ (midnight : ℕ → ℕ) (regular : RegularDays midnight) where
  moved-Represents :
      (c : DateCounter) (s : Tally) (t : ℕ) (counts : List ℕ)
      → Represents c s
      → s.today ≤ t / day
      → counts ≡ tabulate (ago (at_day s (t / day))) c.reserve_days
      → Represents
          (record c { counts = counts; last_update_date = midnight t })
          (at_day s (t / day))
  moved-Represents c s t counts r later holds = record {
    updated = regular t;
    positive = r.positive;
    holds = holds;
    no_later = λ d l. r.no_later d (omega arith);
  }

  pub rotate-Represents :
      (c : DateCounter) (s : Tally) (t : ℕ)
      → Represents c s
      → s.today ≤ t / day
      → Represents (rotate midnight c t) (at_day s (t / day))
  unfolding rotate
  rotate-Represents c s t r later =
      let days = t / day - s.today in
      let e : (midnight t - c.last_update_date) / day ≡ days =
        ap (λ (m : ℕ). (m - c.last_update_date) / day) (regular t)
        ∙ ap (λ (m : ℕ). (t / day * day - m) / day) r.updated
        ∙ days_lem (t / day) s.today in
      elim (Bool-cases (leb days 0)) [
        | inl y ↦
            rw (e, y, rotate)
              (moved-Represents c s t c.counts r later (
                r.holds
                ∙ tabulate_ext c.reserve_days (ago s) (ago (at_day s (t / day))) (λ i l.
                  let u = ago-at_day s (t / day) i r.no_later later in ground (arith, u))))
        | inr n ↦ elim (Bool-cases (leb c.reserve_days days)) [
          | inl y ↦
              rw (e, n, y, rotate)
                (moved-Represents c s t (zeros c.reserve_days) r later (
                  zeros-tabulate c.reserve_days
                  ∙ tabulate_ext c.reserve_days (λ i. 0) (ago (at_day s (t / day)))
                      (λ i l.
                        let u = ago-at_day s (t / day) i r.no_later later in ground (arith, u))))
          | inr l ↦
              rw (e, n, l, rotate)
                (moved-Represents c s t _ r later (
                  ap (λ xs. zeros days ++ first (c.reserve_days - days) xs) r.holds
                  ∙ ap (λ xs. zeros days ++ xs)
                      (first-tabulate (ago s) (c.reserve_days - days) c.reserve_days (omega arith))
                  ∙ zeros-append days (c.reserve_days - days) c.reserve_days (ago s) (ground arith)
                  ∙ tabulate_ext c.reserve_days (shifted days (ago s)) (ago (at_day s (t / day)))
                      (λ i l. ago-at_day s (t / day) i r.no_later later)))
        ]
      ]

set_head-tabulate :
    (f g h : ℕ → ℕ) (n : ℕ)
    → f (g 0) ≡ h 0
    → ((i : ℕ) → g (suc i) ≡ h (suc i))
    → set_head f (tabulate g n) ≡ tabulate h n
unfolding set_head tabulate
set_head-tabulate f g h zero e later = refl
set_head-tabulate f g h (suc n) e later =
    let tail = tabulate_ext n (λ i. g (suc i)) (λ i. h (suc i)) (λ i l. later i) in cc

-- A counter changed at the head stands for the tally changed at its last day.
pub change-Represents :
    (c : DateCounter) (s : Tally) (f : ℕ → ℕ)
    → Represents c s
    → Represents
        (record c { counts = set_head f c.counts })
        (record s { count_of = set_day s.count_of s.today (f (s.count_of s.today)) })
change-Represents c s f r = record {
  updated = r.updated;
  positive = r.positive;
  holds =
      ap (set_head f) r.holds
      ∙ set_head-tabulate f (ago s) _ c.reserve_days
          (let same : s.today - 0 ≡ s.today = omega arith in
            let counted = ap s.count_of same in
            let made = ap f counted in
            ground (arith, counted, made, nat_beq_iff s.today (s.today - 0)))
          (λ i. ground (arith, nat_beq_iff s.today (s.today - suc i)));
  no_later = λ d l. ground (arith, r.no_later d l);
}
