-- ===== src/Server/WorkConns/Fifo.antt =====
-- Where the connections are that a pool has taken.
use frpcv.Prelude.{
  ltb, if◌then◌else◌, Bool-cases, text_eq, nat_eq, length, length-append, ℕ, ◌≤◌, ◌≡◌, refl, sym,
  ap, ◌∙◌, subst, inl, inr, Bool, true, false, List, [], ◌∷◌, ◌++◌, arith,
}
use frpcv.Server.WorkConns.{
  WorkConns, GetResult, conn, ctl_closed, send_failed, timed_out, waits, start, register_work_conn,
  request, take_conn, get_work_conn, wait_work_conn, close_work_conns,
}

pub data Event : Type 0 where
  registers : ℕ → Event
  gets : Bool → Event
  waits_on : Bool → Bool → Event
  closes : Event

-- The pool, the connections that it answered without an error, and those it gave out.
pub record History : Type 0 where
  pub pool : WorkConns
  pub answered : List ℕ
  pub given : List ℕ

abbrev pub began : ℕ → ℕ → History
began wanted max_pool_count = record {
  pool = start wanted max_pool_count;
  answered = [];
  given = [];
}

unfoldable gave : History → WorkConns × GetResult → History
gave h (w, conn c) = record h { pool = w; given = h.given ++ c ∷ [] }
gave h (w, ctl_closed) = record h { pool = w }
gave h (w, send_failed) = record h { pool = w }
gave h (w, timed_out) = record h { pool = w }
gave h (w, waits) = record h { pool = w }

unfoldable happen : History → Event → History
unfolding gave
happen h (registers c) =
    let (w, fine) = register_work_conn h.pool c in
    record h { pool = w; answered = if fine then h.answered ++ c ∷ [] else h.answered }
happen h (gets sends) = gave h (get_work_conn sends h.pool)
happen h (waits_on sends is_over) = gave h (wait_work_conn sends is_over h.pool)
happen h closes = record h { pool = close_work_conns h.pool }

unfoldable pub run : History → List Event → History
unfolding happen
run h [] = h
run h (e ∷ es) = run (happen h e) es

unfoldable pub Kept : History → Type 0
Kept h =
    (length h.pool.conns ≤ h.pool.capacity)
    × (h.pool.closed ≡ false → h.answered ≡ h.given ++ h.pool.conns)

append-append : (xs ys zs : List ℕ) → (xs ++ ys) ++ zs ≡ xs ++ (ys ++ zs)
append-append [] ys zs = refl
append-append (x ∷ xs) ys zs = ap (x ∷◌) (append-append xs ys zs)

request-capacity : (s : Bool) (w : WorkConns) → (request s w).capacity ≡ w.capacity
unfolding request
request-capacity true w = refl
request-capacity false w = refl

request-conns : (s : Bool) (w : WorkConns) → (request s w).conns ≡ w.conns
unfolding request
request-conns true w = refl
request-conns false w = refl

request-closed : (s : Bool) (w : WorkConns) → (request s w).closed ≡ w.closed
unfolding request
request-closed true w = refl
request-closed false w = refl

take_conn-Kept :
    (sends : Bool) (h : History) (cs : List ℕ) (o : WorkConns × GetResult)
    → h.pool.conns ≡ cs
    → Kept h
    → Kept (gave h o)
    → Kept (gave h (take_conn sends h.pool cs o))
unfolding take_conn gave Kept
take_conn-Kept sends h [] o e k other = elim (Bool-cases h.pool.closed) [
  | inl closed ↦ rw (closed) (k.0, λ opened. absurd cc)
  | inr opened ↦ rw (opened) other
]
take_conn-Kept sends h (c ∷ cs) o e k other =
    let rest = record h.pool { conns = cs } in
    let same = request-conns sends rest in
    let smaller : length cs ≤ h.pool.capacity =
      (let all = subst (λ xs. length xs ≤ h.pool.capacity) e k.0 in omega (arith, all)) in
    (
      rw (same, request-capacity sends rest) smaller,
      λ opened.
          let was_opened = sym (request-closed sends rest) ∙ opened in
          rw (same) (k.1 was_opened ∙ ap (h.given ++◌) e ∙ sym (append-append h.given (c ∷ []) cs)),
    )

get_work_conn-Kept :
    (sends : Bool) (h : History) → Kept h → Kept (gave h (get_work_conn sends h.pool))
unfolding get_work_conn Kept gave request
get_work_conn-Kept true h k = take_conn-Kept true h h.pool.conns _ refl k k
get_work_conn-Kept false h k = take_conn-Kept false h h.pool.conns _ refl k k

wait_work_conn-Kept :
    (sends is_over : Bool) (h : History)
    → Kept h
    → Kept (gave h (wait_work_conn sends is_over h.pool))
unfolding wait_work_conn Kept gave
wait_work_conn-Kept sends true h k = k
wait_work_conn-Kept sends false h k = take_conn-Kept sends h h.pool.conns _ refl k k

register_work_conn-Kept : (h : History) (c : ℕ) → Kept h → Kept (happen h (registers c))
unfolding happen register_work_conn Kept
register_work_conn-Kept h c k = elim (Bool-cases h.pool.closed) [
  | inl closed ↦ rw (closed) (k.0, λ opened. absurd cc)
  | inr opened ↦ elim (Bool-cases (ltb (length h.pool.conns) h.pool.capacity)) [
    | inl room ↦
        let one = length-append h.pool.conns (c ∷ []) in
        let fits : length (h.pool.conns ++ c ∷ []) ≤ h.pool.capacity = ground arith in
        rw (opened, room)
          (fits, λ still. rw (k.1 opened) (append-append h.given h.pool.conns (c ∷ [])))
    | inr full ↦ rw (opened, full) (k.0, λ still. k.1 opened)
  ]
]

happen-Kept : (h : History) (e : Event) → Kept h → Kept (happen h e)
unfolding happen gave Kept close_work_conns
happen-Kept h (registers c) k = register_work_conn-Kept h c k
happen-Kept h (gets sends) k = get_work_conn-Kept sends h k
happen-Kept h (waits_on sends is_over) k = wait_work_conn-Kept sends is_over h k
happen-Kept h closes k = (k.0, λ opened. absurd cc)

run-Kept_from : (h : History) (es : List Event) → Kept h → Kept (run h es)
unfolding run
run-Kept_from h [] k = k
run-Kept_from h (e ∷ es) k = run-Kept_from (happen h e) es (happen-Kept h e k)

-- After any calls, the pool holds no more connections than it has room for; and while the control is open,
-- the connections that were registered without an error are those that were given out, followed by those
-- that the pool holds, in the order in which they came.
pub run-Kept :
    (wanted max_pool_count : ℕ) (es : List Event)
    → let h = run (began wanted max_pool_count) es in
      (length h.pool.conns ≤ h.pool.capacity)
      × (h.pool.closed ≡ false → h.answered ≡ h.given ++ h.pool.conns)
unfolding Kept
run-Kept wanted max_pool_count es =
    run-Kept_from (began wanted max_pool_count) es (omega arith, λ opened. refl)

-- The connections that come, in their order.
unfoldable pub arrivals : List Event → List ℕ
arrivals [] = []
arrivals (registers c ∷ es) = c ∷ arrivals es
arrivals (gets sends ∷ es) = arrivals es
arrivals (waits_on sends is_over ∷ es) = arrivals es
arrivals (closes ∷ es) = arrivals es

append-nil : (xs : List ℕ) → xs ++ [] ≡ xs
append-nil [] = refl
append-nil (x ∷ xs) = ap (x ∷◌) (append-nil xs)

abbrev answering : History → List ℕ → History
answering h cs = record h { answered = h.answered ++ cs }

take_over :
    (h : History) (cs : List ℕ) (sends : Bool) (o : WorkConns × GetResult)
    → h.pool.closed ≡ true
    → cs ≡ []
    → gave h (take_conn sends h.pool cs o) ≡ h
unfolding take_conn gave
take_over h [] sends o closed empty = rw (closed) refl
take_over h (c ∷ cs) sends o closed empty = absurd (let none_left : c ∷ cs ≡ [] = empty in cc)

gets_over :
    (h : History) (sends : Bool)
    → h.pool.closed ≡ true
    → h.pool.conns ≡ []
    → happen h (gets sends) ≡ h
unfolding happen get_work_conn
gets_over h sends closed empty = take_over h h.pool.conns sends _ closed empty

waits_over :
    (h : History) (sends is_over : Bool)
    → h.pool.closed ≡ true
    → h.pool.conns ≡ []
    → happen h (waits_on sends is_over) ≡ h
unfolding happen wait_work_conn gave
waits_over h sends true closed empty = refl
waits_over h sends false closed empty = take_over h h.pool.conns sends _ closed empty

registers_over :
    (h : History) (c : ℕ) → h.pool.closed ≡ true → happen h (registers c) ≡ answering h (c ∷ [])
unfolding happen register_work_conn
registers_over h c closed = rw (closed) refl

closes_over : (h : History) → h.pool.closed ≡ true → happen h closes ≡ h
unfolding happen close_work_conns
closes_over h closed = rw (closed) refl

-- After a control has ended and its pool has been emptied, whatever calls come: the pool stays as it is and no
-- connection is given out, while every connection that comes is registered without an error, so that its
-- caller does not close it either.
pub late_conns_lost :
    (h : History) (es : List Event)
    → h.pool.closed ≡ true
    → h.pool.conns ≡ []
    → run h es ≡ record h { answered = h.answered ++ arrivals es }
unfolding run arrivals
late_conns_lost h [] closed empty = rw (append-nil h.answered) refl
late_conns_lost h (registers c ∷ es) closed empty =
    ap (λ g. run g es) (registers_over h c closed)
    ∙ late_conns_lost (answering h (c ∷ [])) es closed empty
    ∙ ap (λ (cs : List ℕ). record h { answered = cs })
        (append-append h.answered (c ∷ []) (arrivals es))
late_conns_lost h (gets sends ∷ es) closed empty =
    ap (λ g. run g es) (gets_over h sends closed empty) ∙ late_conns_lost h es closed empty
late_conns_lost h (waits_on sends is_over ∷ es) closed empty =
    ap (λ g. run g es) (waits_over h sends is_over closed empty) ∙ late_conns_lost h es closed empty
late_conns_lost h (closes ∷ es) closed empty =
    ap (λ g. run g es) (closes_over h closed) ∙ late_conns_lost h es closed empty
