-- ===== src/OrderBook/Admission.antt =====
-- crates/orderbook/src/native.rs: which orders `place` takes, what it says of the others, and what
-- `cancel` removes.
use inference_bazaar.Base.{
  ◌≡◌, ◌≢◌, ◌↔◌, refl, sym, ◌∙◌, inl, inr, true, false, arith, Bool-cases, eq_iff, ok, err, panic,
  Result, Result-cases,
}
use inference_bazaar.Base.Int.{pos, ◌<ℤ◌, ◌≤ℤ◌, rem_i64, ltb_ℤ}
use inference_bazaar.OrderBook.Types.{
  Side, Order, PlaceOutcome, MatchError, wrong_instrument, invalid_price, off_tick, below_min_qty,
  duplicate_id,
}
use inference_bazaar.OrderBook.Native.{NativeBook, id_exists, validate}
use inference_bazaar.OrderBook.Engine.{Matching, settle, settle_on, matched, place_unique, place}

pub record IsAdmissible (b : NativeBook) (o : Order) : Type 0 where
  pub instrument : o.instrument_id ≡ b.instrument_id
  pub price_positive : pos 0 <ℤ o.price
  pub tick_nonzero : b.tick_size ≢ pos 0
  pub on_tick : rem_i64 o.price b.tick_size ≡ pos 0
  pub enough : b.min_qty ≤ℤ o.qty
  pub fresh : id_exists b o.id ≡ false

-- What each error says about the order and the book.
abbrev pub Blames : NativeBook → Order → MatchError → Type 0
Blames b o (wrong_instrument expected got) =
    (expected ≡ b.instrument_id) × (got ≡ o.instrument_id) × (got ≢ expected)
Blames b o (invalid_price p) = (p ≡ o.price) × (p ≤ℤ pos 0)
Blames b o (off_tick p t) = (p ≡ o.price) × (t ≡ b.tick_size) × (rem_i64 p t ≢ pos 0)
Blames b o (below_min_qty q m) = (q ≡ o.qty) × (m ≡ b.min_qty) × (q <ℤ m)
Blames b o (duplicate_id id) = (id ≡ o.id) × (id_exists b id ≡ true)

validate-Blames :
    (b : NativeBook) (o : Order) (e : MatchError) → validate b o ≡ err e → Blames b o e
unfolding validate
validate-Blames b o (wrong_instrument x y) h =
    ground (arith, eq_iff o.instrument_id b.instrument_id)
validate-Blames b o (invalid_price p) h = ground (arith, eq_iff o.instrument_id b.instrument_id)
validate-Blames b o (off_tick p t) h = ground (arith, eq_iff o.instrument_id b.instrument_id)
validate-Blames b o (below_min_qty q m) h = ground (arith, eq_iff o.instrument_id b.instrument_id)
validate-Blames b o (duplicate_id id) h = ground (arith, eq_iff o.instrument_id b.instrument_id)

validate_iff :
    (b : NativeBook) (o : Order)
    → (validate b o ≡ ok tt) ↔ (
        (o.instrument_id ≡ b.instrument_id)
        × (pos 0 <ℤ o.price)
        × (b.tick_size ≢ pos 0)
        × (rem_i64 o.price b.tick_size ≡ pos 0)
        × (b.min_qty ≤ℤ o.qty))
unfolding validate
validate_iff b o = (
  (λ h. ground (arith, eq_iff o.instrument_id b.instrument_id)),
  λ h. ground (arith, eq_iff o.instrument_id b.instrument_id),
)

validate-panic : (b : NativeBook) (o : Order) → validate b o ≡ panic → b.tick_size ≡ pos 0
unfolding validate
validate-panic b o h = ground (arith, eq_iff o.instrument_id b.instrument_id)

-- What a reply of `place` tells.
abbrev pub Answers : NativeBook → Order → NativeBook × Result MatchError PlaceOutcome → Type 0
Answers b o (b', ok out) = IsAdmissible b o
Answers b o (b', err e) = (b' ≡ b) × Blames b o e
Answers b o (b', panic) = (b' ≡ b) × (b.tick_size ≡ pos 0)

settle_on-Answers :
    (side : Side) (b : NativeBook) (o : Order) (s : Matching)
    → IsAdmissible b o
    → Answers b o (settle_on side b s)
unfolding settle_on
settle_on-Answers side b o s a = elim (Bool-cases (ltb_ℤ (pos 0) s.taker.qty)) [
  | inl q ↦ rw q a
  | inr q ↦ rw q a
]

place_unique-Answers :
    (b : NativeBook) (o : Order) → validate b o ≡ ok tt → Answers b o (place_unique b o)
unfolding place_unique settle
place_unique-Answers b o h = elim (Bool-cases (id_exists b o.id)) [
  | inl e ↦ rw e (refl, (refl, e))
  | inr e ↦
      let v = (validate_iff b o).0 h in
      rw e (
        settle_on-Answers (matched b o).taker.side b o (matched b o) (record {
          instrument = v.0;
          price_positive = v.1;
          tick_nonzero = v.2;
          on_tick = v.3;
          enough = v.4;
          fresh = e;
        }))
]

-- `place` takes admissible orders only; a refusal leaves the book as it was and names a check that
-- the order fails; and it panics, with the book as it was, at a tick size of zero only.
pub place-Answers : (b : NativeBook) (o : Order) → Answers b o (place b o)
unfolding place
place-Answers b o = elim (Result-cases (validate b o)) [
  | inl (_, v) ↦ rw (v, place) (place_unique-Answers b o v)
  | inr (inl (e, v)) ↦ rw (v, place) (refl, validate-Blames b o e v)
  | inr (inr v) ↦ rw (v, place) (refl, validate-panic b o v)
]

taken :
    (b : NativeBook) (o : Order) (r : Result MatchError PlaceOutcome)
    → IsAdmissible b o
    → Answers b o (b, r)
    → (out : PlaceOutcome) × (r ≡ ok out)
taken b o (ok out) a h = (out, refl)
taken b o (err (wrong_instrument x y)) a h = absurd (h.1.2 (h.1.1 ∙ a.instrument ∙ sym h.1.0))
taken b o (err (invalid_price p)) a h = let p' = a.price_positive in ground arith
taken b o (err (off_tick p t)) a h = absurd (h.1.2 (rw (h.1.0, h.1.1) a.on_tick))
taken b o (err (below_min_qty q m)) a h = let p' = a.enough in ground arith
taken b o (err (duplicate_id id)) a h = cc (h.1.0, h.1.1, a.fresh)
taken b o panic a h = absurd (a.tick_nonzero h.1)

Answers-same :
    (b : NativeBook) (o : Order) (r : NativeBook × Result MatchError PlaceOutcome)
    → Answers b o r
    → Answers b o (b, r.1)
Answers-same b o (b', ok out) h = h
Answers-same b o (b', err e) h = (refl, h.1)
Answers-same b o (b', panic) h = (refl, h.1)

-- Every admissible order is taken.
pub IsAdmissible-placed :
    (b : NativeBook) (o : Order)
    → IsAdmissible b o
    → (out : PlaceOutcome) × ((place b o).1 ≡ ok out)
IsAdmissible-placed b o a =
    taken b o (place b o).1 a (Answers-same b o (place b o) (place-Answers b o))
