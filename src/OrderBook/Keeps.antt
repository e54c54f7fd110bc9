-- ===== src/OrderBook/Keeps.antt =====
-- crates/orderbook/src/native.rs: that `place` and `cancel` keep the book well-formed.
use inference_bazaar.Base.{
  ◌≡◌, ◌≢◌, refl, sym, ap, subst, ◌∙◌, Result-cases, All-split, inl, inr, true, false, ◌++◌, String,
  arith, All, All-map, Bool-cases, none,
}
use inference_bazaar.Base.Int.{pos, InI64, ◌<ℤ◌, ltb_ℤ}
use inference_bazaar.OrderBook.Types.{Side, buy, sell, opposite, Order}
use inference_bazaar.OrderBook.Native.{NativeBook, insert_on, remove, id_exists, side_of, validate}
use inference_bazaar.OrderBook.Engine.{
  Matching, crosses, round, start, matched, settle, settle_on, place_unique, place, cancel,
}
use inference_bazaar.OrderBook.Sorted.{All-insert_into, All-remove, IsSorted}
use inference_bazaar.OrderBook.Loop.{match_loop_inv, match_loop_ends}
use inference_bazaar.OrderBook.Side.{IsQty, IsSide-insert_into, IsSide-remove}
use inference_bazaar.OrderBook.Invariant.{
  Apart, IsBook, All-zip, any_fresh, validate-ok, IsBook-side, IsBook-apart, IsBook-of_sides,
  closed, closed_parts, insert_on_parts,
}
use inference_bazaar.OrderBook.LoopKeeps.{LoopInv, Round-LoopInv, loop_end_uncrossed}

module _ (b : NativeBook) (o : Order) (s : Matching) (book : IsBook b)
    (inv : LoopInv o (side_of o.side b) s) where
  side_eq : s.taker.side ≡ o.side
  side_eq = ap (λ (t : Order). t.side) inv.taker

  price_eq : s.taker.price ≡ o.price
  price_eq = ap (λ (t : Order). t.price) inv.taker

  id_eq : s.taker.id ≡ o.id
  id_eq = ap (λ (t : Order). t.id) inv.taker

  closed-IsBook : IsBook (closed o.side b s)
  closed-IsBook =
      let e = closed_parts o.side b s in
      IsBook-of_sides o.side (closed o.side b s) (rw e.2 book.min_positive)
        (rw e.0 (IsBook-side o.side b book)) (rw e.1 inv.makers) (rw (e.0, e.1) inv.apart)

  -- The remainder may rest: it is on its side, and apart from the makers.
  remainder-Apart :
      ltb_ℤ (pos 0) s.taker.qty ≡ true
      → round b.instrument_id s ≡ none
      → All (Apart o.side s.taker) s.makers
  remainder-Apart q r =
      All-zip (λ (m : Order). crosses o.side m.price s.taker.price ≡ false)
        (λ (m : Order). m.id ≢ o.id) (Apart o.side s.taker) s.makers
        (λ m c f. (c, λ p. f (p ∙ id_eq)))
        (subst (λ sd. All (λ (m : Order). crosses sd m.price s.taker.price ≡ false) s.makers)
          side_eq
          (loop_end_uncrossed b.instrument_id s
            (subst (λ sd. IsSorted (opposite sd) s.makers) (sym side_eq) inv.makers.sorted) q r))
        inv.fresh

  settle_on-IsBook :
      pos 0 <ℤ o.price
      → All (λ (y : Order). y.id ≢ o.id) (side_of o.side b)
      → round b.instrument_id s ≡ none
      → IsBook (settle_on o.side b s).0
  unfolding settle_on
  settle_on-IsBook p f r = elim (Bool-cases (ltb_ℤ (pos 0) s.taker.qty)) [
    | inr q ↦ rw q closed-IsBook
    | inl q ↦ rw q (
        let e = insert_on_parts o.side s.taker (closed o.side b s) in
        let c = closed_parts o.side b s in
        IsBook-of_sides o.side (insert_on o.side s.taker (closed o.side b s))
          (rw (e.2, c.2) book.min_positive)
          (rw (e.0, c.0)
            (IsSide-insert_into o.side s.taker (side_of o.side b)
              (record {
                on_side = side_eq;
                price_positive = rw price_eq p;
                qty_positive = ground arith;
                qty_range = inv.qty.1;
              })
              (rw id_eq f) (IsBook-side o.side b book)))
          (rw (e.1, c.1) inv.makers)
          (rw (e.0, e.1, c.0, c.1)
            (All-insert_into (λ x. All (Apart o.side x) s.makers) o.side s.taker (side_of o.side b)
              (remainder-Apart q r) inv.apart)))
  ]

  pub settle-IsBook :
      pos 0 <ℤ o.price
      → All (λ (y : Order). y.id ≢ o.id) (side_of o.side b)
      → round b.instrument_id s ≡ none
      → IsBook (settle b s).0
  unfolding settle
  settle-IsBook p f r =
      subst (λ sd. IsBook (settle_on sd b s).0) (sym side_eq) (settle_on-IsBook p f r)

id_exists-fresh :
    (s : Side) (b : NativeBook) (id : String)
    → id_exists b id ≡ false
    → All (λ (y : Order). y.id ≢ id) (side_of s b)
unfolding id_exists side_of
id_exists-fresh buy b id h =
    (All-split (λ (y : Order). y.id ≢ id) b.bids b.asks (any_fresh id (b.bids ++ b.asks) h)).0
id_exists-fresh sell b id h =
    (All-split (λ (y : Order). y.id ≢ id) b.bids b.asks (any_fresh id (b.bids ++ b.asks) h)).1

pub start-LoopInv :
    (b : NativeBook) (o : Order)
    → IsBook b
    → IsQty o.qty
    → id_exists b o.id ≡ false
    → LoopInv o (side_of o.side b) (start b o)
unfolding start
start-LoopInv b o h q f = record {
  taker = refl;
  qty = q;
  makers = IsBook-side (opposite o.side) b h;
  apart = IsBook-apart o.side b h;
  fresh = id_exists-fresh (opposite o.side) b o.id f;
}

place_unique-IsBook :
    (b : NativeBook) (o : Order)
    → IsBook b
    → IsQty o.qty
    → pos 0 <ℤ o.price
    → IsBook (place_unique b o).0
unfolding place_unique matched
place_unique-IsBook b o h q p = elim (Bool-cases (id_exists b o.id)) [
  | inl e ↦ rw e h
  | inr e ↦ rw e (
      settle-IsBook b o (matched b o) h
        (match_loop_inv b.instrument_id (LoopInv o (side_of o.side b))
          (Round-LoopInv b.instrument_id o (side_of o.side b)) _ (start b o)
          (start-LoopInv b o h q e))
        p (id_exists-fresh o.side b o.id e)
        (match_loop_ends b.instrument_id _ (start b o) (ground arith)))
]

-- Placing an order, whatever comes of it, leaves a well-formed book well-formed: on each side only
-- orders of that side with positive prices and quantities, in price-time order, with distinct ids,
-- and no bid meets an ask.
pub place-IsBook : (b : NativeBook) (o : Order) → IsBook b → InI64 o.qty → IsBook (place b o).0
unfolding place
place-IsBook b o h q = elim (Result-cases (validate b o)) [
  | inl (_, e) ↦
      let v = validate-ok b o _ e in rw (e, place) (place_unique-IsBook b o h (ground arith) v.1)
  | inr (inl (_, e)) ↦ rw (e, place) h
  | inr (inr e) ↦ rw (e, place) h
]

-- Cancelling by any id leaves a well-formed book well-formed.
pub cancel-IsBook : (b : NativeBook) (id : String) → IsBook b → IsBook (cancel b id).0
unfolding cancel
cancel-IsBook b id h = elim (Bool-cases (remove b.bids id).1) [
  | inl e ↦ rw e (record {
    min_positive = h.min_positive;
    bids_side = IsSide-remove buy b.bids id h.bids_side;
    asks_side = h.asks_side;
    uncrossed = All-remove (λ x. All (Apart buy x) b.asks) b.bids id h.uncrossed;
  })
  | inr e ↦ rw e (record {
    min_positive = h.min_positive;
    bids_side = IsSide-remove buy b.bids id h.bids_side;
    asks_side = IsSide-remove sell b.asks id h.asks_side;
    uncrossed =
        All-map (λ x. All (Apart buy x) b.asks) (λ x. All (Apart buy x) (remove b.asks id).0) _
          (λ x p. All-remove (Apart buy x) b.asks id p)
          (All-remove (λ x. All (Apart buy x) b.asks) b.bids id h.uncrossed);
  })
]
