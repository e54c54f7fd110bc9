-- ===== src/OrderBook/Prints.antt =====
-- crates/orderbook/src/native.rs: what the prints of `place` say, and where the quantity goes.
use inference_bazaar.Base.{
  ℕ, ◌+◌, ◌≡◌, ◌≢◌, refl, sym, ap, subst, ◌∙◌, inl, inr, true, false, List, [], ◌∷◌, ◌++◌, String,
  arith, All, All-append, Bool-cases, Option, none, some, str_eq, eq_iff, ok, err, panic, Result,
  Result-cases,
}
use inference_bazaar.Base.Int.{
  ℤ, pos, negsuc, pos_part, InI64, ◌<ℤ◌, ◌-ℤ◌, sub_i64, min_i64, eqb_ℤ, ltb_ℤ,
}
use inference_bazaar.OrderBook.Types.{Side, opposite, Order, Fill, PlaceOutcome, MatchError}
use inference_bazaar.OrderBook.Native.{NativeBook, side_of, id_exists, validate}
use inference_bazaar.OrderBook.Engine.{
  Matching, crosses, print, trade, start, matched, settle_on, settle, place_unique, place,
}
use inference_bazaar.OrderBook.Loop.{Round, own, other, match_loop_inv}
use inference_bazaar.OrderBook.Side.{IsQty, print-IsQty}
use inference_bazaar.OrderBook.Invariant.{IsBook, validate-ok}
use inference_bazaar.OrderBook.LoopKeeps.{LoopInv, Round-LoopInv, IsResting-IsQty}
use inference_bazaar.OrderBook.Keeps.{start-LoopInv}

-- A print for the incoming order `o`: at a price within its limit, of a positive quantity, against
-- another owner's order, and naming `o` as the taker.
pub record IsPrint (inst : String) (o : Order) (f : Fill) : Type 0 where
  pub instrument : f.instrument_id ≡ inst
  pub taker : f.taker_order_id ≡ o.id
  pub taker_owned : f.taker_owner ≡ o.owner
  pub side : f.taker_side ≡ o.side
  pub within : crosses o.side f.price o.price ≡ true
  pub positive : pos 0 <ℤ f.qty
  pub no_wash : f.maker_owner ≢ o.owner

abbrev pub filled : List Fill → ℕ
filled [] = 0
filled (f ∷ fs) = pos_part f.qty + filled fs

filled-append : (xs ys : List Fill) → filled (xs ++ ys) ≡ filled xs + filled ys
filled-append [] ys = omega arith
filled-append (x ∷ xs) ys = omega (arith, filled-append xs ys)

abbrev pub left_over : Option Order → ℕ
left_over none = 0
left_over (some r) = pos_part r.qty

record Tally (inst : String) (o : Order) (own_side : List Order) (s : Matching) : Type 0 where
  inv : LoopInv o own_side s
  prints : All (IsPrint inst o) s.fills
  total : filled s.fills + pos_part s.taker.qty ≡ pos_part o.qty

print-IsPrint :
    (inst : String) (o t m : Order) (q : ℤ)
    → t ≡ record o { qty = t.qty }
    → crosses t.side m.price t.price ≡ true
    → str_eq m.owner t.owner ≡ false
    → pos 0 <ℤ q
    → IsPrint inst o (print inst m t q)
unfolding print
print-IsPrint inst o t m q e c w p = record {
  instrument = refl;
  taker = ap (λ (x : Order). x.id) e;
  taker_owned = ap (λ (x : Order). x.owner) e;
  side = ap (λ (x : Order). x.side) e;
  within = subst (λ (x : Order). crosses x.side m.price x.price ≡ true) e c;
  positive = p;
  no_wash = λ h. cc (w, (eq_iff m.owner t.owner).1 (h ∙ sym (ap (λ (x : Order). x.owner) e)));
}

-- A print moves a positive quantity from the taker to the prints.
print_moves :
    (a b : ℤ)
    → IsQty a
    → eqb_ℤ a (pos 0) ≡ false
    → pos 0 <ℤ b
    → (pos 0 <ℤ min_i64 a b) × (pos_part (min_i64 a b) + pos_part (a -ℤ min_i64 a b) ≡ pos_part a)
unfolding ◌-ℤ◌
print_moves (pos a) (pos b) p z q = ground arith
print_moves (pos a) (negsuc b) p z q = absurd (omega arith)
print_moves (negsuc a) b p z q = absurd (omega arith)

Round-Tally :
    (inst : String) (o : Order) (os : List Order) (s s' : Matching)
    → Round inst s s'
    → Tally inst o os s
    → Tally inst o os s'
unfolding trade
Round-Tally inst o os s _ (own m rest e z w c) h = record {
  inv = Round-LoopInv inst o os s _ (own m rest e z w c) h.inv;
  prints = h.prints;
  total = h.total;
}
Round-Tally inst o os s _ (other m rest e z w c) h =
    let side = rw e at h.inv.makers in
    let resting = side.resting.0 in
    let q = print-IsQty s.taker.qty m.qty h.inv.qty (IsResting-IsQty (opposite o.side) m resting) in
    let moved = print_moves s.taker.qty m.qty h.inv.qty z resting.qty_positive in
    record {
      inv = Round-LoopInv inst o os s _ (other m rest e z w c) h.inv;
      prints =
          All-append (IsPrint inst o) s.fills _ h.prints (
            print-IsPrint inst o s.taker m (min_i64 s.taker.qty m.qty) h.inv.taker c w moved.0,
            tt,
          );
      total = trade_total q.0 moved.1;
    }
  where
    trade_total :
        sub_i64 s.taker.qty (min_i64 s.taker.qty m.qty) ≡ s.taker.qty -ℤ min_i64 s.taker.qty m.qty
        → pos_part (min_i64 s.taker.qty m.qty) + pos_part (s.taker.qty -ℤ min_i64 s.taker.qty m.qty)
          ≡ pos_part s.taker.qty
        → filled (trade inst s m rest).fills + pos_part (trade inst s m rest).taker.qty
          ≡ pos_part o.qty
    trade_total q moved =
        rw (q, filled-append s.fills (print inst m s.taker (min_i64 s.taker.qty m.qty) ∷ []))
          (omega (arith, h.total, moved))

abbrev Accounts : NativeBook → Order → Result MatchError PlaceOutcome → Type 0
Accounts b o (ok out) =
    All (IsPrint b.instrument_id o) out.fills
    × (filled out.fills + left_over out.resting ≡ pos_part o.qty)
Accounts b o (err e) = Unit
Accounts b o panic = Unit

settle_on-Accounts :
    (side : Side) (b : NativeBook) (o : Order) (os : List Order) (s : Matching)
    → Tally b.instrument_id o os s
    → Accounts b o (settle_on side b s).1
unfolding settle_on
settle_on-Accounts side b o os s h = elim (Bool-cases (ltb_ℤ (pos 0) s.taker.qty)) [
  | inl q ↦ rw q (h.prints, h.total)
  | inr q ↦ rw q (h.prints, omega (arith, h.total, nothing_left s.taker.qty q))
]
  where
    nothing_left : (z : ℤ) → ltb_ℤ (pos 0) z ≡ false → pos_part z ≡ 0
    nothing_left z q = ground arith

place_unique-Accounts :
    (b : NativeBook) (o : Order) → IsBook b → IsQty o.qty → Accounts b o (place_unique b o).1
unfolding place_unique matched settle
place_unique-Accounts b o h q = elim (Bool-cases (id_exists b o.id)) [
  | inl e ↦ rw e tt
  | inr e ↦ rw e (
      settle_on-Accounts (matched b o).taker.side b o (side_of o.side b) (matched b o) (
        match_loop_inv b.instrument_id (Tally b.instrument_id o (side_of o.side b))
          (Round-Tally b.instrument_id o (side_of o.side b)) _ (start b o) (start-Tally e)))
]
  where
    start-Tally : id_exists b o.id ≡ false → Tally b.instrument_id o (side_of o.side b) (start b o)
    start-Tally e = record { inv = start-LoopInv b o h q e; prints = tt; total = omega arith }

place-Accounts : (b : NativeBook) (o : Order) → IsBook b → InI64 o.qty → Accounts b o (place b o).1
unfolding place
place-Accounts b o h q = elim (Result-cases (validate b o)) [
  | inl (_, e) ↦
      let v = validate-ok b o _ e in
      let m = h.min_positive in rw (e, place) (place_unique-Accounts b o h (ground arith))
  | inr (inl (_, e)) ↦ rw (e, place) tt
  | inr (inr e) ↦ rw (e, place) tt
]

-- When a well-formed book accepts an order, every print is at a price within the order's limit, of a
-- positive quantity, against another owner, and names the order as taker; and the printed quantities
-- and the resting remainder add up to the order's quantity.
pub place_accounts :
    (b : NativeBook) (o : Order) (out : PlaceOutcome)
    → IsBook b
    → InI64 o.qty
    → (place b o).1 ≡ ok out
    → All (IsPrint b.instrument_id o) out.fills
      × (filled out.fills + left_over out.resting ≡ pos_part o.qty)
place_accounts b o out h q e = subst (Accounts b o) e (place-Accounts b o h q)
