-- ===== src/OrderBook/LoopKeeps.antt =====
-- crates/orderbook/src/native.rs: what the matching loop keeps.
use inference_bazaar.Base.{
  ◌≡◌, ◌≢◌, refl, ap, true, false, List, [], ◌∷◌, String, arith, All, All-map, none,
}
use inference_bazaar.Base.Int.{ℤ, pos, sub_i64, min_i64, eqb_ℤ, ltb_ℤ}
use inference_bazaar.OrderBook.Types.{Side, buy, sell, opposite, Order}
use inference_bazaar.OrderBook.Native.{before}
use inference_bazaar.OrderBook.Engine.{Matching, crosses, reduce_maker, trade, round, round_against}
use inference_bazaar.OrderBook.Sorted.{IsSorted, Before}
use inference_bazaar.OrderBook.Loop.{Round, own, other}
use inference_bazaar.OrderBook.Side.{
  IsQty, IsResting, IsSide, print-IsQty, All-reduce_maker, IsSide-tail, IsSide-reduce_maker,
}
use inference_bazaar.OrderBook.Invariant.{Apart, AllApart}

-- What holds in the loop of `place` for the incoming order and the orders of its own side.
pub record LoopInv (o : Order) (own_side : List Order) (s : Matching) : Type 0 where
  pub taker : s.taker ≡ record o { qty = s.taker.qty }
  pub qty : IsQty s.taker.qty
  pub makers : IsSide (opposite o.side) s.makers
  pub apart : AllApart o.side own_side s.makers
  pub fresh : All (λ (m : Order). m.id ≢ o.id) s.makers

pub IsResting-IsQty : (s : Side) (o : Order) → IsResting s o → IsQty o.qty
IsResting-IsQty s o r = ground arith

pub Round-LoopInv :
    (inst : String) (o : Order) (own_side : List Order) (s s' : Matching)
    → Round inst s s'
    → LoopInv o own_side s
    → LoopInv o own_side s'
unfolding trade
Round-LoopInv inst o os s _ (own m rest e z w c) h =
    let side = rw e at h.makers in
    record {
      taker = h.taker;
      qty = h.qty;
      makers = IsSide-tail (opposite o.side) m rest side;
      apart =
          All-map (λ x. All (Apart o.side x) (m ∷ rest)) (λ x. All (Apart o.side x) rest) os
            (λ x p. p.1) (rw e at h.apart);
      fresh = (rw e at h.fresh).1;
    }
Round-LoopInv inst o os s _ (other m rest e z w c) h =
    let side = rw e at h.makers in
    let q =
      print-IsQty s.taker.qty m.qty h.qty (IsResting-IsQty (opposite o.side) m side.resting.0) in
    record {
      taker =
          ap (λ (t : Order). record t { qty = sub_i64 s.taker.qty (min_i64 s.taker.qty m.qty) })
            h.taker;
      qty = rw q.0 q.3;
      makers =
          IsSide-reduce_maker (opposite o.side) m (min_i64 s.taker.qty m.qty) rest (rw q.1 q.4)
            side;
      apart =
          All-map (λ x. All (Apart o.side x) (m ∷ rest))
            (λ x. All (Apart o.side x) (reduce_maker m (min_i64 s.taker.qty m.qty) rest)) os
            (λ x p. All-reduce_maker (Apart o.side x) m (min_i64 s.taker.qty m.qty) rest p.0 p.1)
            (rw e at h.apart);
      fresh =
          let f = rw e at h.fresh in
          All-reduce_maker (λ (m : Order). m.id ≢ o.id) m (min_i64 s.taker.qty m.qty) rest f.0 f.1;
    }

-- A worse maker does not cross where a better one does not.
pub crosses_worse :
    (s : Side) (m y t : Order)
    → Before (opposite s) m y
    → crosses s m.price t.price ≡ false
    → crosses s y.price t.price ≡ false
unfolding crosses before opposite
crosses_worse buy m y t p q = ground arith
crosses_worse sell m y t p q = ground arith

pub ends_uncrossed :
    (inst : String) (s : Matching) (ms : List Order)
    → s.makers ≡ ms
    → IsSorted (opposite s.taker.side) ms
    → round_against inst s ms ≡ none
    → All (λ (m : Order). crosses s.taker.side m.price s.taker.price ≡ false) ms
unfolding round_against
ends_uncrossed inst s [] e h r = tt
ends_uncrossed inst s (m ∷ rest) e h r = (
  head_off,
  All-map (Before (opposite s.taker.side) m) _ rest
      (λ y p. crosses_worse s.taker.side m y s.taker p head_off) h.0,
)
  where
    head_off : crosses s.taker.side m.price s.taker.price ≡ false
    head_off = ground arith

-- When the loop has ended with a remainder, the remainder crosses no maker.
pub loop_end_uncrossed :
    (inst : String) (s : Matching)
    → IsSorted (opposite s.taker.side) s.makers
    → ltb_ℤ (pos 0) s.taker.qty ≡ true
    → round inst s ≡ none
    → All (λ (m : Order). crosses s.taker.side m.price s.taker.price ≡ false) s.makers
unfolding round
loop_end_uncrossed inst s h q r =
    ends_uncrossed inst s s.makers refl h (rw (nonzero s.taker.qty q, round) at r)
  where
    nonzero : (z : ℤ) → ltb_ℤ (pos 0) z ≡ true → eqb_ℤ z (pos 0) ≡ false
    nonzero z q = ground arith
