-- ===== src/OrderBook/Engine.antt =====
-- crates/orderbook/src/native.rs: `impl MatchingEngine for NativeBook`.
-- `place` is a loop on fuel over the best opposing maker; its fuel is one more than the number of
-- makers and the taker together.
use mathlib.Core.List.{reverse}
use inference_bazaar.Base.{
  ℕ, zero, suc, String, Bool, true, List, [], ◌∷◌, ◌++◌, Option, none, some, str_eq, length, select,
  if◌then◌else◌, Result, ok, err, panic,
}
use inference_bazaar.Base.Int.{pos, I64, ltb_ℤ, leb_ℤ, eqb_ℤ, sub_i64, min_i64}
use inference_bazaar.OrderBook.Types.{
  Side, buy, sell, opposite, Order, Fill, PlaceOutcome, BookLevel, BookSnapshot, MatchError,
  duplicate_id,
}
use inference_bazaar.OrderBook.Native.{
  NativeBook, validate, id_exists, insert_on, side_of, with_side, remove, levels_from,
}

-- By the taker's side: does the maker's price meet the taker's?
unfoldable pub crosses : Side → I64 → I64 → Bool
crosses buy maker_price taker_price = leb_ℤ maker_price taker_price
crosses sell maker_price taker_price = leb_ℤ taker_price maker_price

-- The variables of the loop: the maker book is the side opposite to the taker's.
pub record Matching : Type 0 where
  pub taker : Order
  pub makers : List Order
  pub fills : List Fill
  pub last_trade_price : Option I64

unfoldable pub print : String → Order → Order → I64 → Fill
print instrument_id maker taker qty = record {
  instrument_id = instrument_id;
  maker_order_id = maker.id;
  taker_order_id = taker.id;
  maker_owner = maker.owner;
  taker_owner = taker.owner;
  price = maker.price;
  qty = qty;
  taker_side = taker.side;
  ts = taker.ts;
}

-- The maker after a print: it leaves the book when nothing of it is left.
unfoldable pub reduce_maker : Order → I64 → List Order → List Order
reduce_maker maker qty rest =
    let left = sub_i64 maker.qty qty in
    if eqb_ℤ left (pos 0) then rest else record maker { qty = left } ∷ rest

unfoldable pub trade : String → Matching → Order → List Order → Matching
unfolding print reduce_maker
trade instrument_id s maker rest =
    let qty = min_i64 s.taker.qty maker.qty in
    record {
      taker = record s.taker { qty = sub_i64 s.taker.qty qty };
      makers = reduce_maker maker qty rest;
      fills = s.fills ++ print instrument_id maker s.taker qty ∷ [];
      last_trade_price = some maker.price;
    }

-- One round against the best maker; `none` is a `break`.
unfoldable pub round_against : String → Matching → List Order → Option Matching
round_against instrument_id s [] = none
round_against instrument_id s (maker ∷ rest) =
    if crosses s.taker.side maker.price s.taker.price
    then if str_eq maker.owner s.taker.owner
      then some (record s { makers = rest })
      else some (trade instrument_id s maker rest)
    else none

unfoldable pub round : String → Matching → Option Matching
unfolding round_against
round instrument_id s =
    if eqb_ℤ s.taker.qty (pos 0) then none else round_against instrument_id s s.makers

unfoldable pub match_loop : String → ℕ → Matching → Matching
match_loop instrument_id zero s = s
match_loop instrument_id (suc fuel) s = elim (round instrument_id s) [
  | none ↦ s
  | some s' ↦ match_loop instrument_id fuel s'
]

unfoldable pub start : NativeBook → Order → Matching
start b incoming = record {
  taker = incoming;
  makers = side_of (opposite incoming.side) b;
  fills = [];
  last_trade_price = b.last_trade_price;
}

unfoldable pub matched : NativeBook → Order → Matching
unfolding start
matched b incoming =
    let s = start b incoming in match_loop b.instrument_id (suc (suc (length s.makers))) s

-- The book when the loop has ended, and what becomes of the remainder, by the taker's side.
unfoldable pub settle_on :
    Side → NativeBook → Matching → NativeBook × Result MatchError PlaceOutcome
settle_on side b s =
    let b' = record (with_side (opposite side) s.makers b) {
      last_trade_price = s.last_trade_price;
    } in
    if ltb_ℤ (pos 0) s.taker.qty
    then (insert_on side s.taker b', ok (record { fills = s.fills; resting = some s.taker }))
    else (b', ok (record { fills = s.fills; resting = none }))

unfoldable pub settle : NativeBook → Matching → NativeBook × Result MatchError PlaceOutcome
unfolding settle_on
settle b s = settle_on s.taker.side b s

unfoldable pub place_unique : NativeBook → Order → NativeBook × Result MatchError PlaceOutcome
place_unique b incoming =
    if id_exists b incoming.id
    then (b, err (duplicate_id incoming.id))
    else settle b (matched b incoming)

unfoldable pub place : NativeBook → Order → NativeBook × Result MatchError PlaceOutcome
unfolding place_unique
place b incoming = elim (validate b incoming) [
  | ok _ ↦ place_unique b incoming
  | err e ↦ (b, err e)
  | panic ↦ (b, panic)
]

-- `remove(bids) || remove(asks)`.
unfoldable pub cancel : NativeBook → String → NativeBook × Bool
cancel b order_id =
    let (bids, in_bids) = remove b.bids order_id in
    let (asks, in_asks) = remove b.asks order_id in
    if in_bids
    then (record b { bids = bids }, true)
    else (record b { bids = bids; asks = asks }, in_asks)

unfoldable pub levels : List Order → ℕ → List BookLevel
levels book depth = reverse (levels_from depth [] book)

unfoldable pub snapshot : NativeBook → ℕ → BookSnapshot
snapshot b depth = record {
  instrument_id = b.instrument_id;
  bids = levels b.bids depth;
  asks = levels b.asks depth;
  last_trade_price = b.last_trade_price;
}

unfoldable pub open_orders : NativeBook → String → List Order
open_orders b owner = select (λ o. str_eq o.owner owner) (b.bids ++ b.asks)
