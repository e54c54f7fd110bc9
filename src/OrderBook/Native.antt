-- ===== src/OrderBook/Native.antt =====
-- crates/orderbook/src/native.rs: `NativeBook`, the price-time-priority engine.
use inference_bazaar.Base.{
  ℕ, suc, ◌+◌, ◌%◌, ◌^◌, String, Bool, true, false, not, ◌&&◌, ◌||◌, List, [], ◌∷◌, ◌++◌, Option,
  none, some, str_eq, length, any, ◌==◌, if◌then◌else◌, Result, ok, err, panic, ◌>>◌,
}
use inference_bazaar.Base.Int.{pos, I64, ltb_ℤ, leb_ℤ, eqb_ℤ, add_i64, rem_i64, half_i64}
use inference_bazaar.OrderBook.Types.{
  Side, buy, sell, Order, BookLevel, MatchError, wrong_instrument, invalid_price, off_tick,
  below_min_qty,
}

pub record NativeBook : Type 0 where
  pub instrument_id : String
  pub tick_size : I64
  pub min_qty : I64
  pub bids : List Order
  pub asks : List Order
  pub last_trade_price : Option I64

unfoldable pub new : String → I64 → I64 → NativeBook
new instrument_id tick_size min_qty = record {
  instrument_id = instrument_id;
  tick_size = tick_size;
  min_qty = min_qty;
  bids = [];
  asks = [];
  last_trade_price = none;
}

abbrev pub first : List Order → Option Order
first [] = none
first (o ∷ rest) = some o

unfoldable pub best_bid : NativeBook → Option I64
best_bid b = elim (first b.bids) [ none ↦ none | some o ↦ some o.price ]

unfoldable pub best_ask : NativeBook → Option I64
best_ask b = elim (first b.asks) [ none ↦ none | some o ↦ some o.price ]

unfoldable pub mid_of : Option I64 → Option I64 → Option I64 → Option I64
mid_of (some b) (some a) last = some (half_i64 (add_i64 b a))
mid_of (some b) none last = last
mid_of none ask last = last

unfoldable pub mid : NativeBook → Option I64
unfolding mid_of
mid b = mid_of (best_bid b) (best_ask b) b.last_trade_price

-- One `if … { return Err(e) }` of a validation.
abbrev pub refuse_if : Bool → MatchError → Result MatchError (Unit {0})
refuse_if true e = err e
refuse_if false e = ok tt

-- `price % tick_size != 0`, which panics at a tick of zero.
abbrev pub check_tick : I64 → I64 → Result MatchError (Unit {0})
check_tick price tick =
    if eqb_ℤ tick (pos 0)
    then panic
    else refuse_if (not (eqb_ℤ (rem_i64 price tick) (pos 0))) (off_tick price tick)

unfoldable pub validate : NativeBook → Order → Result MatchError (Unit {0})
validate b o = do
  refuse_if (not (str_eq o.instrument_id b.instrument_id))
      (wrong_instrument b.instrument_id o.instrument_id)
  refuse_if (leb_ℤ o.price (pos 0)) (invalid_price o.price)
  check_tick o.price b.tick_size
  refuse_if (ltb_ℤ o.qty b.min_qty) (below_min_qty o.qty b.min_qty)

abbrev pub has_id : String → Order → Bool
has_id id o = str_eq o.id id

unfoldable pub id_exists : NativeBook → String → Bool
id_exists b id = any (has_id id) (b.bids ++ b.asks)

-- `cur_before` of the insertion loop: `cur` keeps its place ahead of `order`.
unfoldable pub before : Side → Order → Order → Bool
before buy cur order =
    ltb_ℤ order.price cur.price || (eqb_ℤ cur.price order.price && leb_ℤ cur.ts order.ts)
before sell cur order =
    ltb_ℤ cur.price order.price || (eqb_ℤ cur.price order.price && leb_ℤ cur.ts order.ts)

-- `insert` on the one side: behind the longest prefix of orders that are before it.
unfoldable pub insert_into : Side → Order → List Order → List Order
insert_into s order [] = order ∷ []
insert_into s order (cur ∷ rest) =
    if before s cur order then cur ∷ insert_into s order rest else order ∷ cur ∷ rest

-- The book's orders on one side, and the book with them replaced.
unfoldable pub side_of : Side → NativeBook → List Order
side_of buy b = b.bids
side_of sell b = b.asks

unfoldable pub with_side : Side → List Order → NativeBook → NativeBook
with_side buy os b = record b { bids = os }
with_side sell os b = record b { asks = os }

unfoldable pub insert_on : Side → Order → NativeBook → NativeBook
unfolding side_of with_side
insert_on s o b = with_side s (insert_into s o (side_of s b)) b

unfoldable pub insert : Order → NativeBook → NativeBook
unfolding insert_on
insert o b = insert_on o.side o b

-- `remove`: the first order with the id, if there is one.
unfoldable pub remove : List Order → String → List Order × Bool
remove [] id = ([], false)
remove (o ∷ rest) id =
    if has_id id o then (rest, true) else (o ∷ (remove rest id).0, (remove rest id).1)

-- `levels`: one more order against the levels so far, the last level first.
unfoldable pub levels_from : ℕ → List BookLevel → List Order → List BookLevel
levels_from depth [] [] = []
levels_from depth (top ∷ out) [] = top ∷ out
levels_from depth [] (o ∷ rest) =
    let first_level =
      levels_from depth (record { price = o.price; qty = o.qty; orders = 1 } ∷ []) rest in
    if depth == 0 then [] else first_level
levels_from depth (top ∷ out) (o ∷ rest) =
    let merged =
      levels_from depth
        (record {
          price = top.price;
          qty = add_i64 top.qty o.qty;
          orders = (top.orders + 1) % 2 ^ 32;
        }
          ∷ out)
        rest in
    let pushed =
      levels_from depth (record { price = o.price; qty = o.qty; orders = 1 } ∷ top ∷ out) rest in
    if eqb_ℤ top.price o.price
    then merged
    else if suc (length out) == depth
    then top ∷ out
    else pushed
