-- ===== src/Matcher/Epoch.antt =====
-- crates/matcher/src/lib.rs: `match_epoch`. A panic of the engine is `none`.
use inference_bazaar.Base.{
  ℕ, suc, ◌-◌, ◌^◌, String, List, [], ◌∷◌, ◌++◌, Option, none, some, Bool, not, ◌&&◌, ◌||◌, ltb,
  leb, ◌==◌, if◌then◌else◌, any, select, str_eq, Result, ok, err, panic,
}
use inference_bazaar.Base.Int.{I64, pos, negsuc, ltb_ℤ, eqb_ℤ}
use inference_bazaar.Base.Sets.{sort_by}
use inference_bazaar.Base.Text.{order_id, address_hex}
use inference_bazaar.Settlement.Types.{
  B256, Order, BatchFill, Eip712Domain, Crypto, side_buy, side_sell,
}
use inference_bazaar.Settlement.Core.{order_digest, instrument_hash, fills_hash}
use inference_bazaar.OrderBook.Types.{Side, Fill, PlaceOutcome, MatchError}
use inference_bazaar.OrderBook.Types as Book
use inference_bazaar.OrderBook.Native.{NativeBook, new}
use inference_bazaar.OrderBook.Engine.{place}

pub record EpochBatch : Type 0 where
  pub fills : List BatchFill
  pub fills_hash : B256

pub record CanonOrder : Type 0 where
  pub order : Order
  pub price : I64
  pub qty : I64
  pub digest : B256

-- `i64::try_from` of a `u64`.
unfoldable pub i64_of_u64 : ℕ → Option I64
i64_of_u64 n = if ltb n (2 ^ 63) then some (pos n) else none

-- `as u64` of an `i64`.
unfoldable pub u64_of_i64 : I64 → ℕ
u64_of_i64 (pos n) = n
u64_of_i64 (negsuc n) = 2 ^ 64 - 1 - n

-- Cheapest first among the sells, dearest first among the buys; the digest breaks ties.
unfoldable pub sell_le : CanonOrder → CanonOrder → Bool
sell_le a b = ltb_ℤ a.price b.price || (eqb_ℤ a.price b.price && leb a.digest b.digest)

unfoldable pub buy_le : CanonOrder → CanonOrder → Bool
buy_le a b = ltb_ℤ b.price a.price || (eqb_ℤ b.price a.price && leb a.digest b.digest)

abbrev pub is_sell : CanonOrder → Bool
is_sell k = k.order.side == side_sell

-- The canonical order of a set: the sells, then the buys.
unfoldable pub feed : List CanonOrder → List CanonOrder
unfolding sort_by
feed canon =
    sort_by sell_le (select is_sell canon) ++ sort_by buy_le (select (λ k. not (is_sell k)) canon)

-- The replay's variables: the book, the orders by their id in the book, and the fills so far.
pub record Replay : Type 0 where
  pub book : NativeBook
  pub by_id : List (String × Order)
  pub fills : List BatchFill

unfoldable pub lookup_id : String → List (String × Order) → Option Order
lookup_id id [] = none
lookup_id id ((j, o) ∷ m) = if str_eq j id then some o else lookup_id id m

unfoldable pub batch_fill_of : Order → Order → Fill → BatchFill
batch_fill_of maker taker f =
    let taker_buys = taker.side == side_buy in
    record {
      buy = if taker_buys then taker else maker;
      sell = if taker_buys then maker else taker;
      qty_tokens = u64_of_i64 f.qty;
      exec_price_micro_per_m = u64_of_i64 f.price;
    }

abbrev pub joined : Option Order → Option Order → Fill → List BatchFill
joined (some maker) (some taker) f = batch_fill_of maker taker f ∷ []
joined (some maker) none f = []
joined none taker f = []

-- The printed fills joined back to the signed orders that they name.
unfoldable pub join_fills : List (String × Order) → List Fill → List BatchFill
unfolding lookup_id batch_fill_of
join_fills by_id [] = []
join_fills by_id (f ∷ fs) =
    joined (lookup_id f.maker_order_id by_id) (lookup_id f.taker_order_id by_id) f
    ++ join_fills by_id fs

unfoldable pub book_order : String → ℕ → CanonOrder → Book.Order
book_order instrument_id position c = record {
  id = order_id position;
  instrument_id = instrument_id;
  side = if c.order.side == side_buy then Side.buy else Side.sell;
  price = c.price;
  qty = c.qty;
  owner = address_hex c.order.trader;
  ts = pos position;
}

-- One order of the replay, by the engine's reply.
unfoldable pub after_place :
    Replay → String → Order → NativeBook × Result MatchError PlaceOutcome → Option Replay
unfolding join_fills
after_place s id order (book, ok outcome) =
    let by_id = (id, order) ∷ s.by_id in
    some (record { book = book; by_id = by_id; fills = s.fills ++ join_fills by_id outcome.fills })
after_place s id order (book, err e) = some (record s { book = book })
after_place s id order (book, panic) = none

unfoldable pub replay_from : String → ℕ → Replay → List CanonOrder → Option Replay
replay_from instrument_id position s [] = some s
replay_from instrument_id position s (c ∷ cs) =
    let o = book_order instrument_id position c in
    elim (after_place s o.id c.order (place s.book o)) [
      | none ↦ none
      | some s' ↦ replay_from instrument_id (suc position) s' cs
    ]

module _ (c : Crypto) where
  abbrev pub with_values : Order → B256 → Option I64 → Option I64 → Option CanonOrder
  with_values o digest (some price) (some qty) =
      some (record { order = o; price = price; qty = qty; digest = digest })
  with_values o digest (some price) none = none
  with_values o digest none qty = none

  -- An order of the instrument whose values fit the book, with its digest.
  unfoldable pub canonical : B256 → Eip712Domain → Order → Option CanonOrder
  unfolding i64_of_u64
  canonical want_instrument dom o =
      if o.instrument == want_instrument
      then with_values o (order_digest c o dom) (i64_of_u64 o.price_micro_per_m)
          (i64_of_u64 o.qty_tokens)
      else none

  abbrev pub has_digest : B256 → List B256 → Bool
  has_digest d seen = any (λ e. e == d) seen

  -- `seen.insert(digest)` of an order that fits: only the first with a digest is kept.
  abbrev pub unseen : List B256 → Option CanonOrder → Option CanonOrder
  unseen seen none = none
  unseen seen (some k) = if has_digest k.digest seen then none else some k

  unfoldable pub canonicalize : B256 → Eip712Domain → List B256 → List Order → List CanonOrder
  canonicalize want_instrument dom seen [] = []
  canonicalize want_instrument dom seen (o ∷ os) =
      elim (unseen seen (canonical want_instrument dom o)) [
        | none ↦ canonicalize want_instrument dom seen os
        | some k ↦ k ∷ canonicalize want_instrument dom (k.digest ∷ seen) os
      ]

  abbrev pub batch_of : Option Replay → Option EpochBatch
  batch_of none = none
  batch_of (some s) = some (record { fills = s.fills; fills_hash = fills_hash c s.fills })

  unfoldable pub match_epoch : String → I64 → I64 → Eip712Domain → List Order → Option EpochBatch
  unfolding canonicalize feed replay_from
  match_epoch instrument_id tick_size min_qty dom orders =
      let canon = canonicalize (instrument_hash c instrument_id) dom [] orders in
      batch_of (
        replay_from instrument_id 0
          (record { book = new instrument_id tick_size min_qty; by_id = []; fills = [] })
          (feed canon))
