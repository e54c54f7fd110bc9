-- ===== src/Venue/Rfq.antt =====
-- operator/src/market.rs: firm quotes on request, and the cross of a quote with a countersigned
-- order.
use inference_bazaar.Base.{
  true, false, ℕ, ◌+◌, ◌-◌, ◌*◌, ◌/◌, ◌%◌, ◌^◌, min, String, str_eq, List, ◌++◌, Option, none, some,
  ltb, ◌==◌, if◌then◌else◌, length, Result, ok, err, panic,
}
use inference_bazaar.Base.Int.{pos, wrap_i64, add_i64, sub_i64}
use inference_bazaar.Base.Names.{find_name, put_name}
use inference_bazaar.Base.Text.{word_hex}
use inference_bazaar.Settlement.Types.{Crypto, B256, Address, be_bytes, side_buy, side_sell}
use inference_bazaar.Settlement.Core.{instrument_hash}
use inference_bazaar.Settlement.Fills.{SignedOrder, SignedFill, Signer, digest, pair, sign_order}
use inference_bazaar.OrderBook.Types.{Side, buy, sell}
use inference_bazaar.Clob.Types.{add_u64}
use inference_bazaar.Clob.Pool.{into_signed}
use inference_bazaar.Venue.Types.{
  F64, finite, infinite, nan, SettleCtx, InstrumentVenue, Venue, VenueError, RfqFillBody,
  rejected_body, other_instrument, no_remaining, unsettleable, settlement_unconfigured,
  price_out_of_range, price_rounds_to_zero, below_minimum, insufficient_funding,
}
use inference_bazaar.Venue.Signed.{remaining, record_fill}

abbrev pub u64_max : ℕ
u64_max = 2 ^ 64 - 1

abbrev pub u128_max : ℕ
u128_max = 2 ^ 128 - 1

-- A checked or saturating operation on `u64` and `u128`.
abbrev pub checked_u64 : ℕ → Option ℕ
checked_u64 n = if ltb u64_max n then none else some n

abbrev pub saturate_u128 : ℕ → ℕ
saturate_u128 n = min n u128_max

abbrev div_ceil : ℕ → ℕ → ℕ
div_ceil a b = a / b + (if (a % b) == 0 then 0 else 1)

-- The quoted price on the tick, rounded against the taker.
unfoldable pub price_on_tick : Side → ℕ → ℕ → Option ℕ
price_on_tick sell raw tick = checked_u64 (div_ceil raw tick * tick)
price_on_tick buy raw tick = some (raw / tick * tick)

-- The largest quantity whose cost fits a budget.
unfoldable pub max_qty : ℕ → ℕ → ℕ
max_qty budget price =
    if price == 0 then 0 else min ((saturate_u128 (budget * 1_000_000) - 500_000) / price) u64_max

unfoldable pub qty_in_budget : Side → Option (ℕ × ℕ) → ℕ → ℕ → ℕ
unfolding max_qty
qty_in_budget side none price qty = qty
qty_in_budget sell (some (sell_budget, buy_budget)) price qty = min qty (max_qty sell_budget price)
qty_in_budget buy (some (sell_budget, buy_budget)) price qty = min qty (max_qty buy_budget price)

-- `max(0.0) as u64`, which saturates and cuts the fraction off.
unfoldable pub as_u64 : F64 → ℕ
as_u64 (finite true n e) = 0
as_u64 (finite false n e) = min (n / 2 ^ e) u64_max
as_u64 (infinite true) = 0
as_u64 (infinite false) = u64_max
as_u64 nan = 0

-- Price and size of a firm quote before it is capped, from the sidecar's, the tick and the minimum.
unfoldable pub vet_quote : Side → F64 → ℕ → ℕ → ℕ → ℕ → Result VenueError (ℕ × ℕ)
unfolding price_on_tick as_u64
vet_quote maker_side price quoted_qty tick min_qty wanted =
    elim (price_on_tick maker_side (as_u64 price) tick) [
      | none ↦ err price_out_of_range
      | some p ↦
          if p == 0
          then err price_rounds_to_zero
          else if ltb (min wanted quoted_qty) min_qty
          then err below_minimum
          else ok (p, min wanted quoted_qty)
    ]

-- The size that the budgets leave of it.
unfoldable pub fund_quote : Side → ℕ → Option (ℕ × ℕ) → ℕ × ℕ → Result VenueError ℕ
unfolding qty_in_budget
fund_quote maker_side min_qty budgets (price, qty) =
    let funded = qty_in_budget maker_side budgets price qty in
    if ltb funded min_qty then err insufficient_funding else ok funded

abbrev pub side_code : Side → ℕ
side_code buy = side_buy
side_code sell = side_sell

-- What a crossed quote answers.
pub record RfqFilled : Type 0 where
  pub qty_tokens : ℕ
  pub fill : SignedFill
  pub maker_digest : String
  pub taker_digest : String
  pub outbox_len : ℕ

-- The operator's inventory after a fill outside the book: it may be either side, or neither.
unfoldable pub attribute : Option Address → SignedFill → ℕ → InstrumentVenue → InstrumentVenue
attribute none fill qty v = v
attribute (some op) fill qty v =
    if fill.buy.order.trader == op
    then record v { inventory_tokens = add_i64 v.inventory_tokens (wrap_i64 (pos qty)) }
    else if fill.sell.order.trader == op
    then record v { inventory_tokens = sub_i64 v.inventory_tokens (wrap_i64 (pos qty)) }
    else v

abbrev pub operator_of : SettleCtx → Option Address
operator_of ctx = elim ctx.signer [ none ↦ none | some s ↦ some s.address ]

abbrev pub on_market :
    String
    → (InstrumentVenue → InstrumentVenue)
    → List (String × InstrumentVenue)
    → List (String × InstrumentVenue)
on_market id f m = elim (find_name id m) [ none ↦ m | some v ↦ put_name id (f v) m ]

-- The venue after a fill, and its reply.
unfoldable pub crossed : SettleCtx → String → String → String → ℕ → SignedFill → Venue → Venue
unfolding attribute record_fill
crossed ctx id maker_digest taker_digest qty fill b = record b {
  venues = on_market id (attribute (operator_of ctx) fill qty) b.venues;
  signed = record_fill maker_digest taker_digest qty fill b.signed;
}

unfoldable pub crossed_reply : String → String → ℕ → SignedFill → Venue → RfqFilled
unfolding record_fill
crossed_reply maker_digest taker_digest qty fill b = record {
  qty_tokens = qty;
  fill = fill;
  maker_digest = maker_digest;
  taker_digest = taker_digest;
  outbox_len = length (record_fill maker_digest taker_digest qty fill b.signed).outbox;
}

module _ (c : Crypto) where
  unfoldable pub salt : ℕ → ℕ → B256
  salt nanos seq = c.keccak256 (be_bytes 16 nanos ++ be_bytes 8 seq)

  -- The signed order of a firm quote.
  unfoldable pub quote_order :
      ℕ → ℕ → SettleCtx → Signer → String → Side → ℕ → ℕ → Venue → Venue × SignedOrder
  unfolding salt sign_order instrument_hash
  quote_order now nanos ctx signer instrument_id maker_side price qty b = (
    record b { seq = add_u64 b.seq 1 },
    sign_order c signer
        (record {
          instrument = instrument_hash c instrument_id;
          side = side_code maker_side;
          price_micro_per_m = price;
          qty_tokens = qty;
          lot_id = 0;
          trader = signer.address;
          expiry = add_u64 now ctx.rfq_ttl_secs;
          salt = salt nanos b.seq;
        })
        ctx.domain,
  )

  -- The quantity that both orders have left, paired at the maker's price.
  unfoldable pub cross_orders :
      ℕ
      → SettleCtx
      → String
      → SignedOrder
      → SignedOrder
      → Venue
      → Venue × Result VenueError RfqFilled
  unfolding pair remaining crossed crossed_reply digest word_hex
  cross_orders now ctx id maker taker b =
      let maker_digest = word_hex (digest c maker ctx.domain) in
      let taker_digest = word_hex (digest c taker ctx.domain) in
      let qty =
        min (remaining maker_digest maker.order b.signed)
          (remaining taker_digest taker.order b.signed) in
      if qty == 0 then (b, err no_remaining) else elim (pair c maker taker qty now ctx.domain) [
        | err e ↦ (b, err unsettleable)
        | panic ↦ (b, panic)
        | ok fill ↦ (
          crossed ctx id maker_digest taker_digest qty fill b,
          ok (crossed_reply maker_digest taker_digest qty fill b),
        )
      ]

  unfoldable pub rfq_fill : ℕ → RfqFillBody → Venue → Venue × Result VenueError RfqFilled
  unfolding into_signed cross_orders
  rfq_fill now body b = elim b.settle [
    | none ↦ (b, err settlement_unconfigured)
    | some ctx ↦ elim (into_signed c body.maker) [
      | err e ↦ (b, err (rejected_body e))
      | panic ↦ (b, panic)
      | ok (maker_inst, maker) ↦ elim (into_signed c body.taker) [
        | err e ↦ (b, err (rejected_body e))
        | panic ↦ (b, panic)
        | ok (taker_inst, taker) ↦
            if str_eq maker_inst taker_inst
            then cross_orders now ctx maker_inst maker taker b
            else (b, err other_instrument)
      ]
    ]
  ]
