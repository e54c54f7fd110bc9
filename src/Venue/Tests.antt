-- ===== src/Venue/Tests.antt =====
-- operator/src/market.rs: runs of the venue, and its theorems at small states.
use inference_bazaar.Base.{ap, str_eq, ◌≡◌, refl, Option, ok, some, none, true, false, arith}
use inference_bazaar.Base.Int.{add_i64, sub_i64, wrap_i64, rem_i64, ◌+ℤ◌, ◌-ℤ◌}
use inference_bazaar.Base.Text.{word_hex, order_id, address_hex, trim_0x}
use inference_bazaar.Settlement.Core.{
  order_digest, instrument_hash, recover_signer, verify_order, validate_pair, cost_micro,
}
use inference_bazaar.Settlement.Fills.{
  SignedOrder, verify, digest, sign_digest, sign_order, pair, pair_sides, buy_and_sell,
  fill_cost_micro,
}
use inference_bazaar.Settlement.Toy.{toy, toy_domain, toy_signed}
use inference_bazaar.OrderBook.Types.{buy, sell, opposite}
use inference_bazaar.OrderBook.Native.{
  new, validate, id_exists, before, insert_into, insert_on, side_of, with_side,
}
use inference_bazaar.OrderBook.Engine.{
  crosses, print, reduce_maker, trade, round, round_against, match_loop, start, matched, settle,
  settle_on, place_unique, place, cancel,
}
use inference_bazaar.Matcher.Epoch.{i64_of_u64, u64_of_i64}
use inference_bazaar.Clob.Pool.{into_signed}
use inference_bazaar.Venue.Types.{Venue, venue_of, SidecarQuote, finite}
use inference_bazaar.Venue.Signed.{
  filled_of, side_to_book, remaining, record_fill, mm_side, apply_inventory, is_expired, withdraw,
  prune_expired, pair_fill, pair_book_fills, vet_signed, book_order_of, after_book, place_in,
  place_signed,
}
use inference_bazaar.Venue.Rfq.{
  price_on_tick, max_qty, qty_in_budget, as_u64, vet_quote, fund_quote, attribute, crossed,
  crossed_reply, salt, quote_order, cross_orders, rfq_fill,
}
use inference_bazaar.Venue.Outbox.{
  is_live, take_outbox, requeue, finish_flush, flush_outbox, flush_settlement, queued_cost,
  resting_cost, outstanding_commitments, budgets_of, quote_budgets, refresh_chain_cache,
  refresh_if_stale, Funds,
}
use inference_bazaar.Venue.Quote.{quoting_terms, quoting_signer, answer_quote, rfq_quote}
use inference_bazaar.Venue.Crossing.{IsCrossed, rfq_fill-IsCrossed}
use inference_bazaar.Venue.Quoting.{IsQuoted, rfq_quote-IsQuoted}
use inference_bazaar.Venue.Toy.{
  ctx, venue, offer, bid, offer_body, other_bid_body, cross_body, both,
}

program : Unit {0}
unfolding validate id_exists before insert_into insert_on side_of with_side crosses print
    reduce_maker trade round round_against match_loop start matched settle settle_on place_unique
    place cancel add_i64 sub_i64 wrap_i64 ◌+ℤ◌ ◌-ℤ◌ opposite new order_id address_hex order_digest
    instrument_hash recover_signer verify_order verify validate_pair cost_micro pair pair_sides
    buy_and_sell fill_cost_micro i64_of_u64 u64_of_i64 trim_0x digest sign_digest sign_order
    into_signed word_hex venue_of side_to_book remaining record_fill mm_side apply_inventory
    is_expired withdraw prune_expired pair_fill pair_book_fills vet_signed book_order_of after_book
    place_in place_signed price_on_tick max_qty qty_in_budget as_u64 vet_quote fund_quote
    refresh_chain_cache refresh_if_stale attribute crossed crossed_reply salt quote_order
    cross_orders rfq_fill is_live take_outbox requeue finish_flush flush_outbox flush_settlement
    queued_cost resting_cost outstanding_commitments budgets_of quote_budgets quoting_terms
    quoting_signer answer_quote rfq_quote rem_i64
program = tt

-- The venue in which the fill of both waits to be settled.
abbrev waiting : Venue
waiting = (rfq_fill toy 20 cross_body venue).0

-- An offer that rests in the book and is crossed outside it fills a second time in the book.
filled_twice :
    filled_of
      (word_hex 21)
      (place_signed toy 20 other_bid_body
        (rfq_fill toy 20 cross_body (place_signed toy 20 offer_body venue).0).0).0.signed
    ≡ 20
unfolding program
filled_twice = refl

rfq_fill-IsCrossed_example :
    IsCrossed toy 20 ctx
      (toy_signed offer)
      (toy_signed bid)
      venue
      (rfq_fill toy 20 cross_body venue).0
      (record {
        qty_tokens = 10;
        fill = both;
        maker_digest = word_hex 21;
        taker_digest = word_hex 11;
        outbox_len = 1;
      })
unfolding program
rfq_fill-IsCrossed_example =
    rfq_fill-IsCrossed toy 20 ctx cross_body "m" "m" (toy_signed offer) (toy_signed bid) venue
      (rfq_fill toy 20 cross_body venue).0
      (record {
        qty_tokens = 10;
        fill = both;
        maker_digest = word_hex 21;
        taker_digest = word_hex 11;
        outbox_len = 1;
      })
      refl refl refl (λ e. cc (ap (str_eq (word_hex 21)) e)) (omega arith) (omega arith)
      (omega arith) (omega arith) refl

-- An ask of 5_000_000_001.5, and funds that are read when the quote is asked for.
abbrev fractional : SidecarQuote
fractional = record { valid = true; bid = none; ask = some (finite false 10_000_000_003 1, 2_000) }

abbrev funded : Option Funds
funded = some (record { free_collateral = 5_000_000; balance = 0; penalty_bps = 0 })

-- The venue with an RPC address and a key.
abbrev reading : Venue
reading = record venue {
  settle = some (record ctx { rpc_url = some "rpc"; operator_key = some "key" });
}

abbrev firm_order : SignedOrder
firm_order =
    sign_order toy (record { key = 7; address = 7 })
      (record {
        instrument = instrument_hash toy "m";
        side = 1;
        price_micro_per_m = 5_000_000_005;
        qty_tokens = 999;
        lot_id = 0;
        trader = 7;
        expiry = 50;
        salt = salt toy 0 0;
      })
      toy_domain

-- It is rounded up to the tick of 5, and cut to the budget.
rfq_quote-IsQuoted_example :
    IsQuoted toy 20 "m" buy 9_000 fractional funded reading
      (rfq_quote toy 20 0 "m" buy 9_000 true (some fractional) funded reading).0
      firm_order
unfolding program
rfq_quote-IsQuoted_example =
    rfq_quote-IsQuoted toy 20 0 "m" buy 9_000 true fractional funded reading firm_order refl

-- The fraction of an ask is cut off: 100.5 at a tick of 1 is quoted at 100.
below_the_ask : vet_quote sell (finite false 201 1) 10 1 1 10 ≡ ok (100, 10)
unfolding program
below_the_ask = refl
