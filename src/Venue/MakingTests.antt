-- ===== src/Venue/MakingTests.antt =====
-- operator/src/venue.rs: runs of the venue's calls, and its theorems at small states.
use inference_bazaar.Base.{
  ◌+◌, ◌^◌, length, List, map, String, ◌≤◌, ◌≡◌, refl, [], ◌∷◌, some, none, true, arith,
}
use inference_bazaar.Base.Int.{pos, add_i64, sub_i64, wrap_i64, rem_i64, ◌+ℤ◌, ◌-ℤ◌}
use inference_bazaar.Base.Text.{word_hex, order_id, address_hex, trim_0x}
use inference_bazaar.Settlement.Types.{be_bytes}
use inference_bazaar.Settlement.Core.{
  order_digest, instrument_hash, recover_signer, verify_order, validate_pair, cost_micro,
}
use inference_bazaar.Settlement.Fills.{
  verify, digest, sign_digest, sign_order, pair, pair_sides, buy_and_sell, fill_cost_micro,
}
use inference_bazaar.Settlement.Toy.{toy}
use inference_bazaar.OrderBook.Types.{buy, sell, opposite}
use inference_bazaar.OrderBook.Native.{
  new, validate, id_exists, before, insert_into, insert_on, side_of, with_side,
}
use inference_bazaar.OrderBook.Engine.{
  crosses, print, reduce_maker, trade, round, round_against, match_loop, start, matched, settle,
  settle_on, place_unique, place, open_orders, cancel,
}
use inference_bazaar.Matcher.Epoch.{i64_of_u64, u64_of_i64}
use inference_bazaar.Clob.Pool.{into_signed}
use inference_bazaar.Venue.Types.{Venue, venue_of}
use inference_bazaar.Venue.Signed.{
  side_to_book, remaining, record_fill, mm_side, apply_inventory, is_expired, withdraw,
  prune_expired, pair_fill, pair_book_fills, vet_signed, book_order_of, after_book, place_in,
  place_signed,
}
use inference_bazaar.Venue.Rfq.{
  price_on_tick, max_qty, qty_in_budget, as_u64, vet_quote, fund_quote, attribute, crossed,
  crossed_reply, salt, quote_order, cross_orders, rfq_fill,
}
use inference_bazaar.Venue.Outbox.{
  is_live, take_outbox, requeue, finish_flush, flush_outbox, flush_settlement, queued_cost,
  resting_cost, outstanding_commitments, budgets_of, quote_budgets,
}
use inference_bazaar.Venue.Quote.{quoting_terms, quoting_signer, answer_quote, rfq_quote}
use inference_bazaar.Venue.Toy.{venue, offer_body, bid_body}
use inference_bazaar.Base.Names.{find_name}
use inference_bazaar.Venue.Types.{InstrumentVenue}
use inference_bazaar.Venue.Listing.{
  next_id, register_instrument, pull, pull_quotes, cancel_quotes, start_making, stop_making,
  parties, settlement_intents, after_legacy, place_legacy,
}
use inference_bazaar.Venue.Making.{
  through_f64, Rung, LadderQuote, cut_rung, after_rung, signed_mm_quote, named_quote, place_rung,
  place_ladder, finish_tick, requote, tick_market, mm_tick,
}
use inference_bazaar.Venue.Laddering.{ladder_cost}
use inference_bazaar.Venue.Ticks.{mm_tick-IsFunded}
use inference_bazaar.Venue.Pulling.{IsStopped, stop_making-IsStopped}
use inference_bazaar.Venue.Ticking.{mm_tick-HasBooks}
use inference_bazaar.Venue.Books.{HasBooks, new-IsBook, put-HasBooks}
use inference_bazaar.Venue.Steps.{signed_in, begun, and_then, venue_step, VenueRun-HasBooks}

program : Unit {0}
unfolding validate id_exists before insert_into insert_on side_of with_side crosses print
    reduce_maker trade round round_against match_loop start matched settle settle_on place_unique
    place cancel add_i64 sub_i64 wrap_i64 ◌+ℤ◌ ◌-ℤ◌ opposite new order_id address_hex order_digest
    instrument_hash recover_signer verify_order verify validate_pair cost_micro pair pair_sides
    buy_and_sell fill_cost_micro i64_of_u64 u64_of_i64 trim_0x digest sign_digest sign_order
    into_signed word_hex venue_of side_to_book remaining record_fill mm_side apply_inventory
    is_expired withdraw prune_expired pair_fill pair_book_fills vet_signed book_order_of after_book
    place_in place_signed price_on_tick max_qty qty_in_budget as_u64 vet_quote fund_quote attribute
    crossed crossed_reply salt quote_order cross_orders rfq_fill is_live take_outbox requeue
    finish_flush flush_outbox flush_settlement queued_cost resting_cost outstanding_commitments
    budgets_of quote_budgets quoting_terms quoting_signer answer_quote rfq_quote rem_i64 next_id
    register_instrument pull pull_quotes cancel_quotes start_making stop_making parties
    settlement_intents after_legacy place_legacy cut_rung after_rung signed_mm_quote named_quote
    place_rung place_ladder finish_tick requote tick_market mm_tick venue_step open_orders be_bytes
program = tt

-- Two rungs on the ask side, of which the budget pays for the first and a part of the second.
abbrev ladder : LadderQuote
ladder = record {
  valid = true;
  rungs = (sell, (4_000_000_000, 1_000)) ∷ (sell, (5_000_000_000, 1_000)) ∷ [];
}

abbrev pegged : List Rung
pegged = (sell, (4_000_000_000, 1_000)) ∷ (sell, (5_000_000_000, 199)) ∷ []

mm_tick-IsFunded_example :
    (ladder_cost sell pegged ≤ 5_000_000) × (ladder_cost buy pegged ≤ 5_000_000)
unfolding program
mm_tick-IsFunded_example =
    mm_tick-IsFunded toy 20 0 "m" true ladder venue 5_000_000 5_000_000 pegged
      ((omega arith, omega arith), ((omega arith, omega arith), tt)) refl refl

-- Making stops in a market where the operator has quoted.
abbrev quoting : Venue
quoting = (mm_tick toy 20 0 "m" true (some ladder) venue).0

abbrev quoted_market : InstrumentVenue
quoted_market = elim (find_name "m" quoting.venues) [
  | none ↦ venue_of (record { id = "m"; tick_size = pos 5; min_qty = pos 1 })
  | some v ↦ v
]

venue-HasBooks : HasBooks venue.venues
unfolding program
venue-HasBooks =
    put-HasBooks "m" (venue_of (record { id = "m"; tick_size = pos 5; min_qty = pos 1 })) []
      (λ id v e. cc)
      (new-IsBook (record { id = "m"; tick_size = pos 5; min_qty = pos 1 }) (omega arith))

quoting-HasBooks : HasBooks quoting.venues
unfolding program
quoting-HasBooks = mm_tick-HasBooks toy 20 0 "m" true (some ladder) venue venue-HasBooks

stop_making-IsStopped_example : IsStopped "m" quoted_market quoting (stop_making "m" quoting).0
unfolding program
stop_making-IsStopped_example =
    stop_making-IsStopped "m" quoted_market quoting refl (quoting-HasBooks "m" quoted_market refl)

two_calls : Venue
two_calls =
    venue_step toy 21 0 (signed_in bid_body) (venue_step toy 20 0 (signed_in offer_body) venue)

VenueRun-HasBooks_example : HasBooks two_calls.venues
unfolding two_calls
VenueRun-HasBooks_example =
    VenueRun-HasBooks toy venue two_calls
      (and_then 21 0 (signed_in bid_body) (and_then 20 0 (signed_in offer_body) begun tt) tt)
      venue-HasBooks

-- A tick whose first rung trades and whose second is off the tick: the book has printed, and the
-- print is queued nowhere.
abbrev refused_ladder : LadderQuote
refused_ladder = record { valid = true; rungs = (buy, (100, 10)) ∷ (buy, (3, 10)) ∷ [] }

abbrev after_refusal : Venue
after_refusal =
    (mm_tick toy 20 0 "m" true (some refused_ladder) (place_signed toy 20 offer_body venue).0).0

print_lost :
    (map
        (λ (p : String × InstrumentVenue). length p.1.book.asks)
        (place_signed toy 20 offer_body venue).0.venues
      ≡ 1 ∷ [])
    × (map (λ (p : String × InstrumentVenue). p.1.book.asks) after_refusal.venues ≡ [] ∷ [])
    × (after_refusal.signed.outbox ≡ [])
unfolding program
print_lost = (refl, refl, refl)

-- A size that a double does not hold grows.
rounded_up : through_f64 (2 ^ 53 + 3) ≡ 2 ^ 53 + 4
unfolding through_f64
rounded_up = refl
