-- ===== src/Venue/Steps.antt =====
-- operator/src/venue.rs, market.rs: the calls that change a venue, as the steps of a run, and that
-- they all keep its books.
use inference_bazaar.Base.{ℕ, sym, subst, String, List, Option, Bool, inl, inr, Option-cases}
use inference_bazaar.Base.Int.{pos, I64, InI64, ◌<ℤ◌}
use inference_bazaar.Settlement.Types.{Crypto}
use inference_bazaar.Settlement.Fills.{SignedFill}
use inference_bazaar.OrderBook.Types.{Side}
use inference_bazaar.Clob.Types.{Instrument, SignedOrderBody}
use inference_bazaar.Venue.Types.{Venue, SidecarQuote, RfqFillBody}
use inference_bazaar.Venue.Signed.{place_signed}
use inference_bazaar.Venue.Rfq.{rfq_fill}
use inference_bazaar.Venue.Outbox.{Funds, refresh_chain_cache, Answer, flush_settlement}
use inference_bazaar.Venue.Quote.{rfq_quote}
use inference_bazaar.Venue.Quoting.{refresh_chain_cache-IsRenumbered, rfq_quote-IsRenumbered}
use inference_bazaar.Venue.Listing.{
  register_instrument, start_making, stop_making, place_legacy, cancel_order, record_market_request,
}
use inference_bazaar.Venue.Making.{LadderQuote, mm_tick}
use inference_bazaar.Venue.Books.{
  HasBooks, register_instrument-HasBooks, stop_making-HasBooks, start_making-HasBooks,
  cancel_order-HasBooks, place_legacy-HasBooks,
}
use inference_bazaar.Venue.Placing.{place_signed-HasBooks, rfq_fill-HasBooks}
use inference_bazaar.Venue.Ticking.{mm_tick-HasBooks}

pub data VenueCall : Type 0 where
  list_instrument : Instrument → VenueCall
  signed_in : SignedOrderBody → VenueCall
  legacy_in : String → Side → (price qty : I64) → (owner rail : String) → VenueCall
  cancel_in : (id order_id : String) → VenueCall
  quote_in :
      (id : String)
      → Side
      → (wanted : ℕ) → (has_reference : Bool) → Option SidecarQuote
      → Option Funds
      → VenueCall
  refresh : Option Funds → VenueCall
  fill_in : RfqFillBody → VenueCall
  tick : (id : String) → (has_reference : Bool) → Option LadderQuote → VenueCall
  start stop : (id : String) → VenueCall
  flush : Answer → List SignedFill → VenueCall
  request : (model kind : String) → VenueCall

-- The venue after a call at a time.
unfoldable pub venue_step : Crypto → ℕ → ℕ → VenueCall → Venue → Venue
unfolding register_instrument place_signed place_legacy cancel_order rfq_quote refresh_chain_cache
    rfq_fill mm_tick start_making stop_making flush_settlement record_market_request
venue_step c now nanos (list_instrument inst) b = register_instrument inst b
venue_step c now nanos (signed_in body) b = (place_signed c now body b).0
venue_step c now nanos (legacy_in id side price qty owner rail) b =
    (place_legacy id side price qty owner rail b).0
venue_step c now nanos (cancel_in id order_id) b = (cancel_order id order_id b).0
venue_step c now nanos (quote_in id side wanted has_reference sidecar funds) b =
    (rfq_quote c now nanos id side wanted has_reference sidecar funds b).0
venue_step c now nanos (refresh funds) b = refresh_chain_cache now funds b
venue_step c now nanos (fill_in body) b = (rfq_fill c now body b).0
venue_step c now nanos (tick id has_reference sidecar) b =
    (mm_tick c now nanos id has_reference sidecar b).0
venue_step c now nanos (start id) b = (start_making id b).0
venue_step c now nanos (stop id) b = (stop_making id b).0
venue_step c now nanos (flush a arrived) b = (flush_settlement now a arrived b).0
venue_step c now nanos (request model kind) b = record_market_request now model kind b

-- What a call brings in: a listing with a positive minimum, a quantity of 64 bits.
abbrev pub IsCall : VenueCall → Type 0
IsCall (list_instrument inst) = pos 0 <ℤ inst.min_qty
IsCall (signed_in body) = Unit
IsCall (legacy_in id side price qty owner rail) = InI64 qty
IsCall (cancel_in id order_id) = Unit
IsCall (quote_in id side wanted has_reference sidecar funds) = Unit
IsCall (refresh funds) = Unit
IsCall (fill_in body) = Unit
IsCall (tick id has_reference sidecar) = Unit
IsCall (start id) = Unit
IsCall (stop id) = Unit
IsCall (flush a arrived) = Unit
IsCall (request model kind) = Unit

-- Runs of calls, at times of the clocks.
pub data VenueRun (c : Crypto) : Venue → Venue → Type 0 where
  begun : {b : Venue} → VenueRun c b b
  and_then :
      {a b : Venue} (now nanos : ℕ) (call : VenueCall)
      → VenueRun c a b
      → IsCall call
      → VenueRun c a (venue_step c now nanos call b)

module _ (c : Crypto) where
  rfq_quote-HasBooks :
      (now nanos : ℕ) (id : String) (side : Side) (wanted : ℕ) (has_reference : Bool)
      (sidecar : Option SidecarQuote) (funds : Option Funds) (b : Venue)
      → HasBooks b.venues
      → HasBooks (rfq_quote c now nanos id side wanted has_reference sidecar funds b).0.venues
  rfq_quote-HasBooks now nanos id side wanted has_reference sidecar funds b h =
      subst (λ (x : Venue). HasBooks x.venues)
        (sym (rfq_quote-IsRenumbered c now nanos id side wanted has_reference sidecar funds b).same)
        h

  flush_settlement-HasBooks :
      (now : ℕ) (a : Answer) (arrived : List SignedFill) (b : Venue)
      → HasBooks b.venues
      → HasBooks (flush_settlement now a arrived b).0.venues
  unfolding flush_settlement
  flush_settlement-HasBooks now a arrived b h = elim (Option-cases b.settle) [
    | inl e ↦ rw (e, flush_settlement) h
    | inr (ctx, e) ↦ rw (e, flush_settlement) h
  ]

  venue_step-HasBooks :
      (now nanos : ℕ) (call : VenueCall) (b : Venue)
      → IsCall call
      → HasBooks b.venues
      → HasBooks (venue_step c now nanos call b).venues
  unfolding venue_step record_market_request
  venue_step-HasBooks now nanos (list_instrument inst) b q h =
      register_instrument-HasBooks inst b q h
  venue_step-HasBooks now nanos (signed_in body) b q h = place_signed-HasBooks c now body b h
  venue_step-HasBooks now nanos (legacy_in id side price qty owner rail) b q h =
      place_legacy-HasBooks id side price qty owner rail b q h
  venue_step-HasBooks now nanos (cancel_in id order_id) b q h =
      cancel_order-HasBooks id order_id b h
  venue_step-HasBooks now nanos (quote_in id side wanted has_reference sidecar funds) b q h =
      rfq_quote-HasBooks now nanos id side wanted has_reference sidecar funds b h
  venue_step-HasBooks now nanos (refresh funds) b q h =
      subst (λ (x : Venue). HasBooks x.venues)
        (sym (refresh_chain_cache-IsRenumbered now funds b).same) h
  venue_step-HasBooks now nanos (fill_in body) b q h = rfq_fill-HasBooks c now body b h
  venue_step-HasBooks now nanos (tick id has_reference sidecar) b q h =
      mm_tick-HasBooks c now nanos id has_reference sidecar b h
  venue_step-HasBooks now nanos (start id) b q h = start_making-HasBooks id b h
  venue_step-HasBooks now nanos (stop id) b q h = stop_making-HasBooks id b h
  venue_step-HasBooks now nanos (flush a arrived) b q h =
      flush_settlement-HasBooks now a arrived b h
  venue_step-HasBooks now nanos (request model kind) b q h = h

  -- In every run of calls, whatever they bring in and however they end, the books of all markets
  -- stay well-formed: sorted, with distinct ids, positive prices and quantities, and uncrossed.
  -- Listings have a positive minimum, and quantities without a signature are of 64 bits.
  pub VenueRun-HasBooks : (a b : Venue) → VenueRun c a b → HasBooks a.venues → HasBooks b.venues
  VenueRun-HasBooks a b begun h = h
  VenueRun-HasBooks a b (and_then now nanos call run q) h =
      venue_step-HasBooks now nanos call _ q (VenueRun-HasBooks a _ run h)
