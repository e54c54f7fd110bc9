-- ===== src/Venue/Toy.antt =====
-- A small venue, its settlement context and two orders, at which the theorems are tried.
use inference_bazaar.Base.{[], ◌∷◌, some, none, false}
use inference_bazaar.Base.Int.{pos}
use inference_bazaar.Settlement.Types.{Order}
use inference_bazaar.Settlement.Fills.{SignedFill}
use inference_bazaar.Settlement.Toy.{toy_domain, toy_order, toy_signed}
use inference_bazaar.Clob.Types.{SignedOrderBody}
use inference_bazaar.Venue.Types.{SettleCtx, Venue, RfqFillBody, venue_of}

abbrev pub ctx : SettleCtx
ctx = record {
  domain = toy_domain;
  signer = some (record { key = 7; address = 7 });
  contract = 9;
  rpc_url = none;
  operator_key = none;
  submitter_key = none;
  rfq_ttl_secs = 30;
  from_block = 0;
}

-- A venue of one market, which its operator, of address 7, can fund with 5 dollars on each side.
abbrev pub venue : Venue
venue = record {
  configured = record { id = "m"; tick_size = pos 5; min_qty = pos 1 } ∷ [];
  venues = ("m", venue_of (record { id = "m"; tick_size = pos 5; min_qty = pos 1 })) ∷ [];
  seq = 0;
  settle = some ctx;
  signed = record { orders = []; filled = []; outbox = [] };
  mm_owner = "mm";
  chain_cache = record {
    free_collateral_micro = 5_000_000;
    balance_micro = 5_000_000;
    penalty_bps = 0;
    fetched_at = 1;
  };
  attester_only = false;
  market_requests = [];
}

abbrev pub offer : Order
offer = toy_order 1 100 10 2 21

abbrev pub bid : Order
bid = toy_order 0 100 10 1 11

-- A signature text recovers to its length.
abbrev pub offer_body : SignedOrderBody
offer_body = record { instrument_id = "m"; order = offer; signature = "0xab" }

abbrev pub bid_body : SignedOrderBody
bid_body = record { instrument_id = "m"; order = bid; signature = "0xa" }

abbrev pub other_bid_body : SignedOrderBody
other_bid_body = record {
  instrument_id = "m";
  order = toy_order 0 100 10 3 31;
  signature = "0xabc";
}

abbrev pub cross_body : RfqFillBody
cross_body = record { maker = offer_body; taker = bid_body }

abbrev pub both : SignedFill
both = record {
  buy = toy_signed bid;
  sell = toy_signed offer;
  qty_tokens = 10;
  exec_price_micro_per_m = 100;
}
