-- ===== src/Venue/Types.antt =====
-- operator/src/venue.rs, market.rs: the state of an operator's venue and its errors.
-- The floating-point fields (reference price, drawdown, quoting overrides) are left out.
use inference_bazaar.Base.{ℕ, String, List, Option, Bool, true}
use inference_bazaar.Base.Int.{I64, pos}
use inference_bazaar.Settlement.Types.{Address, Eip712Domain}
use inference_bazaar.Settlement.Fills.{SignedOrder, SignedFill, Signer}
use inference_bazaar.OrderBook.Types.{MatchError}
use inference_bazaar.OrderBook.Native.{NativeBook, new}
use inference_bazaar.Clob.Types.{Instrument, SignedOrderBody, PoolError}

-- What settlement is bound to: the domain, the attester's signer, and where to submit.
pub record SettleCtx : Type 0 where
  pub domain : Eip712Domain
  pub signer : Option Signer
  pub contract : Address
  pub rpc_url : Option String
  pub operator_key : Option String
  pub submitter_key : Option String
  pub rfq_ttl_secs : ℕ
  pub from_block : ℕ

pub record SignedEntry : Type 0 where
  pub instrument_id : String
  pub signed : SignedOrder

-- By digest: the signed orders, and how much of each has filled here; and the fills to submit.
pub record SignedState : Type 0 where
  pub orders : List (String × SignedEntry)
  pub filled : List (String × ℕ)
  pub outbox : List SignedFill

pub record InstrumentVenue : Type 0 where
  pub listing : Instrument
  pub book : NativeBook
  pub inventory_tokens : I64
  pub making : Bool

-- The last known funding on the chain; never fetched when `fetched_at` is 0.
pub record ChainCache : Type 0 where
  pub free_collateral_micro : ℕ
  pub balance_micro : ℕ
  pub penalty_bps : ℕ
  pub fetched_at : ℕ

-- How often a market was asked for, and when last.
pub record MarketDemand : Type 0 where
  pub count : ℕ
  pub last_ts : ℕ

pub record Venue : Type 0 where
  -- The instruments of the boot configuration.
  pub configured : List Instrument
  pub venues : List (String × InstrumentVenue)
  pub seq : ℕ
  pub settle : Option SettleCtx
  pub signed : SignedState
  pub mm_owner : String
  pub chain_cache : ChainCache
  pub attester_only : Bool
  pub market_requests : List (String × MarketDemand)

pub data VenueError : Type 0 where
  not_found : String → VenueError
  rejected_body : PoolError → VenueError
  rejected_order : MatchError → VenueError
  bad_order_signature order_expired_here fully_filled : VenueError
  bad_side : ℕ → VenueError
  other_instrument no_remaining : VenueError
  unsettleable settlement_unconfigured attester_only_node no_liquidity price_out_of_range
        price_rounds_to_zero below_minimum insufficient_funding no_reference sidecar_error
        chain_error :
      VenueError

-- A double: with its sign, a natural number over a power of two; or none.
pub data F64 : Type 0 where
  finite : (negative : Bool) → (mantissa denominator_exponent : ℕ) → F64
  infinite : (negative : Bool) → F64
  nan : F64

-- A quote of the sidecar, price and size of each side, the size after its rounding to `u64`.
pub record SidecarQuote : Type 0 where
  pub valid : Bool
  pub bid : Option (F64 × ℕ)
  pub ask : Option (F64 × ℕ)

pub record RfqFillBody : Type 0 where
  pub maker : SignedOrderBody
  pub taker : SignedOrderBody

-- A market as it is listed.
unfoldable pub venue_of : Instrument → InstrumentVenue
unfolding new
venue_of inst = record {
  listing = inst;
  book = new inst.id inst.tick_size inst.min_qty;
  inventory_tokens = pos 0;
  making = true;
}
