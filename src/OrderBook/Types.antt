-- ===== src/OrderBook/Types.antt =====
-- crates/orderbook/src/types.rs: orders, prints, snapshots and errors.
use inference_bazaar.Base.{ℕ, String, List, Option}
use inference_bazaar.Base.Int.{I64}

pub data Side : Type 0 where
  buy sell : Side

unfoldable pub opposite : Side → Side
opposite buy = sell
opposite sell = buy

pub record Order : Type 0 where
  pub id : String
  pub instrument_id : String
  pub side : Side
  pub price : I64
  pub qty : I64
  pub owner : String
  pub ts : I64

pub record Fill : Type 0 where
  pub instrument_id : String
  pub maker_order_id : String
  pub taker_order_id : String
  pub maker_owner : String
  pub taker_owner : String
  pub price : I64
  pub qty : I64
  pub taker_side : Side
  pub ts : I64

pub record PlaceOutcome : Type 0 where
  pub fills : List Fill
  pub resting : Option Order

pub record BookLevel : Type 0 where
  pub price : I64
  pub qty : I64
  pub orders : ℕ

pub record BookSnapshot : Type 0 where
  pub instrument_id : String
  pub bids : List BookLevel
  pub asks : List BookLevel
  pub last_trade_price : Option I64

pub data MatchError : Type 0 where
  wrong_instrument : (expected got : String) → MatchError
  invalid_price : I64 → MatchError
  off_tick : (price tick : I64) → MatchError
  below_min_qty : (qty min : I64) → MatchError
  duplicate_id : String → MatchError
