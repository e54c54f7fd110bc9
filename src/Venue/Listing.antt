-- ===== src/Venue/Listing.antt =====
-- operator/src/venue.rs: the markets of a venue, the legacy orders, and the demand for markets.
-- The journals of references and requests change no state that is modelled.
use inference_bazaar.Base.{
  ◌*◌, ◌/◌, ◌==◌, ◌-◌, ℕ, suc, String, str_eq, List, [], ◌∷◌, Option, none, some, Bool, true, false,
  leb, if◌then◌else◌, Result, ok, err, panic,
}
use Prim.Native.String
use inference_bazaar.Base.Int.{ℤ, negsuc, ◌+ℤ◌, pos, I64, wrap_i64}
use inference_bazaar.Base.Names.{find_name, drop_name, put_name}
use inference_bazaar.Base.Sets.{sort_by}
use inference_bazaar.Base.Text.{digits}
use inference_bazaar.OrderBook.Types.{Side, Order, Fill, BookSnapshot, PlaceOutcome, MatchError}
use inference_bazaar.OrderBook.Native.{NativeBook}
use inference_bazaar.OrderBook.Engine.{place, cancel, open_orders, snapshot}
use inference_bazaar.Clob.Types.{Instrument, add_u64}
use inference_bazaar.Venue.Types.{
  SignedState, InstrumentVenue, MarketDemand, Venue, VenueError, not_found, rejected_order,
  venue_of,
}
use inference_bazaar.Venue.Signed.{apply_inventory, with_market}

-- `format!("{prefix}-{n}")` of the next number.
unfoldable pub next_id : String → Venue → Venue × String
unfolding digits
next_id prefix b = (
  record b { seq = add_u64 b.seq 1 },
  String.◌++◌ prefix (String.◌++◌ "-" (digits 10 (suc b.seq) b.seq "")),
)

abbrev pub with_venue : String → InstrumentVenue → Venue → Venue
with_venue id v b = record b { venues = put_name id v b.venues }

-- A listing that is there stays as it is.
unfoldable pub register_instrument : Instrument → Venue → Venue
unfolding venue_of
register_instrument inst b = elim (find_name inst.id b.venues) [
  | none ↦ with_venue inst.id (venue_of inst) b
  | some v ↦ b
]

-- An order that is pulled leaves the book, the map, and the fill counts.
unfoldable pub pull : List Order → NativeBook × SignedState → NativeBook × SignedState
unfolding cancel
pull [] s = s
pull (o ∷ os) s = pull os (
  (cancel s.0 o.id).0,
  record s.1 { orders = drop_name o.id s.1.orders; filled = drop_name o.id s.1.filled },
)

unfoldable pub pull_quotes : String → InstrumentVenue → SignedState → InstrumentVenue × SignedState
unfolding pull open_orders
pull_quotes mm_owner v s =
    let (book, s') = pull (open_orders v.book mm_owner) (v.book, s) in
    (record v { book = book }, s')

unfoldable pub cancel_quotes : String → Venue → Venue
unfolding pull_quotes
cancel_quotes id b = elim (find_name id b.venues) [
  | none ↦ b
  | some v ↦ let (v', s) = pull_quotes b.mm_owner v b.signed in with_market id v' s b
]

unfoldable pub start_making : String → Venue → Venue × Result VenueError (Unit {0})
start_making id b = elim (find_name id b.venues) [
  | none ↦ (b, err (not_found id))
  | some v ↦ (with_venue id (record v { making = true }) b, ok tt)
]

unfoldable pub stop_making : String → Venue → Venue × Result VenueError (Unit {0})
unfolding cancel_quotes
stop_making id b = elim (find_name id b.venues) [
  | none ↦ (b, err (not_found id))
  | some v ↦ (cancel_quotes id (with_venue id (record v { making = false }) b), ok tt)
]

-- What a legacy order answers: its id, the fills, and how they are to be settled.
pub record SettlementIntent : Type 0 where
  pub order_id : String
  pub rail : String
  pub buyer : String
  pub operator : String
  pub qty_tokens : I64
  pub price : I64
  pub notional : I64

abbrev neg_of : ℕ → ℤ
neg_of n = if n == 0 then pos 0 else negsuc (n - 1)

abbrev product : ℤ → ℤ → ℤ
product (pos a) (pos b) = pos (a * b)
product (pos a) (negsuc b) = neg_of (a * suc b)
product (negsuc a) (pos b) = neg_of (suc a * b)
product (negsuc a) (negsuc b) = pos (suc a * suc b)

-- A division that rounds towards zero.
abbrev per_million : ℤ → ℤ
per_million (pos n) = pos (n / 1_000_000)
per_million (negsuc n) = neg_of (suc n / 1_000_000)

-- Price times quantity per million tokens, rounded half up in `i128`.
unfoldable pub notional_micro : Fill → I64
unfolding wrap_i64
notional_micro f = wrap_i64 (per_million (product f.price f.qty +ℤ pos 500_000))

-- Buyer and operator of a print; `none` between the operator's own orders.
unfoldable pub parties : String → Fill → Option (String × String)
parties mm_owner f =
    if str_eq f.maker_owner mm_owner
    then (if str_eq f.taker_owner mm_owner then none else some (f.taker_owner, f.maker_owner))
    else if str_eq f.taker_owner mm_owner
    then some (f.maker_owner, f.taker_owner)
    else some (f.taker_owner, f.maker_owner)

unfoldable pub settlement_intents : String → String → List Fill → List SettlementIntent
unfolding parties notional_micro
settlement_intents rail mm_owner [] = []
settlement_intents rail mm_owner (f ∷ fs) =
    let rest = settlement_intents rail mm_owner fs in
    elim (parties mm_owner f) [
      | none ↦ rest
      | some (buyer, operator) ↦
          record {
            order_id = f.taker_order_id;
            rail = rail;
            buyer = buyer;
            operator = operator;
            qty_tokens = f.qty;
            price = f.price;
            notional = notional_micro f;
          }
          ∷ rest
    ]

pub record LegacyPlaced : Type 0 where
  pub order_id : String
  pub fills : List Fill
  pub resting : Option Order
  pub settlements : List SettlementIntent
  pub inventory_tokens : I64

-- The venue when the book has taken a legacy order, or refused it.
unfoldable pub after_legacy :
    String
    → String
    → String
    → InstrumentVenue
    → Venue
    → NativeBook × Result MatchError PlaceOutcome
    → Venue × Result VenueError LegacyPlaced
unfolding apply_inventory settlement_intents
after_legacy id order_id rail v b (book, err e) =
    (with_venue id (record v { book = book }) b, err (rejected_order e))
after_legacy id order_id rail v b (book, panic) =
    (with_venue id (record v { book = book }) b, panic)
after_legacy id order_id rail v b (book, ok out) =
    let v' = apply_inventory b.mm_owner out.fills (record v { book = book }) in
    (
      with_venue id v' b,
      ok (record {
        order_id = order_id;
        fills = out.fills;
        resting = out.resting;
        settlements = settlement_intents rail b.mm_owner out.fills;
        inventory_tokens = v'.inventory_tokens;
      }),
    )

-- An order without a signature, which is numbered before its market is looked up.
unfoldable pub place_legacy :
    String
    → Side
    → I64
    → I64
    → String
    → (rail : String) → Venue
    → Venue × Result VenueError LegacyPlaced
unfolding next_id place after_legacy
place_legacy id side price qty owner rail b =
    let (b1, order_id) = next_id "ord" b in
    let b2 = record b1 { seq = add_u64 b1.seq 1 } in
    elim (find_name id b2.venues) [
      | none ↦ (b2, err (not_found id))
      | some v ↦ after_legacy id order_id rail v b2 (
          place v.book (record {
            id = order_id;
            instrument_id = id;
            side = side;
            price = price;
            qty = qty;
            owner = owner;
            ts = wrap_i64 (pos b1.seq);
          }))
    ]

unfoldable pub cancel_order : String → String → Venue → Venue × Result VenueError Bool
unfolding cancel
cancel_order id order_id b = elim (find_name id b.venues) [
  | none ↦ (b, err (not_found id))
  | some v ↦
      let (book, found) = cancel v.book order_id in
      (with_venue id (record v { book = book }) b, ok found)
]

unfoldable pub venue_snapshot : String → Venue → Result VenueError (BookSnapshot × I64)
unfolding snapshot
venue_snapshot id b = elim (find_name id b.venues) [
  | none ↦ err (not_found id)
  | some v ↦ ok (snapshot v.book 10, v.inventory_tokens)
]

abbrev demand_of : Option MarketDemand → MarketDemand
demand_of none = record { count = 0; last_ts = 0 }
demand_of (some d) = d

unfoldable pub record_market_request : ℕ → String → String → Venue → Venue
record_market_request now model kind b =
    let id = String.◌++◌ model (String.◌++◌ ":" kind) in
    let d = demand_of (find_name id b.market_requests) in
    record b {
      market_requests =
          put_name id (record { count = add_u64 d.count 1; last_ts = now }) b.market_requests;
    }

-- The most wanted first.
unfoldable pub market_requests_rows : Venue → List (String × MarketDemand)
unfolding sort_by
market_requests_rows b = sort_by (λ p q. leb q.1.count p.1.count) b.market_requests
