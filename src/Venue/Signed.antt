-- ===== src/Venue/Signed.antt =====
-- operator/src/market.rs, venue.rs: signed firm orders in the book, the join of prints to their
-- signed orders, and the operator's inventory.
-- The clock is read once in each call; writing the outbox to its file changes no state.
use inference_bazaar.Base.{
  ℕ, ◌+◌, ◌-◌, String, str_eq, List, [], ◌∷◌, ◌++◌, map, Option, none, some, Bool, not, ◌&&◌, ltb,
  ◌==◌, if◌then◌else◌, select, length, Result, ok, err, panic,
}
use inference_bazaar.Base.Int.{pos, I64, wrap_i64, add_i64, sub_i64, eqb_ℤ}
use inference_bazaar.Base.Names.{find_name, drop_name, put_name}
use inference_bazaar.Base.Text.{word_hex, address_hex}
use inference_bazaar.Settlement.Types.{Crypto, Order, Eip712Domain, side_buy, side_sell}
use inference_bazaar.Settlement.Fills.{SignedOrder, SignedFill, digest, verify, pair}
use inference_bazaar.OrderBook.Types.{Side, buy, sell, opposite, Fill, PlaceOutcome, MatchError}
use inference_bazaar.OrderBook.Types.{Order as BookOrder}
use inference_bazaar.OrderBook.Native.{NativeBook}
use inference_bazaar.OrderBook.Engine.{place, cancel}
use inference_bazaar.Matcher.Epoch.{u64_of_i64}
use inference_bazaar.Clob.Types.{add_u64, SignedOrderBody}
use inference_bazaar.Clob.Pool.{into_signed}
use inference_bazaar.Venue.Types.{
  SettleCtx, SignedEntry, SignedState, InstrumentVenue, Venue, VenueError, not_found, rejected_body,
  rejected_order, bad_order_signature, order_expired_here, fully_filled, bad_side,
  settlement_unconfigured,
}

unfoldable pub side_to_book : ℕ → Option Side
side_to_book side =
    if side == side_buy then some buy else if side == side_sell then some sell else none

abbrev pub or_none : Option ℕ → ℕ
or_none none = 0
or_none (some n) = n

-- `filled`, at an order's digest.
abbrev pub filled_of : String → SignedState → ℕ
filled_of d s = or_none (find_name d s.filled)

unfoldable pub remaining : String → Order → SignedState → ℕ
remaining d order s = order.qty_tokens - filled_of d s

abbrev pub add_filled : String → ℕ → SignedState → SignedState
add_filled d qty s = record s { filled = put_name d (add_u64 (filled_of d s) qty) s.filled }

abbrev pub queue : SignedFill → SignedState → SignedState
queue f s = record s { outbox = s.outbox ++ f ∷ [] }

-- A fill is recorded on both orders and queued.
unfoldable pub record_fill : String → String → ℕ → SignedFill → SignedState → SignedState
record_fill maker taker qty fill s = queue fill (add_filled taker qty (add_filled maker qty s))

-- The operator's side of a print, if it has one.
unfoldable pub mm_side : String → Fill → Option Side
mm_side mm_owner f =
    if str_eq f.maker_owner mm_owner
    then some (opposite f.taker_side)
    else if str_eq f.taker_owner mm_owner
    then some f.taker_side
    else none

abbrev pub signed_qty : Side → I64 → I64
signed_qty buy qty = qty
signed_qty sell qty = sub_i64 (pos 0) qty

unfoldable pub apply_inventory : String → List Fill → InstrumentVenue → InstrumentVenue
unfolding mm_side
apply_inventory mm_owner [] v = v
apply_inventory mm_owner (f ∷ fs) v = apply_inventory mm_owner fs (elim (mm_side mm_owner f) [
  | none ↦ v
  | some side ↦ record v { inventory_tokens = add_i64 v.inventory_tokens (signed_qty side f.qty) }
])

-- An entry of the instrument that has expired.
unfoldable pub is_expired : String → ℕ → String × SignedEntry → Bool
is_expired instrument_id now q =
    str_eq q.1.instrument_id instrument_id && ltb q.1.signed.order.expiry now

-- Each listed order leaves the book, the map, and the fill counts.
unfoldable pub withdraw : List String → SignedState × NativeBook → SignedState × NativeBook
unfolding cancel
withdraw [] s = s
withdraw (d ∷ ds) s = withdraw ds (
  record s.0 { orders = drop_name d s.0.orders; filled = drop_name d s.0.filled },
  (cancel s.1 d).0,
)

unfoldable pub prune_expired : String → ℕ → SignedState × NativeBook → SignedState × NativeBook
unfolding withdraw is_expired
prune_expired instrument_id now s =
    withdraw (map (λ q. q.0) (select (is_expired instrument_id now) s.0.orders)) s

-- What a placement answers: the fills, how many of them were joined, and what is left of it.
pub record Placed : Type 0 where
  pub order_digest : String
  pub fills : List Fill
  pub signed_fills : ℕ
  pub resting : Option BookOrder
  pub outbox_len : ℕ
  pub inventory_tokens : I64

abbrev pub with_market : String → InstrumentVenue → SignedState → Venue → Venue
with_market id v s b = record b { venues = put_name id v b.venues; signed = s }

module _ (c : Crypto) where
  -- One print: joined when both orders are known and pair to a valid fill.
  unfoldable pub pair_fill : Eip712Domain → ℕ → Fill → SignedState → SignedState × ℕ
  unfolding pair record_fill u64_of_i64
  pair_fill dom now f s = elim (find_name f.maker_order_id s.orders) [
    | none ↦ (s, 0)
    | some maker ↦ elim (find_name f.taker_order_id s.orders) [
      | none ↦ (s, 0)
      | some taker ↦ elim (pair c maker.signed taker.signed (u64_of_i64 f.qty) now dom) [
        | ok fill ↦ (record_fill f.maker_order_id f.taker_order_id (u64_of_i64 f.qty) fill s, 1)
        | err e ↦ (s, 0)
        | panic ↦ (s, 0)
      ]
    ]
  ]

  unfoldable pub pair_book_fills : Eip712Domain → ℕ → List Fill → SignedState → SignedState × ℕ
  unfolding pair_fill
  pair_book_fills dom now [] s = (s, 0)
  pair_book_fills dom now (f ∷ fs) s =
      let (s', n) = pair_fill dom now f s in
      let (s'', m) = pair_book_fills dom now fs s' in (s'', n + m)

  -- What is refused before any state is read.
  unfoldable pub vet_signed : ℕ → SettleCtx → SignedOrder → Result VenueError Side
  unfolding verify side_to_book
  vet_signed now ctx so =
      if not (verify c so ctx.domain)
      then err bad_order_signature
      else if ltb so.order.expiry now
      then err order_expired_here
      else elim (side_to_book so.order.side) [
        | none ↦ err (bad_side so.order.side)
        | some side ↦ ok side
      ]

  -- The signed order as the book takes it: what remains of it, under its digest.
  unfoldable pub book_order_of : String → Side → SignedOrder → ℕ → SignedState → String → BookOrder
  unfolding remaining address_hex
  book_order_of instrument_id side so seq s d = record {
    id = d;
    instrument_id = instrument_id;
    side = side;
    price = wrap_i64 (pos so.order.price_micro_per_m);
    qty = wrap_i64 (pos (remaining d so.order s));
    owner = address_hex so.order.trader;
    ts = wrap_i64 (pos seq);
  }

  -- The venue when the book has taken the order.
  unfoldable pub after_book :
      ℕ
      → SettleCtx
      → String
      → String
      → SignedOrder
      → InstrumentVenue
      → SignedState
      → Venue
      → NativeBook × Result MatchError PlaceOutcome
      → Venue × Result VenueError Placed
  unfolding pair_book_fills apply_inventory
  after_book now ctx id d so v s b (book, ok out) =
      let s1 = record s {
        orders = put_name d (record { instrument_id = id; signed = so }) s.orders;
      } in
      let (s2, paired) = pair_book_fills ctx.domain now out.fills s1 in
      let v1 = apply_inventory b.mm_owner out.fills (record v { book = book }) in
      (
        with_market id v1 s2 b,
        ok (record {
          order_digest = d;
          fills = out.fills;
          signed_fills = paired;
          resting = out.resting;
          outbox_len = length s2.outbox;
          inventory_tokens = v1.inventory_tokens;
        }),
      )
  after_book now ctx id d so v s b (book, err e) =
      (with_market id (record v { book = book }) s b, err (rejected_order e))
  after_book now ctx id d so v s b (book, panic) =
      (with_market id (record v { book = book }) s b, panic)

  unfoldable pub place_in :
      ℕ
      → SettleCtx
      → String
      → Side
      → SignedOrder
      → InstrumentVenue
      → Venue
      → Venue × Result VenueError Placed
  unfolding prune_expired book_order_of after_book place digest word_hex
  place_in now ctx id side so v b =
      let d = word_hex (digest c so ctx.domain) in
      let (s, book) = prune_expired id now (b.signed, v.book) in
      let v1 = record v { book = book } in
      let b1 = record (with_market id v1 s b) { seq = add_u64 b.seq 1 } in
      let o = book_order_of id side so b.seq s d in
      if eqb_ℤ o.qty (pos 0)
      then (b1, err fully_filled)
      else after_book now ctx id d so v1 s b1 (place book o)

  unfoldable pub place_signed : ℕ → SignedOrderBody → Venue → Venue × Result VenueError Placed
  unfolding into_signed vet_signed place_in
  place_signed now body b = elim b.settle [
    | none ↦ (b, err settlement_unconfigured)
    | some ctx ↦ elim (into_signed c body) [
      | err e ↦ (b, err (rejected_body e))
      | panic ↦ (b, panic)
      | ok (id, so) ↦ elim (vet_signed now ctx so) [
        | err e ↦ (b, err e)
        | panic ↦ (b, panic)
        | ok side ↦ elim (find_name id b.venues) [
          | none ↦ (b, err (not_found id))
          | some v ↦ place_in now ctx id side so v b
        ]
      ]
    ]
  ]
