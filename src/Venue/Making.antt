-- ===== src/Venue/Making.antt =====
-- operator/src/venue.rs: a market-making tick; and market.rs: `signed_mm_quote`. The ladder that the
-- sidecar's floats give is a parameter: the rungs of positive price, with prices and sizes rounded.
use inference_bazaar.Base.{
  true, false, ℕ, zero, suc, ◌+◌, ◌*◌, ◌/◌, ◌%◌, ◌&&◌, ◌||◌, ◌-◌, ◌^◌, min, String, List, [], ◌∷◌,
  ◌++◌, Option, none, some, Bool, ltb, ◌==◌, if◌then◌else◌, Result, ok, err, panic,
}
use inference_bazaar.Base.Int.{pos, negsuc, wrap_i64}
use inference_bazaar.Base.Names.{find_name, put_name}
use inference_bazaar.Base.Text.{word_hex}
use inference_bazaar.Settlement.Types.{Crypto}
use inference_bazaar.Settlement.Core.{cost_micro}
use inference_bazaar.Settlement.Fills.{digest}
use inference_bazaar.OrderBook.Types.{Side, buy, sell, Fill, PlaceOutcome, MatchError}
use inference_bazaar.OrderBook.Native.{NativeBook}
use inference_bazaar.OrderBook.Engine.{place}
use inference_bazaar.Clob.Types.{add_u64}
use inference_bazaar.Venue.Types.{
  SignedEntry, InstrumentVenue, Venue, VenueError, not_found, rejected_order, no_reference,
  sidecar_error,
}
use inference_bazaar.Venue.Signed.{apply_inventory, pair_book_fills, with_market}
use inference_bazaar.Venue.Rfq.{max_qty, quote_order}
use inference_bazaar.Venue.Outbox.{quote_budgets}
use inference_bazaar.Venue.Listing.{next_id, cancel_quotes, pull_quotes}

-- A rung of the ladder: side, price and size.
abbrev pub Rung : Type 0
Rung = Side × (ℕ × ℕ)

-- What the sidecar answers: whether it quotes, and the ladder.
pub record LadderQuote : Type 0 where
  pub valid : Bool
  pub rungs : List Rung

-- A float as an `i64`, which saturates.
abbrev pub cap_i64 : ℕ → ℕ
cap_i64 n = min n (2 ^ 63 - 1)

-- A number to the next multiple of `2 ^ k`, ties to the even multiple.
abbrev rounded_at : ℕ → ℕ → ℕ
rounded_at k n =
    let q = n / 2 ^ k in
    let r = n % 2 ^ k in
    (if ltb (2 ^ k) (2 * r) || ((2 * r == 2 ^ k) && (q % 2 == 1)) then q + 1 else q) * 2 ^ k

-- The number that `as f64` makes of an integer of less than `2 ^ (53 + left)`, from the exponent `k`.
abbrev rounded_from : (left k : ℕ) → ℕ → ℕ
rounded_from zero k n = rounded_at k n
rounded_from (suc left) k n =
    let rest = rounded_from left (suc k) n in if ltb n (2 ^ (53 + k)) then rounded_at k n else rest

-- A `u64` to a double and back, as an assignment to a float field and its rounded read do.
unfoldable pub through_f64 : ℕ → ℕ
through_f64 n = if ltb n (2 ^ 53) then n else min (rounded_from 10 1 n) (2 ^ 64 - 1)

-- What is left of the size of a rung, and of the budgets; `none` for a rung that is left out.
unfoldable pub cut_rung : ℕ → Rung → Option (ℕ × ℕ) → Option (ℕ × Option (ℕ × ℕ))
unfolding max_qty cost_micro through_f64
cut_rung least (side, (price, qty)) none = some (qty, none)
cut_rung least (sell, (price, qty)) (some (for_sale, for_buy)) =
    let kept = min qty (max_qty for_sale (if price == 0 then 1 else price)) in
    if ltb kept least
    then none
    else some (through_f64 kept, some (for_sale - cost_micro price kept, for_buy))
cut_rung least (buy, (price, qty)) (some (for_sale, for_buy)) =
    let kept = min qty (max_qty for_buy (if price == 0 then 1 else price)) in
    if ltb kept least
    then none
    else some (through_f64 kept, some (for_sale, for_buy - cost_micro price kept))

-- The state of a tick while the ladder is placed: the venue, the market that it holds locked, what
-- was placed and printed, and the budgets that are left.
pub record Tick : Type 0 where
  pub venue : Venue
  pub market : InstrumentVenue
  pub placed : List Rung
  pub fills : List Fill
  pub budgets : Option (ℕ × ℕ)

unfoldable pub after_rung :
    Rung
    → Option (ℕ × ℕ)
    → Tick
    → Venue
    → NativeBook × Result MatchError PlaceOutcome
    → Tick × Result VenueError (Unit {0})
after_rung (side, (price, qty)) budgets t b (book, ok out) = (
  record {
    venue = b;
    market = record t.market { book = book };
    placed = t.placed ++ (side, (cap_i64 price, cap_i64 qty)) ∷ [];
    fills = t.fills ++ out.fills;
    budgets = budgets;
  },
  ok tt,
)
after_rung r budgets t b (book, err e) = (
  record t { venue = b; market = record t.market { book = book }; budgets = budgets },
  err (rejected_order e),
)
after_rung r budgets t b (book, panic) =
    (record t { venue = b; market = record t.market { book = book }; budgets = budgets }, panic)

-- The least size, `min_qty.max(1) as u64`.
abbrev pub least_of : InstrumentVenue → ℕ
least_of v = elim v.listing.min_qty [ pos n ↦ (if n == 0 then 1 else n) | negsuc n ↦ 1 ]

module _ (c : Crypto) where
  -- A quote of the operator as a signed order, under its digest.
  unfoldable pub signed_mm_quote :
      ℕ → ℕ → String → Rung → Venue → Venue × Option (String × SignedEntry)
  unfolding quote_order digest word_hex
  signed_mm_quote now nanos id (side, (price, qty)) b =
      if b.attester_only then (b, none) else elim b.settle [
        | none ↦ (b, none)
        | some ctx ↦ elim ctx.signer [
          | none ↦ (b, none)
          | some signer ↦
              let (b', so) = quote_order c now nanos ctx signer id side price qty b in
              (
                b',
                some
                    (word_hex (digest c so ctx.domain), record { instrument_id = id; signed = so }),
              )
        ]
      ]

  -- The id of a quote: its digest when it is signed, and then the order is kept.
  unfoldable pub named_quote : ℕ → ℕ → String → Rung → Venue → Venue × String
  unfolding signed_mm_quote next_id
  named_quote now nanos id r b =
      let (b', quote) = signed_mm_quote now nanos id r b in
      elim quote [
        | none ↦ next_id "mm" b'
        | some (d, entry) ↦ (
          record b' { signed = record b'.signed { orders = put_name d entry b'.signed.orders } },
          d,
        )
      ]

  unfoldable pub place_rung :
      ℕ → ℕ → String → Rung → Option (ℕ × ℕ) → Tick → Tick × Result VenueError (Unit {0})
  unfolding named_quote after_rung place
  place_rung now nanos id r budgets t =
      let (b, d) = named_quote now nanos id r t.venue in
      after_rung r budgets t (record b { seq = add_u64 b.seq 1 })
        (place t.market.book (record {
          id = d;
          instrument_id = id;
          side = r.0;
          price = pos (cap_i64 r.1.0);
          qty = pos (cap_i64 r.1.1);
          owner = b.mm_owner;
          ts = wrap_i64 (pos b.seq);
        }))

  -- The rungs in their order, up to the first that the book refuses.
  unfoldable pub place_ladder :
      ℕ → ℕ → String → ℕ → List Rung → Tick → Tick × Result VenueError (Unit {0})
  unfolding cut_rung place_rung
  place_ladder now nanos id least [] t = (t, ok tt)
  place_ladder now nanos id least (r ∷ rs) t = elim (cut_rung least r t.budgets) [
    | none ↦ place_ladder now nanos id least rs t
    | some (qty, budgets) ↦
        let (t', placed) = place_rung now nanos id (r.0, (r.1.0, qty)) budgets t in
        elim placed [
          | ok u ↦ place_ladder now nanos id least rs t'
          | err e ↦ (t', err e)
          | panic ↦ (t', panic)
        ]
  ]

  -- The end of a tick: inventory and pairs, unless a rung was refused.
  unfoldable pub finish_tick :
      ℕ → String → Tick × Result VenueError (Unit {0}) → Venue × Result VenueError (List Rung)
  unfolding apply_inventory pair_book_fills
  finish_tick now id (t, err e) = (with_market id t.market t.venue.signed t.venue, err e)
  finish_tick now id (t, panic) = (with_market id t.market t.venue.signed t.venue, panic)
  finish_tick now id (t, ok u) =
      let v = apply_inventory t.venue.mm_owner t.fills t.market in
      elim t.venue.settle [
        | none ↦ (with_market id v t.venue.signed t.venue, ok t.placed)
        | some ctx ↦
            let (s, paired) = pair_book_fills c ctx.domain now t.fills t.venue.signed in
            (with_market id v s t.venue, ok t.placed)
      ]

  -- The tick when the sidecar has quoted.
  unfoldable pub requote :
      ℕ → ℕ → String → LadderQuote → InstrumentVenue → Venue → Venue × Result VenueError (List Rung)
  unfolding pull_quotes place_ladder finish_tick quote_budgets
  requote now nanos id q v b =
      let (v', s) = pull_quotes b.mm_owner v b.signed in
      let b' = record b { signed = s } in
      if q.valid
      then finish_tick now id (
          place_ladder now nanos id (least_of v') q.rungs (record {
            venue = b';
            market = v';
            placed = [];
            fills = [];
            budgets = quote_budgets now b';
          }))
      else (with_market id v' s b', ok [])

  -- The tick by whether the market is made, whether it has a reference, and what the sidecar says.
  unfoldable pub tick_market :
      ℕ
      → ℕ
      → String
      → (making has_reference : Bool) → Option LadderQuote
      → InstrumentVenue
      → Venue
      → Venue × Result VenueError (List Rung)
  unfolding cancel_quotes requote
  tick_market now nanos id false has_reference sidecar v b = (cancel_quotes id b, ok [])
  tick_market now nanos id true false sidecar v b = (b, err no_reference)
  tick_market now nanos id true true none v b = (b, err sidecar_error)
  tick_market now nanos id true true (some q) v b = requote now nanos id q v b

  unfoldable pub mm_tick :
      ℕ
      → ℕ
      → String
      → (has_reference : Bool) → Option LadderQuote
      → Venue
      → Venue × Result VenueError (List Rung)
  unfolding tick_market
  mm_tick now nanos id has_reference sidecar b = elim (find_name id b.venues) [
    | none ↦ (b, err (not_found id))
    | some v ↦ tick_market now nanos id v.making has_reference sidecar v b
  ]
