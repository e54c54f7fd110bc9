-- ===== src/Venue/Ticking.antt =====
-- operator/src/venue.rs: a market-making tick keeps the books of a venue well-formed.
use inference_bazaar.Base.{
  ℕ, ◌≡◌, refl, sym, ◌∙◌, subst, String, List, [], ◌∷◌, Option, none, some, Bool, true, false, inl,
  inr, arith, Result, ok, err, panic, Bool-cases, Option-cases, Result-cases,
}
use inference_bazaar.Base.Names.{find_name}
use inference_bazaar.Settlement.Types.{Crypto}
use inference_bazaar.OrderBook.Types.{PlaceOutcome, MatchError}
use inference_bazaar.OrderBook.Native.{NativeBook}
use inference_bazaar.OrderBook.Engine.{open_orders}
use inference_bazaar.OrderBook.Invariant.{IsBook}
use inference_bazaar.OrderBook.Keeps.{place-IsBook}
use inference_bazaar.Venue.Types.{InstrumentVenue, Venue, VenueError}
use inference_bazaar.Venue.Signed.{apply_inventory}
use inference_bazaar.Venue.Rfq.{quote_order}
use inference_bazaar.Venue.Outbox.{quote_budgets}
use inference_bazaar.Venue.Listing.{next_id, pull_quotes}
use inference_bazaar.Venue.Making.{
  Rung, LadderQuote, cut_rung, Tick, signed_mm_quote, named_quote, after_rung, place_rung,
  place_ladder, finish_tick, least_of, requote, tick_market, mm_tick,
}
use inference_bazaar.Venue.Pulling.{pull-IsBook}
use inference_bazaar.Venue.Books.{
  HasBooks, put-HasBooks, apply_inventory-book, cancel_quotes-HasBooks,
}

-- The markets of a venue in a tick are as they were, and the book of the market is well-formed.
IsTick : List (String × InstrumentVenue) → Tick → Type 0
IsTick m t = (t.venue.venues ≡ m) × IsBook t.market.book

after_rung-IsTick :
    (m : List (String × InstrumentVenue)) (r : Rung) (left : Option (ℕ × ℕ)) (t : Tick) (b : Venue)
    (book : NativeBook) (x : Result MatchError PlaceOutcome)
    → b.venues ≡ m
    → IsBook book
    → IsTick m (after_rung r left t b (book, x)).0
unfolding after_rung IsTick
after_rung-IsTick m (side, (price, qty)) left t b book (ok out) e h = (e, h)
after_rung-IsTick m (side, (price, qty)) left t b book (err x) e h = (e, h)
after_rung-IsTick m (side, (price, qty)) left t b book panic e h = (e, h)

module _ (c : Crypto) (now nanos : ℕ) (id : String) where
  signed_mm_quote-venues :
      (r : Rung) (b : Venue) → (signed_mm_quote c now nanos id r b).0.venues ≡ b.venues
  unfolding signed_mm_quote quote_order
  signed_mm_quote-venues (side, (price, qty)) b = elim (Bool-cases b.attester_only) [
    | inl e ↦ rw (e, signed_mm_quote) refl
    | inr e ↦ elim (Option-cases b.settle) [
      | inl f ↦ rw (f, e, signed_mm_quote) refl
      | inr (ctx, f) ↦ elim (Option-cases ctx.signer) [
        | inl g ↦ rw (f, g, e, signed_mm_quote) refl
        | inr (signer, g) ↦ rw (f, g, e, signed_mm_quote) refl
      ]
    ]
  ]

  named_quote-venues : (r : Rung) (b : Venue) → (named_quote c now nanos id r b).0.venues ≡ b.venues
  unfolding named_quote next_id
  named_quote-venues r b =
      let quoted = signed_mm_quote c now nanos id r b in
      elim (Option-cases quoted.1) [
        | inl e ↦ rw (e, named_quote) (signed_mm_quote-venues r b)
        | inr ((d, entry), e) ↦ rw (e, named_quote) (signed_mm_quote-venues r b)
      ]

  place_rung-IsTick :
      (m : List (String × InstrumentVenue)) (r : Rung) (left : Option (ℕ × ℕ)) (t : Tick)
      → IsTick m t
      → IsTick m (place_rung c now nanos id r left t).0
  unfolding place_rung IsTick
  place_rung-IsTick m r left t h =
      after_rung-IsTick m r left t _ _ _ (named_quote-venues r t.venue ∙ h.0)
        (place-IsBook t.market.book _ h.1 (ground arith))

  place_ladder-IsTick :
      (m : List (String × InstrumentVenue)) (least : ℕ) (rs : List Rung) (t : Tick)
      → IsTick m t
      → IsTick m (place_ladder c now nanos id least rs t).0
  unfolding place_ladder
  place_ladder-IsTick m least [] t h = h
  place_ladder-IsTick m least (r ∷ rs) t h = elim (Option-cases (cut_rung least r t.budgets)) [
    | inl e ↦ rw (e, place_ladder) (place_ladder-IsTick m least rs t h)
    | inr ((kept, left), e) ↦
        let step = place_rung c now nanos id (r.0, (r.1.0, kept)) left t in
        let h' = place_rung-IsTick m (r.0, (r.1.0, kept)) left t h in
        elim (Result-cases step.1) [
          | inl (u, f) ↦ rw (e, f, place_ladder) (place_ladder-IsTick m least rs step.0 h')
          | inr (inl (x, f)) ↦ rw (e, f, place_ladder) h'
          | inr (inr f) ↦ rw (e, f, place_ladder) h'
        ]
  ]

  finish_tick-HasBooks :
      (m : List (String × InstrumentVenue)) (t : Tick) (r : Result VenueError (Unit {0}))
      → HasBooks m
      → IsTick m t
      → HasBooks (finish_tick c now id (t, r)).0.venues
  unfolding finish_tick IsTick
  finish_tick-HasBooks m t (err x) h k =
      put-HasBooks id t.market t.venue.venues (subst HasBooks (sym k.0) h) k.1
  finish_tick-HasBooks m t panic h k =
      put-HasBooks id t.market t.venue.venues (subst HasBooks (sym k.0) h) k.1
  finish_tick-HasBooks m t (ok u) h k =
      let v = apply_inventory t.venue.mm_owner t.fills t.market in
      let p = subst IsBook (sym (apply_inventory-book t.venue.mm_owner t.fills t.market)) k.1 in
      let h' = put-HasBooks id v t.venue.venues (subst HasBooks (sym k.0) h) p in
      elim (Option-cases t.venue.settle) [
        | inl e ↦ rw (e, finish_tick) h'
        | inr (ctx, e) ↦ rw (e, finish_tick) h'
      ]

  requote-HasBooks :
      (q : LadderQuote) (v : InstrumentVenue) (b : Venue)
      → HasBooks b.venues
      → IsBook v.book
      → HasBooks (requote c now nanos id q v b).0.venues
  unfolding requote pull_quotes IsTick
  requote-HasBooks q v b h p =
      let v' = (pull_quotes b.mm_owner v b.signed).0 in
      let b' = record b { signed = (pull_quotes b.mm_owner v b.signed).1 } in
      let p' : IsBook v'.book = pull-IsBook (open_orders v.book b.mm_owner) v.book b.signed p in
      elim (Bool-cases q.valid) [
        | inr e ↦ rw (e, requote) (put-HasBooks id v' b.venues h p')
        | inl e ↦
            let start : Tick = record {
              venue = b';
              market = v';
              placed = [];
              fills = [];
              budgets = quote_budgets now b';
            } in
            let last = place_ladder c now nanos id (least_of v') q.rungs start in
            rw (e, requote)
              (finish_tick-HasBooks b.venues last.0 last.1 h
                (place_ladder-IsTick b.venues (least_of v') q.rungs start (refl, p')))
      ]

  tick_market-HasBooks :
      (making has_reference : Bool) (sidecar : Option LadderQuote) (v : InstrumentVenue) (b : Venue)
      → HasBooks b.venues
      → IsBook v.book
      → HasBooks (tick_market c now nanos id making has_reference sidecar v b).0.venues
  unfolding tick_market
  tick_market-HasBooks false has_reference sidecar v b h p = cancel_quotes-HasBooks id b h
  tick_market-HasBooks true false sidecar v b h p = h
  tick_market-HasBooks true true none v b h p = h
  tick_market-HasBooks true true (some q) v b h p = requote-HasBooks q v b h p

  pub mm_tick-HasBooks :
      (has_reference : Bool) (sidecar : Option LadderQuote) (b : Venue)
      → HasBooks b.venues
      → HasBooks (mm_tick c now nanos id has_reference sidecar b).0.venues
  unfolding mm_tick
  mm_tick-HasBooks has_reference sidecar b h = elim (Option-cases (find_name id b.venues)) [
    | inl e ↦ rw (e, mm_tick) h
    | inr (v, e) ↦
        rw (e, mm_tick) (tick_market-HasBooks v.making has_reference sidecar v b h (h id v e))
  ]
