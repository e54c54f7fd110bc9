-- ===== src/Venue/Placing.antt =====
-- operator/src/market.rs: signed orders and crosses keep the books of a venue well-formed.
use inference_bazaar.Base.{
  ℕ, ◌≡◌, refl, sym, ap, subst, String, str_eq, List, Option, none, some, inl, inr, ◌==◌, Result,
  ok, err, panic, Bool-cases, Option-cases, Result-cases, min,
}
use inference_bazaar.Base.Int.{pos, wrap_i64-InI64, eqb_ℤ}
use inference_bazaar.Base.Names.{find_name, put_name}
use inference_bazaar.Settlement.Types.{Crypto, Address}
use inference_bazaar.Base.Text.{word_hex}
use inference_bazaar.Settlement.Fills.{SignedFill, SignedOrder, digest, pair}
use inference_bazaar.OrderBook.Types.{Side, PlaceOutcome, MatchError}
use inference_bazaar.OrderBook.Native.{NativeBook}
use inference_bazaar.OrderBook.Engine.{place}
use inference_bazaar.OrderBook.Invariant.{IsBook}
use inference_bazaar.OrderBook.Keeps.{place-IsBook}
use inference_bazaar.Clob.Types.{SignedOrderBody, add_u64}
use inference_bazaar.Clob.Pool.{into_signed}
use inference_bazaar.Venue.Types.{SettleCtx, SignedState, InstrumentVenue, Venue, RfqFillBody}
use inference_bazaar.Venue.Signed.{
  apply_inventory, prune_expired, remaining, after_book, book_order_of, place_in, place_signed,
  vet_signed, with_market,
}
use inference_bazaar.Venue.Rfq.{attribute, operator_of, on_market, crossed, cross_orders, rfq_fill}
use inference_bazaar.Venue.Books.{
  HasBooks, put-HasBooks, apply_inventory-book, prune_expired-IsBook,
}

attribute-book :
    (op : Option Address) (fill : SignedFill) (qty : ℕ) (v : InstrumentVenue)
    → (attribute op fill qty v).book ≡ v.book
unfolding attribute
attribute-book none fill qty v = refl
attribute-book (some op) fill qty v = elim (Bool-cases (fill.buy.order.trader == op)) [
  | inl e ↦ rw (e) refl
  | inr e ↦ elim (Bool-cases (fill.sell.order.trader == op)) [
    | inl f ↦ rw (e, f) refl
    | inr f ↦ rw (e, f) refl
  ]
]

on_market-HasBooks :
    (id : String) (f : InstrumentVenue → InstrumentVenue) (m : List (String × InstrumentVenue))
    → ((v : InstrumentVenue) → IsBook v.book → IsBook (f v).book)
    → HasBooks m
    → HasBooks (on_market id f m)
on_market-HasBooks id f m keep h = elim (Option-cases (find_name id m)) [
  | inl e ↦ subst HasBooks (sym (ap (λ r. applied r) e)) h
  | inr (v, e) ↦
      subst HasBooks (sym (ap (λ r. applied r) e)) (put-HasBooks id (f v) m h (keep v (h id v e)))
]
  where
    applied : Option InstrumentVenue → List (String × InstrumentVenue)
    applied r = elim r [ none ↦ m | some v ↦ put_name id (f v) m ]

module _ (c : Crypto) (now : ℕ) where
  after_book-HasBooks :
      (ctx : SettleCtx) (id d : String) (so : SignedOrder) (v : InstrumentVenue) (s : SignedState)
      (b : Venue) (book : NativeBook) (r : Result MatchError PlaceOutcome)
      → HasBooks b.venues
      → IsBook book
      → HasBooks (after_book c now ctx id d so v s b (book, r)).0.venues
  unfolding after_book
  after_book-HasBooks ctx id d so v s b book (err e) h p =
      put-HasBooks id (record v { book = book }) b.venues h p
  after_book-HasBooks ctx id d so v s b book panic h p =
      put-HasBooks id (record v { book = book }) b.venues h p
  after_book-HasBooks ctx id d so v s b book (ok out) h p =
      let v' : InstrumentVenue = record v { book = book } in
      put-HasBooks id (apply_inventory b.mm_owner out.fills v') b.venues h
        (subst IsBook (sym (apply_inventory-book b.mm_owner out.fills v')) p)

  place_in-HasBooks :
      (ctx : SettleCtx) (id : String) (side : Side) (so : SignedOrder) (v : InstrumentVenue)
      (b : Venue)
      → IsBook v.book
      → HasBooks b.venues
      → HasBooks (place_in c now ctx id side so v b).0.venues
  unfolding place_in book_order_of
  place_in-HasBooks ctx id side so v b p h =
      let d = word_hex (digest c so ctx.domain) in
      let pruned = prune_expired id now (b.signed, v.book) in
      let v1 : InstrumentVenue = record v { book = pruned.1 } in
      let o = book_order_of c id side so b.seq pruned.0 d in
      let fine : IsBook pruned.1 = prune_expired-IsBook id now b.signed v.book p in
      let b1 = record (with_market id v1 pruned.0 b) { seq = add_u64 b.seq 1 } in
      let h1 = put-HasBooks id v1 b.venues h fine in
      elim (Bool-cases (eqb_ℤ o.qty (pos 0))) [
        | inl e ↦ rw (e, place_in) h1
        | inr e ↦
            rw (e, place_in)
              (after_book-HasBooks ctx id d so v1 pruned.0 b1 (place pruned.1 o).0
                (place pruned.1 o).1 h1 (place-IsBook pruned.1 o fine (wrap_i64-InI64 _)))
      ]

  pub place_signed-HasBooks :
      (body : SignedOrderBody) (b : Venue)
      → HasBooks b.venues
      → HasBooks (place_signed c now body b).0.venues
  unfolding place_signed
  place_signed-HasBooks body b h = elim (Option-cases b.settle) [
    | inl e ↦ rw (e, place_signed) h
    | inr (ctx, e) ↦ elim (Result-cases (into_signed c body)) [
      | inr (inl (x, f)) ↦ rw (e, f, place_signed) h
      | inr (inr f) ↦ rw (e, f, place_signed) h
      | inl ((id, so), f) ↦ elim (Result-cases (vet_signed c now ctx so)) [
        | inr (inl (x, g)) ↦ rw (e, f, g, place_signed) h
        | inr (inr g) ↦ rw (e, f, g, place_signed) h
        | inl (side, g) ↦ elim (Option-cases (find_name id b.venues)) [
          | inl i ↦ rw (e, f, g, i, place_signed) h
          | inr (v, i) ↦
              rw (e, f, g, i, place_signed) (place_in-HasBooks ctx id side so v b (h id v i) h)
        ]
      ]
    ]
  ]

  crossed-HasBooks :
      (ctx : SettleCtx) (id m t : String) (qty : ℕ) (fill : SignedFill) (b : Venue)
      → HasBooks b.venues
      → HasBooks (crossed ctx id m t qty fill b).venues
  unfolding crossed
  crossed-HasBooks ctx id m t qty fill b h =
      on_market-HasBooks id (attribute (operator_of ctx) fill qty) b.venues
        (λ v p. subst IsBook (sym (attribute-book (operator_of ctx) fill qty v)) p) h

  cross_orders-HasBooks :
      (ctx : SettleCtx) (id : String) (maker taker : SignedOrder) (b : Venue)
      → HasBooks b.venues
      → HasBooks (cross_orders c now ctx id maker taker b).0.venues
  unfolding cross_orders
  cross_orders-HasBooks ctx id maker taker b h =
      let m = word_hex (digest c maker ctx.domain) in
      let t = word_hex (digest c taker ctx.domain) in
      let qty = min (remaining m maker.order b.signed) (remaining t taker.order b.signed) in
      elim (Bool-cases (qty == 0)) [
        | inl e ↦ rw (e, cross_orders) h
        | inr e ↦ elim (Result-cases (pair c maker taker qty now ctx.domain)) [
          | inr (inl (x, f)) ↦ rw (e, f, cross_orders) h
          | inr (inr f) ↦ rw (e, f, cross_orders) h
          | inl (fill, f) ↦ rw (e, f, cross_orders) (crossed-HasBooks ctx id m t qty fill b h)
        ]
      ]

  pub rfq_fill-HasBooks :
      (body : RfqFillBody) (b : Venue)
      → HasBooks b.venues
      → HasBooks (rfq_fill c now body b).0.venues
  unfolding rfq_fill cross_orders
  rfq_fill-HasBooks body b h = elim (Option-cases b.settle) [
    | inl e ↦ rw (e, rfq_fill) h
    | inr (ctx, e) ↦ elim (Result-cases (into_signed c body.maker)) [
      | inr (inl (x, f)) ↦ rw (e, f, rfq_fill) h
      | inr (inr f) ↦ rw (e, f, rfq_fill) h
      | inl ((id, maker), f) ↦ elim (Result-cases (into_signed c body.taker)) [
        | inr (inl (x, g)) ↦ rw (e, f, g, rfq_fill) h
        | inr (inr g) ↦ rw (e, f, g, rfq_fill) h
        | inl ((other, taker), g) ↦ elim (Bool-cases (str_eq id other)) [
          | inr i ↦ rw (e, f, g, i, rfq_fill) h
          | inl i ↦ rw (e, f, g, i, rfq_fill) (cross_orders-HasBooks ctx id maker taker b h)
        ]
      ]
    ]
  ]
