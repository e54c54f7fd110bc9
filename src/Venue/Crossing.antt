-- ===== src/Venue/Crossing.antt =====
-- operator/src/market.rs: what a crossed quote fills, and that nothing is filled beyond its order.
use inference_bazaar.Base.{
  ℕ, ◌+◌, ◌-◌, ◌^◌, ◌≤◌, ◌<◌, ◌≡◌, ◌≢◌, min, arith, refl, sym, ap, ◌∙◌, subst, String, str_eq, [],
  ◌∷◌, ◌++◌, some, inl, inr, ◌==◌, ok, Bool-cases, Result-cases, eq_of_ok,
}
use inference_bazaar.Base.Names.{find-put, find-put-other}
use inference_bazaar.Base.Text.{word_hex}
use inference_bazaar.Settlement.Types.{Crypto}
use inference_bazaar.Settlement.Fills.{SignedOrder, SignedFill, digest, pair}
use inference_bazaar.Clob.Types.{add_u64}
use inference_bazaar.Clob.Pool.{into_signed}
use inference_bazaar.Venue.Types.{SettleCtx, SignedState, Venue, RfqFillBody}
use inference_bazaar.Venue.Signed.{filled_of, or_none, remaining, record_fill, add_filled}
use inference_bazaar.Venue.Rfq.{RfqFilled, cross_orders, crossed, crossed_reply, rfq_fill}

-- Adding to a count that has room.
add_filled-lem :
    (d : String) (qty cap : ℕ) (s : SignedState)
    → cap < 2 ^ 64
    → filled_of d s ≤ cap
    → qty ≤ cap - filled_of d s
    → filled_of d (add_filled d qty s) ≡ filled_of d s + qty
add_filled-lem d qty cap s w le room =
    ap or_none (find-put d (add_u64 (filled_of d s) qty) s.filled) ∙ omega arith

add_filled-other :
    (d e : String) (qty : ℕ) (s : SignedState)
    → d ≢ e
    → filled_of d (add_filled e qty s) ≡ filled_of d s
add_filled-other d e qty s n =
    ap or_none (find-put-other d e (add_u64 (filled_of e s) qty) s.filled n)

-- What a fill of two orders does to the counts and the outbox.
pub record IsRecorded (maker taker : String) (maker_cap taker_cap qty : ℕ) (fill : SignedFill)
    (s s' : SignedState) : Type 0 where
  pub maker_count : filled_of maker s' ≡ filled_of maker s + qty
  pub taker_count : filled_of taker s' ≡ filled_of taker s + qty
  pub maker_within : filled_of maker s' ≤ maker_cap
  pub taker_within : filled_of taker s' ≤ taker_cap
  pub others : (d : String) → d ≢ maker → d ≢ taker → filled_of d s' ≡ filled_of d s
  pub queued : s'.outbox ≡ s.outbox ++ fill ∷ []

record_fill-IsRecorded :
    (maker taker : String) (maker_cap taker_cap qty : ℕ) (fill : SignedFill) (s : SignedState)
    → maker ≢ taker
    → maker_cap < 2 ^ 64
    → taker_cap < 2 ^ 64
    → filled_of maker s ≤ maker_cap
    → filled_of taker s ≤ taker_cap
    → qty ≤ maker_cap - filled_of maker s
    → qty ≤ taker_cap - filled_of taker s
    → IsRecorded maker taker maker_cap taker_cap qty fill s (record_fill maker taker qty fill s)
unfolding record_fill
record_fill-IsRecorded m t mc tc qty fill s n mw tw ml tl mr tr =
    let s1 = add_filled m qty s in
    let first : filled_of m s1 ≡ filled_of m s + qty = add_filled-lem m qty mc s mw ml mr in
    let same : filled_of t s1 ≡ filled_of t s = add_filled-other t m qty s (λ e. n (sym e)) in
    let second : filled_of t (add_filled t qty s1) ≡ filled_of t s1 + qty =
      add_filled-lem t qty tc s1 tw (omega arith) (omega arith) in
    let kept : filled_of m (add_filled t qty s1) ≡ filled_of m s1 = add_filled-other m t qty s1 n in
    record {
      maker_count = kept ∙ first;
      taker_count = second ∙ ap (λ k. k + qty) same;
      maker_within = omega arith;
      taker_within = omega arith;
      others = λ d dm dt. add_filled-other d t qty s1 dt ∙ add_filled-other d m qty s dm;
      queued = refl;
    }

module _ (c : Crypto) where
  -- The digest of a signed order, as the venue's key.
  abbrev pub key_of : SettleCtx → SignedOrder → String
  key_of ctx so = word_hex (digest c so ctx.domain)

  -- What a crossed pair of orders is.
  pub record IsCrossed (now : ℕ) (ctx : SettleCtx) (maker taker : SignedOrder) (b b' : Venue)
      (r : RfqFilled) : Type 0 where
    pub positive : 0 < r.qty_tokens
    pub as_much :
        r.qty_tokens
        ≡ min
            (remaining (key_of ctx maker) maker.order b.signed)
            (remaining (key_of ctx taker) taker.order b.signed)
    pub paired : pair c maker taker r.qty_tokens now ctx.domain ≡ ok r.fill
    pub recorded :
        IsRecorded
          (key_of ctx maker)
          (key_of ctx taker)
          maker.order.qty_tokens
          taker.order.qty_tokens
          r.qty_tokens
          r.fill
          b.signed
          b'.signed

  cross_orders-IsCrossed :
      (now : ℕ) (ctx : SettleCtx) (id : String) (maker taker : SignedOrder) (b b' : Venue)
      (r : RfqFilled)
      → key_of ctx maker ≢ key_of ctx taker
      → maker.order.qty_tokens < 2 ^ 64
      → taker.order.qty_tokens < 2 ^ 64
      → filled_of (key_of ctx maker) b.signed ≤ maker.order.qty_tokens
      → filled_of (key_of ctx taker) b.signed ≤ taker.order.qty_tokens
      → cross_orders c now ctx id maker taker b ≡ (b', ok r)
      → IsCrossed now ctx maker taker b b' r
  unfolding cross_orders remaining crossed crossed_reply
  cross_orders-IsCrossed now ctx id maker taker b b' r n mc tc mw tw h =
      elim (Bool-cases (qty == 0)) [
        | inl e ↦ cc (rw (e, cross_orders) at h)
        | inr e ↦ elim (Result-cases (pair c maker taker qty now ctx.domain)) [
          | inr (inl (x, f)) ↦ cc (rw (e, f, cross_orders) at h)
          | inr (inr f) ↦ cc (rw (e, f, cross_orders) at h)
          | inl (fill, f) ↦
              let h' = rw (e, f, cross_orders) at h in
              let m = key_of ctx maker in
              let t = key_of ctx taker in
              let b1 = crossed ctx id m t qty fill b in
              let r1 = crossed_reply m t qty fill b in
              let state : b1 ≡ b' = ap (λ p. p.0) h' in
              let reply : r1 ≡ r = eq_of_ok (ap (λ p. p.1) h') in
              subst (λ x. IsCrossed now ctx maker taker b x r) state
                (subst (λ y. IsCrossed now ctx maker taker b b1 y) reply
                  (record {
                    positive = ground arith;
                    as_much = refl;
                    paired = f;
                    recorded =
                        record_fill-IsRecorded m t maker.order.qty_tokens taker.order.qty_tokens qty
                          fill b.signed n mc tc mw tw (ground arith) (ground arith);
                  }))
        ]
      ]
    where
      qty : ℕ
      qty =
          min (remaining (key_of ctx maker) maker.order b.signed)
            (remaining (key_of ctx taker) taker.order b.signed)

  -- A quote that is crossed fills the quantity that both orders have left, which is not zero, as a
  -- pair that passes every rule of a fill; both counts grow by it and stay within their orders, no
  -- other count changes, and the fill is queued last. Its two orders have different digests, their
  -- quantities are of 64 bits, and neither was filled beyond its quantity before.
  pub rfq_fill-IsCrossed :
      (now : ℕ) (ctx : SettleCtx) (body : RfqFillBody) (id other : String)
      (maker taker : SignedOrder) (b b' : Venue) (r : RfqFilled)
      → b.settle ≡ some ctx
      → into_signed c body.maker ≡ ok (id, maker)
      → into_signed c body.taker ≡ ok (other, taker)
      → key_of ctx maker ≢ key_of ctx taker
      → maker.order.qty_tokens < 2 ^ 64
      → taker.order.qty_tokens < 2 ^ 64
      → filled_of (key_of ctx maker) b.signed ≤ maker.order.qty_tokens
      → filled_of (key_of ctx taker) b.signed ≤ taker.order.qty_tokens
      → rfq_fill c now body b ≡ (b', ok r)
      → IsCrossed now ctx maker taker b b' r
  unfolding rfq_fill
  rfq_fill-IsCrossed now ctx body id other maker taker b b' r s i j n mc tc mw tw h =
      elim (Bool-cases (str_eq id other)) [
        | inl e ↦
            cross_orders-IsCrossed now ctx id maker taker b b' r n mc tc mw tw
              (rw (s, i, j, e, rfq_fill) at h)
        | inr e ↦ cc (rw (s, i, j, e, rfq_fill) at h)
      ]
