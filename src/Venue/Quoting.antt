-- ===== src/Venue/Quoting.antt =====
-- operator/src/market.rs: what the order of a firm quote guarantees, and what a request leaves of the
-- venue.
use inference_bazaar.Base.{
  ltb, min, ◌^◌, ◌-◌, ℕ, ◌<◌, ◌≡◌, refl, sym, ap, subst, arith, String, Option, none, some, Bool,
  true, false, ok, inl, inr, ◌==◌, Bool-cases, Option-cases, Result-cases, eq_of_ok, eq_of_some,
}
use inference_bazaar.Base.Int.{I64, pos, negsuc}
use inference_bazaar.Base.Names.{find_name}
use inference_bazaar.Settlement.Types.{Crypto}
use inference_bazaar.Settlement.Fills.{Signer, SignedOrder, sign_order}
use inference_bazaar.OrderBook.Types.{Side, opposite}
use inference_bazaar.Matcher.Epoch.{u64_of_i64}
use inference_bazaar.Clob.Types.{add_u64}
use inference_bazaar.Venue.Types.{InstrumentVenue, SettleCtx, Venue, SidecarQuote, ChainCache, F64}
use inference_bazaar.Venue.Rfq.{quote_order, vet_quote, fund_quote, side_code}
use inference_bazaar.Venue.Outbox.{
  quote_budgets, Funds, can_read_funds, refresh_chain_cache, refresh_if_stale,
}
use inference_bazaar.Venue.Quote.{
  rfq_quote, quoting_signer, answer_quote, quoted_side, quoting_terms, tick_of,
}
use inference_bazaar.Venue.Pricing.{IsFirm, fund_quote-IsFirm}

-- The venue is as it was, up to the number of the next quote and the cache of the chain.
pub record IsRenumbered (b b' : Venue) : Type 0 where
  pub cache : ChainCache
  pub seq : ℕ
  pub same : b' ≡ record b { chain_cache = cache; seq = seq }

unchanged : (b : Venue) → IsRenumbered b b
unchanged b = record { cache = b.chain_cache; seq = b.seq; same = refl }

pub refresh_chain_cache-IsRenumbered :
    (now : ℕ) (funds : Option Funds) (b : Venue) → IsRenumbered b (refresh_chain_cache now funds b)
unfolding refresh_chain_cache
refresh_chain_cache-IsRenumbered now funds b = elim (Option-cases b.settle) [
  | inl e ↦ record {
    cache = b.chain_cache;
    seq = b.seq;
    same = rw (e, refresh_chain_cache) (λ i. record b { settle = e i });
  }
  | inr (ctx, e) ↦ elim (Bool-cases (can_read_funds ctx)) [
    | inr f ↦ record {
      cache = b.chain_cache;
      seq = b.seq;
      same = rw (e, f, refresh_chain_cache) (λ i. record b { settle = e i });
    }
    | inl f ↦ elim (Option-cases funds) [
      | inl g ↦ record {
        cache = b.chain_cache;
        seq = b.seq;
        same = rw (e, f, g, refresh_chain_cache) (λ i. record b { settle = e i });
      }
      | inr (x, g) ↦ record {
        cache = record {
          free_collateral_micro = min x.free_collateral (2 ^ 128 - 1);
          balance_micro = min x.balance (2 ^ 128 - 1);
          penalty_bps = x.penalty_bps;
          fetched_at = now;
        };
        seq = b.seq;
        same =
            rw (e, f, g, refresh_chain_cache)
              (λ i. record b {
                settle = e i;
                chain_cache = record {
                  free_collateral_micro = min x.free_collateral (2 ^ 128 - 1);
                  balance_micro = min x.balance (2 ^ 128 - 1);
                  penalty_bps = x.penalty_bps;
                  fetched_at = now;
                };
              });
      }
    ]
  ]
]

refresh_if_stale-IsRenumbered :
    (now : ℕ) (funds : Option Funds) (b : Venue) → IsRenumbered b (refresh_if_stale now funds b)
unfolding refresh_if_stale
refresh_if_stale-IsRenumbered now funds b =
    elim (Bool-cases (ltb (add_u64 b.chain_cache.fetched_at 15) now)) [
      | inl e ↦ rw (e, refresh_if_stale) (refresh_chain_cache-IsRenumbered now funds b)
      | inr e ↦ rw (e, refresh_if_stale) (unchanged b)
    ]

renumbered : (n : ℕ) (b b' : Venue) → IsRenumbered b b' → IsRenumbered b (record b' { seq = n })
renumbered n b b' r = record {
  cache = r.cache;
  seq = n;
  same = ap (λ (x : Venue). record x { seq = n }) r.same;
}

tick_of-positive : (t : I64) → 0 < tick_of t
tick_of-positive (pos n) = elim (Bool-cases (n == 0)) [
  | inl e ↦ rw (e) (omega arith)
  | inr e ↦ rw (e) (ground arith)
]
tick_of-positive (negsuc n) = omega arith

module _ (c : Crypto) where
  answer_quote-IsRenumbered :
      (now nanos : ℕ) (ctx : SettleCtx) (signer : Signer) (id : String) (side : Side) (wanted : ℕ)
      (q : SidecarQuote) (funds : Option Funds) (b : Venue)
      → IsRenumbered b (answer_quote c now nanos ctx signer id side wanted q funds b).0
  unfolding answer_quote quote_order
  answer_quote-IsRenumbered now nanos ctx signer id side wanted q funds b =
      elim (Bool-cases q.valid) [
        | inr e ↦ rw (e, answer_quote) (unchanged b)
        | inl e ↦ elim (Option-cases (quoted_side (opposite side) q)) [
          | inl f ↦ rw (f, e, answer_quote) (unchanged b)
          | inr ((raw, quoted), f) ↦
              let (tick, least) = quoting_terms id b.configured in
              let min_qty = u64_of_i64 least in
              let b1 = refresh_if_stale now funds b in
              let r = refresh_if_stale-IsRenumbered now funds b in
              elim (Result-cases
                (vet_quote (opposite side) raw quoted (tick_of tick) min_qty wanted)) [
                  | inr (inl (x, g)) ↦ rw (f, g, e, answer_quote) (unchanged b)
                  | inr (inr g) ↦ rw (f, g, e, answer_quote) (unchanged b)
                  | inl (vetted, g) ↦
                      elim (Result-cases
                        (fund_quote (opposite side) min_qty (quote_budgets now b1) vetted)) [
                          | inl (qty, h) ↦
                              rw (f, g, h, e, answer_quote) (renumbered (add_u64 b1.seq 1) b b1 r)
                          | inr (inl (x, h)) ↦ rw (f, g, h, e, answer_quote) r
                          | inr (inr h) ↦ rw (f, g, h, e, answer_quote) r
                        ]
                ]
        ]
      ]

  pub rfq_quote-IsRenumbered :
      (now nanos : ℕ) (id : String) (side : Side) (wanted : ℕ) (has_reference : Bool)
      (sidecar : Option SidecarQuote) (funds : Option Funds) (b : Venue)
      → IsRenumbered b (rfq_quote c now nanos id side wanted has_reference sidecar funds b).0
  unfolding rfq_quote
  rfq_quote-IsRenumbered now nanos id side wanted has_reference sidecar funds b =
      elim (Result-cases (quoting_signer b)) [
        | inr (inl (x, e)) ↦ rw (e, rfq_quote) (unchanged b)
        | inr (inr e) ↦ rw (e, rfq_quote) (unchanged b)
        | inl ((ctx, signer), e) ↦ elim (Option-cases (find_name id b.venues)) [
          | inl f ↦ rw (e, f, rfq_quote) (unchanged b)
          | inr (v, f) ↦ listed ctx signer v e f has_reference sidecar
        ]
      ]
    where
      listed :
          (ctx : SettleCtx) (signer : Signer) (v : InstrumentVenue)
          → quoting_signer b ≡ ok (ctx, signer)
          → find_name id b.venues ≡ some v
          → (reference : Bool) (answer : Option SidecarQuote)
          → IsRenumbered b (rfq_quote c now nanos id side wanted reference answer funds b).0
      listed ctx signer v e f false answer = rw (e, f, rfq_quote) (unchanged b)
      listed ctx signer v e f true none = rw (e, f, rfq_quote) (unchanged b)
      listed ctx signer v e f true (some q) =
          rw (e, f, rfq_quote)
            (answer_quote-IsRenumbered now nanos ctx signer id side wanted q funds b)

  -- What the order of a firm quote guarantees; `b'` is the venue after it.
  pub record IsQuoted (now : ℕ) (id : String) (side : Side) (wanted : ℕ) (q : SidecarQuote)
      (funds : Option Funds) (b b' : Venue) (so : SignedOrder) : Type 0 where
    pub price : F64
    pub size : ℕ
    pub quoted : quoted_side (opposite side) q ≡ some (price, size)
    pub sided : so.order.side ≡ side_code (opposite side)
    pub firm :
        IsFirm
          (opposite side)
          price
          size
          (tick_of (quoting_terms id b.configured).0)
          (u64_of_i64 (quoting_terms id b.configured).1)
          wanted
          (quote_budgets now (refresh_if_stale now funds b))
          so.order.price_micro_per_m
          so.order.qty_tokens
    pub unreserved :
        (later : ℕ) → quote_budgets later b' ≡ quote_budgets later (refresh_if_stale now funds b)

  answer_quote-IsQuoted :
      (now nanos : ℕ) (ctx : SettleCtx) (signer : Signer) (id : String) (side : Side) (wanted : ℕ)
      (q : SidecarQuote) (funds : Option Funds) (b : Venue) (so : SignedOrder)
      → (answer_quote c now nanos ctx signer id side wanted q funds b).1 ≡ ok (some so)
      → IsQuoted now id side wanted q funds b
          (answer_quote c now nanos ctx signer id side wanted q funds b).0
          so
  unfolding answer_quote quote_order sign_order quote_budgets
  answer_quote-IsQuoted now nanos ctx signer id side wanted q funds b so h =
      elim (Bool-cases q.valid) [
        | inr e ↦ cc (rw (e, answer_quote) at h)
        | inl e ↦ elim (Option-cases (quoted_side (opposite side) q)) [
          | inl f ↦ cc (rw (f, e, answer_quote) at h)
          | inr ((raw, quoted), f) ↦
              let (tick, least) = quoting_terms id b.configured in
              let min_qty = u64_of_i64 least in
              let b1 = refresh_if_stale now funds b in
              elim (Result-cases
                (vet_quote (opposite side) raw quoted (tick_of tick) min_qty wanted)) [
                  | inr (inl (x, g)) ↦ cc (rw (f, g, e, answer_quote) at h)
                  | inr (inr g) ↦ cc (rw (f, g, e, answer_quote) at h)
                  | inl ((p, cut), g) ↦
                      elim (Result-cases
                        (fund_quote (opposite side) min_qty (quote_budgets now b1) (p, cut))) [
                          | inr (inl (x, k)) ↦ cc (rw (f, g, k, e, answer_quote) at h)
                          | inr (inr k) ↦ cc (rw (f, g, k, e, answer_quote) at h)
                          | inl (qty, k) ↦
                              let same =
                                eq_of_some (eq_of_ok (rw (f, g, k, e, answer_quote) at h)) in
                              let state : (answer_quote c now nanos ctx signer id side wanted q
                                    funds b).0
                                  ≡ (quote_order c now nanos ctx signer id (opposite side) p qty
                                      b1).0 =
                                rw (f, g, k, e, answer_quote) refl in
                              subst (λ x. IsQuoted now id side wanted q funds b x so) (sym state)
                                (subst
                                  (IsQuoted now id side wanted q funds b
                                    (quote_order c now nanos ctx signer id (opposite side) p qty
                                      b1).0)
                                  same
                                  (record {
                                    price = raw;
                                    size = quoted;
                                    quoted = f;
                                    sided = refl;
                                    firm =
                                        fund_quote-IsFirm (opposite side) raw quoted (tick_of tick)
                                          min_qty wanted (quote_budgets now b1) p cut qty
                                          (tick_of-positive tick) g k;
                                    unreserved = λ later. refl;
                                  }))
                        ]
                ]
        ]
      ]

  -- The order of a firm quote is of the side opposite to the taker's and on the tick; a bid is not
  -- above the sidecar's bid, and an ask is above the sidecar's ask less one (the fraction of an ask
  -- is cut off before the rounding to the tick, so it may be below it), where that fits 64 bits; both
  -- are less than a tick from the sidecar's whole price. Its size is between the minimum and what was
  -- asked and quoted, and its cost fits the budget of its side after the refresh of the chain's
  -- cache, where that is known. Afterwards every later budget is what that cache gives: the quote is
  -- not counted among the commitments. Sizes arrive rounded from the sidecar.
  pub rfq_quote-IsQuoted :
      (now nanos : ℕ) (id : String) (side : Side) (wanted : ℕ) (has_reference : Bool)
      (q : SidecarQuote) (funds : Option Funds) (b : Venue) (so : SignedOrder)
      → (rfq_quote c now nanos id side wanted has_reference (some q) funds b).1 ≡ ok (some so)
      → IsQuoted now id side wanted q funds b
          (rfq_quote c now nanos id side wanted has_reference (some q) funds b).0
          so
  unfolding rfq_quote
  rfq_quote-IsQuoted now nanos id side wanted has_reference q funds b so h =
      elim (Result-cases (quoting_signer b)) [
        | inr (inl (x, e)) ↦ cc (rw (e, rfq_quote) at h)
        | inr (inr e) ↦ cc (rw (e, rfq_quote) at h)
        | inl ((ctx, signer), e) ↦ elim (Option-cases (find_name id b.venues)) [
          | inl f ↦ cc (rw (e, f, rfq_quote) at h)
          | inr (v, f) ↦ elim (Bool-cases has_reference) [
            | inr g ↦ cc (rw (e, f, g, rfq_quote) at h)
            | inl g ↦
                rw (e, f, g, rfq_quote)
                  (answer_quote-IsQuoted now nanos ctx signer id side wanted q funds b so
                    (rw (e, f, g, rfq_quote) at h))
          ]
        ]
      ]
