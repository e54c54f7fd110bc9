-- ===== src/Venue/Quote.antt =====
-- operator/src/market.rs: `rfq_quote`. The sidecar's answer is a parameter, and so is whether the
-- market has a reference price, which is a float.
-- What the chain answers to a refresh of the cache is one too.
use inference_bazaar.Base.{
  ℕ, String, str_eq, List, [], ◌∷◌, Option, none, some, Bool, not, ◌==◌, if◌then◌else◌, Result, ok,
  err, panic,
}
use inference_bazaar.Base.Int.{pos, negsuc, I64}
use inference_bazaar.Base.Names.{find_name}
use inference_bazaar.Settlement.Types.{Crypto}
use inference_bazaar.Settlement.Fills.{SignedOrder, Signer}
use inference_bazaar.OrderBook.Types.{Side, buy, sell, opposite}
use inference_bazaar.Matcher.Epoch.{u64_of_i64}
use inference_bazaar.Clob.Types.{Instrument}
use inference_bazaar.Venue.Types.{
  F64, SettleCtx, Venue, VenueError, SidecarQuote, not_found, settlement_unconfigured,
  attester_only_node, no_liquidity, no_reference, sidecar_error,
}
use inference_bazaar.Venue.Rfq.{vet_quote, fund_quote, quote_order}
use inference_bazaar.Venue.Outbox.{quote_budgets, Funds, refresh_if_stale}

-- `tick.max(1) as u64`.
abbrev pub tick_of : I64 → ℕ
tick_of (pos n) = if n == 0 then 1 else n
tick_of (negsuc n) = 1

-- Tick and minimum of the boot configuration, or one each.
unfoldable pub quoting_terms : String → List Instrument → I64 × I64
quoting_terms id [] = (pos 1, pos 1)
quoting_terms id (i ∷ is) = if str_eq i.id id then (i.tick_size, i.min_qty) else quoting_terms id is

abbrev pub quoted_side : Side → SidecarQuote → Option (F64 × ℕ)
quoted_side sell q = q.ask
quoted_side buy q = q.bid

-- Who may quote: not an attester-only node, and only with a settlement signer.
unfoldable pub quoting_signer : Venue → Result VenueError (SettleCtx × Signer)
quoting_signer b = if b.attester_only then err attester_only_node else elim b.settle [
  | none ↦ err settlement_unconfigured
  | some ctx ↦ elim ctx.signer [
    | none ↦ err settlement_unconfigured
    | some signer ↦ ok (ctx, signer)
  ]
]

module _ (c : Crypto) where
  -- The quote of one side, signed; `none` when the sidecar does not quote.
  unfoldable pub answer_quote :
      ℕ
      → ℕ
      → SettleCtx
      → Signer
      → String
      → Side
      → ℕ
      → SidecarQuote
      → Option Funds
      → Venue
      → Venue × Result VenueError (Option SignedOrder)
  unfolding vet_quote fund_quote refresh_if_stale quote_order quote_budgets quoting_terms opposite
      u64_of_i64
  answer_quote now nanos ctx signer id taker_side wanted q funds b =
      if not q.valid then (b, ok none) else elim (quoted_side (opposite taker_side) q) [
        | none ↦ (b, err no_liquidity)
        | some (raw, quoted_qty) ↦
            let (tick, least) = quoting_terms id b.configured in
            elim (vet_quote (opposite taker_side) raw quoted_qty (tick_of tick) (u64_of_i64 least)
              wanted) [
                | err e ↦ (b, err e)
                | panic ↦ (b, panic)
                | ok vetted ↦
                    let b1 = refresh_if_stale now funds b in
                    elim (fund_quote (opposite taker_side) (u64_of_i64 least) (quote_budgets now b1)
                      vetted) [
                        | err e ↦ (b1, err e)
                        | panic ↦ (b1, panic)
                        | ok qty ↦
                            let (b2, signed) =
                              quote_order c now nanos ctx signer id (opposite taker_side) vetted.0
                                qty b1 in
                            (b2, ok (some signed))
                      ]
              ]
      ]

  unfoldable pub rfq_quote :
      ℕ
      → ℕ
      → String
      → Side
      → ℕ
      → (has_reference : Bool) → Option SidecarQuote
      → Option Funds
      → Venue
      → Venue × Result VenueError (Option SignedOrder)
  unfolding quoting_signer answer_quote
  rfq_quote now nanos id taker_side wanted has_reference sidecar funds b = elim (quoting_signer b) [
    | err e ↦ (b, err e)
    | panic ↦ (b, panic)
    | ok (ctx, signer) ↦ elim (find_name id b.venues) [
      | none ↦ (b, err (not_found id))
      | some v ↦
          if has_reference
          then elim sidecar [
            | none ↦ (b, err sidecar_error)
            | some q ↦ answer_quote now nanos ctx signer id taker_side wanted q funds b
          ]
          else (b, err no_reference)
    ]
  ]
