-- ===== src/Venue/Outbox.antt =====
-- operator/src/market.rs: the outbox of fills to settle, and what the operator has committed to.
-- What the chain answers is a parameter; fills that arrive while it is asked are listed with it.
use inference_bazaar.Base.{
  ℕ, ◌+◌, ◌-◌, ◌*◌, ◌/◌, ◌%◌, ◌^◌, String, List, [], ◌∷◌, ◌++◌, Option, none, some, Bool, true,
  false, not, ◌||◌, ◌&&◌, min, ltb, ◌==◌, if◌then◌else◌, select, Result, ok, err,
}
use inference_bazaar.Settlement.Types.{Address, side_sell}
use inference_bazaar.Settlement.Core.{cost_micro}
use inference_bazaar.Settlement.Fills.{SignedFill, fill_cost_micro}
use inference_bazaar.Clob.Types.{add_u64}
use inference_bazaar.Venue.Types.{
  SettleCtx, SignedEntry, SignedState, ChainCache, Venue, VenueError, settlement_unconfigured,
  chain_error,
}
use inference_bazaar.Venue.Signed.{remaining}
use inference_bazaar.Venue.Rfq.{operator_of}

abbrev is_some : {A : Type 0} → Option A → Bool
is_some none = false
is_some (some x) = true

unfoldable pub is_live : ℕ → SignedFill → Bool
is_live now f = not (ltb f.buy.order.expiry now || ltb f.sell.order.expiry now)

-- `mem::take` of the outbox, and its partition into live and expired fills.
unfoldable pub take_outbox : ℕ → SignedState → SignedState × (List SignedFill × List SignedFill)
unfolding is_live
take_outbox now s = (
  record s { outbox = [] },
  (select (is_live now) s.outbox, select (λ f. not (is_live now f)) s.outbox),
)

unfoldable pub requeue : List SignedFill → SignedState → SignedState
requeue fills s = record s { outbox = fills ++ s.outbox }

-- What the chain answers in a flush: no connection, or whether the batch as a whole and each fill
-- alone is taken.
pub data Answer : Type 0 where
  unconfigured unreachable : Answer
  connected : (batch : Bool) → (alone : SignedFill → Bool) → Answer

-- The fills that a flush submitted, dropped as unsettleable, and dropped as expired.
pub record FlushReport : Type 0 where
  pub submitted : List SignedFill
  pub dropped : List SignedFill
  pub expired : List SignedFill
  pub failed : Bool

abbrev pub report : List SignedFill → List SignedFill → List SignedFill → Bool → FlushReport
report submitted dropped expired failed = record {
  submitted = submitted;
  dropped = dropped;
  expired = expired;
  failed = failed;
}

-- The end of a flush of the taken fills, in the state of then.
unfoldable pub finish_flush :
    Answer → List SignedFill → List SignedFill → SignedState → SignedState × FlushReport
unfolding requeue
finish_flush a [] expired s = (s, report [] [] expired false)
finish_flush unconfigured (f ∷ fs) expired s = (requeue (f ∷ fs) s, report [] [] expired false)
finish_flush unreachable (f ∷ fs) expired s = (requeue (f ∷ fs) s, report [] [] expired true)
finish_flush (connected true alone) (f ∷ fs) expired s = (s, report (f ∷ fs) [] expired false)
finish_flush (connected false alone) (f ∷ fs) expired s =
    (s, report (select alone (f ∷ fs)) (select (λ g. not (alone g)) (f ∷ fs)) expired false)

-- A flush, while which some fills arrive.
unfoldable pub flush_outbox : ℕ → Answer → List SignedFill → SignedState → SignedState × FlushReport
unfolding take_outbox finish_flush
flush_outbox now a arrived s =
    let (s', (live, expired)) = take_outbox now s in
    finish_flush a live expired (record s' { outbox = s'.outbox ++ arrived })

-- What a flush answers: an error when the chain could not be asked.
abbrev pub flush_reply : FlushReport → Result VenueError FlushReport
flush_reply r = if r.failed then err chain_error else ok r

unfoldable pub flush_settlement :
    ℕ → Answer → List SignedFill → Venue → Venue × Result VenueError FlushReport
unfolding flush_outbox
flush_settlement now a arrived b = elim b.settle [
  | none ↦ (b, err settlement_unconfigured)
  | some ctx ↦
      let (s, r) = flush_outbox now a arrived b.signed in (record b { signed = s }, flush_reply r)
]

unfoldable pub load_outbox : Option (List SignedFill) → SignedState → SignedState
load_outbox none s = s
load_outbox (some []) s = s
load_outbox (some (f ∷ fs)) s = record s { outbox = f ∷ fs }

abbrev add_u128 : ℕ → ℕ → ℕ
add_u128 a b = (a + b) % 2 ^ 128

-- The cost of the queued fills in which the operator sells, or buys.
unfoldable pub queued_cost : (SignedFill → Address) → Address → List SignedFill → ℕ
unfolding fill_cost_micro
queued_cost who op [] = 0
queued_cost who op (f ∷ fs) =
    let rest = queued_cost who op fs in
    if who f == op then add_u128 (fill_cost_micro f) rest else rest

-- The cost of what remains of the operator's live orders on a side.
unfoldable pub resting_cost : Bool → Address → ℕ → SignedState → List (String × SignedEntry) → ℕ
unfolding remaining cost_micro
resting_cost sells op now s [] = 0
resting_cost sells op now s ((d, e) ∷ m) =
    let o = e.signed.order in
    let rest = resting_cost sells op now s m in
    if not (o.trader == op) || ltb o.expiry now
    then rest
    else if remaining d o s == 0
    then rest
    else elim (o.side == side_sell) [
      | true ↦
          if sells
          then add_u128 (cost_micro o.price_micro_per_m (remaining d o s) % 2 ^ 128) rest
          else rest
      | false ↦
          if sells
          then rest
          else add_u128 (cost_micro o.price_micro_per_m (remaining d o s) % 2 ^ 128) rest
    ]

-- What the operator has committed to sell and to buy.
unfoldable pub outstanding_commitments : Address → ℕ → SignedState → ℕ × ℕ
unfolding queued_cost resting_cost
outstanding_commitments op now s = (
  add_u128 (queued_cost (λ f. f.sell.order.trader) op s.outbox)
      (resting_cost true op now s s.orders),
  add_u128 (queued_cost (λ f. f.buy.order.trader) op s.outbox)
      (resting_cost false op now s s.orders),
)

-- The budgets that are left, to sell and to buy.
unfoldable pub budgets_of : ChainCache → ℕ × ℕ → ℕ × ℕ
budgets_of cache (out_sell, out_buy) = (
  cache.free_collateral_micro * 10_000 % 2 ^ 128 / (10_000 + cache.penalty_bps) - out_sell,
  cache.balance_micro - out_buy,
)

unfoldable pub quote_budgets : ℕ → Venue → Option (ℕ × ℕ)
unfolding outstanding_commitments budgets_of
quote_budgets now b = if b.chain_cache.fetched_at == 0 then none else elim b.settle [
  | none ↦ none
  | some ctx ↦ elim (operator_of ctx) [
    | none ↦ none
    | some op ↦ some (budgets_of b.chain_cache (outstanding_commitments op now b.signed))
  ]
]

-- Can the chain be asked for the operator's funds: an RPC address, a key and a signer?
abbrev pub can_read_funds : SettleCtx → Bool
can_read_funds ctx =
    is_some ctx.rpc_url
    && ((is_some ctx.submitter_key || is_some ctx.operator_key) && is_some ctx.signer)

-- What the contract holds for the operator: free collateral, balance and default penalty.
pub record Funds : Type 0 where
  pub free_collateral : ℕ
  pub balance : ℕ
  pub penalty_bps : ℕ

-- The cache after a refresh; `none` when a read fails.
unfoldable pub refresh_chain_cache : ℕ → Option Funds → Venue → Venue
refresh_chain_cache now funds b = elim b.settle [
  | none ↦ b
  | some ctx ↦
      if can_read_funds ctx
      then elim funds [
        | none ↦ b
        | some f ↦ record b {
          chain_cache = record {
            free_collateral_micro = min f.free_collateral (2 ^ 128 - 1);
            balance_micro = min f.balance (2 ^ 128 - 1);
            penalty_bps = f.penalty_bps;
            fetched_at = now;
          };
        }
      ]
      else b
]

-- A quote refreshes a cache that is older than 15 seconds.
unfoldable pub refresh_if_stale : ℕ → Option Funds → Venue → Venue
unfolding refresh_chain_cache
refresh_if_stale now funds b =
    if ltb (add_u64 b.chain_cache.fetched_at 15) now then refresh_chain_cache now funds b else b
