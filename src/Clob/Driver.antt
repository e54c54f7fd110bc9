-- ===== src/Clob/Driver.antt =====
-- operator/src/clob/driver.rs: the proposer's side of an epoch and the settlement watcher. What the
-- chain and the peers answer is a parameter; the clock is read once in each call.
use Prim.Native.String
use inference_bazaar.Base.{
  zero, suc, ℕ, ◌+◌, ◌-◌, ◌^◌, min, String, List, [], ◌∷◌, ◌++◌, map, Option, none, some, Bool,
  true, false, not, ◌&&◌, ◌||◌, ltb, ◌==◌, if◌then◌else◌, any, select, Result, ok, err, panic,
}
use inference_bazaar.Settlement.Types.{B256, Address, Bytes, Order, BatchFill, Crypto}
use inference_bazaar.Settlement.Core.{order_digest, order_struct_hash, batch_digest, cost_micro}
use inference_bazaar.Settlement.Fills.{SignedOrder, digest, sign_digest}
use inference_bazaar.Matcher.Epoch.{EpochBatch, match_epoch}
use inference_bazaar.Matcher.Consensus.{Attestation, aggregate_attestation}
use inference_bazaar.Clob.Types.{
  Clob, Instrument, WireProposal, add_u64, addresses, pending_settle_ttl,
}
use inference_bazaar.Clob.Pending.{mark_pending, touched, confirm_orders, evict}

-- The contract's view of orders and accounts.
pub record ChainView : Type 0 where
  pub cancelled : B256 → Bool
  pub filled : B256 → ℕ
  pub balance_of : Address → ℕ
  pub free_collateral : Address → ℕ

-- What a round of reads meets: no chain is configured, a read fails, or the view.
pub data Reads : Type 0 where
  no_chain failed : Reads
  view : ChainView → Reads

-- What the world answers to one proposal: the reads of each round of simulation, the batch nonce, the
-- attestations that peers send to a proposal, and whether the submission lands.
pub record World : Type 0 where
  pub round : ℕ → Reads
  pub batch_nonce : Option ℕ
  pub collect_attestations : WireProposal → B256 → ℕ → List Attestation
  pub submit : List BatchFill → List Bytes → Bool

pub data DriveError : Type 0 where
  read_failed submit_failed : DriveError

-- A report on one instrument: a batch without its quorum, or a batch that settled.
pub data BatchReport : Type 0 where
  no_quorum : EpochBatch → BatchReport
  submitted : EpochBatch → (batch_nonce : ℕ) → (sigs : List Bytes) → BatchReport

-- `filled.saturating_add(qty) > qtyTokens`.
abbrev pub overfills : ℕ → ℕ → ℕ → Bool
overfills filled qty cap = ltb cap (min (filled + qty) (2 ^ 64 - 1))

abbrev pub is_empty : {A : Type 0} → List A → Bool
is_empty [] = true
is_empty (x ∷ xs) = false

abbrev pub listed : List B256 → B256 → Bool
listed ds d = any (λ x. d == x) ds

module _ (c : Crypto) where
  -- Would one order of a fill make the batch revert?
  unfoldable pub is_doomed : ℕ → ChainView → BatchFill → Order → Bool → Bool
  unfolding order_struct_hash cost_micro
  is_doomed now v f o is_buy =
      let h = order_struct_hash c o in
      let cost = cost_micro f.exec_price_micro_per_m f.qty_tokens in
      if ltb o.expiry now || (v.cancelled h || overfills (v.filled h) f.qty_tokens o.qty_tokens)
      then true
      else if is_buy
      then ltb (v.balance_of o.trader) cost
      else o.lot_id == 0 && ltb (v.free_collateral o.trader) cost

  unfoldable pub doomed_of : ℕ → ChainView → BatchFill → Order → Bool → Clob → List B256
  unfolding is_doomed
  doomed_of now v f o is_buy b =
      if is_doomed now v f o is_buy then order_digest c o b.domain ∷ [] else []

  unfoldable pub simulate_doomed : ℕ → ChainView → List BatchFill → Clob → List B256
  unfolding doomed_of
  simulate_doomed now v [] b = []
  simulate_doomed now v (f ∷ fs) b =
      doomed_of now v f f.buy true b
      ++ (doomed_of now v f f.sell false b ++ simulate_doomed now v fs b)

  abbrev orders_of : List SignedOrder → List Order
  orders_of signed = map (λ s. s.order) signed

  abbrev pub match_of : Instrument → List SignedOrder → Clob → Option EpochBatch
  match_of inst signed b =
      match_epoch c inst.id inst.tick_size inst.min_qty b.domain (orders_of signed)

  -- The snapshot without the doomed orders.
  unfoldable pub spared : List B256 → List SignedOrder → Clob → List SignedOrder
  spared doomed orders b = select (λ s. not (listed doomed (digest c s b.domain))) orders

  -- The rounds of simulation that are left: doomed orders are evicted and the rest is matched again.
  unfoldable pub clean :
      ℕ
      → Instrument
      → (ℕ → Reads)
      → (left : ℕ) → List SignedOrder
      → EpochBatch
      → Clob
      → Clob × Result DriveError (List SignedOrder × EpochBatch)
  unfolding simulate_doomed spared evict
  clean now inst reads zero orders batch b = (b, ok (orders, batch))
  clean now inst reads (suc left) orders batch b =
      if is_empty batch.fills then (b, ok (orders, batch)) else elim (reads left) [
        | no_chain ↦ (b, ok (orders, batch))
        | failed ↦ (b, err read_failed)
        | view v ↦
            let doomed = simulate_doomed now v batch.fills b in
            elim (is_empty doomed) [
              | true ↦ (b, ok (orders, batch))
              | false ↦
                  let rest = spared doomed orders b in
                  elim (match_of inst rest b) [
                    | none ↦ (evict doomed b, panic)
                    | some again ↦ clean now inst reads left rest again (evict doomed b)
                  ]
            ]
      ]

  module _ (hex_encode : Bytes → String) where
    abbrev pub wire_of :
        ℕ → Instrument → ℕ → Bytes → List SignedOrder → EpochBatch → Clob → WireProposal
    wire_of epoch inst batch_nonce sig orders batch b = record {
      epoch = epoch;
      book_id = b.cfg.book_id;
      batch_nonce = batch_nonce;
      instrument_id = inst.id;
      proposer = b.signer.address;
      proposer_sig = String.◌++◌ "0x" (hex_encode sig);
      orders = orders;
      fills_hash = batch.fills_hash;
    }

    -- The proposer's own attestation and those of the peers.
    unfoldable pub attestations_of :
        ℕ → Instrument → World → ℕ → List SignedOrder → EpochBatch → Clob → List Attestation
    unfolding sign_digest batch_digest
    attestations_of epoch inst w batch_nonce orders batch b =
        let d = batch_digest c b.cfg.book_id batch_nonce batch.fills_hash b.domain in
        let sig = sign_digest c b.signer d in
        record { attester = b.signer.address; signature = sig }
        ∷ w.collect_attestations (wire_of epoch inst batch_nonce sig orders batch b) d
            (b.cfg.threshold - 1)

    unfoldable pub quorum_of :
        ℕ → Instrument → World → ℕ → List SignedOrder → EpochBatch → Clob → Option (List Bytes)
    unfolding attestations_of aggregate_attestation batch_digest
    quorum_of epoch inst w batch_nonce orders batch b =
        aggregate_attestation c (batch_digest c b.cfg.book_id batch_nonce batch.fills_hash b.domain)
          (attestations_of epoch inst w batch_nonce orders batch b) (addresses b.cfg)
          b.cfg.threshold

    -- A batch with its quorum: pending, and confirmed when the submission lands.
    unfoldable pub land :
        ℕ
        → World
        → ℕ
        → EpochBatch
        → List Bytes
        → Clob
        → Clob × Result DriveError (Option BatchReport)
    unfolding mark_pending touched confirm_orders
    land now w batch_nonce batch sigs b =
        let deadline = add_u64 now (pending_settle_ttl b.cfg.epoch_secs) in
        let b' = mark_pending c batch.fills batch_nonce deadline b in
        if w.submit batch.fills sigs
        then (
          confirm_orders (touched c b'.domain batch.fills) b',
          ok (some (submitted batch batch_nonce sigs)),
        )
        else (b', err submit_failed)

    -- A batch that crossed.
    unfoldable pub propose_batch :
        ℕ
        → ℕ
        → Instrument
        → World
        → List SignedOrder
        → EpochBatch
        → Clob
        → Clob × Result DriveError (Option BatchReport)
    unfolding quorum_of land
    propose_batch now epoch inst w orders batch b = elim w.batch_nonce [
      | none ↦ (b, err read_failed)
      | some batch_nonce ↦ elim (quorum_of epoch inst w batch_nonce orders batch b) [
        | none ↦ (b, ok (some (no_quorum batch)))
        | some sigs ↦ land now w batch_nonce batch sigs b
      ]
    ]

    abbrev pub when_crossed :
        ℕ
        → ℕ
        → Instrument
        → World
        → Clob × Result DriveError (List SignedOrder × EpochBatch)
        → Clob × Result DriveError (Option BatchReport)
    when_crossed now epoch inst w (b, err e) = (b, err e)
    when_crossed now epoch inst w (b, panic) = (b, panic)
    when_crossed now epoch inst w (b, ok (orders, batch)) =
        if is_empty batch.fills then (b, ok none) else propose_batch now epoch inst w orders batch b

    unfoldable pub propose_instrument :
        ℕ
        → ℕ
        → Instrument
        → World
        → List SignedOrder
        → Clob
        → Clob × Result DriveError (Option BatchReport)
    unfolding match_epoch clean propose_batch
    propose_instrument now epoch inst w orders b = elim (match_of inst orders b) [
      | none ↦ (b, panic)
      | some batch ↦ when_crossed now epoch inst w (clean now inst w.round 3 orders batch b)
    ]
