-- ===== src/Clob/Peer.antt =====
-- operator/src/clob/peer.rs: what a peer checks of a proposal before it co-signs.
use inference_bazaar.Base.{
  ℕ, ◌-◌, List, [], ◌∷◌, Option, none, some, not, ltb, ◌==◌, if◌then◌else◌, Result, ok, err, panic,
}
use inference_bazaar.Base.Text.{trim_0x}
use inference_bazaar.Settlement.Types.{B256, Address, Bytes, Crypto}
use inference_bazaar.Settlement.Core.{batch_digest, recover_signer, is_signer}
use inference_bazaar.Settlement.Fills.{SignedOrder, digest, sign_digest}
use inference_bazaar.Matcher.Consensus.{
  elect_proposer, BatchProposal, Verdict, sign, forged, fills_hash_mismatch, censored, crashed,
  verify_proposal,
}
use inference_bazaar.Clob.Types.{
  Clob, WireProposal, WireAttestation, Instrument, add_u64, addresses, current_epoch,
  settlement_deadline, pending_settle_ttl, instrument,
}
use inference_bazaar.Clob.Pool.{is_cancelled}
use inference_bazaar.Clob.Pending.{snapshot, mark_pending}

-- The verdicts of a refusal.
pub data AttestError : Type 0 where
  stale_epoch foreign_book : AttestError
  not_elected : Option Address → AttestError
  unauthenticated_proposer unlisted_instrument : AttestError
  expires_before_settlement : B256 → AttestError
  cancelled_order : B256 → AttestError
  has_forged : List B256 → AttestError
  wrong_fills_hash : AttestError
  has_censored : List B256 → AttestError

abbrev pub abs_diff : ℕ → ℕ → ℕ
abs_diff a b = if ltb a b then b - a else a - b

unfoldable pub find_expiring : ℕ → List SignedOrder → Option SignedOrder
find_expiring deadline [] = none
find_expiring deadline (o ∷ os) =
    if ltb o.order.expiry deadline then some o else find_expiring deadline os

abbrev pub bytes_or_empty : Option Bytes → Bytes
bytes_or_empty none = []
bytes_or_empty (some bs) = bs

abbrev pub proposal_of : WireProposal → BatchProposal
proposal_of w = record {
  epoch = w.epoch;
  book_id = w.book_id;
  batch_nonce = w.batch_nonce;
  instrument_id = w.instrument_id;
  proposer = w.proposer;
  orders = w.orders;
  fills_hash = w.fills_hash;
}

module _ (c : Crypto) where
  -- The first order of the proposal that this node knows to be cancelled.
  unfoldable pub find_cancelled : ℕ → List SignedOrder → Clob → Clob × Option SignedOrder
  unfolding is_cancelled digest
  find_cancelled now [] b = (b, none)
  find_cancelled now (o ∷ os) b =
      let (b', hit) = is_cancelled now (digest c o b.domain) o.order.trader b in
      let rest = find_cancelled now os b' in if hit then (b', some o) else rest

  -- The checks before any order is looked at, the proposer's signature last.
  unfoldable pub authenticate : ℕ → WireProposal → Clob → Result AttestError Instrument
  unfolding current_epoch elect_proposer batch_digest recover_signer instrument
  authenticate now w b =
      if ltb 1 (abs_diff w.epoch (current_epoch b now))
      then err stale_epoch
      else if not (w.book_id == b.cfg.book_id)
      then err foreign_book
      else let elected = elect_proposer (addresses b.cfg) w.epoch in
        if not (is_signer c elected w.proposer)
        then err (not_elected elected)
        else let claimed = batch_digest c w.book_id w.batch_nonce w.fills_hash b.domain in
          let sig = bytes_or_empty (c.hex_decode (trim_0x w.proposer_sig)) in
          if not (is_signer c (recover_signer c claimed sig) w.proposer)
          then err unauthenticated_proposer
          else elim (instrument b w.instrument_id) [
            | none ↦ err unlisted_instrument
            | some i ↦ ok i
          ]

  -- What becomes of the verdict.
  unfoldable pub answer :
      ℕ → WireProposal → Verdict → Clob → Clob × Result AttestError WireAttestation
  unfolding find_cancelled mark_pending sign_digest pending_settle_ttl
  answer now w (sign d batch) b =
      let (b', hit) = find_cancelled now w.orders b in
      elim hit [
        | some o ↦ (b', err (cancelled_order (digest c o b.domain)))
        | none ↦ (
          mark_pending c batch.fills w.batch_nonce
              (add_u64 now (pending_settle_ttl b.cfg.epoch_secs)) b',
          ok (record { attester = b.signer.address; signature = sign_digest c b.signer d }),
        )
      ]
  answer now w (forged ds) b = (b, err (has_forged ds))
  answer now w fills_hash_mismatch b = (b, err wrong_fills_hash)
  answer now w (censored ds) b = (b, err (has_censored ds))
  answer now w crashed b = (b, panic)

  unfoldable pub co_sign :
      ℕ → WireProposal → Instrument → Clob → Clob × Result AttestError WireAttestation
  unfolding snapshot verify_proposal answer
  co_sign now w i b =
      let (b', my_orders) = snapshot now w.instrument_id w.epoch b in
      answer now w (verify_proposal c (proposal_of w) my_orders i.tick_size i.min_qty b.domain) b'

  unfoldable pub attest : ℕ → WireProposal → Clob → Clob × Result AttestError WireAttestation
  unfolding authenticate find_expiring co_sign settlement_deadline digest
  attest now w b = elim (authenticate now w b) [
    | err e ↦ (b, err e)
    | panic ↦ (b, panic)
    | ok i ↦ elim (find_expiring (settlement_deadline b w.epoch) w.orders) [
      | some o ↦ (b, err (expires_before_settlement (digest c o b.domain)))
      | none ↦ co_sign now w i b
    ]
  ]
