-- ===== src/Matcher/Consensus.antt =====
-- crates/matcher/src/consensus.rs: election, verification of a proposal, and aggregation.
use inference_bazaar.Base.{
  ℕ, ◌%◌, String, List, [], ◌∷◌, map, Option, none, some, Bool, true, false, not, ◌&&◌, ltb, leb,
  ◌==◌, if◌then◌else◌, length, select,
}
use inference_bazaar.Base.Int.{I64}
use inference_bazaar.Base.Sets.{sort_by, sort_dedup}
use inference_bazaar.Settlement.Types.{B256, Address, Bytes, Eip712Domain, Crypto}
use inference_bazaar.Settlement.Core.{
  order_digest, batch_digest, instrument_hash, recover_signer, is_signer, nth,
}
use inference_bazaar.Settlement.Fills.{SignedOrder, verify, contains}
use inference_bazaar.Matcher.Epoch.{EpochBatch, match_epoch}

unfoldable pub elect_proposer : List Address → ℕ → Option Address
unfolding sort_dedup
elect_proposer [] epoch = none
elect_proposer (a ∷ operators) epoch =
    let ops = sort_dedup (a ∷ operators) in nth ops (epoch % length ops)

pub record BatchProposal : Type 0 where
  pub epoch : ℕ
  pub book_id : B256
  pub batch_nonce : ℕ
  pub instrument_id : String
  pub proposer : Address
  pub orders : List SignedOrder
  pub fills_hash : B256

pub record Attestation : Type 0 where
  pub attester : Address
  pub signature : Bytes

pub data Verdict : Type 0 where
  sign : B256 → EpochBatch → Verdict
  forged : List B256 → Verdict
  fills_hash_mismatch : Verdict
  censored : List B256 → Verdict
  -- The match panics.
  crashed : Verdict

abbrev pub by_address : Address × Bytes → Address × Bytes → Bool
by_address p q = leb p.0 q.0

module _ (c : Crypto) where
  unfoldable pub digests_of : List SignedOrder → Eip712Domain → List B256
  digests_of orders dom = map (λ so. order_digest c so.order dom) orders

  -- The orders whose signature does not recover to their trader.
  unfoldable pub forged_orders : List SignedOrder → Eip712Domain → List B256
  unfolding digests_of
  forged_orders orders dom = digests_of (select (λ so. not (verify c so dom)) orders) dom

  -- My orders of the instrument that the proposal leaves out.
  unfoldable pub censored_orders :
      B256 → List SignedOrder → List SignedOrder → Eip712Domain → List B256
  unfolding digests_of
  censored_orders want_instrument proposed my_orders dom =
      let included = digests_of proposed dom in
      select (λ d. not (contains c included d))
        (digests_of (select (λ so. so.order.instrument == want_instrument) my_orders) dom)

  abbrev pub or_else : List B256 → (List B256 → Verdict) → Verdict → Verdict
  or_else [] refuse go_on = go_on
  or_else (d ∷ ds) refuse go_on = refuse (d ∷ ds)

  unfoldable pub check_batch :
      BatchProposal → List SignedOrder → Eip712Domain → Option EpochBatch → Verdict
  check_batch proposal my_orders dom none = crashed
  check_batch proposal my_orders dom (some recomputed) =
      if recomputed.fills_hash == proposal.fills_hash
      then or_else
          (censored_orders (instrument_hash c proposal.instrument_id) proposal.orders my_orders dom)
          censored
          (sign (batch_digest c proposal.book_id proposal.batch_nonce proposal.fills_hash dom)
            recomputed)
      else fills_hash_mismatch

  unfoldable pub verify_proposal :
      BatchProposal → List SignedOrder → I64 → I64 → Eip712Domain → Verdict
  unfolding check_batch forged_orders censored_orders
  verify_proposal proposal my_orders tick_size min_qty dom =
      or_else (forged_orders proposal.orders dom) forged (
        check_batch proposal my_orders dom (
          match_epoch c proposal.instrument_id tick_size min_qty dom
            (map (λ so. so.order) proposal.orders)))

  -- Attestations that recover to a distinct bonded operator, with their signers, in input order.
  unfoldable pub accepted :
      B256 → List Address → List Address → List Attestation → List (Address × Bytes)
  accepted d bonded counted [] = []
  accepted d bonded counted (a ∷ rest) =
      elim (is_signer c (recover_signer c d a.signature) a.attester
        && (contains c bonded a.attester && not (contains c counted a.attester))) [
          | true ↦ (a.attester, a.signature) ∷ accepted d bonded (a.attester ∷ counted) rest
          | false ↦ accepted d bonded counted rest
        ]

  unfoldable pub aggregate_attestation :
      B256 → List Attestation → List Address → ℕ → Option (List Bytes)
  unfolding accepted sort_by
  aggregate_attestation d attestations bonded threshold =
      let all = accepted d bonded [] attestations in
      if ltb (length all) threshold then none else some (map (λ p. p.1) (sort_by by_address all))
