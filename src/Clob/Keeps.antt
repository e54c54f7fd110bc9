-- ===== src/Clob/Keeps.antt =====
-- operator/src/clob: every call keeps the pool's entries genuine and unsettled.
use inference_bazaar.Base.{
  ℕ, String, List, [], ◌∷◌, none, inl, inr, Bool-cases, Option-cases, Result-cases,
}
use inference_bazaar.Base.Maps.{adjust, All-select, All-adjust}
use inference_bazaar.Settlement.Types.{B256, Crypto, BatchFill}
use inference_bazaar.Settlement.Fills.{SignedOrder, digest}
use inference_bazaar.Matcher.Consensus.{
  Verdict, sign, forged, fills_hash_mismatch, censored, crashed,
}
use inference_bazaar.Clob.Types.{Clob, WireProposal, settlement_deadline}
use inference_bazaar.Clob.Pool.{is_cancelled}
use inference_bazaar.Clob.Pending.{
  snapshot, mark_pending, confirm_orders, confirm_batch, release_pending, evict, set_pending,
  touched, digests_where, is_of,
}
use inference_bazaar.Clob.Peer.{
  attest, authenticate, find_expiring, co_sign, answer, find_cancelled,
}
use inference_bazaar.Clob.Entries.{IsEntry, IsClob, mark_all-IsEntry, settle_digests-IsClob}
use inference_bazaar.Clob.Steps.{
  Call, order_in, cancel_in, take_snapshot, mark, confirm, confirm_nonce, release, evict_orders,
  propose_in, step,
}
use inference_bazaar.Clob.Admits.{
  persist-IsClob, is_cancelled-IsClob, admit-IsClob, admit_cancel-IsClob,
}

module _ (c : Crypto) where
  snapshot-IsClob :
      (now : ℕ) (id : String) (epoch : ℕ) (b : Clob)
      → IsClob c b
      → IsClob c (snapshot now id epoch b).0
  unfolding snapshot IsClob
  snapshot-IsClob now id epoch b h = All-select _ _ b.pool h

  mark_pending-IsClob :
      (fills : List BatchFill) (n deadline : ℕ) (b : Clob)
      → IsClob c b
      → IsClob c (mark_pending c fills n deadline b)
  unfolding mark_pending IsClob
  mark_pending-IsClob fills n deadline b h =
      mark_all-IsEntry c b.domain b.settled _ (touched c b.domain fills) b.pool h

  confirm_orders-IsClob : (ds : List B256) (b : Clob) → IsClob c b → IsClob c (confirm_orders ds b)
  unfolding confirm_orders
  confirm_orders-IsClob [] b h = h
  confirm_orders-IsClob (d ∷ ds) b h = persist-IsClob c _ (settle_digests-IsClob c (d ∷ ds) b h)

  release_pending-IsClob :
      (ds : List B256) (b : Clob) → IsClob c b → IsClob c (release_pending ds b).0
  unfolding release_pending IsClob
  release_pending-IsClob [] b h = h
  release_pending-IsClob (d ∷ ds) b h =
      release_pending-IsClob ds (record b { pool = adjust (set_pending none) d b.pool })
        (All-adjust (IsEntry c b.domain b.settled) (set_pending none) d b.pool (λ j v e. e) h)

  evict-IsClob : (doomed : List B256) (b : Clob) → IsClob c b → IsClob c (evict doomed b)
  unfolding evict IsClob
  evict-IsClob doomed b h = All-select _ _ b.pool h

  find_cancelled-IsClob :
      (now : ℕ) (os : List SignedOrder) (b : Clob)
      → IsClob c b
      → IsClob c (find_cancelled c now os b).0
  unfolding find_cancelled
  find_cancelled-IsClob now [] b h = h
  find_cancelled-IsClob now (o ∷ os) b h =
      let b' = (is_cancelled now (digest c o b.domain) o.order.trader b).0 in
      let h' = is_cancelled-IsClob c now (digest c o b.domain) o.order.trader b h in
      elim (Bool-cases (is_cancelled now (digest c o b.domain) o.order.trader b).1) [
        | inl e ↦ rw (e, find_cancelled) h'
        | inr e ↦ rw (e, find_cancelled) (find_cancelled-IsClob now os b' h')
      ]

  answer-IsClob :
      (now : ℕ) (w : WireProposal) (v : Verdict) (b : Clob)
      → IsClob c b
      → IsClob c (answer c now w v b).0
  unfolding answer
  answer-IsClob now w (sign d batch) b h =
      let h' = find_cancelled-IsClob now w.orders b h in
      elim (Option-cases (find_cancelled c now w.orders b).1) [
        | inl e ↦ rw (e, answer) (mark_pending-IsClob batch.fills w.batch_nonce _ _ h')
        | inr (o, e) ↦ rw (e, answer) h'
      ]
  answer-IsClob now w (forged ds) b h = h
  answer-IsClob now w fills_hash_mismatch b h = h
  answer-IsClob now w (censored ds) b h = h
  answer-IsClob now w crashed b h = h

  attest-IsClob :
      (now : ℕ) (w : WireProposal) (b : Clob) → IsClob c b → IsClob c (attest c now w b).0
  unfolding attest co_sign
  attest-IsClob now w b h = elim (Result-cases (authenticate c now w b)) [
    | inr (inl (x, e)) ↦ rw (e, attest) h
    | inr (inr e) ↦ rw (e, attest) h
    | inl (i, e) ↦ elim (Option-cases (find_expiring (settlement_deadline b w.epoch) w.orders)) [
      | inl f ↦
          rw (e, attest, f, co_sign)
            (answer-IsClob now w _ _ (snapshot-IsClob now w.instrument_id w.epoch b h))
      | inr (o, f) ↦ rw (e, attest, f) h
    ]
  ]

  -- Every call of the service keeps its state well-formed: each pooled order is filed under its
  -- digest, is signed by its trader, names its instrument, has a size that is not zero, has a
  -- price and a size the matcher can read, and is not in the settled set.
  pub step-IsClob : (now : ℕ) (call : Call) (b : Clob) → IsClob c b → IsClob c (step c now call b)
  unfolding step confirm_batch
  step-IsClob now (order_in body) b h = admit-IsClob c now body b h
  step-IsClob now (cancel_in w) b h = admit_cancel-IsClob c now w b h
  step-IsClob now (take_snapshot id epoch) b h = snapshot-IsClob now id epoch b h
  step-IsClob now (mark fills n deadline) b h = mark_pending-IsClob fills n deadline b h
  step-IsClob now (confirm digests) b h = confirm_orders-IsClob digests b h
  step-IsClob now (confirm_nonce n) b h = confirm_orders-IsClob (digests_where (is_of n) b) b h
  step-IsClob now (release digests) b h = release_pending-IsClob digests b h
  step-IsClob now (evict_orders doomed) b h = evict-IsClob doomed b h
  step-IsClob now (propose_in w) b h = attest-IsClob now w b h
