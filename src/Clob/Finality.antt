-- ===== src/Clob/Finality.antt =====
-- operator/src/clob: settlement is final. What is settled stays settled for as long as the order
-- is valid, and is not in the pool again, whatever calls come.
use inference_bazaar.Base.{
  ℕ, ◌≤◌, ◌≡◌, List, [], ◌∷◌, false, inl, inr, Bool-cases, Option-cases, Result-cases, arith,
}
use inference_bazaar.Base.Maps.{has_key}
use inference_bazaar.Base.Sets.{Member}
use inference_bazaar.Settlement.Types.{B256, Crypto}
use inference_bazaar.Settlement.Fills.{SignedOrder, digest}
use inference_bazaar.Matcher.Consensus.{
  Verdict, sign, forged, fills_hash_mismatch, censored, crashed,
}
use inference_bazaar.Clob.Types.{Clob, WireProposal, settlement_deadline}
use inference_bazaar.Clob.Pool.{is_cancelled}
use inference_bazaar.Clob.Pending.{
  snapshot, mark_pending, confirm_batch, release_pending, evict, digests_where, is_of,
}
use inference_bazaar.Clob.Peer.{
  attest, authenticate, find_expiring, co_sign, answer, find_cancelled,
}
use inference_bazaar.Clob.Entries.{IsClob}
use inference_bazaar.Clob.Keeps.{step-IsClob}
use inference_bazaar.Clob.Steps.{
  Call, order_in, cancel_in, take_snapshot, mark, confirm, confirm_nonce, release, evict_orders,
  propose_in, step, Run, done, then_call,
}
use inference_bazaar.Clob.Settled.{
  Settles, absent, confirm_orders-Settles, admit_cancel-Settles, is_cancelled-Settles,
  admit-Settles,
}

module _ (c : Crypto) (d : B256) (exp : ℕ) where
  release_pending-Settles :
      (ds : List B256) (b : Clob) → Settles c d exp b → Settles c d exp (release_pending ds b).0
  unfolding release_pending
  release_pending-Settles [] b s = s
  release_pending-Settles (d' ∷ ds) b s = release_pending-Settles ds _ s

  find_cancelled-Settles :
      (now : ℕ) (os : List SignedOrder) (b : Clob)
      → Settles c d exp b
      → Settles c d exp (find_cancelled c now os b).0
  unfolding find_cancelled
  find_cancelled-Settles now [] b s = s
  find_cancelled-Settles now (o ∷ os) b s =
      let b' = (is_cancelled now (digest c o b.domain) o.order.trader b).0 in
      let s' = is_cancelled-Settles c d exp now (digest c o b.domain) o.order.trader b s in
      elim (Bool-cases (is_cancelled now (digest c o b.domain) o.order.trader b).1) [
        | inl e ↦ rw (e, find_cancelled) s'
        | inr e ↦ rw (e, find_cancelled) (find_cancelled-Settles now os b' s')
      ]

  answer-Settles :
      (now : ℕ) (w : WireProposal) (v : Verdict) (b : Clob)
      → Settles c d exp b
      → Settles c d exp (answer c now w v b).0
  unfolding answer mark_pending
  answer-Settles now w (sign e batch) b s =
      let s' = find_cancelled-Settles now w.orders b s in
      elim (Option-cases (find_cancelled c now w.orders b).1) [
        | inl e ↦ rw (e, answer) s'
        | inr (o, e) ↦ rw (e, answer) s'
      ]
  answer-Settles now w (forged ds) b s = s
  answer-Settles now w fills_hash_mismatch b s = s
  answer-Settles now w (censored ds) b s = s
  answer-Settles now w crashed b s = s

  attest-Settles :
      (now : ℕ) (w : WireProposal) (b : Clob)
      → Settles c d exp b
      → Settles c d exp (attest c now w b).0
  unfolding attest co_sign snapshot
  attest-Settles now w b s = elim (Result-cases (authenticate c now w b)) [
    | inr (inl (x, e)) ↦ rw (e, attest) s
    | inr (inr e) ↦ rw (e, attest) s
    | inl (i, e) ↦ elim (Option-cases (find_expiring (settlement_deadline b w.epoch) w.orders)) [
      | inl f ↦
          rw (e, attest, f, co_sign)
            (answer-Settles now w _ (snapshot now w.instrument_id w.epoch b).0 s)
      | inr (o, f) ↦ rw (e, attest, f) s
    ]
  ]

  step-Settles :
      (now : ℕ) (call : Call) (b : Clob)
      → IsClob c b
      → now ≤ exp
      → Settles c d exp b
      → Settles c d exp (step c now call b)
  unfolding step confirm_batch snapshot mark_pending evict
  step-Settles now (order_in body) b h le s = admit-Settles c d exp now body b le s
  step-Settles now (cancel_in w) b h le s = admit_cancel-Settles c d exp now w b s
  step-Settles now (take_snapshot id epoch) b h le s = s
  step-Settles now (mark fills n deadline) b h le s = s
  step-Settles now (confirm digests) b h le s = confirm_orders-Settles c d exp digests b h s
  step-Settles now (confirm_nonce n) b h le s =
      confirm_orders-Settles c d exp (digests_where (is_of n) b) b h s
  step-Settles now (release digests) b h le s = release_pending-Settles digests b s
  step-Settles now (evict_orders doomed) b h le s = s
  step-Settles now (propose_in w) b h le s = attest-Settles now w b s

  Run-Settles :
      {start now : ℕ} {a b : Clob}
      → Run c start a now b
      → IsClob c a
      → now ≤ exp
      → Settles c d exp a
      → IsClob c b × Settles c d exp b
  Run-Settles done h le s = (h, s)
  Run-Settles (then_call {now = now} {b = b} later call r up) h le s =
      let (h', s') = Run-Settles r h (omega arith) s in
      (step-IsClob c later call b h', step-Settles later call b h' le s')

  -- Settlement is final: in a run from a well-formed state in which an order is settled, up to a
  -- time at which the order has not expired, the order stays settled and is not in the pool.
  pub settled-stays :
      {start now : ℕ} {a b : Clob}
      → Run c start a now b
      → IsClob c a
      → now ≤ exp
      → Member (d, exp) a.settled
      → Member (d, exp) b.settled × (has_key d b.pool ≡ false)
  settled-stays {b = b} r h le s =
      let (h', s') = Run-Settles r h le s in (s', absent c d exp b h' s')
