-- ===== src/Clob/Steps.antt =====
-- operator/src/clob: the calls that change the service's state, as the steps of a run.
use inference_bazaar.Base.{ℕ, ◌≤◌, String, List}
use inference_bazaar.Settlement.Types.{B256, BatchFill, Crypto}
use inference_bazaar.Clob.Types.{Clob, SignedOrderBody, WireCancel, WireProposal}
use inference_bazaar.Clob.Pool.{admit, admit_cancel}
use inference_bazaar.Clob.Pending.{
  snapshot, mark_pending, confirm_orders, confirm_batch, release_pending, evict,
}
use inference_bazaar.Clob.Peer.{attest}

pub data Call : Type 0 where
  order_in : SignedOrderBody → Call
  cancel_in : WireCancel → Call
  take_snapshot : String → ℕ → Call
  mark : List BatchFill → ℕ → ℕ → Call
  confirm : List B256 → Call
  confirm_nonce : ℕ → Call
  release : List B256 → Call
  evict_orders : List B256 → Call
  propose_in : WireProposal → Call

-- The state after a call at a time.
unfoldable pub step : Crypto → ℕ → Call → Clob → Clob
unfolding admit admit_cancel snapshot mark_pending confirm_orders confirm_batch release_pending
    evict attest
step c now (order_in body) b = (admit c now body b).0
step c now (cancel_in w) b = (admit_cancel c now w b).0
step c now (take_snapshot id epoch) b = (snapshot now id epoch b).0
step c now (mark fills batch_nonce deadline) b = mark_pending c fills batch_nonce deadline b
step c now (confirm digests) b = confirm_orders digests b
step c now (confirm_nonce batch_nonce) b = (confirm_batch batch_nonce b).0
step c now (release digests) b = (release_pending digests b).0
step c now (evict_orders doomed) b = evict doomed b
step c now (propose_in w) b = (attest c now w b).0

-- Runs of calls whose clock goes on, up to a time.
pub data Run (c : Crypto) : ℕ → Clob → ℕ → Clob → Type 0 where
  done : {now : ℕ} {b : Clob} → Run c now b now b
  then_call :
      {start now : ℕ} {a b : Clob} (later : ℕ) (call : Call)
      → Run c start a now b
      → now ≤ later
      → Run c start a later (step c later call b)
