-- ===== src/Clob/Warrants.antt =====
-- operator/src/clob/driver.rs: the calls that a tick of the driver or of the watcher makes, and what
-- warrants each.
use inference_bazaar.Base.{ℕ, ◌≡◌, ◌<◌, String, List, Option, some, Bool, true, false}
use inference_bazaar.Settlement.Types.{B256, Bytes, BatchFill, Crypto}
use inference_bazaar.Settlement.Fills.{SignedOrder}
use inference_bazaar.Matcher.Epoch.{EpochBatch}
use inference_bazaar.Clob.Types.{Clob, Instrument, add_u64, pending_settle_ttl}
use inference_bazaar.Clob.Pending.{touched, expired_pending}
use inference_bazaar.Clob.Steps.{
  Call, take_snapshot, mark, confirm, confirm_nonce, release, evict_orders, step,
}
use inference_bazaar.Clob.Driver.{ChainView, view, World, simulate_doomed, quorum_of}

-- The calls that a tick of the proposer (the first four) or of the watcher makes, each with what has to
-- be so when it is made: what the world answers the proposer of an instrument, and what the chain
-- answers the watcher.
pub data Warranted (c : Crypto) (hex_encode : Bytes → String) (now epoch : ℕ) (w : String → World)
    (can_settle : Bool) (nonce : Option ℕ) : Call → Clob → Type 0 where
  takes :
      {b : Clob} (inst : Instrument)
      → Warranted c hex_encode now epoch w can_settle nonce (take_snapshot inst.id epoch) b
  evicts :
      {b : Clob} (inst : Instrument) (k : ℕ) (v : ChainView) (fills : List BatchFill)
      → (w inst.id).round k ≡ view v
      → Warranted c hex_encode now epoch w can_settle nonce
          (evict_orders (simulate_doomed c now v fills b))
          b
  marks :
      {b : Clob} (inst : Instrument) (n : ℕ) (orders : List SignedOrder) (batch : EpochBatch)
      (sigs : List Bytes)
      → (w inst.id).batch_nonce ≡ some n
      → quorum_of c hex_encode epoch inst (w inst.id) n orders batch b ≡ some sigs
      → Warranted c hex_encode now epoch w can_settle nonce
          (mark batch.fills n (add_u64 now (pending_settle_ttl b.cfg.epoch_secs)))
          b
  settles :
      {b : Clob} (inst : Instrument) (fills : List BatchFill) (sigs : List Bytes)
      → (w inst.id).submit fills sigs ≡ true
      → Warranted c hex_encode now epoch w can_settle nonce (confirm (touched c b.domain fills)) b
  passes :
      {b : Clob} (n chain_nonce : ℕ)
      → can_settle ≡ true
      → nonce ≡ some chain_nonce
      → n < chain_nonce
      → Warranted c hex_encode now epoch w can_settle nonce (confirm_nonce n) b
  releases :
      {b : Clob} (ds : List B256)
      → can_settle ≡ true
      → ds ≡ expired_pending now b
      → Warranted c hex_encode now epoch w can_settle nonce (release ds) b
  confirms :
      {b : Clob} (ds : List B256)
      → can_settle ≡ false
      → ds ≡ expired_pending now b
      → Warranted c hex_encode now epoch w can_settle nonce (confirm ds) b

-- Runs of warranted calls at one time.
pub data Acts (c : Crypto) (hex_encode : Bytes → String) (now epoch : ℕ) (w : String → World)
    (can_settle : Bool) (nonce : Option ℕ) : Clob → Clob → Type 0 where
  idle : {b : Clob} → Acts c hex_encode now epoch w can_settle nonce b b
  acts :
      {a b : Clob} (call : Call)
      → Acts c hex_encode now epoch w can_settle nonce a b
      → Warranted c hex_encode now epoch w can_settle nonce call b
      → Acts c hex_encode now epoch w can_settle nonce a (step c now call b)
