-- ===== src/Clob/Pending.antt =====
-- operator/src/clob/pool.rs: the epoch's snapshot, and the orders of a co-signed batch while it is
-- pending: marked, confirmed, released, evicted.
use inference_bazaar.Base.{
  ℕ, String, str_eq, List, [], ◌∷◌, map, Option, none, some, Bool, true, false, not, ◌&&◌, suc, leb,
  ◌==◌, if◌then◌else◌, length, any,
}
use inference_bazaar.Base.Maps.{lookup, has_key, delete, insert_key, adjust, retain}
use inference_bazaar.Base.Sets.{sort_dedup}
use inference_bazaar.Settlement.Types.{B256, BatchFill, Crypto, Eip712Domain}
use inference_bazaar.Settlement.Core.{order_digest}
use inference_bazaar.Settlement.Fills.{SignedOrder}
use inference_bazaar.Clob.Types.{PendingBatch, PoolEntry, Clob, settlement_deadline}
use inference_bazaar.Clob.Pool.{persist_finality}

-- `is_none_or` and `is_some_and` of the deadline and of the nonce.
unfoldable pub is_open : ℕ → Option PendingBatch → Bool
is_open now none = true
is_open now (some p) = leb p.deadline now

unfoldable pub is_past : ℕ → Option PendingBatch → Bool
is_past now none = false
is_past now (some p) = leb p.deadline now

unfoldable pub is_of : ℕ → Option PendingBatch → Bool
is_of batch_nonce none = false
is_of batch_nonce (some p) = p.batch_nonce == batch_nonce

-- Does the snapshot of an instrument hold the entry?
unfoldable pub is_matchable : String → ℕ → ℕ → PoolEntry → Bool
unfolding is_open
is_matchable id deadline now e =
    str_eq e.instrument_id id && (leb deadline e.signed.order.expiry && is_open now e.pending)

-- In the order of the map's entries, which the source leaves open.
unfoldable pub snapshot : ℕ → String → ℕ → Clob → Clob × List SignedOrder
unfolding is_matchable settlement_deadline
snapshot now id epoch b =
    let pool = retain (λ d (e : PoolEntry). leb now e.signed.order.expiry) b.pool in
    (
      record b { pool = pool },
      map (λ q. q.1.signed)
          (retain (λ d e. is_matchable id (settlement_deadline b epoch) now e) pool),
    )

abbrev pub set_pending : Option PendingBatch → PoolEntry → PoolEntry
set_pending p e = record e { pending = p }

unfoldable pub mark_all :
    Option PendingBatch → List B256 → List (B256 × PoolEntry) → List (B256 × PoolEntry)
mark_all p [] pool = pool
mark_all p (d ∷ ds) pool = mark_all p ds (adjust (set_pending p) d pool)

-- The digests of both sides of each fill.
unfoldable pub touched : Crypto → Eip712Domain → List BatchFill → List B256
touched c dom [] = []
touched c dom (f ∷ fs) = order_digest c f.buy dom ∷ order_digest c f.sell dom ∷ touched c dom fs

unfoldable pub mark_pending : Crypto → List BatchFill → ℕ → ℕ → Clob → Clob
unfolding mark_all touched
mark_pending c fills batch_nonce deadline b = record b {
  pool =
      mark_all (some (record { batch_nonce = batch_nonce; deadline = deadline }))
        (touched c b.domain fills) b.pool;
}

-- Each digest that is held moves to the settled set.
unfoldable pub settle_digests : List B256 → Clob → Clob
settle_digests [] b = b
settle_digests (d ∷ ds) b = elim (lookup d b.pool) [
  | none ↦ settle_digests ds b
  | some e ↦
      settle_digests ds (record b {
        pool = delete d b.pool;
        settled = insert_key d e.signed.order.expiry b.settled;
      })
]

unfoldable pub confirm_orders : List B256 → Clob → Clob
unfolding settle_digests persist_finality
confirm_orders [] b = b
confirm_orders (d ∷ ds) b = persist_finality (settle_digests (d ∷ ds) b)

-- The digests of the pool whose pending batch passes a test.
unfoldable pub digests_where : (Option PendingBatch → Bool) → Clob → List B256
digests_where p b = map (λ q. q.0) (retain (λ d (e : PoolEntry). p e.pending) b.pool)

unfoldable pub confirm_batch : ℕ → Clob → Clob × ℕ
unfolding digests_where confirm_orders is_of
confirm_batch batch_nonce b =
    let digests = digests_where (is_of batch_nonce) b in (confirm_orders digests b, length digests)

abbrev nonces : List (B256 × PoolEntry) → List ℕ
nonces [] = []
nonces (q ∷ m) = elim q.1.pending [ none ↦ nonces m | some p ↦ p.batch_nonce ∷ nonces m ]

unfoldable pub pending_batch_nonces : Clob → List ℕ
unfolding sort_dedup
pending_batch_nonces b = sort_dedup (nonces b.pool)

unfoldable pub expired_pending : ℕ → Clob → List B256
unfolding digests_where is_past
expired_pending now b = digests_where (is_past now) b

unfoldable pub release_pending : List B256 → Clob → Clob × ℕ
release_pending [] b = (b, 0)
release_pending (d ∷ ds) b =
    let (b', n) = release_pending ds (record b { pool = adjust (set_pending none) d b.pool }) in
    (b', if has_key d b.pool then suc n else n)

unfoldable pub evict : List B256 → Clob → Clob
evict doomed b = record b { pool = retain (λ d e. not (contains_digest d)) b.pool }
  where
    contains_digest : B256 → Bool
    contains_digest d = any (λ x. d == x) doomed
