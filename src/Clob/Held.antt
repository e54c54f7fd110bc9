-- ===== src/Clob/Held.antt =====
-- operator/src/clob/pool.rs: an order of a co-signed batch is kept out of the snapshots until the
-- batch's deadline, whatever orders are admitted and snapshots taken meanwhile.
use inference_bazaar.Base.{
  ℕ, ◌<◌, ◌≤◌, ◌≡◌, ◌≢◌, refl, sym, subst, arith, String, List, [], ◌∷◌, some, Bool, true, false,
  inl, inr, All, All-map, ◌==◌, ==_iff, ◌&&◌, not, leb, length, any, ok, Bool-cases, Option-cases,
  Result-cases,
}
use inference_bazaar.Base.Maps.{lookup, has_key, insert_key, retain, All-select}
use inference_bazaar.Settlement.Types.{B256, BatchFill, Crypto}
use inference_bazaar.Settlement.Fills.{SignedOrder, digest, contains}
use inference_bazaar.Clob.Types.{
  PendingBatch, PoolEntry, Clob, SignedOrderBody, max_pool, settlement_deadline,
}
use inference_bazaar.Clob.Pool.{
  admit, admit_vetted, admit_live, into_signed, vet, is_cancelled, pending_of, unexpired,
}
use inference_bazaar.Clob.Pending.{snapshot, mark_pending, mark_all, touched}
use inference_bazaar.Clob.Entries.{IsClob}
use inference_bazaar.Clob.Keeps.{step-IsClob}
use inference_bazaar.Clob.Steps.{Call, order_in, take_snapshot, mark, step}
use inference_bazaar.Clob.Excluded.{
  IsValid, has_key-mark_all, mark_all-IsValid, marked_valid, All-of, mark_all-marks, unlisted,
}

module _ (c : Crypto) (d : B256) (p : PendingBatch) where
  -- The order is in the pool, marked with the batch, and its entry is valid up to the deadline.
  pub record IsHeld (pool : List (B256 × PoolEntry)) : Type 0 where
    pub pooled : has_key d pool ≡ true
    pub marked :
        All
          (λ (q : B256 × PoolEntry).
            (q.0 == d) ≡ true → (q.1.pending ≡ some p) × (p.deadline ≤ q.1.signed.order.expiry))
          pool

  -- Calls that resolve no batch: a snapshot, and an order; one of that digest comes with an expiry
  -- that is no sooner than the deadline.
  pub data Waits : Call → Clob → Type 0 where
    reads : {b : Clob} (id : String) (epoch : ℕ) → Waits (take_snapshot id epoch) b
    admits :
        {b : Clob} (body : SignedOrderBody)
        → ((id : String) (so : SignedOrder)
            → into_signed c body ≡ ok (id, so)
            → digest c so b.domain ≡ d
            → p.deadline ≤ so.order.expiry)
        → Waits (order_in body) b

  has_key-retain :
      (f : B256 → PoolEntry → Bool) (pool : List (B256 × PoolEntry))
      → has_key d pool ≡ true
      → All (λ q. (q.0 == d) ≡ true → f q.0 q.1 ≡ true) pool
      → has_key d (retain f pool) ≡ true
  has_key-retain f [] h k = h
  has_key-retain f (q ∷ m) h k = elim (Bool-cases (q.0 == d)) [
    | inl e ↦ rw (k.0 e, e) refl
    | inr e ↦
        let rest = has_key-retain f m (rw (e) at h) k.1 in
        elim (Bool-cases (f q.0 q.1)) [ inl g ↦ rw (g, e) rest | inr g ↦ rw (g) rest ]
  ]

  -- What is pooled under the digest has its mark.
  lookup-marked :
      (pool : List (B256 × PoolEntry))
      → has_key d pool ≡ true
      → All
          (λ (q : B256 × PoolEntry).
            (q.0 == d) ≡ true → (q.1.pending ≡ some p) × (p.deadline ≤ q.1.signed.order.expiry))
          pool
      → pending_of (lookup d pool) ≡ some p
  lookup-marked [] h m = cc
  lookup-marked (q ∷ pool) h m = elim (Bool-cases (q.0 == d)) [
    | inl e ↦ rw (e) (m.0 e).0
    | inr e ↦ rw (e) (lookup-marked pool (rw (e) at h) m.1)
  ]

  snapshot-IsHeld :
      (now epoch : ℕ) (id : String) (b : Clob)
      → now < p.deadline
      → IsHeld b.pool
      → IsHeld (snapshot now id epoch b).0.pool
  unfolding snapshot
  snapshot-IsHeld now epoch id b lt h = record {
    pooled =
        has_key-retain (λ k e. leb now e.signed.order.expiry) b.pool h.pooled
          (All-map _ _ b.pool (λ q m e. let le = (m e).1 in ground arith) h.marked);
    marked = All-select _ _ b.pool h.marked;
  }

  insert-IsHeld :
      (k : B256) (id : String) (so : SignedOrder) (b : Clob)
      → (k ≡ d → p.deadline ≤ so.order.expiry)
      → IsHeld b.pool
      → IsHeld (
          insert_key k
            (record { instrument_id = id; signed = so; pending = pending_of (lookup k b.pool) })
            b.pool)
  insert-IsHeld k id so b le h = record {
    pooled = elim (Bool-cases (k == d)) [
      | inl e ↦ rw (e) refl
      | inr e ↦ rw (e) (
          has_key-retain (λ j x. not (j == k)) b.pool h.pooled
            (All-of (λ q f. ground arith) b.pool))
    ];
    marked = (
      λ e.
          let same = (==_iff k d).0 e in
          (
            subst (λ j. pending_of (lookup j b.pool) ≡ some p) (sym same)
                (lookup-marked b.pool h.pooled h.marked),
            le same,
          ),
      All-select _ _ b.pool h.marked,
    );
  }

  admit_live-IsHeld :
      (now : ℕ) (k : B256) (id : String) (so : SignedOrder) (b : Clob)
      → (k ≡ d → p.deadline ≤ so.order.expiry)
      → IsHeld b.pool
      → IsHeld (admit_live c now k id so b).0.pool
  unfolding admit_live
  admit_live-IsHeld now k id so b le h =
      elim (Bool-cases (leb max_pool (length b.pool) && not (has_key k b.pool))) [
        | inl e ↦ rw (e, admit_live) h
        | inr e ↦ rw (e, admit_live) (insert-IsHeld k id so b le h)
      ]

  admit_vetted-IsHeld :
      (now : ℕ) (k : B256) (id : String) (so : SignedOrder) (b : Clob)
      → (k ≡ d → p.deadline ≤ so.order.expiry)
      → IsHeld b.pool
      → IsHeld (admit_vetted c now k id so b).0.pool
  unfolding admit_vetted is_cancelled
  admit_vetted-IsHeld now k id so b le h =
      let b1 : Clob = record b { settled = unexpired now b.settled } in
      elim (Bool-cases (has_key k (unexpired now b.settled))) [
        | inl e ↦ rw (e, admit_vetted) h
        | inr e ↦ elim (Bool-cases (is_cancelled now k so.order.trader b1).1) [
          | inl f ↦ rw (e, f, admit_vetted) h
          | inr f ↦
              rw (e, f, admit_vetted)
                (admit_live-IsHeld now k id so (is_cancelled now k so.order.trader b1).0 le h)
        ]
      ]

  admit-IsHeld :
      (now : ℕ) (body : SignedOrderBody) (b : Clob)
      → ((id : String) (so : SignedOrder)
          → into_signed c body ≡ ok (id, so)
          → digest c so b.domain ≡ d
          → p.deadline ≤ so.order.expiry)
      → IsHeld b.pool
      → IsHeld (admit c now body b).0.pool
  unfolding admit
  admit-IsHeld now body b le h = elim (Result-cases (into_signed c body)) [
    | inr (inl (x, e)) ↦ rw (e, admit) h
    | inr (inr e) ↦ rw (e, admit) h
    | inl ((id, so), e) ↦ elim (Option-cases (vet c now id so b)) [
      | inr (x, f) ↦ rw (e, f, admit) h
      | inl f ↦
          rw (e, f, admit) (admit_vetted-IsHeld now (digest c so b.domain) id so b (le id so e) h)
    ]
  ]

  step-IsHeld :
      (now : ℕ) (call : Call) (b : Clob)
      → Waits call b
      → now < p.deadline
      → IsHeld b.pool
      → IsHeld (step c now call b).pool
  unfolding step
  step-IsHeld now call b (reads id epoch) lt h = snapshot-IsHeld now epoch id b lt h
  step-IsHeld now call b (admits body le) lt h = admit-IsHeld now body b le h

  -- Runs of such calls, up to a time.
  pub data Waiting : ℕ → Clob → ℕ → Clob → Type 0 where
    marked_at : {now : ℕ} {b : Clob} → Waiting now b now b
    then_waits :
        {start now : ℕ} {a b : Clob} (later : ℕ) (call : Call)
        → Waiting start a now b
        → now ≤ later
        → Waits call b
        → Waiting start a later (step c later call b)

  Waiting-IsHeld :
      {start now : ℕ} {a b : Clob}
      → Waiting start a now b
      → now < p.deadline
      → IsClob c a
      → IsHeld a.pool
      → IsClob c b × IsHeld b.pool
  Waiting-IsHeld marked_at lt k h = (k, h)
  Waiting-IsHeld (then_waits {now = now} {b = b} later call r up q) lt k h =
      let (k', h') = Waiting-IsHeld r (omega arith) k h in
      (step-IsClob c later call b k', step-IsHeld later call b q lt h')

  -- No snapshot holds an order that is held.
  snapshot-unheld :
      (now epoch : ℕ) (id : String) (b : Clob)
      → now < p.deadline
      → IsClob c b
      → IsHeld b.pool
      → All (λ so. digest c so b.domain ≢ d) (snapshot now id epoch b).1
  unfolding snapshot IsClob
  snapshot-unheld now epoch id b lt k h =
      All-map (λ so. contains c (d ∷ []) (digest c so b.domain) ≡ false) _ _
        (λ so none_of e. cc (rw ((==_iff (digest c so b.domain) d).1 e) at none_of))
        (unlisted c b.domain p (d ∷ []) id (settlement_deadline b epoch) now b.settled _ lt
          (All-map _ _ _ (λ q m e. (m (only q.0 e)).0) (All-select _ _ b.pool h.marked))
          (All-select _ _ b.pool k))
    where
      only : (x : B256) → any (λ y. x == y) (d ∷ []) ≡ true → (x == d) ≡ true
      only x e = elim (Bool-cases (x == d)) [ inl f ↦ f | inr f ↦ cc (rw (f) at e) ]

-- An order of the pool that a fill of a co-signed batch touches is in no snapshot, of any instrument
-- and epoch, before the deadline that the batch was marked with, after any run of admitted orders and
-- snapshots. The state is well-formed, the order is valid up to the deadline, and so is what is
-- admitted again under its digest.
pub snapshot-pending :
    (c : Crypto) (d : B256) (fills : List BatchFill) (batch_nonce deadline start now epoch : ℕ)
    (id : String) (b b' : Clob)
    → IsClob c b
    → has_key d b.pool ≡ true
    → any (λ x. d == x) (touched c b.domain fills) ≡ true
    → All (IsValid d deadline) b.pool
    → Waiting c d
        (record { batch_nonce = batch_nonce; deadline = deadline })
        start
        (mark_pending c fills batch_nonce deadline b)
        now
        b'
    → now < deadline
    → All (λ so. digest c so b'.domain ≢ d) (snapshot now id epoch b').1
unfolding mark_pending step
snapshot-pending c d fills batch_nonce deadline start now epoch id b b' k pooled listed valid r lt =
    let p : PendingBatch = record { batch_nonce = batch_nonce; deadline = deadline } in
    let ds = touched c b.domain fills in
    let marks = mark_all-marks p ds b.pool in
    let (k', h) =
      Waiting-IsHeld c d p r lt (step-IsClob c start (mark fills batch_nonce deadline) b k)
        (record {
          pooled = has_key-mark_all d p ds b.pool pooled;
          marked =
              marked_valid d p ds (mark_all (some p) ds b.pool) listed marks
                (mark_all-IsValid d p deadline ds b.pool valid);
        }) in
    snapshot-unheld c d p now epoch id b' lt k' h
