-- ===== src/Clob/Entries.antt =====
-- operator/src/clob/pool.rs: what every entry of the pool is, and that the maps' operations keep it.
use inference_bazaar.Base.{
  ℕ, ◌≡◌, ◌≢◌, sym, String, List, [], ◌∷◌, Option, none, true, false, inl, inr, All, ◌==◌, ==_iff,
  Bool-cases, Option-cases,
}
use inference_bazaar.Base.Maps.{
  lookup, has_key, delete, insert_key, adjust, has_key-select, delete-Apart, All-adjust, All-select,
}
use inference_bazaar.Settlement.Types.{B256, Crypto, Eip712Domain}
use inference_bazaar.Settlement.Core.{instrument_hash}
use inference_bazaar.Settlement.Fills.{SignedOrder, digest, verify}
use inference_bazaar.Matcher.Epoch.{i64_of_u64}
use inference_bazaar.Clob.Types.{PendingBatch, PoolEntry, Clob}
use inference_bazaar.Clob.Pending.{set_pending, mark_all, settle_digests}

module _ (c : Crypto) where
  -- What an order is admitted for, whatever the time.
  pub record IsOrderOf (dom : Eip712Domain) (d : B256) (id : String) (so : SignedOrder)
      : Type 0 where
    pub keyed : digest c so dom ≡ d
    pub signed : verify c so dom ≡ true
    pub named : so.order.instrument ≡ instrument_hash c id
    pub sized : so.order.qty_tokens ≢ 0
    pub priced : i64_of_u64 so.order.price_micro_per_m ≢ none
    pub counted : i64_of_u64 so.order.qty_tokens ≢ none

  -- The entry is such an order, and is not settled.
  abbrev pub IsEntry : Eip712Domain → List (B256 × ℕ) → B256 × PoolEntry → Type 0
  IsEntry dom settled q =
      IsOrderOf dom q.0 q.1.instrument_id q.1.signed × (has_key q.0 settled ≡ false)

  unfoldable pub IsClob : Clob → Type 0
  IsClob b = All (IsEntry b.domain b.settled) b.pool

  pub mark_all-IsEntry :
      (dom : Eip712Domain) (settled : List (B256 × ℕ)) (p : Option PendingBatch) (ds : List B256)
      (pool : List (B256 × PoolEntry))
      → All (IsEntry dom settled) pool
      → All (IsEntry dom settled) (mark_all p ds pool)
  unfolding mark_all
  mark_all-IsEntry dom settled p [] pool h = h
  mark_all-IsEntry dom settled p (d ∷ ds) pool h =
      mark_all-IsEntry dom settled p ds (adjust (set_pending p) d pool)
        (All-adjust (IsEntry dom settled) (set_pending p) d pool (λ j v e. e) h)

  -- An entry of another key stays one when a key is settled.
  settle-one :
      (dom : Eip712Domain) (settled : List (B256 × ℕ)) (d : B256) (exp : ℕ)
      (pool : List (B256 × PoolEntry))
      → All (IsEntry dom settled) pool
      → All (λ q. (q.0 == d) ≡ false) pool
      → All (IsEntry dom (insert_key d exp settled)) pool
  settle-one dom settled d exp [] h apart = tt
  settle-one dom settled d exp (q ∷ m) h apart = (
    (
      h.0.0,
      elim (Bool-cases (d == q.0)) [
        | inl e ↦ cc (apart.0, (==_iff q.0 d).1 (sym ((==_iff d q.0).0 e)))
        | inr e ↦ rw (e) (has_key-select q.0 _ settled h.0.1)
      ],
    ),
    settle-one dom settled d exp m h.1 apart.1,
  )

  -- The state when a held order is settled.
  abbrev pub moved : B256 → PoolEntry → Clob → Clob
  moved d x b = record b {
    pool = delete d b.pool;
    settled = insert_key d x.signed.order.expiry b.settled;
  }

  pub moved-IsClob : (d : B256) (x : PoolEntry) (b : Clob) → IsClob b → IsClob (moved d x b)
  unfolding IsClob
  moved-IsClob d x b h =
      settle-one b.domain b.settled d x.signed.order.expiry (delete d b.pool)
        (All-select (IsEntry b.domain b.settled) _ b.pool h) (delete-Apart d b.pool)

  pub settle_digests-IsClob : (ds : List B256) (b : Clob) → IsClob b → IsClob (settle_digests ds b)
  unfolding settle_digests
  settle_digests-IsClob [] b h = h
  settle_digests-IsClob (d ∷ ds) b h = elim (Option-cases (lookup d b.pool)) [
    | inl e ↦ rw (e, settle_digests) (settle_digests-IsClob ds b h)
    | inr (x, e) ↦
        rw (e, settle_digests) (settle_digests-IsClob ds (moved d x b) (moved-IsClob d x b h))
  ]
