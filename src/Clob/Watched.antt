-- ===== src/Clob/Watched.antt =====
-- operator/src/clob/driver.rs: after a tick of the watcher no order stays pending past its deadline.
use inference_bazaar.Base.{
  ℕ, ◌≡◌, refl, sym, ap, subst, ◌∙◌, List, [], ◌∷◌, map, Option, none, Bool, true, false, inl, inr,
  ◌==◌, any, All, Bool-cases, Option-cases, ==_iff,
}
use inference_bazaar.Base.Maps.{lookup, adjust, retain, delete}
use inference_bazaar.Settlement.Types.{B256}
use inference_bazaar.Clob.Types.{PoolEntry, Clob}
use inference_bazaar.Clob.Pool.{persist_finality}
use inference_bazaar.Clob.Pending.{
  is_past, set_pending, settle_digests, confirm_orders, release_pending, digests_where,
  expired_pending,
}
use inference_bazaar.Clob.Watcher.{observed, resolve_expired, reconcile_pending}

module _ (now : ℕ) where
  -- Every entry past its deadline is listed.
  abbrev IsCovered : List B256 → B256 × PoolEntry → Type 0
  IsCovered ds q = is_past now q.1.pending ≡ true → any (λ x. q.0 == x) ds ≡ true

  abbrev expired : List (B256 × PoolEntry) → List B256
  expired pool = map (λ q. q.0) (retain (λ d (e : PoolEntry). is_past now e.pending) pool)

  -- The entries past the deadline are listed by their own digests.
  wider :
      (d : B256) (ds : List B256) (pool : List (B256 × PoolEntry))
      → All (IsCovered ds) pool
      → All (IsCovered (d ∷ ds)) pool
  wider d ds [] h = tt
  wider d ds (q ∷ m) h = (
    λ p. elim (Bool-cases (q.0 == d)) [ inl e ↦ rw (e) refl | inr e ↦ rw (e) (h.0 p) ],
    wider d ds m h.1,
  )

  expired-IsCovered : (pool : List (B256 × PoolEntry)) → All (IsCovered (expired pool)) pool
  expired-IsCovered [] = tt
  expired-IsCovered (q ∷ m) = elim (Bool-cases (is_past now q.1.pending)) [
    | inl e ↦
        let more : expired (q ∷ m) ≡ q.0 ∷ expired m = rw (e) refl in
        subst (λ ds. All (IsCovered ds) (q ∷ m)) (sym more)
          (λ p. rw ((==_iff q.0 q.0).1 refl) refl, wider q.0 (expired m) m (expired-IsCovered m))
    | inr e ↦
        let same : expired (q ∷ m) ≡ expired m = rw (e) refl in
        subst (λ ds. All (IsCovered ds) (q ∷ m)) (sym same)
          (λ p. cc (sym p ∙ e), expired-IsCovered m)
  ]

  none_expired : (pool : List (B256 × PoolEntry)) → All (IsCovered []) pool → expired pool ≡ []
  none_expired [] h = refl
  none_expired (q ∷ m) h = elim (Bool-cases (is_past now q.1.pending)) [
    | inl e ↦ cc (h.0 e)
    | inr e ↦ rw (e) (none_expired m h.1)
  ]

  -- A digest that is released is no longer pending.
  adjust-IsCovered :
      (d : B256) (ds : List B256) (pool : List (B256 × PoolEntry))
      → All (IsCovered (d ∷ ds)) pool
      → All (IsCovered ds) (adjust (set_pending none) d pool)
  unfolding is_past
  adjust-IsCovered d ds [] h = tt
  adjust-IsCovered d ds (q ∷ m) h = elim (Bool-cases (q.0 == d)) [
    | inl e ↦ rw (e) (λ p. cc p, adjust-IsCovered d ds m h.1)
    | inr e ↦ rw (e) (λ p. rw (e) at (h.0 p), adjust-IsCovered d ds m h.1)
  ]

  delete-IsCovered :
      (d : B256) (ds : List B256) (pool : List (B256 × PoolEntry))
      → All (IsCovered (d ∷ ds)) pool
      → All (IsCovered ds) (delete d pool)
  delete-IsCovered d ds [] h = tt
  delete-IsCovered d ds (q ∷ m) h = elim (Bool-cases (q.0 == d)) [
    | inl e ↦ rw (e) (delete-IsCovered d ds m h.1)
    | inr e ↦ rw (e) (λ p. rw (e) at (h.0 p), delete-IsCovered d ds m h.1)
  ]

  absent-IsCovered :
      (d : B256) (ds : List B256) (pool : List (B256 × PoolEntry))
      → lookup d pool ≡ none
      → All (IsCovered (d ∷ ds)) pool
      → All (IsCovered ds) pool
  absent-IsCovered d ds [] f h = tt
  absent-IsCovered d ds (q ∷ m) f h = elim (Bool-cases (q.0 == d)) [
    | inl e ↦ cc (rw (e) at f)
    | inr e ↦ (λ p. rw (e) at (h.0 p), absent-IsCovered d ds m (rw (e) at f) h.1)
  ]

  release-expired :
      (ds : List B256) (b : Clob)
      → All (IsCovered ds) b.pool
      → expired (release_pending ds b).0.pool ≡ []
  unfolding release_pending
  release-expired [] b h = none_expired b.pool h
  release-expired (d ∷ ds) b h = release-expired ds _ (adjust-IsCovered d ds b.pool h)

  settle-expired :
      (ds : List B256) (b : Clob)
      → All (IsCovered ds) b.pool
      → expired (settle_digests ds b).pool ≡ []
  unfolding settle_digests
  settle-expired [] b h = none_expired b.pool h
  settle-expired (d ∷ ds) b h = elim (Option-cases (lookup d b.pool)) [
    | inl e ↦ rw (e, settle_digests) (settle-expired ds b (absent-IsCovered d ds b.pool e h))
    | inr (x, e) ↦ rw (e, settle_digests) (settle-expired ds _ (delete-IsCovered d ds b.pool h))
  ]

  pub persist-pool : (b : Clob) → (persist_finality b).pool ≡ b.pool
  unfolding persist_finality
  persist-pool b = elim (Option-cases b.file) [
    | inl e ↦ rw (e, persist_finality) refl
    | inr (j, e) ↦ rw (e, persist_finality) refl
  ]

  confirm-expired :
      (ds : List B256) (b : Clob)
      → All (IsCovered ds) b.pool
      → expired (confirm_orders ds b).pool ≡ []
  unfolding confirm_orders
  confirm-expired [] b h = none_expired b.pool h
  confirm-expired (d ∷ ds) b h =
      ap expired (persist-pool (settle_digests (d ∷ ds) b)) ∙ settle-expired (d ∷ ds) b h

  resolve_expired-expired :
      (can_settle : Bool) (ds : List B256) (b : Clob)
      → All (IsCovered ds) b.pool
      → expired (resolve_expired can_settle ds b).pool ≡ []
  unfolding resolve_expired
  resolve_expired-expired can_settle [] b h = none_expired b.pool h
  resolve_expired-expired true (d ∷ ds) b h = release-expired (d ∷ ds) b h
  resolve_expired-expired false (d ∷ ds) b h = confirm-expired (d ∷ ds) b h

-- After a tick of the settlement watcher, in any state, with or without a chain and whether or not
-- it could be read, no order of the pool is pending past its deadline.
pub reconcile_pending-resolves :
    (now : ℕ) (can_settle : Bool) (chain_nonce : Option ℕ) (b : Clob)
    → expired_pending now (reconcile_pending now can_settle chain_nonce b) ≡ []
unfolding reconcile_pending expired_pending digests_where
reconcile_pending-resolves now can_settle chain_nonce b =
    let b' = observed can_settle chain_nonce b in
    resolve_expired-expired now can_settle (expired_pending now b') b'
      (expired-IsCovered now b'.pool)
