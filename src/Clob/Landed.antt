-- ===== src/Clob/Landed.antt =====
-- operator/src/clob/driver.rs: what the rounds of simulation leave; and confirmed orders have left
-- the pool.
use inference_bazaar.Base.{
  ℕ, zero, suc, ◌≡◌, refl, sym, ap, ◌∙◌, subst, List, [], ◌∷◌, none, some, false, not, inl, inr,
  ◌==◌, All, All-map, Result, ok, Bool-cases, Option-cases, eq_of_ok,
}
use inference_bazaar.Base.Maps.{lookup, has_key, delete, insert_key, has_key-select, All-select}
use inference_bazaar.Base.Sets.{Member}
use inference_bazaar.Settlement.Types.{B256, Crypto}
use inference_bazaar.Settlement.Fills.{SignedOrder}
use inference_bazaar.Matcher.Epoch.{EpochBatch}
use inference_bazaar.Clob.Types.{Clob, Instrument, PoolEntry}
use inference_bazaar.Clob.Pending.{settle_digests, confirm_orders, evict}
use inference_bazaar.Clob.Watched.{persist-pool}
use inference_bazaar.Clob.Driver.{
  Reads, no_chain, failed, view, DriveError, is_empty, match_of, spared, simulate_doomed, clean,
}

abbrev pub IsGone : Clob → B256 → Type 0
IsGone b d = has_key d b.pool ≡ false

delete-gone : (d : B256) (m : List (B256 × PoolEntry)) → has_key d (delete d m) ≡ false
delete-gone d [] = refl
delete-gone d (q ∷ m) = elim (Bool-cases (q.0 == d)) [
  | inl e ↦ rw (e) (delete-gone d m)
  | inr e ↦ rw (e) (rw (e) (delete-gone d m))
]

lookup-gone : (d : B256) (m : List (B256 × PoolEntry)) → lookup d m ≡ none → has_key d m ≡ false
lookup-gone d [] h = refl
lookup-gone d (q ∷ m) h = elim (Bool-cases (q.0 == d)) [
  | inl e ↦ cc (rw (e) at h)
  | inr e ↦ rw (e) (lookup-gone d m (rw (e) at h))
]

settle-stays-IsGone :
    (d : B256) (ds : List B256) (b : Clob) → IsGone b d → IsGone (settle_digests ds b) d
unfolding settle_digests
settle-stays-IsGone d [] b h = h
settle-stays-IsGone d (x ∷ ds) b h = elim (Option-cases (lookup x b.pool)) [
  | inl e ↦ rw (e, settle_digests) (settle-stays-IsGone d ds b h)
  | inr (y, e) ↦
      rw (e, settle_digests)
        (settle-stays-IsGone d ds _ (has_key-select d (λ p. not (p.0 == x)) b.pool h))
]

settle-IsGone : (ds : List B256) (b : Clob) → All (IsGone (settle_digests ds b)) ds
unfolding settle_digests
settle-IsGone [] b = tt
settle-IsGone (d ∷ ds) b = elim (Option-cases (lookup d b.pool)) [
  | inl e ↦
      let same : settle_digests (d ∷ ds) b ≡ settle_digests ds b = rw (e, settle_digests) refl in
      subst (λ x. All (IsGone x) (d ∷ ds)) (sym same)
        (settle-stays-IsGone d ds b (lookup-gone d b.pool e), settle-IsGone ds b)
  | inr (y, e) ↦
      let b' = record b {
        pool = delete d b.pool;
        settled = insert_key d y.signed.order.expiry b.settled;
      } in
      let same : settle_digests (d ∷ ds) b ≡ settle_digests ds b' = rw (e, settle_digests) refl in
      subst (λ x. All (IsGone x) (d ∷ ds)) (sym same)
        (settle-stays-IsGone d ds b' (delete-gone d b.pool), settle-IsGone ds b')
]

pub confirm_orders-IsGone : (ds : List B256) (b : Clob) → All (IsGone (confirm_orders ds b)) ds
unfolding confirm_orders
confirm_orders-IsGone [] b = tt
confirm_orders-IsGone (d ∷ ds) b =
    All-map (IsGone (settle_digests (d ∷ ds) b)) (IsGone (confirm_orders (d ∷ ds) b)) (d ∷ ds)
      (λ x h. ap (has_key x) (persist-pool 0 (settle_digests (d ∷ ds) b)) ∙ h)
      (settle-IsGone (d ∷ ds) b)

module _ (c : Crypto) (inst : Instrument) where
  -- What the rounds of simulation leave: the pool alone has changed, and the batch is the match of
  -- orders of the snapshot.
  pub record IsClean (b b' : Clob) (snapshot orders : List SignedOrder) (batch : EpochBatch)
      : Type 0 where
    pub pool : List (B256 × PoolEntry)
    pub state : b' ≡ record b { pool = pool }
    pub matched : match_of c inst orders b ≡ some batch
    pub among : All (λ so. Member so snapshot) orders

  kept-IsClean :
      (b0 b b' : Clob) (snapshot orders orders' : List SignedOrder) (batch batch' : EpochBatch)
      → IsClean b0 b snapshot orders batch
      → ◌≡◌ {A = Clob × Result DriveError (List SignedOrder × EpochBatch)}
          (b, ok (orders, batch))
          (b', ok (orders', batch'))
      → IsClean b0 b' snapshot orders' batch'
  kept-IsClean b0 b b' snapshot orders orders' batch batch' k h =
      subst (λ x. IsClean b0 x snapshot orders' batch') (ap (λ p. p.0) h)
        (subst (λ (x : List SignedOrder × EpochBatch). IsClean b0 b snapshot x.0 x.1)
          (eq_of_ok (ap (λ p. p.1) h)) k)

  evicted-IsClean :
      (doomed : List B256) (b0 b : Clob) (snapshot orders : List SignedOrder)
      (batch again : EpochBatch)
      → IsClean b0 b snapshot orders batch
      → match_of c inst (spared c doomed orders b) b ≡ some again
      → IsClean b0 (evict doomed b) snapshot (spared c doomed orders b) again
  unfolding evict spared
  evicted-IsClean doomed b0 b snapshot orders batch again k e = record {
    pool = (evict doomed (record b0 { pool = k.pool })).pool;
    state = ap (evict doomed) k.state;
    matched = sym (ap (λ x. match_of c inst (spared c doomed orders b) x) k.state) ∙ e;
    among = All-select (λ so. Member so snapshot) _ orders k.among;
  }

  pub clean-IsClean :
      (now : ℕ) (reads : ℕ → Reads) (left : ℕ) (b0 b b' : Clob)
      (snapshot orders orders' : List SignedOrder) (batch batch' : EpochBatch)
      → IsClean b0 b snapshot orders batch
      → clean c now inst reads left orders batch b ≡ (b', ok (orders', batch'))
      → IsClean b0 b' snapshot orders' batch'
  unfolding clean
  clean-IsClean now reads zero b0 b b' snapshot orders orders' batch batch' k h =
      kept-IsClean b0 b b' snapshot orders orders' batch batch' k h
  clean-IsClean now reads (suc left) b0 b b' snapshot orders orders' batch batch' k h =
      elim (Bool-cases (is_empty batch.fills)) [
        | inl e ↦ kept-IsClean b0 b b' snapshot orders orders' batch batch' k (rw (e, clean) at h)
        | inr e ↦
            by_reads (reads left) refl e (λ os again b1.
              clean-IsClean now reads left b0 b1 b' snapshot os orders' again batch')
      ]
    where
      by_reads :
          (x : Reads)
          → reads left ≡ x
          → is_empty batch.fills ≡ false
          → ((os : List SignedOrder) (again : EpochBatch) (b1 : Clob)
              → IsClean b0 b1 snapshot os again
              → clean c now inst reads left os again b1 ≡ (b', ok (orders', batch'))
              → IsClean b0 b' snapshot orders' batch')
          → IsClean b0 b' snapshot orders' batch'
      by_reads no_chain f e rec =
          kept-IsClean b0 b b' snapshot orders orders' batch batch' k (rw (e, f, clean) at h)
      by_reads failed f e rec = cc (rw (e, f, clean) at h)
      by_reads (view v) f e rec =
          let doomed = simulate_doomed c now v batch.fills b in
          elim (Bool-cases (is_empty doomed)) [
            | inl g ↦
                kept-IsClean b0 b b' snapshot orders orders' batch batch' k
                  (rw (e, f, g, clean) at h)
            | inr g ↦ elim (Option-cases (match_of c inst (spared c doomed orders b) b)) [
              | inl i ↦ cc (rw (e, f, g, i, clean) at h)
              | inr (again, i) ↦
                  rec (spared c doomed orders b) again (evict doomed b)
                    (evicted-IsClean doomed b0 b snapshot orders batch again k i)
                    (rw (e, f, g, i, clean) at h)
            ]
          ]
