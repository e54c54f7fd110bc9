-- ===== src/Clob/Excluded.antt =====
-- operator/src/clob/pool.rs: the orders of a co-signed batch are not matched while it may land.
use inference_bazaar.Base.{
  ◌≤◌, sym, subst, ==_iff, ℕ, ◌<◌, ◌≡◌, refl, arith, String, str_eq, List, [], ◌∷◌, map, some, Bool,
  true, false, inl, inr, All, ◌==◌, ◌&&◌, leb, any, Bool-cases,
}
use inference_bazaar.Base.Maps.{has_key, adjust, retain, All-adjust}
use inference_bazaar.Settlement.Types.{B256, Crypto, Eip712Domain}
use inference_bazaar.Settlement.Fills.{digest, contains}
use inference_bazaar.Clob.Types.{PendingBatch, PoolEntry}
use inference_bazaar.Clob.Pending.{mark_all, set_pending, is_matchable, is_open}
use inference_bazaar.Clob.Entries.{IsEntry}

-- The entry of each listed digest carries the batch.
abbrev pub IsMarked : PendingBatch → List B256 → B256 × PoolEntry → Type 0
IsMarked p ds q = any (λ x. q.0 == x) ds ≡ true → q.1.pending ≡ some p

pub All-of : {A : Type 0} {P : A → Type 0} → ((x : A) → P x) → (xs : List A) → All P xs
All-of f [] = tt
All-of f (x ∷ xs) = (f x, All-of f xs)

module _ (p : PendingBatch) where
  abbrev IsMarkedAt : B256 → B256 × PoolEntry → Type 0
  IsMarkedAt d q = (q.0 == d) ≡ true → q.1.pending ≡ some p

  mark_all-stays :
      (d : B256) (ds : List B256) (pool : List (B256 × PoolEntry))
      → All (IsMarkedAt d) pool
      → All (IsMarkedAt d) (mark_all (some p) ds pool)
  unfolding mark_all
  mark_all-stays d [] pool h = h
  mark_all-stays d (e ∷ ds) pool h =
      mark_all-stays d ds (adjust (set_pending (some p)) e pool)
        (All-adjust (IsMarkedAt d) (set_pending (some p)) e pool (λ j v i q. refl) h)

  adjust-marks :
      (d : B256) (pool : List (B256 × PoolEntry))
      → All (IsMarkedAt d) (adjust (set_pending (some p)) d pool)
  adjust-marks d [] = tt
  adjust-marks d ((j, e) ∷ m) = (λ q. rw (q) refl, adjust-marks d m)

  both :
      (d : B256) (ds : List B256) (pool : List (B256 × PoolEntry))
      → All (IsMarkedAt d) pool
      → All (IsMarked p ds) pool
      → All (IsMarked p (d ∷ ds)) pool
  both d ds [] h k = tt
  both d ds (q ∷ m) h k = (
    λ a. elim (Bool-cases (q.0 == d)) [ inl e ↦ h.0 e | inr e ↦ k.0 (rw (e) at a) ],
    both d ds m h.1 k.1,
  )

  pub mark_all-marks :
      (ds : List B256) (pool : List (B256 × PoolEntry))
      → All (IsMarked p ds) (mark_all (some p) ds pool)
  unfolding mark_all
  mark_all-marks [] pool = All-of (λ q a. cc) pool
  mark_all-marks (d ∷ ds) pool =
      let marked = adjust (set_pending (some p)) d pool in
      both d ds (mark_all (some p) ds marked) (mark_all-stays d ds marked (adjust-marks d pool))
        (mark_all-marks ds marked)

  -- What is marked until after a time is not matchable then.
  marked-shut :
      (id : String) (cutoff now : ℕ) (ds : List B256) (q : B256 × PoolEntry)
      → now < p.deadline
      → IsMarked p ds q
      → is_matchable id cutoff now q.1 ≡ true
      → any (λ x. q.0 == x) ds ≡ false
  unfolding is_matchable is_open
  marked-shut id cutoff now ds q lt m h = elim (Bool-cases (any (λ x. q.0 == x) ds)) [
    | inr e ↦ e
    | inl e ↦
        let shut : leb p.deadline now ≡ false = ground arith in
        absurd (
          shut_out (str_eq q.1.instrument_id id) (leb cutoff q.1.signed.order.expiry)
            (rw (m e, is_open, shut) at h))
  ]
    where
      shut_out : (x y : Bool) → (x && (y && false)) ≡ true → ⊥
      shut_out true true h = cc
      shut_out true false h = cc
      shut_out false y h = cc

module _ (c : Crypto) (dom : Eip712Domain) (p : PendingBatch) (ds : List B256) where
  pub unlisted :
      (id : String) (cutoff now : ℕ) (settled : List (B256 × ℕ)) (pool : List (B256 × PoolEntry))
      → now < p.deadline
      → All (IsMarked p ds) pool
      → All (IsEntry c dom settled) pool
      → All
          (λ so. contains c ds (digest c so dom) ≡ false)
          (map
            (λ (q : B256 × PoolEntry). q.1.signed)
            (retain (λ d (e : PoolEntry). is_matchable id cutoff now e) pool))
  unlisted id cutoff now settled [] lt m h = tt
  unlisted id cutoff now settled (q ∷ pool) lt m h =
      elim (Bool-cases (is_matchable id cutoff now q.1)) [
        | inr e ↦ rw (e) (unlisted id cutoff now settled pool lt m.1 h.1)
        | inl e ↦ rw (e) (
          rw (h.0.0.keyed) (marked-shut p id cutoff now ds q lt m.0 e),
          unlisted id cutoff now settled pool lt m.1 h.1,
        )
      ]

-- The entries of the digest are valid up to a time.
abbrev pub IsValid : B256 → ℕ → B256 × PoolEntry → Type 0
IsValid d deadline q = (q.0 == d) ≡ true → deadline ≤ q.1.signed.order.expiry

module _ (d : B256) (p : PendingBatch) where
  has_key-adjust :
      (f : PoolEntry → PoolEntry) (k : B256) (pool : List (B256 × PoolEntry))
      → has_key d pool ≡ true
      → has_key d (adjust f k pool) ≡ true
  has_key-adjust f k [] h = h
  has_key-adjust f k (q ∷ m) h = elim (Bool-cases (q.0 == d)) [
    | inl e ↦ rw (e) refl
    | inr e ↦ rw (e) (has_key-adjust f k m (rw (e) at h))
  ]

  pub has_key-mark_all :
      (ds : List B256) (pool : List (B256 × PoolEntry))
      → has_key d pool ≡ true
      → has_key d (mark_all (some p) ds pool) ≡ true
  unfolding mark_all
  has_key-mark_all [] pool h = h
  has_key-mark_all (k ∷ ds) pool h =
      has_key-mark_all ds (adjust (set_pending (some p)) k pool) (has_key-adjust _ k pool h)

  pub mark_all-IsValid :
      (deadline : ℕ) (ds : List B256) (pool : List (B256 × PoolEntry))
      → All (IsValid d deadline) pool
      → All (IsValid d deadline) (mark_all (some p) ds pool)
  unfolding mark_all
  mark_all-IsValid deadline [] pool h = h
  mark_all-IsValid deadline (k ∷ ds) pool h =
      mark_all-IsValid deadline ds (adjust (set_pending (some p)) k pool)
        (All-adjust (IsValid d deadline) (set_pending (some p)) k pool (λ j v e. e) h)

  pub marked_valid :
      (ds : List B256) (pool : List (B256 × PoolEntry))
      → any (λ x. d == x) ds ≡ true
      → All (IsMarked p ds) pool
      → All (IsValid d p.deadline) pool
      → All
          (λ (q : B256 × PoolEntry).
            (q.0 == d) ≡ true → (q.1.pending ≡ some p) × (p.deadline ≤ q.1.signed.order.expiry))
          pool
  marked_valid ds [] listed m v = tt
  marked_valid ds (q ∷ pool) listed m v = (
    λ e. (m.0 (subst (λ x. any (λ y. x == y) ds ≡ true) (sym ((==_iff q.0 d).0 e)) listed), v.0 e),
    marked_valid ds pool listed m.1 v.1,
  )
