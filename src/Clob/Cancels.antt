-- ===== src/Clob/Cancels.antt =====
-- operator/src/clob/pool.rs: what a recorded cancel does to later orders, and how a cancel by
-- another trader displaces it.
use inference_bazaar.Base.{
  ℕ, ◌≤◌, arith, ◌≡◌, ◌≢◌, refl, subst, sym, ◌∙◌, String, List, [], ◌∷◌, Option, none, some, true,
  false, inl, inr, All, ◌==◌, ==_iff, leb, Bool-cases, Option-cases, ok, err, select,
}
use inference_bazaar.Base.Maps.{lookup, has_key, insert_key, delete, delete-Apart, All-select}
use inference_bazaar.Settlement.Types.{B256, Crypto, Address}
use inference_bazaar.Settlement.Fills.{SignedOrder, digest}
use inference_bazaar.Clob.Types.{
  PoolEntry, Clob, SignedOrderBody, WireCancel, PoolError, already_settled, already_cancelled,
  cancel_ttl_secs, add_u64,
}
use inference_bazaar.Clob.Pool.{
  admit, admit_vetted, admit_cancel, record_cancel, into_signed, vet, is_cancelled, cancel_signer,
  persist_finality, unexpired,
}

lookup-Apart :
    {V : Type 0} (k : ℕ) (m : List (ℕ × V)) → All (λ q. (q.0 == k) ≡ false) m → lookup k m ≡ none
lookup-Apart k [] h = refl
lookup-Apart k ((j, v) ∷ m) h = rw (h.0) (lookup-Apart k m h.1)

-- The record of the cancel of an order: who, and until when.
abbrev pub CancelledBy : B256 → Address → ℕ → Clob → Type 0
CancelledBy h t until b =
    (rest : List (B256 × (Address × ℕ))) × (b.cancelled ≡ (h, (t, until)) ∷ rest)
    × All (λ q. (q.0 == h) ≡ false) rest

persist-CancelledBy :
    (h : B256) (t : Address) (until : ℕ) (b : Clob)
    → CancelledBy h t until b
    → CancelledBy h t until (persist_finality b)
unfolding persist_finality
persist-CancelledBy h t until b r = elim (Option-cases b.file) [
  | inl e ↦ rw (e, persist_finality) r
  | inr (j, e) ↦ rw (e, persist_finality) r
]

-- Until when a cancel is remembered: the expiry of a held order, else two days.
abbrev pub remembered_until : ℕ → Option PoolEntry → ℕ
remembered_until now none = add_u64 now cancel_ttl_secs
remembered_until now (some e) = e.signed.order.expiry

-- Is the held order, if any, the trader's?
abbrev pub OwnsHeld : Address → Option PoolEntry → Type 0
OwnsHeld t none = Unit
OwnsHeld t (some e) = e.signed.order.trader ≡ t

record_cancel-CancelledBy :
    (now : ℕ) (h : B256) (t : Address) (o : Option PoolEntry) (b : Clob)
    → OwnsHeld t o
    → CancelledBy h t (remembered_until now o) (record_cancel now h t o b).0
unfolding record_cancel
record_cancel-CancelledBy now h t none b own =
    persist-CancelledBy h t _ _ (delete h b.cancelled, refl, delete-Apart h b.cancelled)
record_cancel-CancelledBy now h t (some e) b own =
    rw ((==_iff e.signed.order.trader t).1 own, record_cancel)
      (persist-CancelledBy h t _ _ (delete h b.cancelled, refl, delete-Apart h b.cancelled))

persist-pool : (b : Clob) → (persist_finality b).pool ≡ b.pool
unfolding persist_finality
persist-pool b = elim (Option-cases b.file) [
  | inl e ↦ rw (e, persist_finality) refl
  | inr (j, e) ↦ rw (e, persist_finality) refl
]

has_key-Apart :
    {V : Type 0} (k : ℕ) (m : List (ℕ × V)) → All (λ q. (q.0 == k) ≡ false) m → has_key k m ≡ false
has_key-Apart k [] h = refl
has_key-Apart k ((j, v) ∷ m) h = rw (h.0) (has_key-Apart k m h.1)

has_key-lookup : {V : Type 0} (k : ℕ) (m : List (ℕ × V)) → lookup k m ≡ none → has_key k m ≡ false
has_key-lookup k [] h = refl
has_key-lookup k ((j, v) ∷ m) h = elim (Bool-cases (j == k)) [
  | inl e ↦ cc (rw (e) at h)
  | inr e ↦ rw (e) (has_key-lookup k m (rw (e) at h))
]

-- The trader's cancel takes the held order out of the pool.
record_cancel-absent :
    (now : ℕ) (h : B256) (t : Address) (o : Option PoolEntry) (b : Clob)
    → lookup h b.pool ≡ o
    → OwnsHeld t o
    → has_key h (record_cancel now h t o b).0.pool ≡ false
unfolding record_cancel
record_cancel-absent now h t none b e own =
    rw
      (persist-pool
        (record b { cancelled = insert_key h (t, add_u64 now cancel_ttl_secs) b.cancelled }))
      (has_key-lookup h b.pool e)
record_cancel-absent now h t (some x) b e own =
    rw
      (
        (==_iff x.signed.order.trader t).1 own,
        record_cancel,
        persist-pool (record b {
          pool = delete h b.pool;
          cancelled = insert_key h (t, x.signed.order.expiry) b.cancelled;
        }),
      )
      (has_key-Apart h (delete h b.pool) (delete-Apart h b.pool))

-- Whose order a recorded cancel stops.
is_cancelled-until :
    (now : ℕ) (h : B256) (t trader : Address) (until : ℕ) (b : Clob)
    → CancelledBy h t until b
    → now ≤ until
    → (is_cancelled now h trader b).1 ≡ (t == trader)
unfolding is_cancelled
is_cancelled-until now h t trader until b (rest, e, apart) le =
    let keeps : leb now until ≡ true = ground arith in
    let same : (h == h) ≡ true = ground arith in rw (e, keeps, same) refl

-- A cancel that is recorded for one trader never stops an order of another.
is_cancelled-other :
    (now : ℕ) (h : B256) (t trader : Address) (until : ℕ) (b : Clob)
    → CancelledBy h t until b
    → t ≢ trader
    → (is_cancelled now h trader b).1 ≡ false
unfolding is_cancelled
is_cancelled-other now h t trader until b (rest, e, apart) n = elim (Bool-cases (leb now until)) [
  | inl l ↦
      let same : (h == h) ≡ true = ground arith in
      let other : (t == trader) ≡ false = ground arith in rw (e, l, same) other
  | inr l ↦
      rw
        (
          e,
          l,
          lookup-Apart h (select (λ q. leb now q.1.1) rest) (
              All-select (λ (q : B256 × (Address × ℕ)). (q.0 == h) ≡ false) (λ q. leb now q.1.1)
                rest apart),
        )
        refl
]

module _ (c : Crypto) where
  admit_cancel-CancelledBy :
      (now : ℕ) (w : WireCancel) (b : Clob)
      → cancel_signer c w b ≡ ok w.trader
      → OwnsHeld w.trader (lookup w.order_hash b.pool)
      → CancelledBy w.order_hash w.trader
          (remembered_until now (lookup w.order_hash b.pool))
          (admit_cancel c now w b).0
  unfolding admit_cancel
  admit_cancel-CancelledBy now w b e own =
      let same : (w.trader == w.trader) ≡ true = ground arith in
      rw (e, admit_cancel, same)
        (record_cancel-CancelledBy now w.order_hash w.trader (lookup w.order_hash b.pool) b own)

  -- A cancel for an order that is not held, signed by any trader, displaces the record of an
  -- earlier cancel of the same order: afterwards this node takes no other trader's order of that
  -- digest for cancelled, at any time.
  pub admit_cancel-displaces :
      (now later : ℕ) (w : WireCancel) (victim : Address) (b : Clob)
      → cancel_signer c w b ≡ ok w.trader
      → lookup w.order_hash b.pool ≡ none
      → w.trader ≢ victim
      → (is_cancelled later w.order_hash victim (admit_cancel c now w b).0).1 ≡ false
  admit_cancel-displaces now later w victim b e free n =
      is_cancelled-other later w.order_hash w.trader victim _ (admit_cancel c now w b).0
        (admit_cancel-CancelledBy now w b e (rw (free) tt)) n

  -- The order of a recorded cancel is refused.
  admit_vetted-CancelledBy :
      (now : ℕ) (d : B256) (id : String) (so : SignedOrder) (until : ℕ) (b : Clob)
      → CancelledBy d so.order.trader until b
      → now ≤ until
      → (e : PoolError) × ((admit_vetted c now d id so b).1 ≡ err e)
  unfolding admit_vetted
  admit_vetted-CancelledBy now d id so until b r le =
      let same : (so.order.trader == so.order.trader) ≡ true = ground arith in
      elim (Bool-cases (has_key d (unexpired now b.settled))) [
        | inl e ↦ (already_settled, rw (e, admit_vetted) refl)
        | inr e ↦ (
          already_cancelled,
          rw
              (
                e,
                admit_vetted,
                is_cancelled-until now d so.order.trader so.order.trader until
                      (record b { settled = unexpired now b.settled }) r le
                    ∙ same,
              )
              refl,
        )
      ]

  admit_cancel-absent :
      (now : ℕ) (w : WireCancel) (b : Clob)
      → cancel_signer c w b ≡ ok w.trader
      → OwnsHeld w.trader (lookup w.order_hash b.pool)
      → has_key w.order_hash (admit_cancel c now w b).0.pool ≡ false
  unfolding admit_cancel
  admit_cancel-absent now w b e own =
      let same : (w.trader == w.trader) ≡ true = ground arith in
      rw (e, admit_cancel, same)
        (record_cancel-absent now w.order_hash w.trader (lookup w.order_hash b.pool) b refl own)

  -- A cancel that its trader signed, for an order of the trader's that is held or for one that is
  -- not, leaves no order of that digest in the pool; and for as long as the cancel is remembered
  -- (until the expiry of an order that was held, and two days for one that was not), an order of
  -- that digest and trader is refused, if it comes next.
  pub admit_cancel-stops :
      (now later : ℕ) (w : WireCancel) (b : Clob) (body : SignedOrderBody) (id : String)
      (so : SignedOrder)
      → cancel_signer c w b ≡ ok w.trader
      → OwnsHeld w.trader (lookup w.order_hash b.pool)
      → into_signed c body ≡ ok (id, so)
      → digest c so (admit_cancel c now w b).0.domain ≡ w.order_hash
      → so.order.trader ≡ w.trader
      → later ≤ remembered_until now (lookup w.order_hash b.pool)
      → (has_key w.order_hash (admit_cancel c now w b).0.pool ≡ false)
        × ((e : PoolError) × ((admit c later body (admit_cancel c now w b).0).1 ≡ err e))
  unfolding admit
  admit_cancel-stops now later w b body id so e own i dig same le =
      let b' = (admit_cancel c now w b).0 in
      let until = remembered_until now (lookup w.order_hash b.pool) in
      let r : CancelledBy (digest c so b'.domain) so.order.trader until b' =
        subst (λ t. CancelledBy (digest c so b'.domain) t until b') (sym same)
          (subst (λ h. CancelledBy h w.trader until b') (sym dig)
            (admit_cancel-CancelledBy now w b e own)) in
      (
        admit_cancel-absent now w b e own,
        elim (Option-cases (vet c later id so b')) [
          | inr (x, f) ↦ (x, rw (i, admit, f) refl)
          | inl f ↦
              let (x, g) =
                admit_vetted-CancelledBy later (digest c so b'.domain) id so until b' r le in
              (x, rw (i, admit, f) g)
        ],
      )
