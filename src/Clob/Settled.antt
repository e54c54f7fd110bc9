-- ===== src/Clob/Settled.antt =====
-- operator/src/clob/pool.rs: what is settled stays settled while orders and cancels are admitted
-- and batches are confirmed.
use inference_bazaar.Base.{
  ℕ, ◌≤◌, ◌≡◌, ap, String, List, [], ◌∷◌, Option, none, some, true, false, inl, inr, All-map, ◌==◌,
  ==_iff, ◌&&◌, not, leb, Bool-cases, Option-cases, Result-cases, length, arith,
}
use inference_bazaar.Base.Maps.{
  lookup, has_key, has_key-Member, has_key-disjoint, lookup-Member, Member-select,
}
use inference_bazaar.Base.Sets.{Member}
use inference_bazaar.Settlement.Types.{B256, Crypto, Address}
use inference_bazaar.Settlement.Fills.{SignedOrder, digest}
use inference_bazaar.Clob.Types.{PoolEntry, Clob, SignedOrderBody, WireCancel, max_pool}
use inference_bazaar.Clob.Pool.{
  admit, admit_vetted, admit_live, admit_cancel, record_cancel, into_signed, vet, is_cancelled,
  persist_finality, unexpired, cancel_signer,
}
use inference_bazaar.Clob.Pending.{confirm_orders, settle_digests}
use inference_bazaar.Clob.Entries.{IsClob, moved, moved-IsClob}

module _ (c : Crypto) (d : B256) (exp : ℕ) where
  abbrev pub Settles : Clob → Type 0
  Settles b = Member (d, exp) b.settled

  pub absent : (b : Clob) → IsClob c b → Settles b → has_key d b.pool ≡ false
  unfolding IsClob
  absent b h s =
      has_key-disjoint d b.pool b.settled (All-map _ _ b.pool (λ q i. i.1) h)
        (has_key-Member d exp b.settled s)

  pub persist-Settles : (b : Clob) → Settles b → Settles (persist_finality b)
  unfolding persist_finality
  persist-Settles b s = elim (Option-cases b.file) [
    | inl e ↦ rw (e, persist_finality) s
    | inr (j, e) ↦ rw (e, persist_finality) s
  ]

  -- Another order is settled beside it: its own is not held.
  moved-Settles :
      (d' : B256) (x : PoolEntry) (b : Clob)
      → has_key d b.pool ≡ false
      → lookup d' b.pool ≡ some x
      → Settles b
      → Settles (moved c d' x b)
  moved-Settles d' x b free e s =
      let other : (d == d') ≡ false = elim (Bool-cases (d == d')) [
        | inr f ↦ f
        | inl f ↦
            let held : has_key d' b.pool ≡ true =
              has_key-Member d' x b.pool (lookup-Member d' x b.pool e) in
            cc (held, free, (==_iff d d').0 f)
      ] in
      inr (Member-select _ (d, exp) b.settled s (ap not other))

  settle_digests-Settles :
      (ds : List B256) (b : Clob) → IsClob c b → Settles b → Settles (settle_digests ds b)
  unfolding settle_digests
  settle_digests-Settles [] b h s = s
  settle_digests-Settles (d' ∷ ds) b h s = elim (Option-cases (lookup d' b.pool)) [
    | inl e ↦ rw (e, settle_digests) (settle_digests-Settles ds b h s)
    | inr (x, e) ↦
        rw (e, settle_digests)
          (settle_digests-Settles ds (moved c d' x b) (moved-IsClob c d' x b h)
            (moved-Settles d' x b (absent b h s) e s))
  ]

  pub confirm_orders-Settles :
      (ds : List B256) (b : Clob) → IsClob c b → Settles b → Settles (confirm_orders ds b)
  unfolding confirm_orders
  confirm_orders-Settles [] b h s = s
  confirm_orders-Settles (d' ∷ ds) b h s =
      persist-Settles _ (settle_digests-Settles (d' ∷ ds) b h s)

  record_cancel-Settles :
      (now : ℕ) (d' : B256) (t : Address) (o : Option PoolEntry) (b : Clob)
      → Settles b
      → Settles (record_cancel now d' t o b).0
  unfolding record_cancel
  record_cancel-Settles now d' t none b s = persist-Settles _ s
  record_cancel-Settles now d' t (some e) b s = elim (Bool-cases (e.signed.order.trader == t)) [
    | inl f ↦ rw (f, record_cancel) (persist-Settles _ s)
    | inr f ↦ rw (f, record_cancel) s
  ]

  pub admit_cancel-Settles :
      (now : ℕ) (w : WireCancel) (b : Clob) → Settles b → Settles (admit_cancel c now w b).0
  unfolding admit_cancel
  admit_cancel-Settles now w b s = elim (Result-cases (cancel_signer c w b)) [
    | inl (a, e) ↦ elim (Bool-cases (a == w.trader)) [
      | inl f ↦
          rw (e, admit_cancel, f)
            (record_cancel-Settles now w.order_hash w.trader (lookup w.order_hash b.pool) b s)
      | inr f ↦ rw (e, admit_cancel, f) s
    ]
    | inr (inl (x, e)) ↦ rw (e, admit_cancel) s
    | inr (inr e) ↦ rw (e, admit_cancel) s
  ]

  admit_live-Settles :
      (now : ℕ) (d' : B256) (id : String) (so : SignedOrder) (b : Clob)
      → Settles b
      → Settles (admit_live c now d' id so b).0
  unfolding admit_live
  admit_live-Settles now d' id so b s =
      elim (Bool-cases (leb max_pool (length b.pool) && not (has_key d' b.pool))) [
        | inl e ↦ rw (e, admit_live) s
        | inr e ↦ rw (e, admit_live) s
      ]

  pub is_cancelled-Settles :
      (now : ℕ) (d' : B256) (t : Address) (b : Clob)
      → Settles b
      → Settles (is_cancelled now d' t b).0
  unfolding is_cancelled
  is_cancelled-Settles now d' t b s = s

  admit_vetted-Settles :
      (now : ℕ) (d' : B256) (id : String) (so : SignedOrder) (b : Clob)
      → now ≤ exp
      → Settles b
      → Settles (admit_vetted c now d' id so b).0
  unfolding admit_vetted
  admit_vetted-Settles now d' id so b le s =
      let b1 : Clob = record b { settled = unexpired now b.settled } in
      let s1 : Settles b1 = Member-select _ (d, exp) b.settled s (ground arith) in
      let s2 = is_cancelled-Settles now d' so.order.trader b1 s1 in
      elim (Bool-cases (has_key d' (unexpired now b.settled))) [
        | inl e ↦ rw (e, admit_vetted) s1
        | inr e ↦ elim (Bool-cases (is_cancelled now d' so.order.trader b1).1) [
          | inl f ↦ rw (e, f, admit_vetted) s2
          | inr f ↦
              rw (e, f, admit_vetted)
                (admit_live-Settles now d' id so (is_cancelled now d' so.order.trader b1).0 s2)
        ]
      ]

  pub admit-Settles :
      (now : ℕ) (body : SignedOrderBody) (b : Clob)
      → now ≤ exp
      → Settles b
      → Settles (admit c now body b).0
  unfolding admit
  admit-Settles now body b le s = elim (Result-cases (into_signed c body)) [
    | inl ((id, so), e) ↦ elim (Option-cases (vet c now id so b)) [
      | inl f ↦ rw (e, admit, f) (admit_vetted-Settles now (digest c so b.domain) id so b le s)
      | inr (x, f) ↦ rw (e, admit, f) s
    ]
    | inr (inl (x, e)) ↦ rw (e, admit) s
    | inr (inr e) ↦ rw (e, admit) s
  ]
