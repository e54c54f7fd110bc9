-- ===== src/Clob/Admits.antt =====
-- operator/src/clob/pool.rs: the admission of orders and of cancels keeps the state well-formed.
use inference_bazaar.Base.{
  ℕ, ◌≡◌, refl, String, Option, none, some, true, false, inl, inr, All, All-map, ◌==◌, ==_iff, ◌&&◌,
  not, leb, Bool-cases, Option-cases, Result-cases, length, ltb, ok,
}
use inference_bazaar.Base.Maps.{lookup, has_key, has_key-select, All-select}
use inference_bazaar.Base.Text.{trim_0x}
use inference_bazaar.Settlement.Types.{B256, Crypto, Address}
use inference_bazaar.Settlement.Core.{instrument_hash}
use inference_bazaar.Settlement.Fills.{SignedOrder, digest, verify}
use inference_bazaar.Matcher.Epoch.{i64_of_u64}
use inference_bazaar.Clob.Types.{
  PoolEntry, Clob, SignedOrderBody, WireCancel, max_pool, expiry_margin_secs, add_u64, instrument,
  PoolError, out_of_range,
}
use inference_bazaar.Clob.Pool.{
  admit, admit_vetted, admit_live, admit_cancel, record_cancel, into_signed, vet, is_cancelled,
  persist_finality, unexpired, cancel_signer,
}
use inference_bazaar.Clob.Entries.{IsOrderOf, IsEntry, IsClob}

module _ (c : Crypto) where
  pub persist-IsClob : (b : Clob) → IsClob c b → IsClob c (persist_finality b)
  unfolding persist_finality IsClob
  persist-IsClob b h = elim (Option-cases b.file) [
    | inl e ↦ rw (e, persist_finality) h
    | inr (j, e) ↦ rw (e, persist_finality) h
  ]

  pub record_cancel-IsClob :
      (now : ℕ) (d : B256) (t : Address) (o : Option PoolEntry) (b : Clob)
      → IsClob c b
      → IsClob c (record_cancel now d t o b).0
  unfolding record_cancel IsClob
  record_cancel-IsClob now d t none b h = persist-IsClob _ h
  record_cancel-IsClob now d t (some e) b h = elim (Bool-cases (e.signed.order.trader == t)) [
    | inl f ↦ rw (f, record_cancel) (persist-IsClob _ (All-select _ _ b.pool h))
    | inr f ↦ rw (f, record_cancel) h
  ]

  pub admit_cancel-IsClob :
      (now : ℕ) (w : WireCancel) (b : Clob) → IsClob c b → IsClob c (admit_cancel c now w b).0
  unfolding admit_cancel
  admit_cancel-IsClob now w b h = elim (Result-cases (cancel_signer c w b)) [
    | inl (s, e) ↦ elim (Bool-cases (s == w.trader)) [
      | inl f ↦
          rw (e, admit_cancel, f)
            (record_cancel-IsClob now w.order_hash w.trader (lookup w.order_hash b.pool) b h)
      | inr f ↦ rw (e, admit_cancel, f) h
    ]
    | inr (inl (x, e)) ↦ rw (e, admit_cancel) h
    | inr (inr e) ↦ rw (e, admit_cancel) h
  ]

  -- What is vetted is an order to hold.
  pub vet-IsOrderOf :
      (now : ℕ) (id : String) (so : SignedOrder) (b : Clob)
      → so.order.instrument ≡ instrument_hash c id
      → vet c now id so b ≡ none
      → IsOrderOf c b.domain (digest c so b.domain) id so
  unfolding vet
  vet-IsOrderOf now id so b n h = elim (Option-cases (instrument b id)) [
    | inl e ↦ cc (rw (e, vet) at h)
    | inr (i, e) ↦ elim (Bool-cases (verify c so b.domain)) [
      | inr f ↦ cc (rw (e, vet, f) at h)
      | inl f ↦ elim (Bool-cases (ltb so.order.expiry (add_u64 now expiry_margin_secs))) [
        | inl g ↦ cc (rw (e, vet, f, g) at h)
        | inr g ↦ elim (Bool-cases (so.order.qty_tokens == 0)) [
          | inl k ↦ cc (rw (e, vet, f, g, k) at h)
          | inr k ↦ ranged f k (rw (e, vet, f, g, k) at h)
        ]
      ]
    ]
  ]
    where
      range_check : Option PoolError
      range_check = elim (i64_of_u64 so.order.price_micro_per_m) [
        | none ↦ some out_of_range
        | some p ↦ elim (i64_of_u64 so.order.qty_tokens) [
          | none ↦ some out_of_range
          | some q ↦ none
        ]
      ]

      ranged :
          verify c so b.domain ≡ true
          → (so.order.qty_tokens == 0) ≡ false
          → range_check ≡ none
          → IsOrderOf c b.domain (digest c so b.domain) id so
      ranged f k r = record {
        keyed = refl;
        signed = f;
        named = n;
        sized = λ z. cc ((==_iff so.order.qty_tokens 0).1 z, k);
        priced = λ z. cc (rw (z, range_check) at r);
        counted = λ z. elim (Option-cases (i64_of_u64 so.order.price_micro_per_m)) [
          | inl y ↦ cc (rw (y, range_check) at r)
          | inr (p, y) ↦ cc (rw (y, z, range_check) at r)
        ];
      }

  into_signed-ok :
      (body : SignedOrderBody) (id : String) (so : SignedOrder)
      → into_signed c body ≡ ok (id, so)
      → so.order.instrument ≡ instrument_hash c id
  unfolding into_signed
  into_signed-ok body id so h =
      elim (Bool-cases (body.order.instrument == instrument_hash c body.instrument_id)) [
        | inr e ↦ cc (rw (e, into_signed) at h)
        | inl e ↦ elim (Option-cases (c.hex_decode (trim_0x body.signature))) [
          | inl f ↦ cc (rw (e, f, into_signed) at h)
          | inr (s, f) ↦ cc (
            rw (e, f, into_signed) at h,
            (==_iff body.order.instrument (instrument_hash c body.instrument_id)).0 e,
          )
        ]
      ]

  pub is_cancelled-IsClob :
      (now : ℕ) (d : B256) (t : Address) (b : Clob)
      → IsClob c b
      → IsClob c (is_cancelled now d t b).0
  unfolding is_cancelled IsClob
  is_cancelled-IsClob now d t b h = h

  pub admit_live-IsClob :
      (now : ℕ) (d : B256) (id : String) (so : SignedOrder) (b : Clob)
      → IsOrderOf c b.domain d id so
      → has_key d b.settled ≡ false
      → IsClob c b
      → IsClob c (admit_live c now d id so b).0
  unfolding admit_live IsClob
  admit_live-IsClob now d id so b o s h =
      elim (Bool-cases (leb max_pool (length b.pool) && not (has_key d b.pool))) [
        | inl e ↦ rw (e, admit_live) h
        | inr e ↦ rw (e, admit_live) ((o, s), All-select _ _ b.pool h)
      ]

  pub admit_vetted-IsClob :
      (now : ℕ) (d : B256) (id : String) (so : SignedOrder) (b : Clob)
      → IsOrderOf c b.domain d id so
      → IsClob c b
      → IsClob c (admit_vetted c now d id so b).0
  unfolding admit_vetted IsClob
  admit_vetted-IsClob now d id so b o h =
      let less : All (IsEntry c b.domain (unexpired now b.settled)) b.pool =
        All-map _ _ b.pool (λ e i. (i.0, has_key-select e.0 _ b.settled i.1)) h in
      let b1 : Clob = record b { settled = unexpired now b.settled } in
      elim (Bool-cases (has_key d (unexpired now b.settled))) [
        | inl e ↦ rw (e, admit_vetted) less
        | inr e ↦ elim (Bool-cases (is_cancelled now d so.order.trader b1).1) [
          | inl f ↦ rw (e, f, admit_vetted) (is_cancelled-IsClob now d so.order.trader b1 less)
          | inr f ↦
              rw (e, f, admit_vetted)
                (admit_live-IsClob now d id so (is_cancelled now d so.order.trader b1).0 o e
                  (is_cancelled-IsClob now d so.order.trader b1 less))
        ]
      ]

  pub admit-IsClob :
      (now : ℕ) (body : SignedOrderBody) (b : Clob) → IsClob c b → IsClob c (admit c now body b).0
  unfolding admit
  admit-IsClob now body b h = elim (Result-cases (into_signed c body)) [
    | inl ((id, so), e) ↦ elim (Option-cases (vet c now id so b)) [
      | inl f ↦
          rw (e, admit, f)
            (admit_vetted-IsClob now (digest c so b.domain) id so b
              (vet-IsOrderOf now id so b (into_signed-ok body id so e) f) h)
      | inr (x, f) ↦ rw (e, admit, f) h
    ]
    | inr (inl (x, e)) ↦ rw (e, admit) h
    | inr (inr e) ↦ rw (e, admit) h
  ]
