-- ===== src/Matcher/Verdicts.antt =====
-- crates/matcher/src/consensus.rs: when a peer co-signs a proposal, and what it blames otherwise.
use inference_bazaar.Base.{
  List, [], ◌∷◌, map, Option, none, some, true, ◌≡◌, ◌≢◌, refl, sym, ap, ◌∙◌, inl, inr, All, ◌==◌,
  ==_iff, Bool-cases,
}
use inference_bazaar.Base.Int.{I64}
use inference_bazaar.Settlement.Types.{B256, Eip712Domain, Crypto}
use inference_bazaar.Settlement.Core.{order_digest, batch_digest, instrument_hash}
use inference_bazaar.Settlement.Fills.{SignedOrder, verify, contains}
use inference_bazaar.Matcher.Epoch.{EpochBatch, match_epoch}
use inference_bazaar.Matcher.Consensus.{
  BatchProposal, Verdict, sign, forged, censored, digests_of, forged_orders, censored_orders,
  check_batch, or_else, verify_proposal,
}

module _ (c : Crypto) (dom : Eip712Domain) where
  forged-nil :
      (orders : List SignedOrder)
      → forged_orders c orders dom ≡ []
      → All (λ so. verify c so dom ≡ true) orders
  unfolding forged_orders
  forged-nil [] h = tt
  forged-nil (so ∷ rest) h = elim (Bool-cases (verify c so dom)) [
    | inl e ↦ (e, forged-nil rest (rw (e, digests_of) at h))
    | inr e ↦ cc (rw (e, digests_of) at h)
  ]

  -- Each of my orders of the instrument is in the proposal, by its digest.
  abbrev pub IsIncluded : B256 → List SignedOrder → SignedOrder → Type 0
  IsIncluded want proposed so =
      so.order.instrument ≡ want
      → contains c (digests_of c proposed dom) (order_digest c so.order dom) ≡ true

  censored-nil :
      (want : B256) (proposed my_orders : List SignedOrder)
      → censored_orders c want proposed my_orders dom ≡ []
      → All (IsIncluded want proposed) my_orders
  unfolding censored_orders
  censored-nil want proposed [] h = tt
  censored-nil want proposed (so ∷ rest) h = elim (Bool-cases (so.order.instrument == want)) [
    | inr e ↦ (
      λ i. cc (e, (==_iff so.order.instrument want).1 i),
      censored-nil want proposed rest (rw (e, digests_of) at h),
    )
    | inl e ↦
        elim (Bool-cases (contains c (digests_of c proposed dom) (order_digest c so.order dom))) [
          | inl f ↦ (λ i. f, censored-nil want proposed rest (rw (e, f, digests_of) at h))
          | inr f ↦ cc (rw (e, f, digests_of) at h)
        ]
  ]

  -- A verdict that is reached behind a check whose refusal is another verdict.
  behind :
      (ds : List B256) (refuse : List B256 → Verdict) (v w : Verdict)
      → ((es : List B256) → refuse es ≢ w)
      → or_else c ds refuse v ≡ w
      → (ds ≡ []) × (v ≡ w)
  behind [] refuse v w n h = (refl, h)
  behind (d ∷ ds) refuse v w n h = absurd (n (d ∷ ds) h)

  -- What a co-signed batch is.
  abbrev IsSigned :
      BatchProposal → List SignedOrder → Option EpochBatch → B256 → EpochBatch → Type 0
  IsSigned p my_orders m d batch =
      (m ≡ some batch)
      × (batch.fills_hash ≡ p.fills_hash)
      × (d ≡ batch_digest c p.book_id p.batch_nonce p.fills_hash dom)
      × All (IsIncluded (instrument_hash c p.instrument_id) p.orders) my_orders

  check_batch-sign :
      (p : BatchProposal) (my_orders : List SignedOrder) (m : Option EpochBatch) (d : B256)
      (batch : EpochBatch)
      → check_batch c p my_orders dom m ≡ sign d batch
      → IsSigned p my_orders m d batch
  unfolding check_batch
  check_batch-sign p my_orders none d batch h = cc
  check_batch-sign p my_orders (some r) d batch h =
      elim (Bool-cases (r.fills_hash == p.fills_hash)) [
        | inr e ↦ cc (rw (e, check_batch) at h)
        | inl e ↦
            let (none_left, signed) =
              behind (censored_orders c (instrument_hash c p.instrument_id) p.orders my_orders dom)
                censored (sign (batch_digest c p.book_id p.batch_nonce p.fills_hash dom) r)
                (sign d batch) (λ es q. cc) (rw (e, check_batch) at h) in
            let same : r ≡ batch = cc in
            (
              ap some same,
              sym (ap (λ (b : EpochBatch). b.fills_hash) same) ∙ (==_iff _ _).0 e,
              (cc),
              censored-nil (instrument_hash c p.instrument_id) p.orders my_orders none_left,
            )
      ]

  -- A verdict to co-sign means that every order of the proposal is signed by its trader, that this
  -- node's own match of these orders is the signed batch and has the claimed hash, that the digest
  -- binds the proposal's book, nonce and hash, and that none of this node's orders is left out.
  pub verify_proposal-sign :
      (p : BatchProposal) (my_orders : List SignedOrder) (tick_size min_qty : I64) (d : B256)
      (batch : EpochBatch)
      → verify_proposal c p my_orders tick_size min_qty dom ≡ sign d batch
      → All (λ so. verify c so dom ≡ true) p.orders
        × (match_epoch c p.instrument_id tick_size min_qty dom (map (λ so. so.order) p.orders)
            ≡ some batch)
        × (batch.fills_hash ≡ p.fills_hash)
        × (d ≡ batch_digest c p.book_id p.batch_nonce p.fills_hash dom)
        × All (IsIncluded (instrument_hash c p.instrument_id) p.orders) my_orders
  unfolding verify_proposal
  verify_proposal-sign p my_orders tick_size min_qty d batch h =
      let (none_forged, rest) =
        behind (forged_orders c p.orders dom) forged _ (sign d batch) (λ es q. cc) h in
      let r =
        check_batch-sign p my_orders
          (match_epoch c p.instrument_id tick_size min_qty dom
            (map (λ (so : SignedOrder). so.order) p.orders))
          d batch rest in
      (forged-nil p.orders none_forged, r.0, r.1, r.2, r.3)
