-- ===== src/Clob/Submitted.antt =====
-- operator/src/clob/driver.rs: a batch that is reported as settled has its quorum, and its orders
-- have left the pool.
use inference_bazaar.Base.{
  ℕ, ◌<◌, ◌≡◌, refl, sym, ap, ◌∙◌, subst, String, List, [], ◌∷◌, Option, none, some, true, false,
  inl, inr, All, All-map, Result, ok, err, panic, Bool-cases, Option-cases, eq_of_some,
}
use inference_bazaar.Base.Sets.{Member}
use inference_bazaar.Settlement.Types.{B256, Bytes, Crypto}
use inference_bazaar.Settlement.Core.{batch_digest}
use inference_bazaar.Settlement.Fills.{SignedOrder, verify_quorum, contains}
use inference_bazaar.Matcher.Epoch.{EpochBatch}
use inference_bazaar.Matcher.Quorum.{aggregate-verify}
use inference_bazaar.Clob.Types.{
  Clob, Instrument, PoolEntry, addresses, add_u64, pending_settle_ttl,
}
use inference_bazaar.Clob.Pending.{mark_pending, touched, confirm_orders}
use inference_bazaar.Clob.Driver.{
  World, DriveError, BatchReport, no_quorum, submitted, is_empty, match_of, clean, attestations_of,
  quorum_of, land, propose_batch, when_crossed, propose_instrument,
}
use inference_bazaar.Clob.Landed.{IsGone, confirm_orders-IsGone, IsClean, clean-IsClean}

-- The batch, nonce and signatures of a batch that settled.
abbrev landed_of : Result DriveError (Option BatchReport) → Option (EpochBatch × (ℕ × List Bytes))
landed_of (ok none) = none
landed_of (ok (some (no_quorum batch))) = none
landed_of (ok (some (submitted batch n sigs))) = some (batch, (n, sigs))
landed_of (err e) = none
landed_of panic = none

-- Every order of a list is one of its members.
All-Members : (xs : List SignedOrder) → All (λ x. Member x xs) xs
All-Members [] = tt
All-Members (x ∷ xs) = (
  inl refl,
  All-map (λ y. Member y xs) (λ y. Member y (x ∷ xs)) xs (λ y m. inr m) (All-Members xs),
)

module _ (c : Crypto) (hex_encode : Bytes → String) (now epoch : ℕ) (inst : Instrument) where
  -- A batch that settled, proposed from a snapshot in a state.
  pub record IsLanded (w : World) (snapshot : List SignedOrder) (b b' : Clob) (batch : EpochBatch)
      (batch_nonce : ℕ) (sigs : List Bytes) : Type 0 where
    pub orders : List SignedOrder
    pub among : All (λ so. Member so snapshot) orders
    pub matched : match_of c inst orders b ≡ some batch
    pub nonce_read : w.batch_nonce ≡ some batch_nonce
    pub quorum :
        verify_quorum c
          (batch_digest c b.cfg.book_id batch_nonce batch.fills_hash b.domain)
          sigs
          (addresses b.cfg)
          b.cfg.threshold
        ≡ true
    pub landed : w.submit batch.fills sigs ≡ true
    pub gone : All (IsGone b') (touched c b.domain batch.fills)

  land-lem :
      (w : World) (n n' : ℕ) (batch batch' : EpochBatch) (sigs sigs' : List Bytes) (b : Clob)
      → (land c hex_encode now w n batch sigs b).1 ≡ ok (some (submitted batch' n' sigs'))
      → (◌≡◌ {A = EpochBatch × (ℕ × List Bytes)} (batch, (n, sigs)) (batch', (n', sigs')))
        × ((w.submit batch.fills sigs ≡ true)
            × All
                (IsGone (land c hex_encode now w n batch sigs b).0)
                (touched c b.domain batch.fills))
  unfolding land mark_pending
  land-lem w n n' batch batch' sigs sigs' b h = elim (Bool-cases (w.submit batch.fills sigs)) [
    | inr e ↦ cc (rw (e, land) at h)
    | inl e ↦
        let deadline = add_u64 now (pending_settle_ttl b.cfg.epoch_secs) in
        let marked = mark_pending c batch.fills n deadline b in
        let ds = touched c b.domain batch.fills in
        let same : (land c hex_encode now w n batch sigs b).0 ≡ confirm_orders ds marked =
          rw (e, land) refl in
        (
          eq_of_some (ap landed_of (rw (e, land) at h)),
          (e, subst (λ x. All (IsGone x) ds) (sym same) (confirm_orders-IsGone ds marked)),
        )
  ]

  settled_batch-IsLanded :
      (w : World) (snapshot orders : List SignedOrder) (b : Clob) (pool : List (B256 × PoolEntry))
      (batch0 batch : EpochBatch) (n : ℕ) (sigs : List Bytes)
      → contains c (addresses b.cfg) 0 ≡ false
      → 0 < b.cfg.threshold
      → match_of c inst orders b ≡ some batch0
      → All (λ so. Member so snapshot) orders
      → (propose_batch c hex_encode now epoch inst w orders batch0 (record b { pool = pool })).1
        ≡ ok (some (submitted batch n sigs))
      → IsLanded w snapshot b
          (propose_batch c hex_encode now epoch inst w orders batch0 (record b { pool = pool })).0
          batch
          n
          sigs
  unfolding propose_batch quorum_of
  settled_batch-IsLanded w snapshot orders b pool batch0 batch n sigs z t m among h =
      elim (Option-cases w.batch_nonce) [
        | inl e ↦ cc (rw (e, propose_batch) at h)
        | inr (n0, e) ↦
            elim (Option-cases (quorum_of c hex_encode epoch inst w n0 orders batch0 b1)) [
              | inl f ↦ cc (rw (e, f, propose_batch) at h)
              | inr (sigs0, f) ↦
                  let l = land c hex_encode now w n0 batch0 sigs0 b1 in
                  let same : propose_batch c hex_encode now epoch inst w orders batch0 b1 ≡ l =
                    rw (e, f, propose_batch) refl in
                  let (triple, (lands, out)) =
                    land-lem w n0 n batch0 batch sigs0 sigs b1 (sym (ap (λ p. p.1) same) ∙ h) in
                  subst
                    (λ (x : EpochBatch × (ℕ × List Bytes)).
                      IsLanded w snapshot b
                        (propose_batch c hex_encode now epoch inst w orders batch0 b1).0 x.0 x.1.0
                        x.1.1)
                    triple
                    (record {
                      orders = orders;
                      among = among;
                      matched = m;
                      nonce_read = e;
                      quorum =
                          aggregate-verify c
                            (batch_digest c b.cfg.book_id n0 batch0.fills_hash b.domain)
                            (addresses b.cfg)
                            (attestations_of c hex_encode epoch inst w n0 orders batch0 b1)
                            b.cfg.threshold sigs0 z t f;
                      landed = lands;
                      gone =
                          subst (λ x. All (IsGone x) (touched c b.domain batch0.fills))
                            (sym (ap (λ p. p.0) same)) out;
                    })
            ]
      ]
    where
      b1 : Clob
      b1 = record b { pool = pool }

  when_crossed-IsLanded :
      (w : World) (snapshot : List SignedOrder) (b : Clob)
      (y : Clob × Result DriveError (List SignedOrder × EpochBatch)) (batch : EpochBatch) (n : ℕ)
      (sigs : List Bytes)
      → contains c (addresses b.cfg) 0 ≡ false
      → 0 < b.cfg.threshold
      → ((b1 : Clob) (orders : List SignedOrder) (batch0 : EpochBatch)
          → y ≡ (b1, ok (orders, batch0))
          → IsClean c inst b b1 snapshot orders batch0)
      → (when_crossed c hex_encode now epoch inst w y).1 ≡ ok (some (submitted batch n sigs))
      → IsLanded w snapshot b (when_crossed c hex_encode now epoch inst w y).0 batch n sigs
  when_crossed-IsLanded w snapshot b (b1, err x) batch n sigs z t k h = cc
  when_crossed-IsLanded w snapshot b (b1, panic) batch n sigs z t k h = cc
  when_crossed-IsLanded w snapshot b (b1, ok (orders, batch0)) batch n sigs z t k h =
      elim (Bool-cases (is_empty batch0.fills)) [
        | inl e ↦ cc (rw (e) at h)
        | inr e ↦
            let m = k b1 orders batch0 refl in
            rw (e) (
              subst
                (λ (x : Clob).
                  (propose_batch c hex_encode now epoch inst w orders batch0 x).1
                    ≡ ok (some (submitted batch n sigs))
                  → IsLanded w snapshot b
                      (propose_batch c hex_encode now epoch inst w orders batch0 x).0 batch n sigs)
                (sym m.state)
                (settled_batch-IsLanded w snapshot orders b m.pool batch0 batch n sigs z t m.matched
                  m.among)
                (rw (e) at h))
      ]

  -- A batch that is reported as settled is the match of orders of the snapshot; its submission
  -- landed, with signatures that pass the contract's quorum check for the batch's digest at the
  -- nonce that was read; and no order that it fills is left in the pool. No operator has the address
  -- zero, and the threshold is positive.
  pub propose_instrument-IsLanded :
      (w : World) (snapshot : List SignedOrder) (b : Clob) (batch : EpochBatch) (n : ℕ)
      (sigs : List Bytes)
      → contains c (addresses b.cfg) 0 ≡ false
      → 0 < b.cfg.threshold
      → (propose_instrument c hex_encode now epoch inst w snapshot b).1
        ≡ ok (some (submitted batch n sigs))
      → IsLanded w snapshot b
          (propose_instrument c hex_encode now epoch inst w snapshot b).0
          batch
          n
          sigs
  unfolding propose_instrument
  propose_instrument-IsLanded w snapshot b batch n sigs z t h =
      elim (Option-cases (match_of c inst snapshot b)) [
        | inl e ↦ cc (rw (e, propose_instrument) at h)
        | inr (batch0, e) ↦
            rw (e, propose_instrument)
              (when_crossed-IsLanded w snapshot b (clean c now inst w.round 3 snapshot batch0 b)
                batch n sigs z t
                (λ b1 orders batch1 k.
                  clean-IsClean c inst now w.round 3 b b b1 snapshot snapshot orders batch0 batch1
                    (record {
                      pool = b.pool;
                      state = refl;
                      matched = e;
                      among = All-Members snapshot;
                    })
                    k)
                (rw (e, propose_instrument) at h))
      ]
