-- ===== src/Clob/Attests.antt =====
-- operator/src/clob/peer.rs: what a peer's co-signature vouches for.
use inference_bazaar.Base.{
  ℕ, ◌≤◌, ◌≡◌, refl, ap, arith, List, [], ◌∷◌, Option, none, some, Bool, true, false, inl, inr, All,
  All-map, ◌==◌, ==_iff, ltb, leb, select, Bool-cases, Option-cases, Result-cases, ok,
}
use inference_bazaar.Base.Text.{trim_0x}
use inference_bazaar.Settlement.Types.{B256, Address, Crypto}
use inference_bazaar.Settlement.Core.{batch_digest, recover_signer, is_signer}
use inference_bazaar.Settlement.Fills.{SignedOrder, digest, sign_digest}
use inference_bazaar.Matcher.Epoch.{EpochBatch}
use inference_bazaar.Matcher.Consensus.{
  elect_proposer, Verdict, sign, forged, fills_hash_mismatch, censored, crashed, verify_proposal,
}
use inference_bazaar.Clob.Types.{
  Clob, WireProposal, WireAttestation, Instrument, addresses, current_epoch, settlement_deadline,
  instrument,
}
use inference_bazaar.Clob.Pool.{is_cancelled}
use inference_bazaar.Clob.Pending.{snapshot}
use inference_bazaar.Clob.Peer.{
  abs_diff, attest, authenticate, find_expiring, find_cancelled, answer, co_sign, proposal_of,
  bytes_or_empty,
}

pub is_signer-some :
    (c : Crypto) (o : Option Address) (a : Address) → is_signer c o a ≡ true → o ≡ some a
is_signer-some c none a h = cc
is_signer-some c (some s) a h = ap some ((==_iff s a).0 h)

find_expiring-none :
    (deadline : ℕ) (os : List SignedOrder)
    → find_expiring deadline os ≡ none
    → All (λ o. deadline ≤ o.order.expiry) os
unfolding find_expiring
find_expiring-none deadline [] h = tt
find_expiring-none deadline (o ∷ os) h = elim (Bool-cases (ltb o.order.expiry deadline)) [
  | inl e ↦ cc (rw (e) at h)
  | inr e ↦ (ground arith, find_expiring-none deadline os (rw (e) at h))
]

select-twice : {A : Type 0} (p : A → Bool) (xs : List A) → select p (select p xs) ≡ select p xs
select-twice p [] = refl
select-twice p (x ∷ xs) = elim (Bool-cases (p x)) [
  | inl e ↦ rw (e) (rw (e) (ap (λ ys. x ∷ ys) (select-twice p xs)))
  | inr e ↦ rw (e) (select-twice p xs)
]

module _ (c : Crypto) where
  abbrev pub IsUncancelled : ℕ → Clob → SignedOrder → Type 0
  IsUncancelled now b o = (is_cancelled now (digest c o b.domain) o.order.trader b).1 ≡ false

  -- The cancel set answers the same when it has been swept.
  swept-IsUncancelled :
      (now : ℕ) (h : B256) (t : Address) (b : Clob) (o : SignedOrder)
      → IsUncancelled now (is_cancelled now h t b).0 o
      → IsUncancelled now b o
  unfolding is_cancelled
  swept-IsUncancelled now h t b o n =
      rw (select-twice (λ (q : B256 × (Address × ℕ)). leb now q.1.1) b.cancelled) at n

  find_cancelled-none :
      (now : ℕ) (os : List SignedOrder) (b : Clob)
      → (find_cancelled c now os b).1 ≡ none
      → All (IsUncancelled now b) os
  unfolding find_cancelled
  find_cancelled-none now [] b h = tt
  find_cancelled-none now (o ∷ os) b h =
      let b' = (is_cancelled now (digest c o b.domain) o.order.trader b).0 in
      elim (Bool-cases (is_cancelled now (digest c o b.domain) o.order.trader b).1) [
        | inl e ↦ cc (rw (e, find_cancelled) at h)
        | inr e ↦ (
          e,
          All-map _ _ os (swept-IsUncancelled now (digest c o b.domain) o.order.trader b)
              (find_cancelled-none now os b' (rw (e, find_cancelled) at h)),
        )
      ]

  -- What the checks ahead of the orders establish.
  abbrev pub IsAuthentic : ℕ → WireProposal → Clob → Type 0
  IsAuthentic now w b =
      (abs_diff w.epoch (current_epoch b now) ≤ 1)
      × (w.book_id ≡ b.cfg.book_id)
      × (elect_proposer (addresses b.cfg) w.epoch ≡ some w.proposer)
      × (recover_signer c (batch_digest c w.book_id w.batch_nonce w.fills_hash b.domain)
            (bytes_or_empty (c.hex_decode (trim_0x w.proposer_sig)))
          ≡ some w.proposer)

  authenticate-ok :
      (now : ℕ) (w : WireProposal) (b : Clob) (i : Instrument)
      → authenticate c now w b ≡ ok i
      → IsAuthentic now w b × (instrument b w.instrument_id ≡ some i)
  unfolding authenticate
  authenticate-ok now w b i h = elim (Bool-cases (ltb 1 (abs_diff w.epoch (current_epoch b now)))) [
    | inl e ↦ cc (rw (e, authenticate) at h)
    | inr e ↦ elim (Bool-cases (w.book_id == b.cfg.book_id)) [
      | inr f ↦ cc (rw (e, f, authenticate) at h)
      | inl f ↦
          elim (Bool-cases (is_signer c (elect_proposer (addresses b.cfg) w.epoch) w.proposer)) [
            | inr g ↦ cc (rw (e, f, g, authenticate) at h)
            | inl g ↦ elim (Bool-cases (is_signer c claimant w.proposer)) [
              | inr k ↦ cc (rw (e, f, g, k, authenticate) at h)
              | inl k ↦ elim (Option-cases (instrument b w.instrument_id)) [
                | inl m ↦ cc (rw (e, f, g, k, m, authenticate) at h)
                | inr (j, m) ↦ (
                  (
                    ground arith,
                    (==_iff w.book_id b.cfg.book_id).0 f,
                    is_signer-some c _ w.proposer g,
                    is_signer-some c _ w.proposer k,
                  ),
                  cc (rw (e, f, g, k, m, authenticate) at h, m),
                )
              ]
            ]
          ]
    ]
  ]
    where
      claimant : Option Address
      claimant =
          recover_signer c (batch_digest c w.book_id w.batch_nonce w.fills_hash b.domain)
            (bytes_or_empty (c.hex_decode (trim_0x w.proposer_sig)))

  -- The verdict to sign was reached, and no order is cancelled.
  answer-ok :
      (now : ℕ) (w : WireProposal) (v : Verdict) (b : Clob) (a : WireAttestation)
      → (answer c now w v b).1 ≡ ok a
      → ((d : B256) × (batch : EpochBatch) × (v ≡ sign d batch)
          × (a ≡ record { attester = b.signer.address; signature = sign_digest c b.signer d }))
        × All (IsUncancelled now b) w.orders
  unfolding answer
  answer-ok now w (sign d batch) b a h = elim (Option-cases (find_cancelled c now w.orders b).1) [
    | inr (o, e) ↦ cc (rw (e, answer) at h)
    | inl e ↦ ((d, batch, refl, cc (rw (e, answer) at h)), find_cancelled-none now w.orders b e)
  ]
  answer-ok now w (forged ds) b a h = cc
  answer-ok now w fills_hash_mismatch b a h = cc
  answer-ok now w (censored ds) b a h = cc
  answer-ok now w crashed b a h = cc

  -- What is known of a proposal that this node co-signs.
  pub record IsVouched (now : ℕ) (w : WireProposal) (b : Clob) (a : WireAttestation) : Type 0 where
    pub authentic : IsAuthentic now w b
    pub lasting : All (λ o. settlement_deadline b w.epoch ≤ o.order.expiry) w.orders
    pub uncancelled : All (IsUncancelled now b) w.orders
    pub i : Instrument
    pub listed : instrument b w.instrument_id ≡ some i
    pub d : B256
    pub batch : EpochBatch
    pub verified :
        verify_proposal c
          (proposal_of w)
          (snapshot now w.instrument_id w.epoch b).1
          i.tick_size
          i.min_qty
          b.domain
        ≡ sign d batch
    pub replied : a ≡ record { attester = b.signer.address; signature = sign_digest c b.signer d }

  -- A peer co-signs only a proposal of the current epoch or one beside it, of its own book, whose
  -- elected proposer signed the claimed digest, of an instrument it lists, all of whose orders
  -- outlast the settlement deadline and none of which it knows as cancelled, and that passes
  -- `verify_proposal` against its own snapshot; it then signs the verdict's digest.
  pub attest-IsVouched :
      (now : ℕ) (w : WireProposal) (b : Clob) (a : WireAttestation)
      → (attest c now w b).1 ≡ ok a
      → IsVouched now w b a
  unfolding attest co_sign snapshot
  attest-IsVouched now w b a h = elim (Result-cases (authenticate c now w b)) [
    | inr (inl (x, e)) ↦ cc (rw (e, attest) at h)
    | inr (inr e) ↦ cc (rw (e, attest) at h)
    | inl (i, e) ↦ elim (Option-cases (find_expiring (settlement_deadline b w.epoch) w.orders)) [
      | inr (o, f) ↦ cc (rw (e, f, attest) at h)
      | inl f ↦
          let (auth, listed) = authenticate-ok now w b i e in
          let ((d, batch, v, r), free) = answer-ok now w _ _ a (rw (e, f, attest, co_sign) at h) in
          record {
            authentic = auth;
            lasting = find_expiring-none (settlement_deadline b w.epoch) w.orders f;
            uncancelled = free;
            i = i;
            listed = listed;
            d = d;
            batch = batch;
            verified = v;
            replied = r;
          }
    ]
  ]
