-- ===== src/Spend/Channel.antt =====
-- operator/src/spend.rs: what an authorized request, a completion and a trailing voucher guarantee.
use inference_bazaar.Base.{
  ℕ, ◌+◌, ◌-◌, ◌≤◌, ◌<◌, ◌≡◌, min, arith, refl, subst, sym, ap, ◌∙◌, List, Option, some, true, inl,
  inr, ltb, leb, String, ◌⊎◌, ◌==◌, Result, ok, ◌>>◌, Bool-cases, Option-cases, Result-cases,
}
use inference_bazaar.Base.Maps.{lookup}
use inference_bazaar.Base.Text.{trim_0x}
use inference_bazaar.Settlement.Types.{Address, Crypto}
use inference_bazaar.Settlement.Core.{recover_signer, is_signer}
use inference_bazaar.Clob.Types.{add_u64}
use inference_bazaar.Clob.Attests.{is_signer-some}
use inference_bazaar.Venue.Types.{SettleCtx}
use inference_bazaar.Spend.Types.{
  StoredPermit, SpendJournal, VoucherHeader, ChatBody, SpendError, Upstream, completed, unreachable,
  failed, spend_voucher_digest, spend_expiry_margin_secs, usage_of,
}
use inference_bazaar.Spend.Serve.{
  voucher_of, served_of, open_channel, gate, authorize, meter, advance, cap_of, record_served,
  or_zero,
}

module _ (c : Crypto) where
  -- The channel's own key signed the voucher, within the cap.
  pub record IsVoucherFor (ctx : SettleCtx) (v : VoucherHeader) (j : SpendJournal)
      (p : StoredPermit) : Type 0 where
    pub known : lookup v.session_key j.permits ≡ some p
    pub sig : List ℕ
    pub decoded : c.hex_decode (trim_0x v.signature) ≡ some sig
    pub recovers :
        recover_signer c
          (spend_voucher_digest c ctx.domain.chain_id ctx.contract p.lot_id p.session_key
            v.cumulative)
          sig
        ≡ some p.session_key
    pub capped : v.cumulative ≤ p.max_tokens

  pub open_channel-ok :
      (ctx : SettleCtx) (v : VoucherHeader) (j : SpendJournal) (p : StoredPermit)
      → open_channel c (some ctx) v j ≡ ok p
      → IsVoucherFor ctx v j p
  unfolding open_channel
  open_channel-ok ctx v j p h = elim (Option-cases (lookup v.session_key j.permits)) [
    | inl e ↦ cc (rw (e, open_channel) at h)
    | inr (q, e) ↦ elim (Option-cases (c.hex_decode (trim_0x v.signature))) [
      | inl f ↦ cc (rw (e, f, open_channel) at h)
      | inr (sig, f) ↦ elim (Bool-cases (is_signer c (signer q sig) q.session_key)) [
        | inr g ↦ cc (rw (e, f, g, open_channel) at h)
        | inl g ↦ elim (Bool-cases (ltb q.max_tokens v.cumulative)) [
          | inl k ↦ cc (rw (e, f, g, k, open_channel) at h)
          | inr k ↦
              let same : q ≡ p = cc (rw (e, f, g, k, open_channel) at h) in
              subst (IsVoucherFor ctx v j) same (record {
                known = e;
                sig = sig;
                decoded = f;
                recovers = is_signer-some c _ q.session_key g;
                capped = ground arith;
              })
        ]
      ]
    ]
  ]
    where
      signer : StoredPermit → List ℕ → Option Address
      signer q sig =
          recover_signer c
            (spend_voucher_digest c ctx.domain.chain_id ctx.contract q.lot_id q.session_key
              v.cumulative)
            sig

  abbrev pub IsOpen : ℕ → VoucherHeader → SpendJournal → StoredPermit → Type 0
  IsOpen now v j p =
      (served_of v.session_key j ≤ v.cumulative)
      × (add_u64 now spend_expiry_margin_secs ≤ p.expiry)
      × (served_of v.session_key j < p.max_tokens)

  gate-ok :
      (now : ℕ) (v : VoucherHeader) (body : ChatBody) (j : SpendJournal) (p : StoredPermit)
      → (gate c now v body j p >> ok p) ≡ ok p
      → IsOpen now v j p
  unfolding gate
  gate-ok now v body j p h = elim (Bool-cases (ltb v.cumulative (served_of v.session_key j))) [
    | inl e ↦ cc (rw (e, gate) at h)
    | inr e ↦ elim (Bool-cases (ltb p.expiry (add_u64 now spend_expiry_margin_secs))) [
      | inl f ↦ cc (rw (e, f, gate) at h)
      | inr f ↦ elim (Bool-cases ((p.max_tokens - served_of v.session_key j) == 0)) [
        | inl g ↦ cc (rw (e, f, g, gate) at h)
        | inr g ↦ (ground arith, ground arith, ground arith)
      ]
    ]
  ]

  cap_of-le : (body : ChatBody) (remaining : ℕ) → cap_of body remaining ≤ remaining
  unfolding cap_of
  cap_of-le body remaining = ground arith

  -- The channel's entry in the journal acknowledges as much as the voucher and as the entry before;
  -- it is one of the two.
  pub record IsKept (key : Address) (v : VoucherHeader) (j j' : SpendJournal) : Type 0 where
    pub entry : ℕ × String
    pub found : lookup key j'.voucher ≡ some entry
    pub covers : v.cumulative ≤ entry.0
    pub grows : (voucher_of (lookup key j.voucher)).0 ≤ entry.0
    pub either : (entry ≡ (v.cumulative, v.signature)) ⊎ (entry ≡ voucher_of (lookup key j.voucher))

  advance-IsKept :
      (key : Address) (v : VoucherHeader) (j : SpendJournal) → IsKept key v j (advance key v j)
  unfolding advance
  advance-IsKept key v j =
      let old = voucher_of (lookup key j.voucher) in
      let own : (key == key) ≡ true = ground arith in
      elim (Bool-cases (leb old.0 v.cumulative)) [
        | inl e ↦ record {
          entry = (v.cumulative, v.signature);
          found = rw (own, e) refl;
          covers = omega arith;
          grows = ground arith;
          either = inl refl;
        }
        | inr e ↦ record {
          entry = old;
          found = rw (own, e) refl;
          covers = ground arith;
          grows = omega arith;
          either = inr refl;
        }
      ]

  -- What holds when a request is authorized: for the channel, the voucher, the gate, the cap, and
  -- the journal that is left.
  pub record IsGranted (now : ℕ) (ctx : SettleCtx) (v : VoucherHeader) (j j' : SpendJournal)
      (p : StoredPermit) (already_served cap : ℕ) : Type 0 where
    pub vouched : IsVoucherFor ctx v j p
    pub open_now : IsOpen now v j p
    pub counted : already_served ≡ served_of v.session_key j
    pub fits : already_served + cap ≤ p.max_tokens
    pub kept : IsKept p.session_key v j j'
    pub advanced : j' ≡ advance p.session_key v j

  granted-IsGranted :
      (now : ℕ) (ctx : SettleCtx) (v : VoucherHeader) (body : ChatBody) (j j' : SpendJournal)
      (q p : StoredPermit) (s cap : ℕ)
      → open_channel c (some ctx) v j ≡ ok q
      → (gate c now v body j q >> ok q) ≡ ok q
      → advance q.session_key v j ≡ j'
      → ◌≡◌ {A = Result SpendError (StoredPermit × (ℕ × ℕ))}
          (ok (
            q,
            (served_of v.session_key j, cap_of body (q.max_tokens - served_of v.session_key j)),
          ))
          (ok (p, (s, cap)))
      → IsGranted now ctx v j j' p s cap
  unfolding advance
  granted-IsGranted now ctx v body j j' q p s cap e g k h =
      let same : q ≡ p = cc in
      let counted : served_of v.session_key j ≡ s = cc in
      let capped : cap_of body (q.max_tokens - served_of v.session_key j) ≡ cap = cc in
      let le = cap_of-le body (q.max_tokens - served_of v.session_key j) in
      let room : served_of v.session_key j < q.max_tokens = (gate-ok now v body j q g).2 in
      record {
        vouched = subst (IsVoucherFor ctx v j) same (open_channel-ok ctx v j q e);
        open_now = subst (IsOpen now v j) same (gate-ok now v body j q g);
        counted = sym counted;
        fits =
            subst (λ (x : StoredPermit). s + cap ≤ x.max_tokens) same
              (omega (arith, counted, capped, le, room));
        kept =
            subst (λ (x : StoredPermit). IsKept x.session_key v j j') same
              (subst (IsKept q.session_key v j) k (advance-IsKept q.session_key v j));
        advanced = sym k ∙ ap (λ (x : StoredPermit). advance x.session_key v j) same;
      }

  -- A request is authorized only on a voucher that the channel's own key signed, that acknowledges
  -- all that was served and stays within the permit's cap, before the permit expires by the margin;
  -- what was served and the cap of the request stay within the permit together; and the channel's
  -- entry in the journal is then the voucher, or the one that was stored when that acknowledges
  -- more.
  pub authorize-IsGranted :
      (now : ℕ) (ctx : SettleCtx) (v : VoucherHeader) (body : ChatBody) (j j' : SpendJournal)
      (p : StoredPermit) (already_served cap : ℕ)
      → authorize c now (some ctx) v body j ≡ (j', ok (p, (already_served, cap)))
      → IsGranted now ctx v j j' p already_served cap
  unfolding authorize
  authorize-IsGranted now ctx v body j j' p s cap h =
      elim (Result-cases (open_channel c (some ctx) v j)) [
        | inr (inl (x, e)) ↦ cc (rw (e, authorize) at h)
        | inr (inr e) ↦ cc (rw (e, authorize) at h)
        | inl (q, e) ↦ elim (Result-cases (gate c now v body j q)) [
          | inr (inl (x, f)) ↦ cc (rw (e, f, authorize) at h)
          | inr (inr f) ↦ cc (rw (e, f, authorize) at h)
          | inl (u, f) ↦
              let h' = rw (e, f, authorize) at h in
              granted-IsGranted now ctx v body j j' q p s cap e (rw (f) refl) (ap (λ r. r.0) h')
                (ap (λ r. r.1) h')
        ]
      ]

  pub served-recorded : (key n : ℕ) (j : SpendJournal) → served_of key (record_served key n j) ≡ n
  unfolding record_served
  served-recorded key n j = let same : (key == key) ≡ true = ground arith in rw (same) refl

  -- Metering an authorized request counts what the backend reports, up to what the permit leaves.
  pub meter-within :
      (p : StoredPermit) (s used total : ℕ) (u : Upstream) (j : SpendJournal)
      → (meter c p s u j).1 ≡ ok (used, total)
      → s ≤ p.max_tokens
      → (total ≡ s + used)
        × (total ≤ p.max_tokens)
        × (served_of p.session_key (meter c p s u j).0 ≡ total)
  unfolding meter
  meter-within p s used total unreachable j h le = cc
  meter-within p s used total failed j h le = cc
  meter-within p s used total (completed a b) j h le =
      let n = min (or_zero (usage_of p a b)) (p.max_tokens - s) in
      let bounded : n ≤ p.max_tokens - s = ground arith in
      let e : n ≡ used = cc in
      let f : s + n ≡ total = cc in
      (
        omega (arith, e, f),
        omega (arith, bounded, f, le),
        served-recorded p.session_key (s + n) j ∙ f,
      )
