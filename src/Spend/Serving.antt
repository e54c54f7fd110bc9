-- ===== src/Spend/Serving.antt =====
-- operator/src/spend.rs: whole requests, requests that overlap, and trailing vouchers.
use inference_bazaar.Base.{
  ℕ, ◌+◌, ◌-◌, ◌≤◌, ◌≡◌, min, arith, refl, subst, sym, ap, ◌∙◌, Option, some, Bool, true, false,
  inl, inr, ltb, ok, Bool-cases, Result-cases, if◌then◌else◌,
}
use inference_bazaar.Base.Maps.{lookup, lookup-insert_key}
use inference_bazaar.Settlement.Types.{Address, Crypto}
use inference_bazaar.Venue.Types.{SettleCtx}
use inference_bazaar.Spend.Types.{
  StoredPermit, SpendJournal, VoucherHeader, ChatBody, Upstream, completed, usage_of,
}
use inference_bazaar.Spend.Serve.{
  served_of, voucher_of, open_channel, authorize, meter, complete, ack, advance, advance_past,
  or_zero,
}
use inference_bazaar.Spend.Channel.{
  IsVoucherFor, open_channel-ok, IsGranted, authorize-IsGranted, meter-within, served-recorded,
}

-- The state and the reply of a call.
pair_of : {A B : Type 0} (r : A × B) (b : B) → r.1 ≡ b → r ≡ (r.0, b)
pair_of r b h = λ i. (r.0, h i)

not_ltb : (a b : ℕ) → ltb a b ≡ false → b ≤ a
not_ltb a b h = ground arith

module _ (c : Crypto) where
  -- A request that is served: it was granted, what it used is added to what was served, the sum
  -- stays within the permit, and the journal has it.
  pub record IsServed (now : ℕ) (ctx : SettleCtx) (v : VoucherHeader) (j j' : SpendJournal)
      (used total : ℕ) : Type 0 where
    pub p : StoredPermit
    pub cap : ℕ
    pub middle : SpendJournal
    pub granted : IsGranted c now ctx v j middle p (served_of v.session_key j) cap
    pub added : total ≡ served_of v.session_key j + used
    pub within : total ≤ p.max_tokens
    pub metered : served_of p.session_key j' ≡ total

  -- A buffered completion that is served alone passed the gate of its channel; what it is metered
  -- for is added to what was served before, and never exceeds the permit.
  pub complete-IsServed :
      (now : ℕ) (ctx : SettleCtx) (v : VoucherHeader) (body : ChatBody) (backend : ℕ → Upstream)
      (j : SpendJournal) (used total : ℕ)
      → (complete c now (some ctx) v body backend j).1 ≡ ok (used, total)
      → IsServed now ctx v j (complete c now (some ctx) v body backend j).0 used total
  unfolding complete
  complete-IsServed now ctx v body backend j used total h =
      let a = authorize c now (some ctx) v body j in
      elim (Result-cases a.1) [
        | inr (inl (x, e)) ↦ cc (rw (e, complete) at h)
        | inr (inr e) ↦ cc (rw (e, complete) at h)
        | inl ((p, (s, cap)), e) ↦
            let g = authorize-IsGranted c now ctx v body j a.0 p s cap (pair_of a _ e) in
            let le : s ≤ p.max_tokens = omega (arith, g.fits) in
            let (added, within, metered) =
              meter-within c p s used total (backend cap) a.0 (rw (e, complete) at h) le in
            record {
              p = p;
              cap = cap;
              middle = a.0;
              granted = subst (λ n. IsGranted c now ctx v j a.0 p n cap) g.counted g;
              added = added ∙ ap (λ n. n + used) g.counted;
              within = within;
              metered = rw (e, complete) metered;
            }
      ]

  -- Granting a request changes no counter.
  authorize-served :
      (now : ℕ) (ctx : SettleCtx) (v : VoucherHeader) (body : ChatBody) (j j' : SpendJournal)
      (p : StoredPermit) (s cap : ℕ)
      → authorize c now (some ctx) v body j ≡ (j', ok (p, (s, cap)))
      → (j'.served ≡ j.served) × (j'.permits ≡ j.permits)
  unfolding advance
  authorize-served now ctx v body j j' p s cap h =
      let g = authorize-IsGranted c now ctx v body j j' p s cap h in
      (
        ap (λ (x : SpendJournal). x.served) g.advanced,
        ap (λ (x : SpendJournal). x.permits) g.advanced,
      )

  -- Two requests on one channel that overlap, the second granted before the first is metered: both
  -- are granted on the same count of served tokens, and when both have been metered the journal
  -- counts the second one only.
  pub meter-overlapping :
      (now later : ℕ) (ctx : SettleCtx) (v w : VoucherHeader) (body other : ChatBody)
      (j j1 j2 : SpendJournal) (p q : StoredPermit) (s t cap cap' : ℕ) (a b a' b' : Option ℕ)
      → authorize c now (some ctx) v body j ≡ (j1, ok (p, (s, cap)))
      → authorize c later (some ctx) w other j1 ≡ (j2, ok (q, (t, cap')))
      → w.session_key ≡ v.session_key
      → (t ≡ s)
        × (served_of q.session_key
              (meter c q t (completed a' b') (meter c p s (completed a b) j2).0).0
            ≡ s + min (or_zero (usage_of q a' b')) (q.max_tokens - s))
  unfolding meter
  meter-overlapping now later ctx v w body other j j1 j2 p q s t cap cap' a b a' b' h k e =
      let g = authorize-IsGranted c now ctx v body j j1 p s cap h in
      let g' = authorize-IsGranted c later ctx w other j1 j2 q t cap' k in
      let unchanged = authorize-served now ctx v body j j1 p s cap h in
      let same : t ≡ s =
        g'.counted
        ∙ (ap (λ n. served_of n j1) e
            ∙ (ap (λ m. or_zero (lookup v.session_key m)) unchanged.0 ∙ sym g.counted)) in
      (
        same,
        served-recorded c q.session_key _ (meter c p s (completed a b) j2).0
            ∙ ap (λ n. n + min (or_zero (usage_of q a' b')) (q.max_tokens - n)) same,
      )

  -- The tokens that the stored voucher acknowledges.
  abbrev pub acknowledged : Address → SpendJournal → ℕ
  acknowledged key j = (voucher_of (lookup key j.voucher)).0

  advance_past-acknowledged :
      (key : ℕ) (v : VoucherHeader) (j : SpendJournal)
      → acknowledged key (advance_past key v j)
        ≡ (if ltb (acknowledged key j) v.cumulative then v.cumulative else acknowledged key j)
  unfolding advance_past
  advance_past-acknowledged key v j =
      ap (λ o. (voucher_of o).0) (lookup-insert_key key _ j.voucher)
      ∙ first_of (ltb (acknowledged key j) v.cumulative)
    where
      first_of :
          (b : Bool)
          → (if b then (v.cumulative, v.signature) else voucher_of (lookup key j.voucher)).0
            ≡ (if b then v.cumulative else acknowledged key j)
      first_of true = refl
      first_of false = refl

  larger :
      (a b : ℕ)
      → (b ≤ (if ltb a b then b else a))
        × (a ≤ (if ltb a b then b else a))
        × ((n : ℕ) → b ≤ n → a ≤ n → (if ltb a b then b else a) ≤ n)
  larger a b = elim (Bool-cases (ltb a b)) [
    | inl e ↦ rw (e) (omega arith, ground arith, λ n le le'. le)
    | inr e ↦ rw (e) (ground arith, omega arith, λ n le le'. le')
  ]

  -- The stored voucher covers the new one, is no lower than before, and stays below any bound of
  -- both.
  advance_past-covers :
      (key : ℕ) (v : VoucherHeader) (j : SpendJournal)
      → (v.cumulative ≤ acknowledged key (advance_past key v j))
        × (acknowledged key j ≤ acknowledged key (advance_past key v j))
        × ((n : ℕ)
            → v.cumulative ≤ n
            → acknowledged key j ≤ n
            → acknowledged key (advance_past key v j) ≤ n)
  advance_past-covers key v j =
      subst
        (λ x.
          (v.cumulative ≤ x)
          × (acknowledged key j ≤ x)
          × ((n : ℕ) → v.cumulative ≤ n → acknowledged key j ≤ n → x ≤ n))
        (sym (advance_past-acknowledged key v j)) (larger (acknowledged key j) v.cumulative)

  -- What an accepted trailing voucher leaves.
  pub record IsAcked (ctx : SettleCtx) (v : VoucherHeader) (j j' : SpendJournal) (n : ℕ)
      : Type 0 where
    pub p : StoredPermit
    pub vouched : IsVoucherFor c ctx v j p
    pub same : n ≡ v.cumulative
    pub within : n ≤ served_of v.session_key j
    pub covered : n ≤ acknowledged p.session_key j'
    pub grows : acknowledged p.session_key j ≤ acknowledged p.session_key j'
    pub behind :
        acknowledged p.session_key j ≤ served_of v.session_key j
        → acknowledged p.session_key j' ≤ served_of v.session_key j

  -- A trailing voucher that is accepted was signed by the channel's key and acknowledges no more
  -- than was served; the stored voucher then covers it, is no lower than before, and is not ahead
  -- of what was served if it was not before.
  pub ack-IsAcked :
      (ctx : SettleCtx) (v : VoucherHeader) (j j' : SpendJournal) (n : ℕ)
      → ack c (some ctx) v j ≡ (j', ok n)
      → IsAcked ctx v j j' n
  unfolding ack
  ack-IsAcked ctx v j j' n h = elim (Result-cases (open_channel c (some ctx) v j)) [
    | inr (inl (x, e)) ↦ cc (rw (e, ack) at h)
    | inr (inr e) ↦ cc (rw (e, ack) at h)
    | inl (p, e) ↦ elim (Bool-cases (ltb (served_of v.session_key j) v.cumulative)) [
      | inl f ↦ cc (rw (e, f, ack) at h)
      | inr f ↦
          let h' = rw (e, f, ack) at h in
          let state : advance_past p.session_key v j ≡ j' = ap (λ r. r.0) h' in
          let number : v.cumulative ≡ n = cc in
          let (over, up, bound) = advance_past-covers p.session_key v j in
          let within = not_ltb (served_of v.session_key j) v.cumulative f in
          subst (λ x. IsAcked ctx v j x n) state
            (record {
              p = p;
              vouched = open_channel-ok c ctx v j p e;
              same = sym number;
              within = omega (arith, number, within);
              covered = omega (arith, number, over);
              grows = up;
              behind = bound (served_of v.session_key j) within;
            })
    ]
  ]
