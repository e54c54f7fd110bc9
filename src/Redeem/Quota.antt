-- ===== src/Redeem/Quota.antt =====
-- operator/src/redeem.rs: the count and the used authorizations of a redemption, by the text of its id.
use inference_bazaar.Base.{
  ℕ, ◌+◌, ◌-◌, ◌^◌, ◌≤◌, ◌<◌, ◌≡◌, ◌≢◌, min, refl, ap, ◌∙◌, subst, arith, String, List, ◌∷◌, Option,
  some, true, false, inl, inr, ◌==◌, ok, err, Bool-cases, Option-cases, Result-cases, eq_of_ok,
  ==_iff,
}
use inference_bazaar.Base.Names.{find_name, find-put, find-put-other}
use inference_bazaar.Settlement.Types.{B256, Crypto}
use inference_bazaar.Settlement.Core.{work_commitment}
use inference_bazaar.Clob.Types.{add_u64}
use inference_bazaar.Venue.Types.{SettleCtx}
use inference_bazaar.Redeem.Vetting.{IsAuthorized, vet_serve-IsAuthorized}
use inference_bazaar.Redeem.{
  RedeemServeBody, RedeemProgress, RedeemState, Redemption, ServedModel, Completion, unreachable,
  failed, completed, auth_used, or_fresh, progress_of, with_progress, persist_redeem, is_used,
  reserve, record_progress, usage_for, Served, Vetted, serve_cap, vet_serve, conclude, serve_vetted,
  can_submit, redeem_serve, output_hash,
}

persist-progress : (s : RedeemState) → (persist_redeem s).progress ≡ s.progress
unfolding persist_redeem
persist-progress s = elim (Option-cases s.file) [
  | inl e ↦ rw (e, persist_redeem) refl
  | inr (j, e) ↦ rw (e, persist_redeem) refl
]

progress-put :
    (id : String) (p : RedeemProgress) (s : RedeemState) → progress_of id (with_progress id p s) ≡ p
progress-put id p s = ap or_fresh (find-put id p s.progress)

progress-put-other :
    (j id : String) (p : RedeemProgress) (s : RedeemState)
    → j ≢ id
    → progress_of j (with_progress id p s) ≡ progress_of j s
progress-put-other j id p s n = ap or_fresh (find-put-other j id p s.progress n)

persist-progress_of :
    (id : String) (s : RedeemState) → progress_of id (persist_redeem s) ≡ progress_of id s
persist-progress_of id s = ap (λ m. or_fresh (find_name id m)) (persist-progress s)

progress-record :
    (now : ℕ) (id : String) (total : ℕ) (work : B256) (s : RedeemState)
    → progress_of id (record_progress now id total work s)
      ≡ record (progress_of id s) { served = total; work = some work; served_at = now }
unfolding record_progress
progress-record now id total work s =
    persist-progress_of id (with_progress id p s) ∙ progress-put id p s
  where
    p : RedeemProgress
    p = record (progress_of id s) { served = total; work = some work; served_at = now }

keeps_other :
    (j id : String) (p : RedeemProgress) (s : RedeemState)
    → j ≢ id
    → progress_of j (persist_redeem (with_progress id p s)) ≡ progress_of j s
keeps_other j id p s n =
    persist-progress_of j (with_progress id p s) ∙ progress-put-other j id p s n

module _ (c : Crypto) (now : ℕ) (body : RedeemServeBody) (v : Vetted) where
  abbrev key : String
  key = body.redemption_id

  -- What a request that was served has done.
  pub record IsServedOnce (s s' : RedeemState) (r : Served) : Type 0 where
    pub unused : is_used v.digest (progress_of key s) ≡ false
    pub summed : r.total ≡ (progress_of key s).served + r.served_now
    pub within : r.total ≤ v.redemption.qty_tokens
    pub billed : r.served_now ≤ r.used
    pub recorded : (progress_of key s').served ≡ r.total
    pub consumed : is_used v.digest (progress_of key s') ≡ true
    pub others : (j : String) → j ≢ key → progress_of j s' ≡ progress_of j s

  -- The state in which the backend is asked.
  abbrev reserved : RedeemState → RedeemState
  reserved s = persist_redeem (
      with_progress key
        (record (progress_of key s) { used_auths = v.digest ∷ (progress_of key s).used_auths }) s)

  reserved-progress :
      (s : RedeemState)
      → progress_of key (reserved s)
        ≡ record (progress_of key s) { used_auths = v.digest ∷ (progress_of key s).used_auths }
  reserved-progress s = persist-progress_of key _ ∙ progress-put key _ s

  conclude-IsServedOnce :
      (a : Completion) (s : RedeemState) (r : Served)
      → v.redemption.qty_tokens < 2 ^ 64
      → is_used v.digest (progress_of key s) ≡ false
      → (v.redemption.qty_tokens - (progress_of key s).served == 0) ≡ false
      → (conclude c now key v (progress_of key s).served a (reserved s)).1 ≡ ok r
      → IsServedOnce s (conclude c now key v (progress_of key s).served a (reserved s)).0 r
  unfolding conclude record_progress
  conclude-IsServedOnce unreachable s r w u z h = cc
  conclude-IsServedOnce failed s r w u z h = cc
  conclude-IsServedOnce (completed contents p q) s r w u z h =
      subst (IsServedOnce s (conclude c now key v already (completed contents p q) (reserved s)).0)
        (eq_of_ok h)
        (record {
          unused = u;
          summed = ground arith;
          within = ground arith;
          billed = ground arith;
          recorded = ap (λ x. x.served) after;
          consumed =
              ap (is_used v.digest) after
              ∙ ap (is_used v.digest) (reserved-progress s)
              ∙ used_first;
          others =
              λ j n. keeps_other j key now_served (reserved s) n ∙ keeps_other j key now_used s n;
        })
    where
      already : ℕ
      already = (progress_of key s).served

      total : ℕ
      total = add_u64 already (min (usage_for v.model p q) (v.redemption.qty_tokens - already))

      work : B256
      work =
          work_commitment c (c.keccak256 (c.as_bytes v.model.model_id)) v.messages_hash
            (output_hash c contents)

      now_used : RedeemProgress
      now_used = record (progress_of key s) {
        used_auths = v.digest ∷ (progress_of key s).used_auths;
      }

      now_served : RedeemProgress
      now_served = record (progress_of key (reserved s)) {
        served = total;
        work = some work;
        served_at = now;
      }

      used_first : is_used v.digest now_used ≡ true
      used_first = rw ((==_iff v.digest v.digest).1 refl) refl

      after : progress_of key (record_progress now key total work (reserved s)) ≡ now_served
      after = progress-record now key total work (reserved s)

  reserve-unused :
      (s : RedeemState)
      → is_used v.digest (progress_of key s) ≡ false
      → reserve key v.digest s ≡ (
        with_progress key
            (record (progress_of key s) { used_auths = v.digest ∷ (progress_of key s).used_auths })
            s,
        ok (progress_of key s).served,
      )
  unfolding reserve
  reserve-unused s u = rw (u) refl

  reserve-used :
      (s : RedeemState)
      → is_used v.digest (progress_of key s) ≡ true
      → reserve key v.digest s ≡ (s, err auth_used)
  unfolding reserve
  reserve-used s u = rw (u) refl

  serve_vetted-IsServedOnce :
      (backend : ServedModel → String → ℕ → Completion) (s : RedeemState) (r : Served)
      → v.redemption.qty_tokens < 2 ^ 64
      → (serve_vetted c now body v backend s).1 ≡ ok r
      → IsServedOnce s (serve_vetted c now body v backend s).0 r
  unfolding serve_vetted
  serve_vetted-IsServedOnce backend s r w h =
      elim (Bool-cases (is_used v.digest (progress_of key s))) [
        | inl u ↦ cc (rw (serve_vetted, reserve-used s u) at h)
        | inr u ↦ elim (Bool-cases (v.redemption.qty_tokens - (progress_of key s).served == 0)) [
          | inl z ↦ cc (rw (serve_vetted, reserve-unused s u, reserve-unused s u, z) at h)
          | inr z ↦
              rw (serve_vetted, reserve-unused s u, reserve-unused s u, z)
                (conclude-IsServedOnce (backend v.model body.messages (serve_cap body.max_tokens)) s
                  r w u z (rw (serve_vetted, reserve-unused s u, reserve-unused s u, z) at h))
        ]
      ]

-- A request that is answered, when no other of the redemption is served meanwhile, has passed every
-- check; its authorization was not among those used under the text of its redemption id, and is then;
-- what is served under that text is then what was and the tokens of this request, and no more than
-- the redemption's quantity; other texts keep what they have, be they spellings of the same id. The
-- amounts of the redemptions that the chain knows fit into 64 bits.
pub redeem_serve-IsServed :
    (c : Crypto)
    → (now : ℕ) → (settle : Option SettleCtx) → (models : List ServedModel)
    → (parse : String → Option B256) (get_redemption : B256 → Option Redemption)
    → (backend : ServedModel → String → ℕ → Completion) → (body : RedeemServeBody)
    → (s : RedeemState) → (r : Served)
    → ((id : B256) (x : Redemption) → get_redemption id ≡ some x → x.qty_tokens < 2 ^ 64)
    → (redeem_serve c now settle models parse get_redemption backend body s).1 ≡ ok r
    → (v : Vetted) × IsAuthorized c now settle models parse get_redemption body v
      × IsServedOnce c now body v s
          (redeem_serve c now settle models parse get_redemption backend body s).0
          r
unfolding redeem_serve
redeem_serve-IsServed c now settle models parse get_redemption backend body s r w h =
    elim (Option-cases settle) [
      | inl e ↦ cc (rw (e, redeem_serve) at h)
      | inr (ctx, e) ↦ elim (Bool-cases (can_submit c ctx)) [
        | inr f ↦ cc (rw (e, f, redeem_serve) at h)
        | inl f ↦ elim (Result-cases (vet_serve c now ctx models parse get_redemption body)) [
          | inl (v, g) ↦
              let a =
                vet_serve-IsAuthorized c now settle models parse get_redemption body ctx v e g in
              (
                v,
                a,
                rw (e, f, g, redeem_serve)
                    (serve_vetted-IsServedOnce c now body v backend s r
                      (w a.rid v.redemption a.known) (rw (e, f, g, redeem_serve) at h)),
              )
          | inr (inl (x, g)) ↦ cc (rw (e, f, g, redeem_serve) at h)
          | inr (inr g) ↦ cc (rw (e, f, g, redeem_serve) at h)
        ]
      ]
    ]
