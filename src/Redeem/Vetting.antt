-- ===== src/Redeem/Vetting.antt =====
-- operator/src/redeem.rs: what a request that is served has shown.
use inference_bazaar.Base.{
  ℕ, ◌≤◌, ◌≡◌, sym, subst, ap, ◌∙◌, arith, String, List, Option, some, true, false, inl, inr, ltb,
  ◌==◌, ok, Bool-cases, Option-cases, eq_of_ok, ==_iff,
}
use inference_bazaar.Base.Text.{trim_0x}
use inference_bazaar.Settlement.Types.{B256, Address, Bytes, Crypto}
use inference_bazaar.Settlement.Core.{recover_signer}
use inference_bazaar.Clob.Types.{add_u64}
use inference_bazaar.Venue.Types.{SettleCtx}
use inference_bazaar.Venue.Rfq.{operator_of}
use inference_bazaar.Redeem.{
  RedeemServeBody, Redemption, ServedModel, Lot, Vetted, asked_tokens, serve_digest, find_model,
  vet_redemption, vet_serve,
}

module _ (c : Crypto) (now : ℕ) (me : Option Address) (models : List ServedModel) where
  -- An open redemption of the signer, of a lot that we issued.
  pub record IsOurs (signer : Address) (r : Redemption) (v : Vetted) : Type 0 where
    pub opened : r.state ≡ 1
    pub in_time : now ≤ r.deadline
    pub held : signer ≡ r.holder
    pub lot : Lot
    pub of_lot : r.lot ≡ some lot
    pub issued : me ≡ some lot.issuer
    pub model : find_model c lot.instrument models ≡ some v.model

  vet_redemption-IsOurs :
      (signer : Address) (d hash : B256) (r : Redemption) (v : Vetted)
      → vet_redemption c now me models signer d hash r ≡ ok v
      → v.digest ≡ d × v.redemption ≡ r × IsOurs signer r v
  unfolding vet_redemption
  vet_redemption-IsOurs signer d hash r v h = elim (Bool-cases (r.state == 1)) [
    | inr e ↦ cc (rw (e, vet_redemption) at h)
    | inl e1 ↦ elim (Bool-cases (ltb r.deadline now)) [
      | inl e ↦ cc (rw (e1, e, vet_redemption) at h)
      | inr e2 ↦ elim (Bool-cases (signer == r.holder)) [
        | inr e ↦ cc (rw (e1, e2, e, vet_redemption) at h)
        | inl e3 ↦ elim (Option-cases r.lot) [
          | inl e ↦ cc (rw (e1, e2, e3, e, vet_redemption) at h)
          | inr (l, e4) ↦ elim (Option-cases me) [
            | inl e ↦ cc (rw (e1, e2, e3, e4, e, vet_redemption) at h)
            | inr (a, e5) ↦ elim (Bool-cases (l.issuer == a)) [
              | inr e ↦ cc (rw (e1, e2, e3, e4, e5, e, vet_redemption) at h)
              | inl e6 ↦ elim (Option-cases (find_model c l.instrument models)) [
                | inl e ↦ cc (rw (e1, e2, e3, e4, e5, e6, e, vet_redemption) at h)
                | inr (m, e7) ↦
                    ours a l m e1 e2 e3 e4 (e5 ∙ ap some (sym ((==_iff l.issuer a).0 e6))) e7
                      (eq_of_ok (rw (e1, e2, e3, e4, e5, e6, e7, vet_redemption) at h))
              ]
            ]
          ]
        ]
      ]
    ]
  ]
    where
      ours :
          (a : Address) (l : Lot) (m : ServedModel)
          → (r.state == 1) ≡ true
          → ltb r.deadline now ≡ false
          → (signer == r.holder) ≡ true
          → r.lot ≡ some l
          → me ≡ some l.issuer
          → find_model c l.instrument models ≡ some m
          → (record { digest = d; messages_hash = hash; redemption = r; model = m }) ≡ v
          → v.digest ≡ d × v.redemption ≡ r × IsOurs signer r v
      ours a l m e1 e2 e3 e4 e5 e7 e = (
        sym (ap (λ x. x.digest) e),
        sym (ap (λ x. x.redemption) e),
        record {
          opened = ground arith;
          in_time = ground arith;
          held = ground arith;
          lot = l;
          of_lot = e4;
          issued = e5;
          model = e7 ∙ ap (λ x. some x.model) e;
        },
      )

module _ (c : Crypto) (now : ℕ) (settle : Option SettleCtx) (models : List ServedModel)
    (parse : String → Option B256) (get_redemption : B256 → Option Redemption)
    (body : RedeemServeBody) where
  -- A request that the holder of an open redemption of ours has signed.
  pub record IsAuthorized (v : Vetted) : Type 0 where
    pub ctx : SettleCtx
    pub configured : settle ≡ some ctx
    pub rid : B256
    pub sig : Bytes
    pub signer : Address
    pub parsed : parse body.redemption_id ≡ some rid
    pub unexpired : now ≤ body.auth.expiry
    pub soon : body.auth.expiry ≤ add_u64 now 3_600
    pub decoded : c.hex_decode (trim_0x body.auth.signature) ≡ some sig
    pub signed : recover_signer c v.digest sig ≡ some signer
    pub of_request :
        v.digest
        ≡ serve_digest c ctx.domain.chain_id ctx.contract rid
            (c.keccak256 (c.as_bytes body.messages))
            (asked_tokens body.max_tokens)
            body.auth.expiry
    pub known : get_redemption rid ≡ some v.redemption
    pub ours : IsOurs c now (operator_of ctx) models signer v.redemption v

  pub vet_serve-IsAuthorized :
      (ctx : SettleCtx) (v : Vetted)
      → settle ≡ some ctx
      → vet_serve c now ctx models parse get_redemption body ≡ ok v
      → IsAuthorized v
  unfolding vet_serve
  vet_serve-IsAuthorized ctx v e0 h = elim (Option-cases (parse body.redemption_id)) [
    | inl e ↦ cc (rw (e, vet_serve) at h)
    | inr (rid, e1) ↦ elim (Bool-cases (ltb body.auth.expiry now)) [
      | inl e ↦ cc (rw (e1, e, vet_serve) at h)
      | inr e2 ↦ elim (Bool-cases (ltb (add_u64 now 3_600) body.auth.expiry)) [
        | inl e ↦ cc (rw (e1, e2, e, vet_serve) at h)
        | inr e3 ↦ elim (Option-cases (c.hex_decode (trim_0x body.auth.signature))) [
          | inl e ↦ cc (rw (e1, e2, e3, e, vet_serve) at h)
          | inr (sig, e4) ↦ elim (Option-cases (recover_signer c (asked ctx rid) sig)) [
            | inl e ↦ cc (rw (e1, e2, e3, e4, e, vet_serve) at h)
            | inr (signer, e5) ↦ elim (Option-cases (get_redemption rid)) [
              | inl e ↦ cc (rw (e1, e2, e3, e4, e5, e, vet_serve) at h)
              | inr (r, e6) ↦
                  authorized ctx v e0 rid sig signer r e1 e2 e3 e4 e5 e6
                    (rw (e1, e2, e3, e4, e5, e6, vet_serve) at h)
            ]
          ]
        ]
      ]
    ]
  ]
    where
      asked : SettleCtx → B256 → B256
      asked ctx rid =
          serve_digest c ctx.domain.chain_id ctx.contract rid
            (c.keccak256 (c.as_bytes body.messages)) (asked_tokens body.max_tokens) body.auth.expiry

      authorized :
          (ctx : SettleCtx) (v : Vetted)
          → settle ≡ some ctx
          → (rid : B256) (sig : Bytes) (signer : Address) (r : Redemption)
          → parse body.redemption_id ≡ some rid
          → ltb body.auth.expiry now ≡ false
          → ltb (add_u64 now 3_600) body.auth.expiry ≡ false
          → c.hex_decode (trim_0x body.auth.signature) ≡ some sig
          → recover_signer c (asked ctx rid) sig ≡ some signer
          → get_redemption rid ≡ some r
          → vet_redemption c now
              (operator_of ctx)
              models
              signer
              (asked ctx rid)
              (c.keccak256 (c.as_bytes body.messages))
              r
            ≡ ok v
          → IsAuthorized v
      authorized ctx v e0 rid sig signer r e1 e2 e3 e4 e5 e6 h =
          let (d, same, o) =
            vet_redemption-IsOurs c now (operator_of ctx) models signer (asked ctx rid)
              (c.keccak256 (c.as_bytes body.messages)) r v h in
          record {
            ctx = ctx;
            configured = e0;
            rid = rid;
            sig = sig;
            signer = signer;
            parsed = e1;
            unexpired = ground arith;
            soon = ground arith;
            decoded = e4;
            signed = subst (λ x. recover_signer c x sig ≡ some signer) (sym d) e5;
            of_request = d;
            known = e6 ∙ ap some (sym same);
            ours = subst (λ x. IsOurs c now (operator_of ctx) models signer x v) (sym same) o;
          }
