-- ===== src/Spend/Serve.antt =====
-- operator/src/spend.rs: the gate of a request, its metering, and the trailing voucher.
-- The journal is a map by session key; writing it to its file changes no state.
use inference_bazaar.Base.{
  ℕ, ◌+◌, ◌-◌, ◌^◌, min, String, str_eq, Option, none, some, Bool, true, false, not, ◌&&◌, ltb, leb,
  ◌==◌, if◌then◌else◌, Result, ok, err, panic, ◌>>=◌, ◌>>◌,
}
use inference_bazaar.Base.Maps.{lookup, insert_key}
use inference_bazaar.Base.Text.{trim_0x}
use inference_bazaar.Settlement.Types.{Address, Crypto}
use inference_bazaar.Settlement.Core.{recover_signer, is_signer}
use inference_bazaar.Clob.Types.{add_u64}
use inference_bazaar.Venue.Types.{SettleCtx}
use inference_bazaar.Spend.Types.{
  StoredPermit, SpendJournal, VoucherHeader, ChatBody, SpendError, Upstream, unconfigured,
  invalid_api_key, voucher_not_hex, bad_voucher, cap_exceeded, stale_voucher, ahead_voucher,
  key_expired, insufficient_quota, model_mismatch, upstream, unreachable, failed, completed,
  spend_voucher_digest, usage_of, spend_expiry_margin_secs, max_tokens_per_request,
}

abbrev pub or_zero : Option ℕ → ℕ
or_zero none = 0
or_zero (some n) = n

abbrev pub served_of : Address → SpendJournal → ℕ
served_of key j = or_zero (lookup key j.served)

abbrev pub voucher_of : Option (ℕ × String) → ℕ × String
voucher_of none = (0, "")
voucher_of (some v) = v

abbrev pub refuse_if : Bool → SpendError → Result SpendError (Unit {0})
refuse_if true e = err e
refuse_if false e = ok tt

abbrev pub put_voucher : Address → ℕ × String → SpendJournal → SpendJournal
put_voucher key v j = record j { voucher = insert_key key v j.voucher }

-- A voucher that is no lower takes the place of the stored one; a trailing one has to be higher.
unfoldable pub advance : Address → VoucherHeader → SpendJournal → SpendJournal
advance key v j =
    let entry = voucher_of (lookup key j.voucher) in
    put_voucher key (if leb entry.0 v.cumulative then (v.cumulative, v.signature) else entry) j

unfoldable pub advance_past : Address → VoucherHeader → SpendJournal → SpendJournal
advance_past key v j =
    let entry = voucher_of (lookup key j.voucher) in
    put_voucher key (if ltb entry.0 v.cumulative then (v.cumulative, v.signature) else entry) j

-- `u32::try_from(remaining).unwrap_or(u32::MAX)`.
abbrev pub clamp_u32 : ℕ → ℕ
clamp_u32 n = if ltb n (2 ^ 32) then n else 2 ^ 32 - 1

abbrev pub requested : Option ℕ → ℕ
requested none = 1_024
requested (some n) = n

unfoldable pub cap_of : ChatBody → ℕ → ℕ
cap_of body remaining =
    min (min (requested body.max_tokens) max_tokens_per_request) (clamp_u32 remaining)

unfoldable pub record_served : Address → ℕ → SpendJournal → SpendJournal
record_served session total j = record j { served = insert_key session total j.served }

module _ (c : Crypto) where
  -- The channel of a voucher that its session key signed within the cap; both paths begin so.
  unfoldable pub open_channel :
      Option SettleCtx → VoucherHeader → SpendJournal → Result SpendError StoredPermit
  unfolding recover_signer spend_voucher_digest
  open_channel none v j = err unconfigured
  open_channel (some ctx) v j = elim (lookup v.session_key j.permits) [
    | none ↦ err invalid_api_key
    | some p ↦ elim (c.hex_decode (trim_0x v.signature)) [
      | none ↦ err voucher_not_hex
      | some sig ↦
          if not (
            is_signer c
              (recover_signer c
                (spend_voucher_digest c ctx.domain.chain_id ctx.contract p.lot_id p.session_key
                  v.cumulative)
                sig)
              p.session_key)
          then err bad_voucher
          else if ltb p.max_tokens v.cumulative
          then err cap_exceeded
          else ok p
    ]
  ]

  unfoldable pub gate :
      ℕ → VoucherHeader → ChatBody → SpendJournal → StoredPermit → Result SpendError (Unit {0})
  gate now v body j p = do
    refuse_if (ltb v.cumulative (served_of v.session_key j)) stale_voucher
    refuse_if (ltb p.expiry (add_u64 now spend_expiry_margin_secs)) key_expired
    refuse_if ((p.max_tokens - served_of v.session_key j) == 0) insufficient_quota
    refuse_if (not (str_eq body.model "") && not (str_eq body.model p.model_id)) model_mismatch

  -- The permit, the tokens already served, and the cap of the request.
  unfoldable pub authorize :
      ℕ
      → Option SettleCtx
      → VoucherHeader
      → ChatBody
      → SpendJournal
      → SpendJournal × Result SpendError (StoredPermit × (ℕ × ℕ))
  unfolding open_channel gate advance cap_of
  authorize now ctx v body j = elim (open_channel ctx v j >>= λ p. gate now v body j p >> ok p) [
    | err e ↦ (j, err e)
    | panic ↦ (j, panic)
    | ok p ↦
        let already_served = served_of v.session_key j in
        (
          advance p.session_key v j,
          ok (p, (already_served, cap_of body (p.max_tokens - already_served))),
        )
  ]

  -- What is metered of a request that was authorized.
  unfoldable pub meter :
      StoredPermit → ℕ → Upstream → SpendJournal → SpendJournal × Result SpendError (ℕ × ℕ)
  unfolding record_served usage_of
  meter p already_served unreachable j = (j, err upstream)
  meter p already_served failed j = (j, err upstream)
  meter p already_served (completed prompt_tokens completion_tokens) j =
      let used =
        min (or_zero (usage_of p prompt_tokens completion_tokens))
          (p.max_tokens - already_served) in
      (record_served p.session_key (already_served + used) j, ok (used, already_served + used))

  -- A buffered request, alone: the served tokens, and the next cumulative.
  unfoldable pub complete :
      ℕ
      → Option SettleCtx
      → VoucherHeader
      → ChatBody
      → (ℕ → Upstream)
      → SpendJournal
      → SpendJournal × Result SpendError (ℕ × ℕ)
  unfolding authorize meter
  complete now ctx v body backend j =
      let (j', granted) = authorize now ctx v body j in
      elim granted [
        | err e ↦ (j', err e)
        | panic ↦ (j', panic)
        | ok (p, (already_served, cap)) ↦ meter p already_served (backend cap) j'
      ]

  unfoldable pub ack :
      Option SettleCtx → VoucherHeader → SpendJournal → SpendJournal × Result SpendError ℕ
  unfolding open_channel advance_past
  ack ctx v j = elim (open_channel ctx v j) [
    | err e ↦ (j, err e)
    | panic ↦ (j, panic)
    | ok p ↦
        if ltb (served_of v.session_key j) v.cumulative
        then (j, err ahead_voucher)
        else (advance_past p.session_key v j, ok v.cumulative)
  ]
