-- ===== src/Clob/Pool.antt =====
-- operator/src/clob/pool.rs: admission of orders and cancels, the finality sets and their journal,
-- the snapshot of an epoch, and the pending orders of a batch.
-- The clock is read once in each call (`now`). A journal write succeeds; metrics and the fan-out
-- to peers change no state.
use inference_bazaar.Base.{
  ℕ, String, List, [], ◌∷◌, Option, none, some, Bool, true, false, not, ◌&&◌, ltb, leb, ◌==◌,
  if◌then◌else◌, length, Result, ok, err, panic,
}
use inference_bazaar.Base.Maps.{lookup, has_key, delete, insert_key, retain}
use inference_bazaar.Base.Text.{trim_0x}
use inference_bazaar.Settlement.Types.{B256, Address, Crypto}
use inference_bazaar.Settlement.Core.{instrument_hash, recover_signer}
use inference_bazaar.Settlement.Fills.{SignedOrder, digest, verify}
use inference_bazaar.Matcher.Epoch.{i64_of_u64}
use inference_bazaar.Clob.Types.{
  expiry_margin_secs, max_pool, cancel_ttl_secs, add_u64, PendingBatch, PoolEntry, Clob,
  SignedOrderBody, WireCancel, PoolError, instrument_mismatch, signature_not_hex,
  unknown_instrument, bad_signature, expires_too_soon, zero_qty, out_of_range, already_settled,
  already_cancelled, pool_full, unrecoverable_cancel, not_by_trader, not_owner, Admitted,
  CancelReply, current_epoch, instrument, cancel_digest,
}

-- The entries of the journal that have not expired, over the sets in memory.
abbrev restore_settled : ℕ → List (B256 × ℕ) → List (B256 × ℕ) → List (B256 × ℕ)
restore_settled now [] m = m
restore_settled now ((d, exp) ∷ j) m =
    restore_settled now j (if leb now exp then insert_key d exp m else m)

abbrev restore_cancelled :
    ℕ → List (B256 × (Address × ℕ)) → List (B256 × (Address × ℕ)) → List (B256 × (Address × ℕ))
restore_cancelled now [] m = m
restore_cancelled now ((h, (t, exp)) ∷ j) m =
    restore_cancelled now j (if leb now exp then insert_key h (t, exp) m else m)

unfoldable pub load_finality : ℕ → Clob → Clob
load_finality now b = elim b.file [
  | none ↦ b
  | some j ↦ record b {
    settled = restore_settled now j.settled b.settled;
    cancelled = restore_cancelled now j.cancelled b.cancelled;
  }
]

unfoldable pub persist_finality : Clob → Clob
persist_finality b = elim b.file [
  | none ↦ b
  | some j ↦ record b { file = some (record { settled = b.settled; cancelled = b.cancelled }) }
]

abbrev pub unexpired : ℕ → List (B256 × ℕ) → List (B256 × ℕ)
unexpired now = retain (λ d exp. leb now exp)

abbrev pub owned_by : Option (Address × ℕ) → Address → Bool
owned_by none trader = false
owned_by (some (t, exp)) trader = t == trader

unfoldable pub is_cancelled : ℕ → B256 → Address → Clob → Clob × Bool
is_cancelled now order_hash trader b =
    let live = retain (λ h (v : Address × ℕ). leb now v.1) b.cancelled in
    (record b { cancelled = live }, owned_by (lookup order_hash live) trader)

-- Drop the order if it is held, and remember the cancel.
unfoldable pub record_cancel :
    ℕ → B256 → Address → Option PoolEntry → Clob → Clob × Result PoolError CancelReply
unfolding persist_finality
record_cancel now h trader none b = (
  persist_finality
      (record b { cancelled = insert_key h (trader, add_u64 now cancel_ttl_secs) b.cancelled }),
  ok (record { order_hash = h; removed_from_pool = false }),
)
record_cancel now h trader (some e) b =
    if e.signed.order.trader == trader
    then (
      persist_finality (record b {
        pool = delete h b.pool;
        cancelled = insert_key h (trader, e.signed.order.expiry) b.cancelled;
      }),
      ok (record { order_hash = h; removed_from_pool = true }),
    )
    else (b, err not_owner)

abbrev pub pending_of : Option PoolEntry → Option PendingBatch
pending_of none = none
pending_of (some e) = e.pending

module _ (c : Crypto) where
  unfoldable pub into_signed : SignedOrderBody → Result PoolError (String × SignedOrder)
  into_signed body =
      if not (body.order.instrument == instrument_hash c body.instrument_id)
      then err instrument_mismatch
      else elim (c.hex_decode (trim_0x body.signature)) [
        | none ↦ err signature_not_hex
        | some sig ↦ ok (body.instrument_id, record { order = body.order; signature = sig })
      ]

  -- Who signed a cancel.
  unfoldable pub cancel_signer : WireCancel → Clob → Result PoolError Address
  unfolding cancel_digest recover_signer
  cancel_signer w b = elim (c.hex_decode (trim_0x w.signature)) [
    | none ↦ err signature_not_hex
    | some sig ↦
        elim (recover_signer c (cancel_digest c b.domain.chain_id b.contract w.order_hash) sig) [
          | none ↦ err unrecoverable_cancel
          | some signer ↦ ok signer
        ]
  ]

  unfoldable pub admit_cancel : ℕ → WireCancel → Clob → Clob × Result PoolError CancelReply
  unfolding cancel_signer record_cancel
  admit_cancel now w b = elim (cancel_signer w b) [
    | err e ↦ (b, err e)
    | panic ↦ (b, panic)
    | ok signer ↦
        if signer == w.trader
        then record_cancel now w.order_hash w.trader (lookup w.order_hash b.pool) b
        else (b, err not_by_trader)
  ]

  -- The checks of an order that read no finality set.
  unfoldable pub vet : ℕ → String → SignedOrder → Clob → Option PoolError
  unfolding verify instrument i64_of_u64
  vet now id so b = elim (instrument b id) [
    | none ↦ some unknown_instrument
    | some i ↦
        if not (verify c so b.domain)
        then some bad_signature
        else if ltb so.order.expiry (add_u64 now expiry_margin_secs)
        then some expires_too_soon
        else if so.order.qty_tokens == 0
        then some zero_qty
        else elim (i64_of_u64 so.order.price_micro_per_m) [
          | none ↦ some out_of_range
          | some p ↦ elim (i64_of_u64 so.order.qty_tokens) [
            | none ↦ some out_of_range
            | some q ↦ none
          ]
        ]
  ]

  unfoldable pub admit_live :
      ℕ → B256 → String → SignedOrder → Clob → Clob × Result PoolError Admitted
  unfolding current_epoch
  admit_live now d id so b =
      if leb max_pool (length b.pool) && not (has_key d b.pool)
      then (b, err pool_full)
      else let pool =
          insert_key d
            (record { instrument_id = id; signed = so; pending = pending_of (lookup d b.pool) })
            b.pool in
        (
          record b { pool = pool },
          ok (record {
            digest = d;
            instrument_id = id;
            epoch = current_epoch b now;
            pool_size = length pool;
          }),
        )

  unfoldable pub admit_vetted :
      ℕ → B256 → String → SignedOrder → Clob → Clob × Result PoolError Admitted
  unfolding admit_live is_cancelled
  admit_vetted now d id so b =
      let b1 = record b { settled = unexpired now b.settled } in
      if has_key d b1.settled
      then (b1, err already_settled)
      else let (b2, was_cancelled) = is_cancelled now d so.order.trader b1 in
        if was_cancelled then (b2, err already_cancelled) else admit_live now d id so b2

  unfoldable pub admit : ℕ → SignedOrderBody → Clob → Clob × Result PoolError Admitted
  unfolding admit_vetted into_signed vet digest
  admit now body b = elim (into_signed body) [
    | err e ↦ (b, err e)
    | panic ↦ (b, panic)
    | ok (id, so) ↦ elim (vet now id so b) [
      | some e ↦ (b, err e)
      | none ↦ admit_vetted now (digest c so b.domain) id so b
    ]
  ]
