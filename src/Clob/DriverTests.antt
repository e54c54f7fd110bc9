-- ===== src/Clob/DriverTests.antt =====
-- operator/src/clob/driver.rs: runs of the driver and the watcher, and their theorems there.
use inference_bazaar.Base.{◌⊎◌, ◌≡◌, refl, List, [], ◌∷◌, arith, some, none}
use inference_bazaar.Base.Int.{pos, add_i64, sub_i64, rem_i64, wrap_i64, ◌+ℤ◌, ◌-ℤ◌}
use inference_bazaar.Base.Sets.{sort_dedup, sort_by}
use inference_bazaar.Base.Text.{order_id, address_hex, trim_0x}
use inference_bazaar.Settlement.Core.{
  order_digest, batch_digest, instrument_hash, fills_hash, recover_signer, verify_order,
}
use inference_bazaar.Settlement.Fills.{verify, digest, sign_digest}
use inference_bazaar.Settlement.Toy.{toy, toy_signed, signed_by}
use inference_bazaar.OrderBook.Types.{opposite}
use inference_bazaar.OrderBook.Native.{
  new, validate, id_exists, before, insert_into, insert_on, side_of, with_side,
}
use inference_bazaar.OrderBook.Engine.{
  crosses, print, reduce_maker, trade, round, round_against, match_loop, start, matched, settle,
  settle_on, place_unique, place,
}
use inference_bazaar.Matcher.Epoch.{
  match_epoch, canonical, canonicalize, feed, sell_le, buy_le, book_order, after_place, replay_from,
  i64_of_u64, u64_of_i64,
}
use inference_bazaar.Matcher.Consensus.{
  elect_proposer, digests_of, forged_orders, censored_orders, check_batch, verify_proposal,
}
use inference_bazaar.Clob.Types.{
  Clob, current_epoch, settlement_deadline, pending_settle_ttl, instrument, cancel_digest,
  attest_deadline,
}
use inference_bazaar.Clob.Pool.{
  admit, admit_live, admit_vetted, into_signed, vet, is_cancelled, cancel_signer, record_cancel,
  admit_cancel, persist_finality, load_finality,
}
use inference_bazaar.Clob.Pending.{
  is_open, is_matchable, snapshot, mark_all, touched, mark_pending, settle_digests, confirm_orders,
}
use inference_bazaar.Clob.Peer.{
  authenticate, find_expiring, find_cancelled, answer, co_sign, attest,
}
use inference_bazaar.Clob.Entries.{IsClob}
use inference_bazaar.Clob.Steps.{step}
use inference_bazaar.Clob.Toy.{offer, bid, node}
use inference_bazaar.Base.{true, String, ◌==◌}
use inference_bazaar.Settlement.Types.{Bytes}
use inference_bazaar.Settlement.Core.{order_struct_hash, cost_micro}
use inference_bazaar.Settlement.Fills.{SignedOrder}
use inference_bazaar.Clob.Types.{Instrument}
use inference_bazaar.Matcher.Epoch.{EpochBatch}
use inference_bazaar.Matcher.Consensus.{accepted, aggregate_attestation}
use inference_bazaar.Clob.Pending.{
  expired_pending, digests_where, is_past, is_of, confirm_batch, pending_batch_nonces,
  release_pending, evict,
}
use inference_bazaar.Clob.Driver.{
  ChainView, no_chain, World, match_of, is_doomed, doomed_of, simulate_doomed, spared, clean,
  attestations_of, quorum_of, land, propose_batch, propose_instrument,
}
use inference_bazaar.Clob.Watcher.{
  run_instruments, run_epoch, drive_epoch, epoch_attempt_failed, confirm_passed, resolve_expired,
  reconcile_pending,
}
use inference_bazaar.Clob.Warrants.{Acts}
use inference_bazaar.Clob.Drives.{IsTurn, drive_epoch-Acts}
use inference_bazaar.Clob.Watched.{reconcile_pending-resolves}
use inference_bazaar.Clob.Submitted.{IsLanded, propose_instrument-IsLanded}

program : Unit {0}
unfolding validate id_exists before insert_into insert_on side_of with_side crosses print
    reduce_maker trade round round_against match_loop start matched settle settle_on place_unique
    place add_i64 sub_i64 rem_i64 wrap_i64 ◌+ℤ◌ ◌-ℤ◌ opposite new order_id address_hex order_digest
    batch_digest instrument_hash fills_hash recover_signer verify_order verify match_epoch canonical
    canonicalize feed sell_le buy_le book_order after_place replay_from i64_of_u64 u64_of_i64
    digests_of forged_orders censored_orders check_batch verify_proposal elect_proposer sort_dedup
    sort_by trim_0x digest sign_digest current_epoch settlement_deadline pending_settle_ttl
    instrument cancel_digest admit admit_live admit_vetted into_signed vet is_cancelled
    cancel_signer record_cancel admit_cancel persist_finality load_finality is_open is_matchable
    snapshot mark_all touched mark_pending settle_digests confirm_orders authenticate find_expiring
    find_cancelled answer co_sign attest step IsClob attest_deadline accepted aggregate_attestation
    expired_pending digests_where is_past is_of confirm_batch pending_batch_nonces release_pending
    evict is_doomed doomed_of simulate_doomed spared clean attestations_of quorum_of land
    propose_batch propose_instrument run_instruments run_epoch drive_epoch epoch_attempt_failed
    confirm_passed resolve_expired reconcile_pending order_struct_hash cost_micro
program = tt

abbrev market : Instrument
market = record { id = "m"; tick_size = pos 1; min_qty = pos 1 }

abbrev hex_of : Bytes → String
hex_of bs = "00"

-- No chain for the simulation, and a submission that lands.
abbrev dry : World
dry = record {
  round = λ k. no_chain;
  batch_nonce = some 3;
  collect_attestations = λ w d n. [];
  submit = λ fills sigs. true;
}

abbrev both : List SignedOrder
both = toy_signed offer ∷ toy_signed bid ∷ []

abbrev crossed_batch : EpochBatch
crossed_batch = elim (match_of toy market both node) [
  | none ↦ record { fills = []; fills_hash = 0 }
  | some batch ↦ batch
]

propose_instrument-IsLanded_example :
    IsLanded toy hex_of 20 2 market dry both node
      (propose_instrument toy hex_of 20 2 market dry both node).0
      crossed_batch
      3
      (signed_by 7 ∷ [])
unfolding program
propose_instrument-IsLanded_example =
    propose_instrument-IsLanded toy hex_of 20 2 market dry both node crossed_batch 3
      (signed_by 7 ∷ []) refl (omega arith) refl

-- The offer is cancelled on the chain; the fill costs less than a unit, so that no funds are needed.
abbrev bleak : ChainView
bleak = record {
  cancelled = λ h. h == 21;
  filled = λ h. 0;
  balance_of = λ a. 0;
  free_collateral = λ a. 1_000;
}

one_doomed : simulate_doomed toy 20 bleak crossed_batch.fills node ≡ 21 ∷ []
unfolding program
one_doomed = refl

-- Two orders that are pending on one nonce, of two batches.
abbrev waiting : Clob
waiting = record node {
  pool =
      (
        11,
        record {
          instrument_id = "m";
          signed = toy_signed bid;
          pending = some (record { batch_nonce = 3; deadline = 50 });
        },
      )
      ∷ (
        21,
        record {
          instrument_id = "m";
          signed = toy_signed offer;
          pending = some (record { batch_nonce = 3; deadline = 90 });
        },
      )
      ∷ [];
}

-- Both are taken for settled once the nonce has moved, whichever batch moved it.
both_confirmed : (reconcile_pending 20 true (some 4) waiting).settled ≡ (21, 100) ∷ (11, 100) ∷ []
unfolding program
both_confirmed = refl

reconcile_pending-resolves_example :
    expired_pending 60 (reconcile_pending 60 true (some 3) waiting) ≡ []
reconcile_pending-resolves_example = reconcile_pending-resolves 60 true (some 3) waiting

-- A pool of two orders that cross.
abbrev pooled : Clob
pooled = record node {
  pool =
      (11, record { instrument_id = "m"; signed = toy_signed bid; pending = none })
      ∷ (21, record { instrument_id = "m"; signed = toy_signed offer; pending = none })
      ∷ [];
}

-- At its turn the node matches, marks and submits them, and they are settled.
driven_settled :
    (drive_epoch toy hex_of 20 2 true (λ id. dry) pooled).0.settled ≡ (21, 100) ∷ (11, 100) ∷ []
unfolding program
driven_settled = refl

drive_epoch-Acts_example :
    (((drive_epoch toy hex_of 20 2 true (λ id. dry) pooled).0 ≡ pooled)
      ⊎ (IsTurn toy hex_of 20 2 (λ id. dry) true (some 4) pooled true pooled
          × Acts toy hex_of 20 2
              (λ id. dry)
              true
              (some 4)
              pooled
              (drive_epoch toy hex_of 20 2 true (λ id. dry) pooled).0))
    × Acts toy hex_of 20 2
        (λ id. dry)
        true
        (some 4)
        pooled
        (reconcile_pending 20 true (some 4) pooled)
drive_epoch-Acts_example = drive_epoch-Acts toy hex_of 20 2 true true (λ id. dry) (some 4) pooled
