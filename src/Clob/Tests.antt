-- ===== src/Clob/Tests.antt =====
-- operator/src/clob: runs of the service, and its theorems at small states.
use inference_bazaar.Base.{
  ◌≤◌, ◌≢◌, String, subst, sym, ◌∙◌, eq_of_ok, ℕ, ◌≡◌, refl, List, [], ◌∷◌, map, arith, All, none,
  false, inl, ok, err,
}
use inference_bazaar.Base.Maps.{has_key}
use inference_bazaar.Base.Int.{add_i64, sub_i64, rem_i64, wrap_i64, ◌+ℤ◌, ◌-ℤ◌}
use inference_bazaar.Base.Sets.{Member, sort_dedup, sort_by}
use inference_bazaar.Base.Text.{order_id, address_hex, trim_0x}
use inference_bazaar.Settlement.Types.{BatchFill}
use inference_bazaar.Settlement.Core.{
  order_digest, batch_digest, instrument_hash, fills_hash, recover_signer, verify_order,
}
use inference_bazaar.Settlement.Fills.{SignedOrder, verify, digest, sign_digest}
use inference_bazaar.Settlement.Toy.{toy, toy_signed, signed_by}
use inference_bazaar.OrderBook.Types.{opposite}
use inference_bazaar.OrderBook.Native.{
  new, validate, id_exists, before, insert_into, insert_on, side_of, with_side,
}
use inference_bazaar.OrderBook.Engine.{
  crosses, print, reduce_maker, trade, round, round_against, match_loop, start, matched, settle,
  settle_on, place_unique, place,
}
use inference_bazaar.Matcher.Epoch.{
  match_epoch, canonical, canonicalize, feed, sell_le, buy_le, book_order, after_place, replay_from,
  i64_of_u64, u64_of_i64,
}
use inference_bazaar.Matcher.Consensus.{
  elect_proposer, digests_of, forged_orders, censored_orders, check_batch, verify_proposal,
}
use inference_bazaar.Clob.Types.{
  Clob, PoolError, WireProposal, WireAttestation, current_epoch, settlement_deadline,
  pending_settle_ttl, instrument, cancel_digest, attest_deadline, already_cancelled,
  already_settled,
}
use inference_bazaar.Clob.Pool.{
  admit, admit_live, admit_vetted, into_signed, vet, is_cancelled, cancel_signer, record_cancel,
  admit_cancel, persist_finality, load_finality,
}
use inference_bazaar.Clob.Pending.{
  is_open, is_matchable, snapshot, mark_all, touched, mark_pending, settle_digests, confirm_orders,
}
use inference_bazaar.Clob.Peer.{
  authenticate, find_expiring, find_cancelled, answer, co_sign, attest,
}
use inference_bazaar.Clob.Entries.{IsClob}
use inference_bazaar.Clob.Steps.{order_in, take_snapshot, step, done, then_call}
use inference_bazaar.Clob.Keeps.{step-IsClob}
use inference_bazaar.Clob.Finality.{settled-stays}
use inference_bazaar.Clob.Cancels.{admit_cancel-displaces, admit_cancel-stops}
use inference_bazaar.Clob.Held.{snapshot-pending, admits, reads, marked_at, then_waits}
use inference_bazaar.Clob.Attests.{IsVouched, attest-IsVouched}
use inference_bazaar.Clob.Toy.{offer, bid, node, offer_body, offer_cancel, stranger_cancel}

program : Unit {0}
unfolding validate id_exists before insert_into insert_on side_of with_side crosses print
    reduce_maker trade round round_against match_loop start matched settle settle_on place_unique
    place add_i64 sub_i64 rem_i64 wrap_i64 ◌+ℤ◌ ◌-ℤ◌ opposite new order_id address_hex order_digest
    batch_digest instrument_hash fills_hash recover_signer verify_order verify match_epoch canonical
    canonicalize feed sell_le buy_le book_order after_place replay_from i64_of_u64 u64_of_i64
    digests_of forged_orders censored_orders check_batch verify_proposal elect_proposer sort_dedup
    sort_by trim_0x digest sign_digest current_epoch settlement_deadline pending_settle_ttl
    instrument cancel_digest admit admit_live admit_vetted into_signed vet is_cancelled
    cancel_signer record_cancel admit_cancel persist_finality load_finality is_open is_matchable
    snapshot mark_all touched mark_pending settle_digests confirm_orders authenticate find_expiring
    find_cancelled answer co_sign attest step IsClob attest_deadline
program = tt

-- The cancelled order is refused; when a stranger has cancelled it too, it is taken again.
refused :
    (admit toy 20 offer_body (admit_cancel toy 20 offer_cancel node).0).1 ≡ err already_cancelled
unfolding program
refused = refl

taken_again :
    (admit toy 20 offer_body
      (admit_cancel toy 20 stranger_cancel (admit_cancel toy 20 offer_cancel node).0).0).1
    ≡ ok (record { digest = 21; instrument_id = "m"; epoch = 2; pool_size = 1 })
unfolding program
taken_again = refl

-- A settled order is refused by a node that has restarted from the journal.
abbrev restarted : Clob → Clob
restarted b = record node { file = b.file }

still_settled :
    (admit toy 20 offer_body
      (load_finality 20 (restarted (confirm_orders (21 ∷ []) (admit toy 20 offer_body node).0)))).1
    ≡ err already_settled
unfolding program
still_settled = refl

deadlines : ◌≡◌ {A = List ℕ} (map attest_deadline (10 ∷ 5 ∷ 1 ∷ [])) (8_000 ∷ 4_000 ∷ 1_000 ∷ [])
unfolding program
deadlines = refl

empty-IsClob : IsClob toy node
unfolding program
empty-IsClob = tt

step-IsClob_example : IsClob toy (step toy 20 (order_in offer_body) node)
step-IsClob_example = step-IsClob toy 20 (order_in offer_body) node empty-IsClob

abbrev settled_node : Clob
settled_node = record node { settled = (21, 100) ∷ [] }

settled-IsClob : IsClob toy settled_node
unfolding program
settled-IsClob = tt

settled-stays_example :
    Member (21, 100) (step toy 20 (order_in offer_body) settled_node).settled
    × (has_key 21 (step toy 20 (order_in offer_body) settled_node).pool ≡ false)
settled-stays_example =
    settled-stays toy 21 100
      (then_call 20 (order_in offer_body) (done {now = 10} {b = settled_node}) (omega arith))
      settled-IsClob (omega arith) (inl refl)

by_trader : cancel_signer toy offer_cancel node ≡ ok 2
unfolding program
by_trader = refl

by_stranger : cancel_signer toy stranger_cancel node ≡ ok 3
unfolding program
by_stranger = refl

admit_cancel-displaces_example :
    (is_cancelled 30 21 2 (admit_cancel toy 20 stranger_cancel node).0).1 ≡ false
admit_cancel-displaces_example =
    admit_cancel-displaces toy 20 30 stranger_cancel 2 node by_stranger refl (λ h. omega arith)

offer_signed : into_signed toy offer_body ≡ ok ("m", toy_signed offer)
unfolding program
offer_signed = refl

-- A pool with both orders.
abbrev stocked : Clob
stocked = record node {
  pool =
      (21, record { instrument_id = "m"; signed = toy_signed offer; pending = none })
      ∷ (11, record { instrument_id = "m"; signed = toy_signed bid; pending = none })
      ∷ [];
}

offer_hash : digest toy (toy_signed offer) (admit_cancel toy 20 offer_cancel stocked).0.domain ≡ 21
unfolding program
offer_hash = refl

-- The signer does not depend on the pool.
by_holder : cancel_signer toy offer_cancel stocked ≡ ok 2
unfolding program
by_holder = refl

admit_cancel-stops_example :
    (has_key 21 (admit_cancel toy 20 offer_cancel stocked).0.pool ≡ false)
    × ((e : PoolError) × ((admit toy 30 offer_body (admit_cancel toy 20 offer_cancel stocked).0).1
          ≡ err e))
admit_cancel-stops_example =
    admit_cancel-stops toy 20 30 offer_cancel stocked offer_body "m" (toy_signed offer) by_holder
      refl offer_signed offer_hash refl (omega arith)

stocked-IsClob : IsClob toy stocked
unfolding program
stocked-IsClob = (
  (
    record {
      keyed = refl;
      signed = refl;
      named = refl;
      sized = λ h. omega arith;
      priced = λ h. cc;
      counted = λ h. cc;
    },
    refl,
  ),
  (
    (
      record {
        keyed = refl;
        signed = refl;
        named = refl;
        sized = λ h. omega arith;
        priced = λ h. cc;
        counted = λ h. cc;
      },
      refl,
    ),
    tt,
  ),
)

abbrev lifting : List BatchFill
lifting = record { buy = bid; sell = offer; qty_tokens = 10; exec_price_micro_per_m = 100 } ∷ []

abbrev pending : Clob
pending = mark_pending toy lifting 4 50 stocked

abbrev waited : Clob
waited = step toy 35 (take_snapshot "m" 2) (step toy 30 (order_in offer_body) pending)

offer_valid :
    (id : String) (so : SignedOrder)
    → into_signed toy offer_body ≡ ok (id, so)
    → 50 ≤ so.order.expiry
offer_valid id so e =
    subst (λ (x : String × SignedOrder). 50 ≤ x.1.order.expiry) (eq_of_ok (sym offer_signed ∙ e))
      (omega arith)

-- The offer is admitted again while its batch is pending, and stays out of the next snapshot.
snapshot-pending_example : All (λ so. digest toy so waited.domain ≢ 21) (snapshot 35 "m" 2 waited).1
unfolding program
snapshot-pending_example =
    snapshot-pending toy 21 lifting 4 50 20 35 2 "m" stocked waited stocked-IsClob refl refl
      (λ e. omega arith, (λ e. omega arith, tt))
      (then_waits 35 (take_snapshot "m" 2)
        (then_waits 30 (order_in offer_body) (marked_at {now = 20} {b = pending}) (omega arith)
          (admits offer_body (λ id so e f. offer_valid id so e)))
        (omega arith) (reads "m" 2))
      (omega arith)

abbrev proposal : WireProposal
proposal = record {
  epoch = 2;
  book_id = 5;
  batch_nonce = 4;
  instrument_id = "m";
  proposer = 7;
  proposer_sig = "abcdefg";
  orders = toy_signed offer ∷ toy_signed bid ∷ [];
  fills_hash = 10;
}

abbrev reply : WireAttestation
reply = record { attester = 7; signature = signed_by 7 }

co_signed : (attest toy 20 proposal stocked).1 ≡ ok reply
unfolding program
co_signed = refl

attest-IsVouched_example : IsVouched toy 20 proposal stocked reply
attest-IsVouched_example = attest-IsVouched toy 20 proposal stocked reply co_signed
