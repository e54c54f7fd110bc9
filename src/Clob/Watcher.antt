-- ===== src/Clob/Watcher.antt =====
-- operator/src/clob/driver.rs: an epoch of the proposer over all instruments, and the settlement
-- watcher.

use inference_bazaar.Base.{
  ℕ, String, List, [], ◌∷◌, Option, none, some, Bool, true, false, not, ◌&&◌, ltb, leb, ◌==◌,
  if◌then◌else◌, any, Result, ok, err, panic,
}
use inference_bazaar.Base.Sets.{sort_by}
use inference_bazaar.Settlement.Types.{B256, Address, Bytes, Crypto}
use inference_bazaar.Settlement.Core.{is_signer}
use inference_bazaar.Matcher.Consensus.{elect_proposer}
use inference_bazaar.Clob.Types.{Clob, Instrument, addresses}
use inference_bazaar.Clob.Pending.{
  snapshot, confirm_orders, confirm_batch, release_pending, expired_pending, pending_batch_nonces,
}
use inference_bazaar.Clob.Driver.{World, DriveError, BatchReport, is_empty, propose_instrument}

-- Is the epoch driver to try again?
unfoldable pub epoch_attempt_failed : List (String × Result DriveError (Option BatchReport)) → Bool
epoch_attempt_failed reports = any (λ r. is_error r.1) reports
  where
    is_error : Result DriveError (Option BatchReport) → Bool
    is_error (ok r) = false
    is_error (err e) = true
    is_error panic = false

-- What the driver reports: for each instrument that it tried, the outcome.
abbrev pub Reports : Type 0
Reports = List (String × Result DriveError (Option BatchReport))

module _ (c : Crypto) (hex_encode : Bytes → String) where
  abbrev pub add_report :
      String
      → Result DriveError (Option BatchReport)
      → Clob × Result DriveError Reports
      → Clob × Result DriveError Reports
  add_report id r (b, ok rs) = (b, ok ((id, r) ∷ rs))
  add_report id r (b, err e) = (b, err e)
  add_report id r (b, panic) = (b, panic)

  -- The instruments in their order; a panic of the matcher ends the run.
  unfoldable pub run_instruments :
      ℕ → ℕ → (String → World) → List Instrument → Clob → Clob × Result DriveError Reports
  unfolding propose_instrument
  run_instruments now epoch w [] b = (b, ok [])
  run_instruments now epoch w (inst ∷ insts) b =
      let (b1, orders) = snapshot now inst.id epoch b in
      if is_empty orders
      then run_instruments now epoch w insts b1
      else let (b2, r) = propose_instrument c hex_encode now epoch inst (w inst.id) orders b1 in
        elim r [
          | panic ↦ (b2, panic)
          | err e ↦ add_report inst.id (err e) (run_instruments now epoch w insts b2)
          | ok x ↦ elim x [
            | none ↦ run_instruments now epoch w insts b2
            | some report ↦
                add_report inst.id (ok (some report)) (run_instruments now epoch w insts b2)
          ]
        ]

  unfoldable pub run_epoch : ℕ → ℕ → (String → World) → Clob → Clob × Result DriveError Reports
  unfolding run_instruments
  run_epoch now epoch w b = run_instruments now epoch w b.instruments b

  abbrev pub done_unless_failed : Clob × Result DriveError Reports → Clob × Result DriveError Bool
  done_unless_failed (b, ok rs) = (b, ok (not (epoch_attempt_failed rs)))
  done_unless_failed (b, err e) = (b, err e)
  done_unless_failed (b, panic) = (b, panic)

  -- One tick of the epoch driver: the state, and whether the epoch is done.
  unfoldable pub drive_epoch :
      ℕ → ℕ → Bool → (String → World) → Clob → Clob × Result DriveError Bool
  unfolding run_epoch elect_proposer epoch_attempt_failed
  drive_epoch now epoch membership_ok w b =
      if not membership_ok
      then (b, ok true)
      else if not (is_signer c (elect_proposer (addresses b.cfg) epoch) b.signer.address)
      then (b, ok true)
      else if is_empty b.pool
      then (b, ok true)
      else done_unless_failed (run_epoch now epoch w b)

-- The digests of the batches that the book's nonce has passed are confirmed.
unfoldable pub confirm_passed : ℕ → List ℕ → Clob → Clob
unfolding confirm_batch
confirm_passed nonce [] b = b
confirm_passed nonce (n ∷ ns) b =
    if ltb n nonce then confirm_passed nonce ns (confirm_batch n b).0 else confirm_passed nonce ns b

abbrev pub observed : Bool → Option ℕ → Clob → Clob
observed false chain_nonce b = b
observed true none b = b
observed true (some chain_nonce) b = confirm_passed chain_nonce (pending_batch_nonces b) b

-- What has expired without being observed is released, or confirmed when no chain is configured.
unfoldable pub resolve_expired : Bool → List B256 → Clob → Clob
unfolding release_pending confirm_orders
resolve_expired can_settle [] b = b
resolve_expired can_settle (d ∷ ds) b =
    if can_settle then (release_pending (d ∷ ds) b).0 else confirm_orders (d ∷ ds) b

-- One tick of the watcher; the nonce is there when the chain could be read.
unfoldable pub reconcile_pending : ℕ → Bool → Option ℕ → Clob → Clob
unfolding confirm_passed pending_batch_nonces resolve_expired expired_pending
reconcile_pending now can_settle nonce b =
    let b' = observed can_settle nonce b in resolve_expired can_settle (expired_pending now b') b'

-- Does the contract's attester set agree with the configuration?
abbrev pub eq_addresses : List Address → List Address → Bool
eq_addresses [] [] = true
eq_addresses (a ∷ xs) (b ∷ ys) = (a == b) && eq_addresses xs ys
eq_addresses [] (b ∷ ys) = false
eq_addresses (a ∷ xs) [] = false

-- Membership as it was, when the chain is not there or a read fails.
unfoldable pub verify_membership : Option (List Address × ℕ) → Clob → Bool → Bool
unfolding sort_by
verify_membership none b membership_ok = membership_ok
verify_membership (some (chain_set, chain_threshold)) b membership_ok =
    eq_addresses (sort_by leb chain_set) (sort_by leb (addresses b.cfg))
    && (chain_threshold == b.cfg.threshold)
