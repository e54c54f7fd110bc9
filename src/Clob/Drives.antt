-- ===== src/Clob/Drives.antt =====
-- operator/src/clob/driver.rs: the calls of the service's interface that the driver and the watcher
-- make, and when.
use inference_bazaar.Base.{
  refl, ℕ, zero, suc, ◌≡◌, ◌⊎◌, arith, String, List, [], ◌∷◌, Option, none, some, Bool, true, false,
  inl, inr, ltb, Result, ok, err, panic, Bool-cases, Option-cases, Result-cases,
}
use inference_bazaar.Settlement.Types.{B256, Bytes, Crypto}
use inference_bazaar.Settlement.Core.{is_signer}
use inference_bazaar.Settlement.Fills.{SignedOrder}
use inference_bazaar.Matcher.Epoch.{EpochBatch}
use inference_bazaar.Matcher.Consensus.{elect_proposer}
use inference_bazaar.Clob.Types.{Clob, Instrument, addresses, add_u64, pending_settle_ttl}
use inference_bazaar.Clob.Pending.{
  snapshot, mark_pending, touched, confirm_batch, evict, expired_pending, pending_batch_nonces,
}
use inference_bazaar.Clob.Steps.{
  Call, take_snapshot, mark, confirm, confirm_nonce, release, evict_orders, step,
}
use inference_bazaar.Clob.Driver.{
  Reads, no_chain, failed, view, World, DriveError, BatchReport, is_empty, match_of, spared,
  simulate_doomed, clean, quorum_of, land, propose_batch, when_crossed, propose_instrument,
}
use inference_bazaar.Clob.Watcher.{
  Reports, add_report, run_instruments, run_epoch, done_unless_failed, drive_epoch, confirm_passed,
  observed, resolve_expired, reconcile_pending,
}
use inference_bazaar.Clob.Warrants.{
  Warranted, takes, evicts, marks, settles, passes, releases, confirms, Acts, idle, acts,
}

module _ (c : Crypto) (hex_encode : Bytes → String) (now epoch : ℕ) (w : String → World)
    (can_settle : Bool) (nonce : Option ℕ) (a : Clob) where
  abbrev Reached : Clob → Type 0
  Reached b = Acts c hex_encode now epoch w can_settle nonce a b

  call_now :
      (call : Call) (b : Clob)
      → Warranted c hex_encode now epoch w can_settle nonce call b
      → Reached b
      → Reached (step c now call b)
  call_now call b q r = acts call r q

  clean-Reached :
      (inst : Instrument) (left : ℕ) (orders : List SignedOrder) (batch : EpochBatch) (b : Clob)
      → Reached b
      → Reached (clean c now inst (w inst.id).round left orders batch b).0
  unfolding clean step
  clean-Reached inst zero orders batch b r = r
  clean-Reached inst (suc left) orders batch b r = elim (Bool-cases (is_empty batch.fills)) [
    | inl e ↦ rw (e, clean) r
    | inr e ↦ by_reads ((w inst.id).round left) refl e (clean-Reached inst left)
  ]
    where
      by_reads :
          (x : Reads)
          → (w inst.id).round left ≡ x
          → is_empty batch.fills ≡ false
          → ((os : List SignedOrder) (again : EpochBatch) (b' : Clob)
              → Reached b'
              → Reached (clean c now inst (w inst.id).round left os again b').0)
          → Reached (clean c now inst (w inst.id).round (suc left) orders batch b).0
      by_reads no_chain f e rec = rw (e, f, clean) r
      by_reads failed f e rec = rw (e, f, clean) r
      by_reads (view v) f e rec =
          let doomed = simulate_doomed c now v batch.fills b in
          let evicted : Reached (evict doomed b) =
            call_now (evict_orders doomed) b (evicts inst left v batch.fills f) r in
          elim (Bool-cases (is_empty doomed)) [
            | inl g ↦ rw (e, f, g, clean) r
            | inr g ↦ elim (Option-cases (match_of c inst (spared c doomed orders b) b)) [
              | inl i ↦ rw (e, f, g, i, clean) evicted
              | inr (again, i) ↦
                  rw (e, f, g, i, clean)
                    (rec (spared c doomed orders b) again (evict doomed b) evicted)
            ]
          ]

  land-Reached :
      (inst : Instrument) (orders : List SignedOrder) (batch_nonce : ℕ) (batch : EpochBatch)
      (sigs : List Bytes) (b : Clob)
      → (w inst.id).batch_nonce ≡ some batch_nonce
      → quorum_of c hex_encode epoch inst (w inst.id) batch_nonce orders batch b ≡ some sigs
      → Reached b
      → Reached (land c hex_encode now (w inst.id) batch_nonce batch sigs b).0
  unfolding land step
  land-Reached inst orders batch_nonce batch sigs b known quorum r =
      let deadline = add_u64 now (pending_settle_ttl b.cfg.epoch_secs) in
      let b' = mark_pending c batch.fills batch_nonce deadline b in
      let marked : Reached b' =
        call_now (mark batch.fills batch_nonce deadline) b
          (marks inst batch_nonce orders batch sigs known quorum) r in
      elim (Bool-cases ((w inst.id).submit batch.fills sigs)) [
        | inl e ↦
            rw (e, land)
              (call_now (confirm (touched c b'.domain batch.fills)) b'
                (settles inst batch.fills sigs e) marked)
        | inr e ↦ rw (e, land) marked
      ]

  propose_batch-Reached :
      (inst : Instrument) (orders : List SignedOrder) (batch : EpochBatch) (b : Clob)
      → Reached b
      → Reached (propose_batch c hex_encode now epoch inst (w inst.id) orders batch b).0
  unfolding propose_batch
  propose_batch-Reached inst orders batch b r = elim (Option-cases (w inst.id).batch_nonce) [
    | inl e ↦ rw (e, propose_batch) r
    | inr (n, e) ↦
        elim (Option-cases (quorum_of c hex_encode epoch inst (w inst.id) n orders batch b)) [
          | inl f ↦ rw (e, f, propose_batch) r
          | inr (sigs, f) ↦ rw (e, f, propose_batch) (land-Reached inst orders n batch sigs b e f r)
        ]
  ]

  when_crossed-Reached :
      (inst : Instrument) (b : Clob) (x : Result DriveError (List SignedOrder × EpochBatch))
      → Reached b
      → Reached (when_crossed c hex_encode now epoch inst (w inst.id) (b, x)).0
  when_crossed-Reached inst b (err e) r = r
  when_crossed-Reached inst b panic r = r
  when_crossed-Reached inst b (ok (orders, batch)) r = elim (Bool-cases (is_empty batch.fills)) [
    | inl e ↦ rw (e) r
    | inr e ↦ rw (e) (propose_batch-Reached inst orders batch b r)
  ]

  propose_instrument-Reached :
      (inst : Instrument) (orders : List SignedOrder) (b : Clob)
      → Reached b
      → Reached (propose_instrument c hex_encode now epoch inst (w inst.id) orders b).0
  unfolding propose_instrument
  propose_instrument-Reached inst orders b r = elim (Option-cases (match_of c inst orders b)) [
    | inl e ↦ rw (e, propose_instrument) r
    | inr (batch, e) ↦
        let cleaned = clean c now inst (w inst.id).round 3 orders batch b in
        rw (e, propose_instrument)
          (when_crossed-Reached inst cleaned.0 cleaned.1 (clean-Reached inst 3 orders batch b r))
  ]

  add_report-Reached :
      (id : String) (x : Result DriveError (Option BatchReport))
      (y : Clob × Result DriveError Reports)
      → Reached y.0
      → Reached (add_report c hex_encode id x y).0
  add_report-Reached id x (b, ok rs) r = r
  add_report-Reached id x (b, err e) r = r
  add_report-Reached id x (b, panic) r = r

  run_instruments-Reached :
      (insts : List Instrument) (b : Clob)
      → Reached b
      → Reached (run_instruments c hex_encode now epoch w insts b).0
  unfolding run_instruments step
  run_instruments-Reached [] b r = r
  run_instruments-Reached (inst ∷ insts) b r =
      let taken = snapshot now inst.id epoch b in
      let r1 : Reached taken.0 = call_now (take_snapshot inst.id epoch) b (takes inst) r in
      let x = propose_instrument c hex_encode now epoch inst (w inst.id) taken.1 taken.0 in
      let r2 : Reached x.0 = propose_instrument-Reached inst taken.1 taken.0 r1 in
      let rest = run_instruments c hex_encode now epoch w insts x.0 in
      let r3 : Reached rest.0 = run_instruments-Reached insts x.0 r2 in
      elim (Bool-cases (is_empty taken.1)) [
        | inl e ↦ rw (e, run_instruments) (run_instruments-Reached insts taken.0 r1)
        | inr e ↦ elim (Result-cases x.1) [
          | inr (inr f) ↦ rw (e, f, run_instruments) r2
          | inr (inl (y, f)) ↦
              rw (e, f, run_instruments) (add_report-Reached inst.id (err y) rest r3)
          | inl (none, f) ↦ rw (e, f, run_instruments) r3
          | inl (some y, f) ↦
              rw (e, f, run_instruments) (add_report-Reached inst.id (ok (some y)) rest r3)
        ]
      ]

  done_unless_failed-Reached :
      (y : Clob × Result DriveError Reports)
      → Reached y.0
      → Reached (done_unless_failed c hex_encode y).0
  done_unless_failed-Reached (b, ok rs) r = r
  done_unless_failed-Reached (b, err e) r = r
  done_unless_failed-Reached (b, panic) r = r

  -- Is it this node's turn: membership agrees, and it is elected?
  abbrev pub IsTurn : Bool → Clob → Type 0
  IsTurn membership_ok b =
      (membership_ok ≡ true)
      × (is_signer c (elect_proposer (addresses b.cfg) epoch) b.signer.address ≡ true)

  drive_epoch-Reached :
      (membership_ok : Bool) (b : Clob)
      → Reached b
      → ((drive_epoch c hex_encode now epoch membership_ok w b).0 ≡ b)
        ⊎ (IsTurn membership_ok b
            × Reached (drive_epoch c hex_encode now epoch membership_ok w b).0)
  unfolding drive_epoch run_epoch
  drive_epoch-Reached false b r = inl refl
  drive_epoch-Reached true b r =
      let elected = is_signer c (elect_proposer (addresses b.cfg) epoch) b.signer.address in
      elim (Bool-cases elected) [
        | inr e ↦ inl (rw (e, drive_epoch) refl)
        | inl e ↦ elim (Bool-cases (is_empty b.pool)) [
          | inl f ↦ inl (rw (e, f, drive_epoch) refl)
          | inr f ↦ inr (
            (refl, e),
            rw (e, f, drive_epoch)
                (done_unless_failed-Reached (run_epoch c hex_encode now epoch w b)
                  (run_instruments-Reached b.instruments b r)),
          )
        ]
      ]

  confirm_passed-Reached :
      (n : ℕ) (ns : List ℕ) (b : Clob)
      → can_settle ≡ true
      → nonce ≡ some n
      → Reached b
      → Reached (confirm_passed n ns b)
  unfolding confirm_passed step
  confirm_passed-Reached n [] b s k r = r
  confirm_passed-Reached n (m ∷ ns) b s k r = elim (Bool-cases (ltb m n)) [
    | inl e ↦
        rw (e, confirm_passed)
          (confirm_passed-Reached n ns (confirm_batch m b).0 s k
            (call_now (confirm_nonce m) b (passes m n s k (ground arith)) r))
    | inr e ↦ rw (e, confirm_passed) (confirm_passed-Reached n ns b s k r)
  ]

  observed-Reached :
      (x : Bool) (y : Option ℕ) (b : Clob)
      → can_settle ≡ x
      → nonce ≡ y
      → Reached b
      → Reached (observed x y b)
  observed-Reached false y b s k r = r
  observed-Reached true none b s k r = r
  observed-Reached true (some n) b s k r = confirm_passed-Reached n (pending_batch_nonces b) b s k r

  resolve_expired-Reached :
      (x : Bool) (ds : List B256) (b : Clob)
      → can_settle ≡ x
      → ds ≡ expired_pending now b
      → Reached b
      → Reached (resolve_expired x ds b)
  unfolding resolve_expired step
  resolve_expired-Reached x [] b s k r = r
  resolve_expired-Reached true (d ∷ ds) b s k r =
      call_now (release (d ∷ ds)) b (releases (d ∷ ds) s k) r
  resolve_expired-Reached false (d ∷ ds) b s k r =
      call_now (confirm (d ∷ ds)) b (confirms (d ∷ ds) s k) r

  reconcile_pending-Reached :
      (b : Clob) → Reached b → Reached (reconcile_pending now can_settle nonce b)
  unfolding reconcile_pending
  reconcile_pending-Reached b r =
      resolve_expired-Reached can_settle (expired_pending now (observed can_settle nonce b)) _ refl
        refl (observed-Reached can_settle nonce b refl refl r)

-- A tick of the epoch driver leaves the service's state, or it is this node's turn and the tick is a
-- run of the service's calls, each of them warranted; and a tick of the watcher is such a run. An
-- order is evicted only as the simulation over a read of the chain dooms it; a batch is marked only
-- with the nonce that was read and a quorum of signatures; orders are confirmed only when the
-- submission landed, when the chain's nonce has passed the batch's, or, expired, when no chain is
-- configured; and released only when they have expired and a chain is configured.
pub drive_epoch-Acts :
    (c : Crypto) (hex_encode : Bytes → String) (now epoch : ℕ) (membership_ok can_settle : Bool)
    (w : String → World) (nonce : Option ℕ) (b : Clob)
    → (((drive_epoch c hex_encode now epoch membership_ok w b).0 ≡ b)
        ⊎ (IsTurn c hex_encode now epoch w can_settle nonce b membership_ok b
            × Acts c hex_encode now epoch w can_settle nonce b
                (drive_epoch c hex_encode now epoch membership_ok w b).0))
      × Acts c hex_encode now epoch w can_settle nonce b (reconcile_pending now can_settle nonce b)
drive_epoch-Acts c hex_encode now epoch membership_ok can_settle w nonce b = (
  drive_epoch-Reached c hex_encode now epoch w can_settle nonce b membership_ok b idle,
  reconcile_pending-Reached c hex_encode now epoch w can_settle nonce b b idle,
)
