-- ===== src/Spend/Tests.antt =====
-- operator/src/spend.rs: requests on one channel, and the theorems at them.
use inference_bazaar.Base.{none, ℕ, ◌+◌, ◌-◌, ◌≡◌, min, refl, [], ◌∷◌, some, none, ok, err}
use inference_bazaar.Base.Text.{trim_0x}
use inference_bazaar.Settlement.Core.{recover_signer}
use inference_bazaar.Settlement.Toy.{toy, toy_domain}
use inference_bazaar.Venue.Types.{SettleCtx}
use inference_bazaar.Spend.Types.{
  StoredPermit, SpendJournal, VoucherHeader, ChatBody, Upstream, completed, usage_of, ahead_voucher,
  stale_voucher, spend_voucher_digest,
}
use inference_bazaar.Spend.Serve.{
  served_of, open_channel, gate, authorize, meter, complete, ack, advance, advance_past, cap_of,
  record_served, or_zero,
}
use inference_bazaar.Spend.Channel.{IsGranted, authorize-IsGranted}
use inference_bazaar.Spend.Serving.{
  IsServed, complete-IsServed, IsAcked, ack-IsAcked, meter-overlapping,
}

program : Unit {0}
unfolding trim_0x recover_signer usage_of spend_voucher_digest open_channel gate authorize meter
    complete ack advance advance_past cap_of record_served
program = tt

abbrev ctx : SettleCtx
ctx = record {
  domain = toy_domain;
  signer = none;
  contract = 9;
  rpc_url = none;
  operator_key = none;
  submitter_key = none;
  rfq_ttl_secs = 30;
  from_block = 0;
}

-- A channel of 100 tokens, whose session key is 2.
abbrev permit : StoredPermit
permit = record {
  lot_id = 5;
  session_key = 2;
  max_tokens = 100;
  expiry = 1_000;
  holder_sig = "abc";
  holder = 3;
  instrument_id = "m:output";
  model_id = "m";
  token_kind = "output";
}

abbrev journal : SpendJournal
journal = record {
  permits = (2, permit) ∷ [];
  served = (2, 50) ∷ [];
  voucher = (2, (20, "xx")) ∷ [];
  settled = [];
}

abbrev voucher : ℕ → VoucherHeader
voucher n = record { session_key = 2; cumulative = n; signature = "0xab" }

abbrev body : ChatBody
body = record { model = "m"; max_tokens = none }

abbrev granted : SpendJournal
granted = record journal { voucher = (2, (50, "0xab")) ∷ [] }

authorized :
    authorize toy 10 (some ctx) (voucher 50) body journal ≡ (granted, ok (permit, (50, 50)))
unfolding program
authorized = refl

-- The same voucher is taken a second time while the first request is in flight.
authorized_again :
    authorize toy 10 (some ctx) (voucher 50) body granted ≡ (granted, ok (permit, (50, 50)))
unfolding program
authorized_again = refl

stale : (authorize toy 10 (some ctx) (voucher 49) body journal).1 ≡ err stale_voucher
unfolding program
stale = refl

-- The gate takes a voucher that is ahead of what was served, which a trailing one may not be.
ahead : (authorize toy 10 (some ctx) (voucher 90) body journal).0.voucher ≡ (2, (90, "0xab")) ∷ []
unfolding program
ahead = refl

ahead_refused : (ack toy (some ctx) (voucher 90) journal).1 ≡ err ahead_voucher
unfolding program
ahead_refused = refl

authorize-IsGranted_example : IsGranted toy 10 ctx (voucher 50) journal granted permit 50 50
authorize-IsGranted_example =
    authorize-IsGranted toy 10 ctx (voucher 50) body journal granted permit 50 50 authorized

abbrev backend : ℕ → Upstream
backend cap = completed (some 7) (some (cap - 20))

completed_30 : (complete toy 10 (some ctx) (voucher 50) body backend journal).1 ≡ ok (30, 80)
unfolding program
completed_30 = refl

complete-IsServed_example :
    IsServed toy 10 ctx
      (voucher 50)
      journal
      (complete toy 10 (some ctx) (voucher 50) body backend journal).0
      30
      80
complete-IsServed_example =
    complete-IsServed toy 10 ctx (voucher 50) body backend journal 30 80 completed_30

meter-overlapping_example :
    (◌≡◌ {A = ℕ} 50 50)
    × (served_of 2
          (meter toy permit 50
            (completed none (some 10))
            (meter toy permit 50 (completed none (some 30)) granted).0).0
        ≡ 50 + min (or_zero (usage_of permit none (some 10))) (100 - 50))
meter-overlapping_example =
    meter-overlapping toy 10 10 ctx (voucher 50) (voucher 50) body body journal granted granted
      permit permit 50 50 50 50 none (some 30) none (some 10) authorized authorized_again refl

acked :
    ack toy (some ctx) (voucher 50) journal
    ≡ (record journal { voucher = (2, (50, "0xab")) ∷ [] }, ok 50)
unfolding program
acked = refl

ack-IsAcked_example : IsAcked toy ctx (voucher 50) journal granted 50
ack-IsAcked_example = ack-IsAcked toy ctx (voucher 50) journal granted 50 acked
