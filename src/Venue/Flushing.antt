-- ===== src/Venue/Flushing.antt =====
-- operator/src/market.rs: a flush of the outbox loses no live fill without saying so.
use inference_bazaar.Base.{All, ℕ, ◌+◌, ◌≡◌, ◌⊎◌, List, [], ◌++◌, Bool, false, not, length, select}
use inference_bazaar.Settlement.Fills.{SignedFill}
use inference_bazaar.Venue.Types.{SignedState, Venue}
use inference_bazaar.Venue.Outbox.{
  is_live, Answer, unconfigured, unreachable, connected, FlushReport,
}

module _ {A : Type 0} where
  -- How many elements pass a test.
  abbrev pub count : (A → Bool) → List A → ℕ
  count p xs = length (select p xs)

-- What becomes of the live fills: when the chain cannot be asked all of them are queued again; when
-- it can none is, and those that are dropped were refused with the batch and alone.
abbrev pub IsFate : Answer → List SignedFill → List SignedFill → FlushReport → Type 0
IsFate unconfigured live kept r = kept ≡ live
IsFate unreachable live kept r = kept ≡ live
IsFate (connected batch alone) live kept r =
    (kept ≡ []) × All (λ f. (batch ≡ false) × (alone f ≡ false)) r.dropped

-- What a flush does with the outbox: of the fills that pass a test, as many as were queued are
-- submitted, dropped, expired or queued again; only live fills are queued again, before those that
-- arrived meanwhile, all of them or none; and the orders and counts stay.
pub record IsFlushed (now : ℕ) (a : Answer) (arrived : List SignedFill) (s s' : SignedState)
    (r : FlushReport) : Type 0 where
  pub kept : List SignedFill
  pub requeued : s'.outbox ≡ kept ++ arrived
  pub all_or_none : (kept ≡ []) ⊎ (kept ≡ select (is_live now) s.outbox)
  pub fate : IsFate a (select (is_live now) s.outbox) kept r
  pub expiries : r.expired ≡ select (λ f. not (is_live now f)) s.outbox
  pub accounted :
      (q : SignedFill → Bool)
      → count q r.submitted + count q r.dropped + count q r.expired + count q kept
        ≡ count q s.outbox
  pub orders : s'.orders ≡ s.orders
  pub filled : s'.filled ≡ s.filled

module _ (now : ℕ) (arrived : List SignedFill) (s : SignedState) where
  abbrev live : List SignedFill
  live = select (is_live now) s.outbox

  abbrev expired : List SignedFill
  expired = select (λ f. not (is_live now f)) s.outbox
