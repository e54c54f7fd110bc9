-- ===== src/OrderBook/Cancel.antt =====
-- crates/orderbook/src/native.rs: what `cancel` takes out of the book, and what it leaves.
use inference_bazaar.Base.{
  ◌≡◌, ◌≢◌, refl, sym, ◌∙◌, true, false, List, [], ◌∷◌, ◌++◌, String, arith, All, inl, inr,
  Bool-cases, Option, none, some, eq_iff, if◌then◌else◌, any, ◌||◌,
}
use inference_bazaar.OrderBook.Types.{Order, buy}
use inference_bazaar.OrderBook.Native.{NativeBook, id_exists, has_id, remove}
use inference_bazaar.OrderBook.Engine.{cancel}
use inference_bazaar.OrderBook.Side.{Distinct}
use inference_bazaar.OrderBook.Invariant.{IsBook, Apart, AllApart}

-- The first order with an id, read from the book.
pub find_order : String → List Order → Option Order
find_order id [] = none
find_order id (o ∷ os) = if has_id id o then some o else find_order id os

find_order-remove :
    (id j : String) (os : List Order) → j ≢ id → find_order j (remove os id).0 ≡ find_order j os
unfolding find_order remove
find_order-remove id j [] n = refl
find_order-remove id j (o ∷ os) n =
    ground (arith, eq_iff o.id id, eq_iff o.id j, find_order-remove id j os n)

pub remove-found : (id : String) (os : List Order) → (remove os id).1 ≡ any (has_id id) os
unfolding remove
remove-found id [] = refl
remove-found id (o ∷ os) = ground (arith, remove-found id os)

any-append :
    (id : String) (xs ys : List Order)
    → any (has_id id) (xs ++ ys) ≡ (any (has_id id) xs || any (has_id id) ys)
any-append id [] ys = refl
any-append id (x ∷ xs) ys = ground (arith, any-append id xs ys)

-- Orders that all have other ids.
pub other_ids :
    (id : String) (os : List Order) → All (λ (y : Order). y.id ≢ id) os → any (has_id id) os ≡ false
other_ids id [] h = refl
other_ids id (o ∷ os) h = ground (arith, h.0, eq_iff o.id id, other_ids id os h.1)

remove-absent :
    (id : String) (os : List Order) → Distinct os → any (has_id id) (remove os id).0 ≡ false
unfolding remove
remove-absent id [] d = refl
remove-absent id (o ∷ os) d = elim (Bool-cases (has_id id o)) [
  | inl e ↦ rw e (other_ids id os (rw ((eq_iff o.id id).0 e) at d.0))
  | inr e ↦ rw (e, e) (remove-absent id os d.1)
]

Apart-ids :
    (x : Order) (ms : List Order) → All (Apart buy x) ms → All (λ (m : Order). m.id ≢ x.id) ms
Apart-ids x [] h = tt
Apart-ids x (m ∷ ms) h = (h.0.1, Apart-ids x ms h.1)

pub bid_not_ask :
    (id : String) (bids asks : List Order)
    → AllApart buy bids asks
    → any (has_id id) bids ≡ true
    → any (has_id id) asks ≡ false
bid_not_ask id [] asks a h = cc
bid_not_ask id (x ∷ xs) asks a h = elim (Bool-cases (has_id id x)) [
  | inl e ↦ other_ids id asks (rw ((eq_iff x.id id).0 e) at (Apart-ids x asks a.0))
  | inr e ↦ bid_not_ask id xs asks a.1 (ground arith)
]

-- In a well-formed book `cancel` says whether the id was there; afterwards it is not; and every
-- other id finds the order that it found before.
pub cancel_lem :
    (b : NativeBook) (id j : String)
    → IsBook b
    → j ≢ id
    → ((cancel b id).1 ≡ id_exists b id)
      × (id_exists (cancel b id).0 id ≡ false)
      × (find_order j (cancel b id).0.bids ≡ find_order j b.bids)
      × (find_order j (cancel b id).0.asks ≡ find_order j b.asks)
unfolding cancel id_exists
cancel_lem b id j h n = elim (Bool-cases (remove b.bids id).1) [
  | inl e ↦
      let here = sym (remove-found id b.bids) ∙ e in
      rw e (
        sym (any-append id b.bids b.asks ∙ rw here refl),
        any-append id (remove b.bids id).0 b.asks
            ∙ rw (remove-absent id b.bids h.bids_side.distinct)
                (bid_not_ask id b.bids b.asks h.uncrossed here),
        find_order-remove id j b.bids n,
        refl,
      )
  | inr e ↦
      let gone = sym (remove-found id b.bids) ∙ e in
      rw e (
        remove-found id b.asks ∙ sym (any-append id b.bids b.asks ∙ rw gone refl),
        any-append id (remove b.bids id).0 (remove b.asks id).0
            ∙ rw (remove-absent id b.bids h.bids_side.distinct)
                (remove-absent id b.asks h.asks_side.distinct),
        find_order-remove id j b.bids n,
        find_order-remove id j b.asks n,
      )
]
