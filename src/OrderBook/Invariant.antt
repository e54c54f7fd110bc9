-- ===== src/OrderBook/Invariant.antt =====
-- crates/orderbook/src/native.rs: the well-formed book, and its two sides, and what admission checks.
use inference_bazaar.Base.{
  ◌≡◌, ◌≢◌, refl, sym, false, List, [], ◌∷◌, String, arith, All, eq_iff, any, ok,
}
use inference_bazaar.Base.Int.{pos, ◌<ℤ◌, ◌≤ℤ◌}
use inference_bazaar.OrderBook.Types.{Side, buy, sell, opposite, Order}
use inference_bazaar.OrderBook.Native.{
  NativeBook, insert_into, insert_on, has_id, side_of, with_side, validate,
}
use inference_bazaar.OrderBook.Engine.{Matching, crosses}
use inference_bazaar.OrderBook.Side.{IsSide}

-- An order `x` that rests on side `s` and an opposite one `m`: they do not cross, and have two ids.
abbrev pub Apart : Side → Order → Order → Type 0
Apart s x m = (crosses s m.price x.price ≡ false) × (m.id ≢ x.id)

-- Every bid is apart from every ask.
abbrev pub AllApart : Side → List Order → List Order → Type 0
AllApart s xs ms = All (λ x. All (Apart s x) ms) xs

pub record IsBook (b : NativeBook) : Type 0 where
  pub min_positive : pos 0 <ℤ b.min_qty
  pub bids_side : IsSide buy b.bids
  pub asks_side : IsSide sell b.asks
  pub uncrossed : AllApart buy b.bids b.asks

-- The same, seen from the asks.
pub Apart-flip : (x m : Order) → Apart buy x m → Apart sell m x
unfolding crosses
Apart-flip x m h = (h.0, λ p. h.1 (sym p))

pub Apart-flip_back : (x m : Order) → Apart sell m x → Apart buy x m
unfolding crosses
Apart-flip_back x m h = (h.0, λ p. h.1 (sym p))

pub All-zip {ℓ} :
    (P : Order → Type ℓ) (Q : Order → Type ℓ) (R : Order → Type ℓ) (xs : List Order)
    → ((x : Order) → P x → Q x → R x)
    → All P xs
    → All Q xs
    → All R xs
All-zip P Q R [] f p q = tt
All-zip P Q R (x ∷ xs) f p q = (f x p.0 q.0, All-zip P Q R xs f p.1 q.1)

pub All-All : (P : Order → Type 0) (xs : List Order) → ((x : Order) → P x) → All P xs
All-All P [] f = tt
All-All P (x ∷ xs) f = (f x, All-All P xs f)

-- A relation between two lists, read from the other end.
pub All-swap :
    (R Q : Order → Order → Type 0) (xs ys : List Order)
    → ((x y : Order) → R x y → Q y x)
    → All (λ x. All (R x) ys) xs
    → All (λ y. All (Q y) xs) ys
All-swap R Q [] ys f h = All-All (λ y. Unit {0}) ys (λ y. tt)
All-swap R Q (x ∷ xs) ys f h =
    All-zip (R x) (λ y. All (Q y) xs) (λ y. Q y x × All (Q y) xs) ys (λ y r q. (f x y r, q)) h.0
      (All-swap R Q xs ys f h.1)

pub any_fresh :
    (id : String) (os : List Order) → any (has_id id) os ≡ false → All (λ (y : Order). y.id ≢ id) os
any_fresh id [] h = tt
any_fresh id (o ∷ os) h = (ground (arith, eq_iff o.id id), any_fresh id os (ground arith))

pub validate-ok :
    (b : NativeBook) (o : Order) (u : Unit {0})
    → validate b o ≡ ok u
    → (o.instrument_id ≡ b.instrument_id) × (pos 0 <ℤ o.price) × (b.min_qty ≤ℤ o.qty)
unfolding validate
validate-ok b o u h = ground (arith, eq_iff o.instrument_id b.instrument_id)

pub IsBook-side : (s : Side) (b : NativeBook) → IsBook b → IsSide s (side_of s b)
unfolding side_of
IsBook-side buy b h = h.bids_side
IsBook-side sell b h = h.asks_side

pub IsBook-apart :
    (s : Side) (b : NativeBook) → IsBook b → AllApart s (side_of s b) (side_of (opposite s) b)
unfolding side_of opposite
IsBook-apart buy b h = h.uncrossed
IsBook-apart sell b h = All-swap (Apart buy) (Apart sell) b.bids b.asks Apart-flip h.uncrossed

-- A book from the two sides, seen from either.
pub IsBook-of_sides :
    (s : Side) (b : NativeBook)
    → pos 0 <ℤ b.min_qty
    → IsSide s (side_of s b)
    → IsSide (opposite s) (side_of (opposite s) b)
    → AllApart s (side_of s b) (side_of (opposite s) b)
    → IsBook b
unfolding side_of opposite
IsBook-of_sides buy b p h k a = record {
  min_positive = p;
  bids_side = h;
  asks_side = k;
  uncrossed = a;
}
IsBook-of_sides sell b p h k a = record {
  min_positive = p;
  bids_side = k;
  asks_side = h;
  uncrossed = All-swap (Apart sell) (Apart buy) b.asks b.bids (λ x m. Apart-flip_back m x) a;
}

-- The book without a remainder, and with one.
abbrev pub closed : Side → NativeBook → Matching → NativeBook
closed side b s = record (with_side (opposite side) s.makers b) {
  last_trade_price = s.last_trade_price;
}

pub closed_parts :
    (side : Side) (b : NativeBook) (s : Matching)
    → (side_of side (closed side b s) ≡ side_of side b)
      × (side_of (opposite side) (closed side b s) ≡ s.makers)
      × ((closed side b s).min_qty ≡ b.min_qty)
unfolding side_of with_side opposite
closed_parts buy b s = (refl, refl, refl)
closed_parts sell b s = (refl, refl, refl)

pub insert_on_parts :
    (side : Side) (o : Order) (b : NativeBook)
    → (side_of side (insert_on side o b) ≡ insert_into side o (side_of side b))
      × (side_of (opposite side) (insert_on side o b) ≡ side_of (opposite side) b)
      × ((insert_on side o b).min_qty ≡ b.min_qty)
unfolding insert_on opposite
insert_on_parts buy o b = (refl, refl, refl)
insert_on_parts sell o b = (refl, refl, refl)
