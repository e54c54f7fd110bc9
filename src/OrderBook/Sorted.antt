-- ===== src/OrderBook/Sorted.antt =====
-- crates/orderbook/src/native.rs: the order of a side of the book, and how `insert` and `remove`
-- keep it.
use inference_bazaar.Base.{
  ◌≡◌, inl, inr, true, false, List, [], ◌∷◌, String, arith, All, All-map, Bool-cases,
}
use inference_bazaar.OrderBook.Types.{Side, buy, sell, Order}
use inference_bazaar.OrderBook.Native.{before, insert_into, remove, has_id}

-- `y` may stand behind `x`.
abbrev pub Before : Side → Order → Order → Type 0
Before s x y = before s x y ≡ true

abbrev pub IsSorted : Side → List Order → Type 0
IsSorted s [] = Unit
IsSorted s (x ∷ xs) = All (Before s x) xs × IsSorted s xs

pub Before-trans : (s : Side) (x y z : Order) → Before s x y → Before s y z → Before s x z
unfolding before
Before-trans buy x y z p q = ground arith
Before-trans sell x y z p q = ground arith

pub before_total : (s : Side) (x y : Order) → before s x y ≡ false → Before s y x
unfolding before
before_total buy x y p = ground arith
before_total sell x y p = ground arith

pub All-insert_into {ℓ} :
    (P : Order → Type ℓ) (s : Side) (o : Order) (os : List Order)
    → P o
    → All P os
    → All P (insert_into s o os)
unfolding insert_into
All-insert_into P s o [] p all = (p, tt)
All-insert_into P s o (x ∷ xs) p all = elim (Bool-cases (before s x o)) [
  | inl e ↦ rw e (all.0, All-insert_into P s o xs p all.1)
  | inr e ↦ rw e (p, all)
]

pub insert_into-IsSorted :
    (s : Side) (o : Order) (os : List Order) → IsSorted s os → IsSorted s (insert_into s o os)
unfolding insert_into
insert_into-IsSorted s o [] h = (tt, tt)
insert_into-IsSorted s o (x ∷ xs) h = elim (Bool-cases (before s x o)) [
  | inl e ↦ rw e (All-insert_into (Before s x) s o xs e h.0, insert_into-IsSorted s o xs h.1)
  | inr e ↦ rw e (
    (
      before_total s x o e,
      All-map (Before s x) (Before s o) xs (λ y. Before-trans s o x y (before_total s x o e)) h.0,
    ),
    h,
  )
]

pub All-remove {ℓ} :
    (P : Order → Type ℓ) (os : List Order) (id : String) → All P os → All P (remove os id).0
unfolding remove
All-remove P [] id all = tt
All-remove P (x ∷ xs) id all = elim (Bool-cases (has_id id x)) [
  | inl e ↦ rw e all.1
  | inr e ↦ rw e (all.0, All-remove P xs id all.1)
]

pub remove-IsSorted :
    (s : Side) (os : List Order) (id : String) → IsSorted s os → IsSorted s (remove os id).0
unfolding remove
remove-IsSorted s [] id h = tt
remove-IsSorted s (x ∷ xs) id h = elim (Bool-cases (has_id id x)) [
  | inl e ↦ rw e h.1
  | inr e ↦ rw e (All-remove (Before s x) xs id h.0, remove-IsSorted s xs id h.1)
]
