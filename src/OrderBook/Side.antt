-- ===== src/OrderBook/Side.antt =====
-- crates/orderbook/src/native.rs: one side of the book, and what the loop, `insert` and `remove` do
-- to it.
use inference_bazaar.Base.{
  ◌≡◌, ◌≢◌, sym, inl, inr, false, List, [], ◌∷◌, String, arith, All, All-map, Bool-cases,
}
use inference_bazaar.Base.Int.{
  ℤ, pos, negsuc, InI64, ◌<ℤ◌, ◌≤ℤ◌, ◌-ℤ◌, sub_i64, sub_i64-eq, min_i64, eqb_ℤ, leb_ℤ,
}
use inference_bazaar.OrderBook.Types.{Side, Order}
use inference_bazaar.OrderBook.Native.{before, insert_into, remove, has_id}
use inference_bazaar.OrderBook.Engine.{reduce_maker}
use inference_bazaar.OrderBook.Sorted.{
  Before, IsSorted, All-insert_into, insert_into-IsSorted, All-remove, remove-IsSorted,
}

-- Quantities on which the subtractions of the loop do not wrap.
abbrev pub IsQty : ℤ → Type 0
IsQty q = (pos 0 ≤ℤ q) × InI64 q

pub record IsResting (s : Side) (o : Order) : Type 0 where
  pub on_side : o.side ≡ s
  pub price_positive : pos 0 <ℤ o.price
  pub qty_positive : pos 0 <ℤ o.qty
  pub qty_range : InI64 o.qty

abbrev pub Distinct : List Order → Type 0
Distinct [] = Unit
Distinct (x ∷ xs) = All (λ (y : Order). y.id ≢ x.id) xs × Distinct xs

pub record IsSide (s : Side) (os : List Order) : Type 0 where
  pub resting : All (IsResting s) os
  pub sorted : IsSorted s os
  pub distinct : Distinct os

-- What a print takes from the maker leaves a quantity.
pub print-IsQty :
    (a b : ℤ)
    → IsQty a
    → IsQty b
    → (sub_i64 a (min_i64 a b) ≡ a -ℤ min_i64 a b)
      × (sub_i64 b (min_i64 a b) ≡ b -ℤ min_i64 a b)
      × IsQty (min_i64 a b)
      × IsQty (a -ℤ min_i64 a b)
      × IsQty (b -ℤ min_i64 a b)
unfolding ◌-ℤ◌
print-IsQty (pos a) (pos b) p q = elim (Bool-cases (leb_ℤ (pos a) (pos b))) [
  | inl e ↦ rw e (
    sub_i64-eq (pos a) (pos a) (omega arith) (omega arith) p.1,
    sub_i64-eq (pos b) (pos a) (omega arith) (ground arith) q.1,
    ground arith,
    ground arith,
    ground arith,
  )
  | inr e ↦ rw e (
    sub_i64-eq (pos a) (pos b) (omega arith) (ground arith) p.1,
    sub_i64-eq (pos b) (pos b) (omega arith) (omega arith) q.1,
    ground arith,
    ground arith,
    ground arith,
  )
]
print-IsQty (pos a) (negsuc b) p q = absurd (omega arith)
print-IsQty (negsuc a) b p q = absurd (omega arith)

pub All-reduce_maker {ℓ} :
    (P : Order → Type ℓ) (m : Order) (q : ℤ) (rest : List Order)
    → P (record m { qty = sub_i64 m.qty q })
    → All P rest
    → All P (reduce_maker m q rest)
unfolding reduce_maker
All-reduce_maker P m q rest p all = elim (Bool-cases (eqb_ℤ (sub_i64 m.qty q) (pos 0))) [
  | inl e ↦ rw e all
  | inr e ↦ rw e (p, all)
]

-- Orders behind an order are behind it at any quantity.
Before-qty :
    (s : Side) (m : Order) (q : ℤ) (os : List Order)
    → All (Before s m) os
    → All (Before s (record m { qty = q })) os
unfolding before
Before-qty s m q os = All-map (Before s m) (Before s (record m { qty = q })) os (before_eq s)
  where
    before_eq : (s : Side) (y : Order) → Before s m y → Before s (record m { qty = q }) y
    before_eq Side.buy y h = h
    before_eq Side.sell y h = h

pub IsSide-tail : (s : Side) (m : Order) (rest : List Order) → IsSide s (m ∷ rest) → IsSide s rest
IsSide-tail s m rest h = record {
  resting = h.resting.1;
  sorted = h.sorted.1;
  distinct = h.distinct.1;
}

pub IsSide-reduce_maker :
    (s : Side) (m : Order) (q : ℤ) (rest : List Order)
    → IsQty (sub_i64 m.qty q)
    → IsSide s (m ∷ rest)
    → IsSide s (reduce_maker m q rest)
unfolding reduce_maker
IsSide-reduce_maker s m q rest r h = elim (Bool-cases (eqb_ℤ (sub_i64 m.qty q) (pos 0))) [
  | inl e ↦ rw e (IsSide-tail s m rest h)
  | inr e ↦ rw e (record {
    resting = (
      record {
        on_side = h.resting.0.on_side;
        price_positive = h.resting.0.price_positive;
        qty_positive = positive (sub_i64 m.qty q) r e;
        qty_range = r.1;
      },
      h.resting.1,
    );
    sorted = (Before-qty s m (sub_i64 m.qty q) rest h.sorted.0, h.sorted.1);
    distinct = h.distinct;
  })
]
  where
    positive : (z : ℤ) → IsQty z → eqb_ℤ z (pos 0) ≡ false → pos 0 <ℤ z
    positive z h e = ground arith

Distinct-insert_into :
    (s : Side) (o : Order) (os : List Order)
    → All (λ (y : Order). y.id ≢ o.id) os
    → Distinct os
    → Distinct (insert_into s o os)
unfolding insert_into
Distinct-insert_into s o [] f d = (tt, tt)
Distinct-insert_into s o (x ∷ xs) f d = elim (Bool-cases (before s x o)) [
  | inl e ↦ rw e (
    All-insert_into (λ (y : Order). y.id ≢ x.id) s o xs (λ p. f.0 (sym p)) d.0,
    Distinct-insert_into s o xs f.1 d.1,
  )
  | inr e ↦ rw e (f, d)
]

pub IsSide-insert_into :
    (s : Side) (o : Order) (os : List Order)
    → IsResting s o
    → All (λ (y : Order). y.id ≢ o.id) os
    → IsSide s os
    → IsSide s (insert_into s o os)
IsSide-insert_into s o os r f h = record {
  resting = All-insert_into (IsResting s) s o os r h.resting;
  sorted = insert_into-IsSorted s o os h.sorted;
  distinct = Distinct-insert_into s o os f h.distinct;
}

Distinct-remove : (os : List Order) (id : String) → Distinct os → Distinct (remove os id).0
unfolding remove
Distinct-remove [] id d = tt
Distinct-remove (x ∷ xs) id d = elim (Bool-cases (has_id id x)) [
  | inl e ↦ rw e d.1
  | inr e ↦ rw e (All-remove (λ (y : Order). y.id ≢ x.id) xs id d.0, Distinct-remove xs id d.1)
]

pub IsSide-remove :
    (s : Side) (os : List Order) (id : String) → IsSide s os → IsSide s (remove os id).0
IsSide-remove s os id h = record {
  resting = All-remove (IsResting s) os id h.resting;
  sorted = remove-IsSorted s os id h.sorted;
  distinct = Distinct-remove os id h.distinct;
}
