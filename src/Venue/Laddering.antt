-- ===== src/Venue/Laddering.antt =====
-- operator/src/venue.rs: the ladder of a tick stays within the funding budgets of both sides.
use inference_bazaar.Base.{
  true, refl, ℕ, ◌+◌, ◌*◌, ◌^◌, ◌≤◌, ◌<◌, ◌≡◌, min, arith, subst, List, [], ◌∷◌, ◌++◌, Option, none,
  some, inl, inr, ltb, ◌==◌, if◌then◌else◌, Result, ok, err, panic, Bool-cases, eq_of_some, ==_iff,
}
use inference_bazaar.Settlement.Core.{cost_micro}
use inference_bazaar.OrderBook.Types.{Side, buy, sell, PlaceOutcome, MatchError}
use inference_bazaar.OrderBook.Native.{NativeBook}
use inference_bazaar.Venue.Types.{Venue}
use inference_bazaar.Venue.Rfq.{max_qty}
use inference_bazaar.Venue.Pricing.{max_qty-fits, cost_micro-le}
use native.Mathlib.Nat.{mul-le-mul}
use inference_bazaar.Venue.Making.{Rung, cap_i64, through_f64, cut_rung, Tick, after_rung}

-- The price is of 64 bits, and the size a whole number that a double holds exactly.
abbrev pub IsRung : Rung → Type 0
IsRung (side, (price, qty)) = (price < 2 ^ 64) × (qty < 2 ^ 53)

through_f64-exact : (n : ℕ) → n < 2 ^ 53 → through_f64 n ≡ n
unfolding through_f64
through_f64-exact n h = let small : ltb n (2 ^ 53) ≡ true = ground arith in rw (small) refl

-- What the rungs of a side cost.
abbrev pub ladder_cost : Side → List Rung → ℕ
ladder_cost side [] = 0
ladder_cost buy ((buy, (price, qty)) ∷ rs) = cost_micro price qty + ladder_cost buy rs
ladder_cost buy ((sell, (price, qty)) ∷ rs) = ladder_cost buy rs
ladder_cost sell ((buy, (price, qty)) ∷ rs) = ladder_cost sell rs
ladder_cost sell ((sell, (price, qty)) ∷ rs) = cost_micro price qty + ladder_cost sell rs

ladder_cost-append :
    (side : Side) (xs ys : List Rung)
    → ladder_cost side (xs ++ ys) ≡ ladder_cost side xs + ladder_cost side ys
ladder_cost-append side [] ys = omega arith
ladder_cost-append buy ((buy, (price, qty)) ∷ xs) ys = omega (arith, ladder_cost-append buy xs ys)
ladder_cost-append buy ((sell, (price, qty)) ∷ xs) ys = ladder_cost-append buy xs ys
ladder_cost-append sell ((buy, (price, qty)) ∷ xs) ys = ladder_cost-append sell xs ys
ladder_cost-append sell ((sell, (price, qty)) ∷ xs) ys =
    omega (arith, ladder_cost-append sell xs ys)

-- A smaller order costs less.
cost_micro-monotone :
    (p q p' q' : ℕ) → p' ≤ p → q' ≤ q → p < 2 ^ 64 → q < 2 ^ 64 → cost_micro p' q' ≤ cost_micro p q
unfolding cost_micro
cost_micro-monotone p q p' q' le le' w w' =
    let whole : p * q < 2 ^ 128 = grind arith in
    let part : p' * q' ≤ p * q = mul-le-mul le le' in omega (arith, whole, part)

-- A size that fits a budget at the price of at least one.
fits-1 :
    (budget price qty : ℕ)
    → qty ≤ max_qty budget (if price == 0 then 1 else price)
    → qty < 2 ^ 64
    → cost_micro price qty ≤ budget
fits-1 budget price qty h w = elim (Bool-cases (price == 0)) [
  | inl e ↦
      let free : price * qty ≡ 0 = rw ((==_iff price 0).0 e) (omega arith) in
      omega (arith, cost_micro-le price qty 0 (omega (arith, free)))
  | inr e ↦ max_qty-fits budget price qty (rw (e) at h)
]

-- What is placed on a side and what is left of its budget stay within the first budget.
abbrev pub InBudget : Option (ℕ × ℕ) → List Rung → Option (ℕ × ℕ) → Type 0
InBudget none placed left = Unit
InBudget (some b) placed none = ⊥
InBudget (some (for_sale, for_buy)) placed (some (sell_left, buy_left)) =
    (ladder_cost sell placed + sell_left ≤ for_sale) × (ladder_cost buy placed + buy_left ≤ for_buy)

capped_cost :
    (price qty : ℕ)
    → price < 2 ^ 64
    → qty < 2 ^ 64
    → cost_micro (cap_i64 price) (cap_i64 qty) ≤ cost_micro price qty
capped_cost price qty w w' =
    cost_micro-monotone price qty (cap_i64 price) (cap_i64 qty) (ground arith) (ground arith) w w'

-- One rung more, and the budgets that its cut leaves.
add_rung-InBudget :
    (first : Option (ℕ × ℕ)) (placed : List Rung) (least : ℕ) (side : Side) (price qty kept : ℕ)
    (left left' : Option (ℕ × ℕ))
    → IsRung (side, (price, qty))
    → InBudget first placed left
    → cut_rung least (side, (price, qty)) left ≡ some (kept, left')
    → InBudget first (placed ++ (side, (cap_i64 price, cap_i64 kept)) ∷ []) left'
      × InBudget first placed left'
unfolding cut_rung
add_rung-InBudget none placed least side price qty kept left left' w h e = (tt, tt)
add_rung-InBudget (some b) placed least side price qty kept none left' w h e = absurd h
add_rung-InBudget (some (S, B)) placed least sell price qty kept (some (s, b)) left' w h e =
    let size = min qty (max_qty s (if price == 0 then 1 else price)) in
    elim (Bool-cases (ltb size least)) [
      | inl f ↦ cc (rw (f) at e)
      | inr f ↦
          let e' = eq_of_some (rw (f, through_f64-exact size (ground (arith, w.1))) at e) in
          let c = fits-1 s price size (ground arith) (ground (arith, w.1)) in
          let d = capped_cost price size w.0 (ground (arith, w.1)) in
          subst
            (λ (x : ℕ × Option (ℕ × ℕ)).
              InBudget (some (S, B)) (placed ++ (sell, (cap_i64 price, cap_i64 x.0)) ∷ []) x.1
              × InBudget (some (S, B)) placed x.1)
            e'
            (
              (
                omega (
                  arith,
                  h.0,
                  c,
                  d,
                  ladder_cost-append sell placed ((sell, (cap_i64 price, cap_i64 size)) ∷ []),
                ),
                omega (
                  arith,
                  h.1,
                  ladder_cost-append buy placed ((sell, (cap_i64 price, cap_i64 size)) ∷ []),
                ),
              ),
              (omega (arith, h.0), h.1),
            )
    ]
add_rung-InBudget (some (S, B)) placed least buy price qty kept (some (s, b)) left' w h e =
    let size = min qty (max_qty b (if price == 0 then 1 else price)) in
    elim (Bool-cases (ltb size least)) [
      | inl f ↦ cc (rw (f) at e)
      | inr f ↦
          let e' = eq_of_some (rw (f, through_f64-exact size (ground (arith, w.1))) at e) in
          let c = fits-1 b price size (ground arith) (ground (arith, w.1)) in
          let d = capped_cost price size w.0 (ground (arith, w.1)) in
          subst
            (λ (x : ℕ × Option (ℕ × ℕ)).
              InBudget (some (S, B)) (placed ++ (buy, (cap_i64 price, cap_i64 x.0)) ∷ []) x.1
              × InBudget (some (S, B)) placed x.1)
            e'
            (
              (
                omega (
                  arith,
                  h.0,
                  ladder_cost-append sell placed ((buy, (cap_i64 price, cap_i64 size)) ∷ []),
                ),
                omega (
                  arith,
                  h.1,
                  c,
                  d,
                  ladder_cost-append buy placed ((buy, (cap_i64 price, cap_i64 size)) ∷ []),
                ),
              ),
              (h.0, omega (arith, h.1)),
            )
    ]

-- The state of a tick within its first budgets.
abbrev pub WithinBudget : Option (ℕ × ℕ) → Tick → Type 0
WithinBudget first t = InBudget first t.placed t.budgets

pub after_rung-WithinBudget :
    (first : Option (ℕ × ℕ)) (least : ℕ) (r : Rung) (kept : ℕ) (left : Option (ℕ × ℕ)) (t : Tick)
    (b : Venue) (out : NativeBook × Result MatchError PlaceOutcome)
    → IsRung r
    → WithinBudget first t
    → cut_rung least r t.budgets ≡ some (kept, left)
    → WithinBudget first (after_rung (r.0, (r.1.0, kept)) left t b out).0
unfolding after_rung
after_rung-WithinBudget first least r kept left t b (book, ok x) w h e =
    (add_rung-InBudget first t.placed least r.0 r.1.0 r.1.1 kept t.budgets left w h e).0
after_rung-WithinBudget first least r kept left t b (book, err x) w h e =
    (add_rung-InBudget first t.placed least r.0 r.1.0 r.1.1 kept t.budgets left w h e).1
after_rung-WithinBudget first least r kept left t b (book, panic) w h e =
    (add_rung-InBudget first t.placed least r.0 r.1.0 r.1.1 kept t.budgets left w h e).1

pub InBudget-costs :
    (S B : ℕ) (placed : List Rung) (left : Option (ℕ × ℕ))
    → InBudget (some (S, B)) placed left
    → (ladder_cost sell placed ≤ S) × (ladder_cost buy placed ≤ B)
InBudget-costs S B placed none h = absurd h
InBudget-costs S B placed (some (s, b)) h = (omega (arith, h.0), omega (arith, h.1))
