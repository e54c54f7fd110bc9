-- ===== src/Venue/Pricing.antt =====
-- operator/src/market.rs: the price of a firm quote is rounded against the taker, and its cost fits
-- the budget of its side.
use inference_bazaar.Base.{
  ℕ, ◌+◌, ◌-◌, ◌*◌, ◌/◌, ◌%◌, ◌≤◌, ◌<◌, ◌≡◌, min, arith, zero, suc, sym, ap, ◌∙◌, subst, ◌^◌, ◌⊎◌,
  true, eq_of_ok, Option, none, some, false, inl, inr, ltb, ◌==◌, if◌then◌else◌, ok, Bool-cases,
  Option-cases, eq_of_some,
}
use inference_bazaar.Settlement.Core.{cost_micro}
use inference_bazaar.OrderBook.Types.{Side, buy, sell}
use inference_bazaar.Venue.Types.{F64, finite, infinite, nan}
use inference_bazaar.Venue.Rfq.{
  price_on_tick, max_qty, qty_in_budget, as_u64, vet_quote, fund_quote, saturate_u128, u64_max,
}
use native.Mathlib.Nat.{mul-le-mul, div-lt_iff_lt-mul, div-mul-le_self, mod-add-div', mod-lt}

-- What it means to round against the taker: up for an ask, down for a bid, by less than a tick.
abbrev pub IsRounded : Side → ℕ → ℕ → ℕ → Type 0
IsRounded sell raw tick price = (raw ≤ price) × (price < raw + tick)
IsRounded buy raw tick price = (price ≤ raw) × (raw < price + tick)

pub price_on_tick-IsRounded :
    (side : Side) (raw tick price : ℕ)
    → 0 < tick
    → price_on_tick side raw tick ≡ some price
    → IsRounded side raw tick price × ((k : ℕ) × (price ≡ k * tick))
unfolding price_on_tick
price_on_tick-IsRounded sell raw tick price pos h =
    elim (Bool-cases (ltb u64_max ((raw / tick + (if (raw % tick) == 0 then 0 else 1)) * tick))) [
      | inl e ↦ cc (rw (e) at h)
      | inr e ↦
          let k = raw / tick + (if (raw % tick) == 0 then 0 else 1) in
          let same : k * tick ≡ price = eq_of_some (rw (e) at h) in
          (rw (← same) (rounded_up (mod-add-div' raw tick) (mod-lt raw pos)), (k, sym same))
    ]
  where
    rounded_up :
        raw % tick + raw / tick * tick ≡ raw
        → raw % tick < tick
        → IsRounded sell raw tick ((raw / tick + (if (raw % tick) == 0 then 0 else 1)) * tick)
    rounded_up e l = elim (Bool-cases ((raw % tick) == 0)) [
      | inl z ↦ rw (z) (grind arith)
      | inr z ↦ rw (z) (grind arith)
    ]
price_on_tick-IsRounded buy raw tick price pos h =
    let same : raw / tick * tick ≡ price = eq_of_some h in
    (rw (← same) (rounded_down (mod-add-div' raw tick) (mod-lt raw pos)), (raw / tick, sym same))
  where
    rounded_down :
        raw % tick + raw / tick * tick ≡ raw
        → raw % tick < tick
        → IsRounded buy raw tick (raw / tick * tick)
    rounded_down e l = (omega (arith, e, l), omega (arith, e, l))

pub cost_micro-le :
    (price qty n : ℕ) → price * qty ≤ n → cost_micro price qty ≤ (n + 500_000) / 1_000_000
unfolding cost_micro
cost_micro-le price qty n h = omega arith

pub max_qty-fits :
    (budget price qty : ℕ) → qty ≤ max_qty budget price → cost_micro price qty ≤ budget
unfolding max_qty
max_qty-fits budget price qty h = elim (Bool-cases (price == 0)) [
  | inl e ↦
      let none_left : qty ≤ 0 = rw (e) at h in
      let free : price * qty ≤ 0 = grind arith in omega (arith, cost_micro-le price qty 0 free)
  | inr e ↦
      let room = saturate_u128 (budget * 1_000_000) - 500_000 in
      let fewer : qty ≤ min (room / price) u64_max = rw (e) at h in
      let part : qty ≤ room / price = ground arith in
      let whole = div-mul-le_self room price in
      let within : price * qty ≤ room = grind arith in
      let capped : room ≤ budget * 1_000_000 - 500_000 = ground arith in
      let c = cost_micro-le price qty room within in omega arith
]

-- The cost is within the budget of the side, where budgets are known.
abbrev pub IsFunded : Side → Option (ℕ × ℕ) → ℕ → ℕ → Type 0
IsFunded side none price qty = Unit
IsFunded sell (some (sell_budget, buy_budget)) price qty = cost_micro price qty ≤ sell_budget
IsFunded buy (some (sell_budget, buy_budget)) price qty = cost_micro price qty ≤ buy_budget

qty_in_budget-IsFunded :
    (side : Side) (budgets : Option (ℕ × ℕ)) (price qty : ℕ)
    → IsFunded side budgets price (qty_in_budget side budgets price qty)
      × (qty_in_budget side budgets price qty ≤ qty)
unfolding qty_in_budget
qty_in_budget-IsFunded buy none price qty = (tt, omega arith)
qty_in_budget-IsFunded sell none price qty = (tt, omega arith)
qty_in_budget-IsFunded sell (some (s, b)) price qty =
    (max_qty-fits s price (min qty (max_qty s price)) (ground arith), ground arith)
qty_in_budget-IsFunded buy (some (s, b)) price qty =
    (max_qty-fits b price (min qty (max_qty b price)) (ground arith), ground arith)

-- A bid is not above the sidecar's; an ask is above the sidecar's less one, where that fits.
abbrev pub IsAgainst : Side → F64 → ℕ → Type 0
IsAgainst buy (finite true n e) price = price ≡ 0
IsAgainst buy (finite false n e) price = price * 2 ^ e ≤ n
IsAgainst buy (infinite true) price = price ≡ 0
IsAgainst buy (infinite false) price = Unit
IsAgainst buy nan price = price ≡ 0
IsAgainst sell (finite true n e) price = Unit
IsAgainst sell (finite false n e) price = (2 ^ 64 * 2 ^ e ≤ n) ⊎ (n < (price + 1) * 2 ^ e)
IsAgainst sell (infinite true) price = Unit
IsAgainst sell (infinite false) price = u64_max ≤ price
IsAgainst sell nan price = Unit

le_refl : (n : ℕ) → n ≤ n
le_refl n = omega arith

two_pow-positive : (e : ℕ) → 0 < 2 ^ e
two_pow-positive zero = omega arith
two_pow-positive (suc e) = omega (arith, two_pow-positive e)

rounded-IsAgainst :
    (side : Side) (quoted : F64) (tick price : ℕ)
    → IsRounded side (as_u64 quoted) tick price
    → IsAgainst side quoted price
unfolding as_u64
rounded-IsAgainst buy (finite true n e) tick price h = omega (arith, h.0)
rounded-IsAgainst buy (finite false n e) tick price h =
    let le : price ≤ n / 2 ^ e = ground (arith, h.0) in
    let scaled : price * 2 ^ e ≤ n / 2 ^ e * 2 ^ e = mul-le-mul le (le_refl (2 ^ e)) in
    omega (arith, scaled, div-mul-le_self n (2 ^ e))
rounded-IsAgainst buy (infinite true) tick price h = omega (arith, h.0)
rounded-IsAgainst buy (infinite false) tick price h = tt
rounded-IsAgainst buy nan tick price h = omega (arith, h.0)
rounded-IsAgainst sell (finite true n e) tick price h = tt
rounded-IsAgainst sell (finite false n e) tick price h =
    elim (Bool-cases (ltb u64_max (n / 2 ^ e))) [
      | inl f ↦
          let le : 2 ^ 64 ≤ n / 2 ^ e = ground arith in
          let scaled : 2 ^ 64 * 2 ^ e ≤ n / 2 ^ e * 2 ^ e = mul-le-mul le (le_refl (2 ^ e)) in
          inl (omega (arith, scaled, div-mul-le_self n (2 ^ e)))
      | inr f ↦
          let lt : n / 2 ^ e < price + 1 = ground (arith, h.0) in
          inr ((div-lt_iff_lt-mul (two_pow-positive e)).0 lt)
    ]
rounded-IsAgainst sell (infinite true) tick price h = tt
rounded-IsAgainst sell (infinite false) tick price h = h.0
rounded-IsAgainst sell nan tick price h = tt

-- What a firm quote is.
pub record IsFirm (side : Side) (quoted : F64) (quoted_qty tick min_qty wanted : ℕ)
    (budgets : Option (ℕ × ℕ)) (price qty : ℕ) : Type 0 where
  pub against : IsAgainst side quoted price
  pub rounded : IsRounded side (as_u64 quoted) tick price
  pub on_tick : (k : ℕ) × (price ≡ k * tick)
  pub positive : 0 < price
  pub asked : qty ≤ wanted
  pub offered : qty ≤ quoted_qty
  pub enough : min_qty ≤ qty
  pub funded : IsFunded side budgets price qty

-- What passes the checks before and after the refresh of the budgets is firm.
pub fund_quote-IsFirm :
    (side : Side) (quoted : F64) (quoted_qty tick min_qty wanted : ℕ) (budgets : Option (ℕ × ℕ))
    (price size qty : ℕ)
    → 0 < tick
    → vet_quote side quoted quoted_qty tick min_qty wanted ≡ ok (price, size)
    → fund_quote side min_qty budgets (price, size) ≡ ok qty
    → IsFirm side quoted quoted_qty tick min_qty wanted budgets price qty
unfolding vet_quote fund_quote
fund_quote-IsFirm side quoted quoted_qty tick min_qty wanted budgets price size qty pos h k =
    elim (Option-cases (price_on_tick side (as_u64 quoted) tick)) [
      | inl e ↦ cc (rw (e, vet_quote) at h)
      | inr (p, e) ↦ elim (Bool-cases (p == 0)) [
        | inl z ↦ cc (rw (e, z, vet_quote) at h)
        | inr z ↦ elim (Bool-cases (ltb (min wanted quoted_qty) min_qty)) [
          | inl f ↦ cc (rw (e, z, f, vet_quote) at h)
          | inr f ↦
              let same = eq_of_ok (rw (e, z, f, vet_quote) at h) in
              firm p e z (ap (λ r. r.0) same) (ap (λ r. r.1) same)
        ]
      ]
    ]
  where
    firm :
        (p : ℕ)
        → price_on_tick side (as_u64 quoted) tick ≡ some p
        → (p == 0) ≡ false
        → p ≡ price
        → min wanted quoted_qty ≡ size
        → IsFirm side quoted quoted_qty tick min_qty wanted budgets price qty
    firm p e z same_price same_size =
        let e' : price_on_tick side (as_u64 quoted) tick ≡ some price = e ∙ ap some same_price in
        let (rounded, k') = price_on_tick-IsRounded side (as_u64 quoted) tick price pos e' in
        let (funded, fewer) = qty_in_budget-IsFunded side budgets price size in
        elim (Bool-cases (ltb (qty_in_budget side budgets price size) min_qty)) [
          | inl g ↦ cc (rw (g, fund_quote) at k)
          | inr g ↦
              let same : qty_in_budget side budgets price size ≡ qty =
                eq_of_ok (rw (g, fund_quote) at k) in
              record {
                against = rounded-IsAgainst side quoted tick price rounded;
                rounded = rounded;
                on_tick = k';
                positive = ground (arith, same_price);
                asked = ground (arith, fewer, same, same_size);
                offered = ground (arith, fewer, same, same_size);
                enough = ground (arith, same);
                funded = subst (IsFunded side budgets price) same funded;
              }
        ]
