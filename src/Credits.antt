-- ===== src/Credits.antt =====
-- operator/src/credits.rs: which lots a holder can spend on an instrument now, soonest expiry first.
mod Tests
use inference_bazaar.Base.{
  ℕ, ◌+◌, refl, ap, All-map, ◌-◌, ◌*◌, ◌/◌, ◌%◌, ◌^◌, ◌≤◌, ◌<◌, ◌≡◌, arith, String, List, [], ◌∷◌,
  map, Bool, true, false, ◌&&◌, ◌||◌, ◌⊎◌, inl, inr, All, Bool-cases, ltb, leb, ◌==◌, if◌then◌else◌,
  select,
}
use inference_bazaar.Base.Maps.{Member-select}
use inference_bazaar.Base.Sets.{
  Member, sort_by, All-sort_by, sort_by-Ordered, sort_by-members, Ordered, SameMembers,
}
use inference_bazaar.Base.Text.{word_hex}
use inference_bazaar.Settlement.Types.{B256}

pub record LotView : Type 0 where
  pub instrument : B256
  pub qty_tokens : ℕ
  pub locked_tokens : ℕ
  pub expiry : ℕ
  pub notional_micro : ℕ

pub record CreditEntry : Type 0 where
  pub lot_id : String
  pub qty_remaining : ℕ
  pub strike_micro_per_m : ℕ
  pub expiry : ℕ

unfoldable pub is_spendable : B256 → ℕ → B256 × LotView → Bool
is_spendable want_instrument now q =
    q.1.instrument == want_instrument
    && (ltb q.1.locked_tokens q.1.qty_tokens && ltb now q.1.expiry)

-- By expiry, ties by lot.
unfoldable pub sooner : B256 × LotView → B256 × LotView → Bool
sooner p q = ltb p.1.expiry q.1.expiry || (p.1.expiry == q.1.expiry && leb p.0 q.0)

unfoldable pub picked : List (B256 × LotView) → B256 → ℕ → List (B256 × LotView)
unfolding is_spendable sooner sort_by
picked lots want_instrument now = sort_by sooner (select (is_spendable want_instrument now) lots)

-- The strike is computed in `u128`, which wraps.
unfoldable pub entry_of : B256 × LotView → CreditEntry
entry_of q = record {
  lot_id = word_hex q.0;
  qty_remaining = q.1.qty_tokens - q.1.locked_tokens;
  strike_micro_per_m =
      if ltb 0 q.1.qty_tokens then q.1.notional_micro * 1_000_000 % 2 ^ 128 / q.1.qty_tokens else 0;
  expiry = q.1.expiry;
}

unfoldable pub select_credits : List (B256 × LotView) → B256 → ℕ → List CreditEntry
unfolding picked entry_of
select_credits lots want_instrument now = map entry_of (picked lots want_instrument now)

abbrev Sooner : B256 × LotView → B256 × LotView → Type 0
Sooner p q = (p.1.expiry < q.1.expiry) ⊎ ((p.1.expiry ≡ q.1.expiry) × (p.0 ≤ q.0))

Sooner-trans : (p q r : B256 × LotView) → Sooner p q → Sooner q r → Sooner p r
Sooner-trans p q r (inl a) (inl b) = inl (omega arith)
Sooner-trans p q r (inl a) (inr b) = inl (omega (arith, b.0))
Sooner-trans p q r (inr a) (inl b) = inl (omega (arith, a.0))
Sooner-trans p q r (inr a) (inr b) = inr (omega (arith, a.0, b.0), omega (arith, a.1, b.1))

sooner-Sooner : (p q : B256 × LotView) → sooner p q ≡ true → Sooner p q
unfolding sooner
sooner-Sooner p q h = ground arith

sooner-turned : (p q : B256 × LotView) → sooner p q ≡ false → Sooner q p
unfolding sooner
sooner-turned p q h = ground arith

related : (xs : List (B256 × LotView)) → Ordered (λ p q. Unit {0}) xs
related [] = tt
related (x ∷ xs) = (alone xs, related xs)
  where
    alone : (ys : List (B256 × LotView)) → All (λ q. Unit {0}) ys
    alone [] = tt
    alone (y ∷ ys) = (tt, alone ys)

-- From each lot on, the entries behind it expire no sooner.
entries-Ordered :
    (xs : List (B256 × LotView))
    → Ordered Sooner xs
    → Ordered (λ (a b : CreditEntry). a.expiry ≤ b.expiry) (map entry_of xs)
unfolding entry_of
entries-Ordered [] o = tt
entries-Ordered (x ∷ xs) o = (behind x xs o.0, entries-Ordered xs o.1)
  where
    behind :
        (y : B256 × LotView) (ys : List (B256 × LotView))
        → All (Sooner y) ys
        → All (λ (b : CreditEntry). y.1.expiry ≤ b.expiry) (map entry_of ys)
    behind y [] h = tt
    behind y (z ∷ zs) h = (le h.0, behind y zs h.1)
      where
        le : Sooner y z → y.1.expiry ≤ z.1.expiry
        le (inl a) = omega arith
        le (inr a) = omega (arith, a.0)

Member-map :
    {A B : Type 0} (f : A → B) (x : A) (xs : List A) → Member x xs → Member (f x) (map f xs)
Member-map f x [] h = absurd h
Member-map f x (y ∷ ys) (inl e) = inl (ap f e)
Member-map f x (y ∷ ys) (inr m) = inr (Member-map f x ys m)

-- The lot counts for the instrument, has tokens left and has not expired.
pub record IsSpendable (want now : ℕ) (q : B256 × LotView) : Type 0 where
  pub named : q.1.instrument ≡ want
  pub unlocked : q.1.locked_tokens < q.1.qty_tokens
  pub unexpired : now < q.1.expiry

-- The lot with the fields of its entry.
abbrev pub IsLotOf : List (B256 × LotView) → ℕ → ℕ → CreditEntry → Type 0
IsLotOf lots want now e =
    (q : B256 × LotView) × Member q lots
    × IsSpendable want now q
    × (e.lot_id ≡ word_hex q.0)
    × (e.expiry ≡ q.1.expiry)
    × (e.qty_remaining + q.1.locked_tokens ≡ q.1.qty_tokens)

Member-picked :
    (want now : ℕ) (q : B256 × LotView) (lots : List (B256 × LotView))
    → Member q lots
    → IsSpendable want now q
    → Member q (select (is_spendable want now) lots)
unfolding is_spendable
Member-picked want now q lots m s =
    Member-select (is_spendable want now) q lots m
      (ground (arith, s.named, s.unlocked, s.unexpired))

picked-Member :
    (want now : ℕ) (all lots : List (B256 × LotView))
    → All (λ q. Member q all) lots
    → All (λ q. Member q all × IsSpendable want now q) (select (is_spendable want now) lots)
unfolding is_spendable
picked-Member want now all [] h = tt
picked-Member want now all (x ∷ xs) h = elim (Bool-cases (is_spendable want now x)) [
  | inl e ↦ rw (e) (
    (h.0, record { named = ground arith; unlocked = ground arith; unexpired = ground arith }),
    picked-Member want now all xs h.1,
  )
  | inr e ↦ rw (e) (picked-Member want now all xs h.1)
]

every-Member : {A : Type 0} (xs : List A) → All (λ x. Member x xs) xs
every-Member [] = tt
every-Member (x ∷ xs) = (inl refl, All-map _ _ xs (λ y m. inr m) (every-Member xs))

entries-IsLotOf :
    (want now : ℕ) (lots xs : List (B256 × LotView))
    → All (λ q. Member q lots × IsSpendable want now q) xs
    → All (IsLotOf lots want now) (map entry_of xs)
unfolding entry_of
entries-IsLotOf want now lots [] h = tt
entries-IsLotOf want now lots (x ∷ xs) h = (
  (x, h.0.0, h.0.1, refl, refl, omega (arith, h.0.1.unlocked)),
  entries-IsLotOf want now lots xs h.1,
)

-- The credits stand soonest expiry first; each is of a listed lot of the instrument, with tokens
-- that are not locked, before its expiry, and has that lot's id and expiry and what is not locked;
-- and each listed lot of the instrument that has such tokens and has not expired is among them.
pub select_credits-sorted :
    (lots : List (B256 × LotView)) (want now : ℕ)
    → Ordered (λ (a b : CreditEntry). a.expiry ≤ b.expiry) (select_credits lots want now)
      × All (IsLotOf lots want now) (select_credits lots want now)
      × ((q : B256 × LotView)
          → Member q lots
          → IsSpendable want now q
          → (e : CreditEntry) × Member e (select_credits lots want now) × (e.lot_id ≡ word_hex q.0))
unfolding select_credits picked entry_of
select_credits-sorted lots want now =
    let chosen = select (is_spendable want now) lots in
    (
      entries-Ordered (sort_by sooner chosen) (
          sort_by-Ordered sooner Sooner Sooner-trans (λ p q. Unit {0})
            (λ p q d h. sooner-Sooner p q h) (λ p q d h. sooner-turned p q h) chosen
            (related chosen)),
      entries-IsLotOf want now lots (sort_by sooner chosen) (
          All-sort_by sooner (λ q. Member q lots × IsSpendable want now q) chosen
            (picked-Member want now lots lots (every-Member lots))),
      λ q m s. (
        entry_of q,
        Member-map entry_of q (sort_by sooner chosen)
            ((sort_by-members sooner chosen q).1 (Member-picked want now q lots m s)),
        refl,
      ),
    )
