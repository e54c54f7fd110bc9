-- ===== src/Credits/Tests.antt =====
-- operator/src/credits.rs: a selection of lots, and the theorem at it.
use inference_bazaar.Base.{ℕ, ◌≡◌, ◌≤◌, refl, List, [], ◌∷◌, map, All}
use inference_bazaar.Base.Sets.{Member, sort_by, Ordered}
use inference_bazaar.Base.Text.{word_hex}
use inference_bazaar.Settlement.Types.{B256}
use inference_bazaar.Credits.{
  IsLotOf, IsSpendable, LotView, CreditEntry, is_spendable, sooner, picked, entry_of,
  select_credits, select_credits-sorted,
}

abbrev lot : B256 → ℕ → ℕ → ℕ → ℕ → LotView
lot instrument qty locked expiry notional = record {
  instrument = instrument;
  qty_tokens = qty;
  locked_tokens = locked;
  expiry = expiry;
  notional_micro = notional;
}

abbrev lots : List (B256 × LotView)
lots =
    (1, lot 170 50_000 0 2_000 600_000)
    ∷ (2, lot 170 40_000 0 1_500 500_000)
    ∷ (3, lot 187 99_000 0 9_000 900_000)
    ∷ (4, lot 170 10_000 10_000 9_000 100_000)
    ∷ (5, lot 170 30_000 0 500 300_000)
    ∷ []

-- The other instrument, the locked lot and the expired one are left out.
two_left :
    ◌≡◌ {A = List ℕ}
      (map (λ (e : CreditEntry). e.strike_micro_per_m) (select_credits lots 170 1_000))
      (12_500_000 ∷ 12_000_000 ∷ [])
unfolding select_credits picked entry_of is_spendable sooner sort_by word_hex
two_left = refl

select_credits-sorted_example :
    Ordered (λ (a b : CreditEntry). a.expiry ≤ b.expiry) (select_credits lots 170 1_000)
    × All (IsLotOf lots 170 1_000) (select_credits lots 170 1_000)
    × ((q : B256 × LotView)
        → Member q lots
        → IsSpendable 170 1_000 q
        → (e : CreditEntry) × Member e (select_credits lots 170 1_000) × (e.lot_id ≡ word_hex q.0))
select_credits-sorted_example = select_credits-sorted lots 170 1_000
