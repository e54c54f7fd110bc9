-- ===== src/Matcher/Election.antt =====
-- crates/matcher/src/consensus.rs: the election depends on the operator set only, and is fair.
use native.Mathlib.Nat.{mod-lt, mod-eq_of_lt, mod-add-div', mul-add-mod_self_right}
use inference_bazaar.Base.{
  leb→le, ℕ, suc, ◌+◌, ◌*◌, ◌/◌, ◌%◌, ◌<◌, ◌≤◌, List, [], ◌∷◌, some, ◌≡◌, refl, sym, ap, ◌∙◌, inl,
  inr, arith, leb, length, Bool-cases, false,
}
use inference_bazaar.Base.Sets.{
  Member, SameMembers, sort_dedup, sort_dedup_unique, sort_dedup-members,
}
use inference_bazaar.Settlement.Types.{Address}
use inference_bazaar.Settlement.Core.{nth}
use inference_bazaar.Matcher.Consensus.{elect_proposer}

-- Lists with the same operators, in whatever order and however often each, elect the same proposer.
pub elect_proposer_set :
    (xs ys : List Address) (epoch : ℕ)
    → SameMembers xs ys
    → elect_proposer xs epoch ≡ elect_proposer ys epoch
unfolding elect_proposer
elect_proposer_set [] [] epoch s = refl
elect_proposer_set [] (y ∷ ys) epoch s = absurd ((s y).1 (inl refl))
elect_proposer_set (x ∷ xs) [] epoch s = absurd ((s x).0 (inl refl))
elect_proposer_set (x ∷ xs) (y ∷ ys) epoch s = rw (sort_dedup_unique (x ∷ xs) (y ∷ ys) s)

nth_of_Member :
    (a : Address) (xs : List Address)
    → Member a xs
    → (i : ℕ) × (i < length xs) × (nth xs i ≡ some a)
nth_of_Member a [] m = absurd m
nth_of_Member a (x ∷ xs) (inl e) = (0, omega arith, ap some (sym e))
nth_of_Member a (x ∷ xs) (inr m) = let (i, l, e) = nth_of_Member a xs m in (suc i, omega arith, e)

-- In each window of `n` epochs one has the remainder `i`.
window : (n i e : ℕ) → i < n → (e' : ℕ) × (e ≤ e') × (e' < e + n) × (e' % n ≡ i)
window n i e h =
    let r : e % n < n = mod-lt e {m = n} (omega arith) in
    elim (Bool-cases (leb (e % n) i)) [
      | inl c ↦
          let q : e % n ≤ i = leb→le (e % n) i c in
          (
            e / n * n + i,
            omega (arith, mod-add-div' e n),
            omega (arith, mod-add-div' e n),
            mul-add-mod_self_right (e / n) n i ∙ mod-eq_of_lt h,
          )
      | inr c ↦
          let q : i < e % n = above (e % n) i c in
          (
            (e / n + 1) * n + i,
            omega (arith, mod-add-div' e n),
            omega (arith, mod-add-div' e n),
            mul-add-mod_self_right (e / n + 1) n i ∙ mod-eq_of_lt h,
          )
    ]
  where
    above : (a b : ℕ) → leb a b ≡ false → b < a
    above a b h = ground arith

-- Every operator is elected in each window of as many epochs as there are different operators.
pub elect_proposer_fair :
    (operators : List Address) (a : Address) (epoch : ℕ)
    → Member a operators
    → (e' : ℕ) × (epoch ≤ e')
      × (e' < epoch + length (sort_dedup operators))
      × (elect_proposer operators e' ≡ some a)
unfolding elect_proposer
elect_proposer_fair [] a epoch m = absurd m
elect_proposer_fair (o ∷ os) a epoch m =
    let (i, l, n) = nth_of_Member a (sort_dedup (o ∷ os)) ((sort_dedup-members (o ∷ os) a).1 m) in
    let (e', ge, lt, r) = window (length (sort_dedup (o ∷ os))) i epoch l in (e', ge, lt, rw r n)
