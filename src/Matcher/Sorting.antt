-- ===== src/Matcher/Sorting.antt =====
-- crates/matcher/src/lib.rs: the canonical sorting of distinct orders forgets their input order.
use inference_bazaar.Base.{
  List, [], ◌∷◌, Bool, true, false, not, ◌≡◌, ◌≢◌, sym, ap, subst, inl, inr, arith, All, select,
  Bool-cases,
}
use inference_bazaar.Base.Sets.{
  Member, Ordered, SameMembers, Ordered-unique, sort_by, sort_by-members, sort_by-Ordered,
}
use inference_bazaar.Matcher.Epoch.{CanonOrder, sell_le, buy_le, is_sell, feed}

-- Different digests.
abbrev pub Differ : CanonOrder → CanonOrder → Type 0
Differ a b = a.digest ≢ b.digest

-- The order of the feed, strictly.
abbrev LtBy : (CanonOrder → CanonOrder → Bool) → CanonOrder → CanonOrder → Type 0
LtBy le a b = (le a b ≡ true) × (le b a ≡ false)

module _ (le : CanonOrder → CanonOrder → Bool)
    (transitive : (a b k : CanonOrder) → LtBy le a b → LtBy le b k → LtBy le a k)
    (strict : (a b : CanonOrder) → Differ a b → le a b ≡ true → LtBy le a b)
    (turned : (a b : CanonOrder) → Differ a b → le a b ≡ false → LtBy le b a) where
  -- Sorting by such an order forgets the order of the input.
  sorted_unique :
      (xs ys : List CanonOrder)
      → Ordered Differ xs
      → Ordered Differ ys
      → SameMembers xs ys
      → sort_by le xs ≡ sort_by le ys
  sorted_unique xs ys d e s =
      Ordered-unique (LtBy le) (λ x p. cc (p.0, p.1)) transitive _ _
        (sort_by-Ordered le (LtBy le) transitive Differ strict turned xs d)
        (sort_by-Ordered le (LtBy le) transitive Differ strict turned ys e)
        (λ z.
          let a = sort_by-members le xs z in
          let b = sort_by-members le ys z in
          (λ m. b.1 ((s z).0 (a.0 m)), λ m. a.1 ((s z).1 (b.0 m))))

sells_unique :
    (xs ys : List CanonOrder)
    → Ordered Differ xs
    → Ordered Differ ys
    → SameMembers xs ys
    → sort_by sell_le xs ≡ sort_by sell_le ys
unfolding sell_le
sells_unique =
    sorted_unique sell_le (λ a b k p q. ground arith) (λ a b d e. ground arith)
      (λ a b d e. ground arith)

buys_unique :
    (xs ys : List CanonOrder)
    → Ordered Differ xs
    → Ordered Differ ys
    → SameMembers xs ys
    → sort_by buy_le xs ≡ sort_by buy_le ys
unfolding buy_le
buys_unique =
    sorted_unique buy_le (λ a b k p q. ground arith) (λ a b d e. ground arith)
      (λ a b d e. ground arith)

select-All {κ} :
    (P : CanonOrder → Type κ) (p : CanonOrder → Bool) (xs : List CanonOrder)
    → All P xs
    → All P (select p xs)
select-All P p [] all = tt
select-All P p (x ∷ xs) all = elim (Bool-cases (p x)) [
  | inl e ↦ rw e (all.0, select-All P p xs all.1)
  | inr e ↦ rw e (select-All P p xs all.1)
]

select-Ordered :
    (p : CanonOrder → Bool) (xs : List CanonOrder)
    → Ordered Differ xs
    → Ordered Differ (select p xs)
select-Ordered p [] o = tt
select-Ordered p (x ∷ xs) o = elim (Bool-cases (p x)) [
  | inl e ↦ rw e (select-All (Differ x) p xs o.0, select-Ordered p xs o.1)
  | inr e ↦ rw e (select-Ordered p xs o.1)
]

select-members :
    (p : CanonOrder → Bool) (z : CanonOrder) (xs : List CanonOrder)
    → (Member z (select p xs) → Member z xs × (p z ≡ true))
      × (Member z xs → p z ≡ true → Member z (select p xs))
select-members p z [] = (λ m. absurd m, λ m e. m)
select-members p z (x ∷ xs) =
    let ih = select-members p z xs in
    elim (Bool-cases (p x)) [
      | inl e ↦ rw e (λ m. out e ih.0 m, λ m q. into ih.1 m q)
      | inr e ↦ rw e (λ m. (inr (ih.0 m).0, (ih.0 m).1), λ m q. skip e ih.1 m q)
    ]
  where
    out :
        p x ≡ true
        → (Member z (select p xs) → Member z xs × (p z ≡ true))
        → Member z (x ∷ select p xs)
        → Member z (x ∷ xs) × (p z ≡ true)
    out e f (inl q) = (inl q, subst (λ w. p w ≡ true) (sym q) e)
    out e f (inr m) = (inr (f m).0, (f m).1)

    into :
        (Member z xs → p z ≡ true → Member z (select p xs))
        → Member z (x ∷ xs)
        → p z ≡ true
        → Member z (x ∷ select p xs)
    into f (inl q) e = inl q
    into f (inr m) e = inr (f m e)

    skip :
        p x ≡ false
        → (Member z xs → p z ≡ true → Member z (select p xs))
        → Member z (x ∷ xs)
        → p z ≡ true
        → Member z (select p xs)
    skip e f (inl q) h = cc (e, h, ap p q)
    skip e f (inr m) h = f m h

select_same :
    (p : CanonOrder → Bool) (xs ys : List CanonOrder)
    → SameMembers xs ys
    → SameMembers (select p xs) (select p ys)
select_same p xs ys s z =
    let a = select-members p z xs in
    let b = select-members p z ys in
    (λ m. b.1 ((s z).0 (a.0 m).0) (a.0 m).1, λ m. a.1 ((s z).1 (b.0 m).0) (b.0 m).1)

pub feed_unique :
    (xs ys : List CanonOrder)
    → Ordered Differ xs
    → Ordered Differ ys
    → SameMembers xs ys
    → feed xs ≡ feed ys
unfolding feed
feed_unique xs ys d e s = rw (
  sells_unique _ _ (select-Ordered is_sell xs d) (select-Ordered is_sell ys e)
      (select_same is_sell xs ys s),
  buys_unique _ _ (select-Ordered (λ k. not (is_sell k)) xs d)
      (select-Ordered (λ k. not (is_sell k)) ys e) (select_same (λ k. not (is_sell k)) xs ys s),
)
