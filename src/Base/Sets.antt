-- ===== src/Base/Sets.antt =====
-- Sorting, removal of duplicates, and lists that are determined by their members.
use inference_bazaar.Base.Tests.{leb, ◌==◌, if◌then◌else◌, Bool-cases, ==_iff}
use inference_bazaar.Base.Lists.{All, All-map, length}
use Prim.Native.Nat.{ℕ, suc, ◌≤◌, ◌<◌}
use mathlib.Core.Path.{◌≡◌, refl, sym, ◌∙◌, ap, subst}
use mathlib.Core.Logic.{◌⊎◌, inl, inr}
use mathlib.Core.Bool.{Bool, true, false}
use mathlib.Core.List.{List, [], ◌∷◌}
use native.Mathlib.Omega.{arith}

module _ {A : Type 0} where
  abbrev pub Member : A → List A → Type 0
  Member x [] = ⊥
  Member x (y ∷ ys) = (x ≡ y) ⊎ Member x ys

  pub All-Member {κ} : (P : A → Type κ) (x : A) (xs : List A) → All P xs → Member x xs → P x
  All-Member P x [] all m = absurd m
  All-Member P x (y ∷ ys) all (inl e) = subst P (sym e) all.0
  All-Member P x (y ∷ ys) all (inr m) = All-Member P x ys all.1 m

  -- Each is related to all behind it.
  abbrev pub Ordered {κ} : (A → A → Type κ) → List A → Type κ
  Ordered R [] = Unit
  Ordered R (x ∷ xs) = All (R x) xs × Ordered R xs

  abbrev pub SameMembers : List A → List A → Type 0
  SameMembers xs ys = (x : A) → (Member x xs → Member x ys) × (Member x ys → Member x xs)

  -- Under a strict order the members determine the list.
  pub Ordered-unique {κ} :
      (R : A → A → Type κ) (irreflexive : (x : A) → R x x → ⊥)
      (transitive : (x y z : A) → R x y → R y z → R x z) (xs ys : List A)
      → Ordered R xs
      → Ordered R ys
      → SameMembers xs ys
      → xs ≡ ys
  Ordered-unique R i t [] [] o p s = refl
  Ordered-unique R i t [] (y ∷ ys) o p s = absurd ((s y).1 (inl refl))
  Ordered-unique R i t (x ∷ xs) [] o p s = absurd ((s x).0 (inl refl))
  Ordered-unique R i t (x ∷ xs) (y ∷ ys) o p s =
      heads_then ((s x).0 (inl refl)) ((s y).1 (inl refl)) (Ordered-unique R i t xs ys o.1 p.1)
    where
      tails : x ≡ y → SameMembers xs ys
      tails e z = (
        λ m. back (All-Member (R x) z xs o.0 m) ((s z).0 (inr m)),
        λ m. forth (All-Member (R y) z ys p.0 m) ((s z).1 (inr m)),
      )
        where
          back : R x z → Member z (y ∷ ys) → Member z ys
          back r (inl q) = absurd (i x (subst (R x) (q ∙ sym e) r))
          back r (inr m) = m

          forth : R y z → Member z (x ∷ xs) → Member z xs
          forth r (inl q) = absurd (i y (subst (R y) (q ∙ e) r))
          forth r (inr m) = m

      heads_then :
          Member x (y ∷ ys) → Member y (x ∷ xs) → (SameMembers xs ys → xs ≡ ys) → x ∷ xs ≡ y ∷ ys
      heads_then (inl e) m rec = λ i. e i ∷ rec (tails e) i
      heads_then (inr m) (inl e) rec = λ i. sym e i ∷ rec (tails (sym e)) i
      heads_then (inr m) (inr n) rec =
          absurd (i x (t x y x (All-Member (R x) y xs o.0 n) (All-Member (R y) x ys p.0 m)))

-- `sort_by` of the standard library is stable: an insertion sort that puts an element before the
-- first one that is not smaller.
module _ {A : Type 0} (le : A → A → Bool) where
  unfoldable pub insert_sorted : A → List A → List A
  insert_sorted x [] = x ∷ []
  insert_sorted x (y ∷ ys) = if le x y then x ∷ y ∷ ys else y ∷ insert_sorted x ys

  unfoldable pub sort_by : List A → List A
  unfolding insert_sorted
  sort_by [] = []
  sort_by (x ∷ xs) = insert_sorted x (sort_by xs)

  insert_sorted-members :
      (x z : A) (xs : List A)
      → (Member z (insert_sorted x xs) → (z ≡ x) ⊎ Member z xs)
        × ((z ≡ x) ⊎ Member z xs → Member z (insert_sorted x xs))
  unfolding insert_sorted
  insert_sorted-members x z [] = (λ m. m, λ m. m)
  insert_sorted-members x z (y ∷ ys) =
      let r = insert_sorted-members x z ys in
      elim (Bool-cases (le x y)) [
        | inl e ↦ rw e (λ m. m, λ m. m)
        | inr e ↦ rw e (λ m. out r.0 m, λ m. into r.1 m)
      ]
    where
      out :
          (Member z (insert_sorted x ys) → (z ≡ x) ⊎ Member z ys)
          → (z ≡ y) ⊎ Member z (insert_sorted x ys)
          → (z ≡ x) ⊎ ((z ≡ y) ⊎ Member z ys)
      out f (inl p) = inr (inl p)
      out f (inr m) = swap (f m)
        where
          swap : (z ≡ x) ⊎ Member z ys → (z ≡ x) ⊎ ((z ≡ y) ⊎ Member z ys)
          swap (inl p) = inl p
          swap (inr n) = inr (inr n)

      into :
          ((z ≡ x) ⊎ Member z ys → Member z (insert_sorted x ys))
          → (z ≡ x) ⊎ ((z ≡ y) ⊎ Member z ys)
          → (z ≡ y) ⊎ Member z (insert_sorted x ys)
      into f (inl p) = inr (f (inl p))
      into f (inr (inl p)) = inl p
      into f (inr (inr m)) = inr (f (inr m))

  -- Sorting keeps the members.
  pub sort_by-members : (xs : List A) → SameMembers (sort_by xs) xs
  unfolding sort_by
  sort_by-members [] z = (λ m. m, λ m. m)
  sort_by-members (x ∷ xs) z =
      let r = insert_sorted-members x z (sort_by xs) in
      let ih = sort_by-members xs z in (λ m. out (ih.0) (r.0 m), λ m. r.1 (into ih.1 m))
    where
      out :
          (Member z (sort_by xs) → Member z xs)
          → (z ≡ x) ⊎ Member z (sort_by xs)
          → (z ≡ x) ⊎ Member z xs
      out f (inl p) = inl p
      out f (inr m) = inr (f m)

      into :
          (Member z xs → Member z (sort_by xs))
          → (z ≡ x) ⊎ Member z xs
          → (z ≡ x) ⊎ Member z (sort_by xs)
      into f (inl p) = inl p
      into f (inr m) = inr (f m)

  All-insert_sorted {κ} :
      (P : A → Type κ) (x : A) (xs : List A) → P x → All P xs → All P (insert_sorted x xs)
  unfolding insert_sorted
  All-insert_sorted P x [] p all = (p, tt)
  All-insert_sorted P x (y ∷ ys) p all = elim (Bool-cases (le x y)) [
    | inl e ↦ rw e (p, all)
    | inr e ↦ rw e (all.0, All-insert_sorted P x ys p all.1)
  ]

  pub All-sort_by {κ} : (P : A → Type κ) (xs : List A) → All P xs → All P (sort_by xs)
  unfolding sort_by
  All-sort_by P [] all = tt
  All-sort_by P (x ∷ xs) all = All-insert_sorted P x (sort_by xs) all.0 (All-sort_by P xs all.1)

  length-insert_sorted : (x : A) (xs : List A) → length (insert_sorted x xs) ≡ suc (length xs)
  unfolding insert_sorted
  length-insert_sorted x [] = refl
  length-insert_sorted x (y ∷ ys) = ground (arith, length-insert_sorted x ys)

  pub length-sort_by : (xs : List A) → length (sort_by xs) ≡ length xs
  unfolding sort_by
  length-sort_by [] = refl
  length-sort_by (x ∷ xs) = length-insert_sorted x (sort_by xs) ∙ ap suc (length-sort_by xs)

  -- A list whose elements are pairwise comparable one way is sorted strictly.
  module _ {κ} (R : A → A → Type κ) (transitive : (x y z : A) → R x y → R y z → R x z)
      (D : A → A → Type 0) (strict : (x y : A) → D x y → le x y ≡ true → R x y)
      (turned : (x y : A) → D x y → le x y ≡ false → R y x) where
    insert_sorted-Ordered :
        (x : A) (xs : List A) → All (D x) xs → Ordered R xs → Ordered R (insert_sorted x xs)
    unfolding insert_sorted
    insert_sorted-Ordered x [] d o = (tt, tt)
    insert_sorted-Ordered x (y ∷ ys) d o = elim (Bool-cases (le x y)) [
      | inl e ↦
          let r = strict x y d.0 e in
          rw e ((r, All-map (R y) (R x) ys (λ z q. transitive x y z r q) o.0), o)
      | inr e ↦
          rw e (
            All-insert_sorted (R y) x ys (turned x y d.0 e) o.0,
            insert_sorted-Ordered x ys d.1 o.1,
          )
    ]

    -- The sorted list is in strict order when no two elements are equivalent.
    pub sort_by-Ordered : (xs : List A) → Ordered D xs → Ordered R (sort_by xs)
    unfolding sort_by
    sort_by-Ordered [] d = tt
    sort_by-Ordered (x ∷ xs) d =
        insert_sorted-Ordered x (sort_by xs) (All-sort_by (D x) xs d.0) (sort_by-Ordered xs d.1)

-- `dedup` of a vector: the first of each run of equal elements stays.
unfoldable pub dedup_behind : ℕ → List ℕ → List ℕ
dedup_behind x [] = x ∷ []
dedup_behind x (y ∷ ys) = let rest = dedup_behind y ys in if x == y then rest else x ∷ rest

unfoldable pub dedup : List ℕ → List ℕ
unfolding dedup_behind
dedup [] = []
dedup (x ∷ xs) = dedup_behind x xs

abbrev Anything : ℕ → ℕ → Type 0
Anything x y = Unit {0}

Ordered-Anything : (xs : List ℕ) → Ordered Anything xs
Ordered-Anything [] = tt
Ordered-Anything (x ∷ xs) = (all xs, Ordered-Anything xs)
  where
    all : (ys : List ℕ) → All (Anything x) ys
    all [] = tt
    all (y ∷ ys) = (tt, all ys)

sort-le : (xs : List ℕ) → Ordered ◌≤◌ (sort_by leb xs)
sort-le xs =
    sort_by-Ordered leb ◌≤◌ (λ x y z p q. omega arith) Anything (λ x y d e. ground arith)
      (λ x y d e. ground arith) xs (Ordered-Anything xs)

dedup_behind-All :
    (z x : ℕ) (xs : List ℕ) → z < x → Ordered ◌≤◌ (x ∷ xs) → All (◌<◌ z) (dedup_behind x xs)
unfolding dedup_behind
dedup_behind-All z x [] h o = (h, tt)
dedup_behind-All z x (y ∷ ys) h o =
    let rest = dedup_behind-All z y ys (omega (arith, o.0.0)) o.1 in
    elim (Bool-cases (x == y)) [ inl e ↦ rw e rest | inr e ↦ rw e (h, rest) ]

dedup_behind-Ordered :
    (x : ℕ) (xs : List ℕ) → Ordered ◌≤◌ (x ∷ xs) → Ordered ◌<◌ (dedup_behind x xs)
unfolding dedup_behind
dedup_behind-Ordered x [] o = (tt, tt)
dedup_behind-Ordered x (y ∷ ys) o =
    let rest = dedup_behind-Ordered y ys o.1 in
    elim (Bool-cases (x == y)) [
      | inl e ↦ rw e rest
      | inr e ↦ rw e (dedup_behind-All x y ys (less e) o.1, rest)
    ]
  where
    less : (x == y) ≡ false → x < y
    less e = let h = o.0.0 in ground arith

dedup_behind-members : (x : ℕ) (xs : List ℕ) → SameMembers (dedup_behind x xs) (x ∷ xs)
unfolding dedup_behind
dedup_behind-members x [] z = (λ m. m, λ m. m)
dedup_behind-members x (y ∷ ys) z =
    let ih = dedup_behind-members y ys z in
    elim (Bool-cases (x == y)) [
      | inl e ↦ rw e (λ m. inr (ih.0 m), λ m. ih.1 (merge e m))
      | inr e ↦ rw e (λ m. out ih.0 m, λ m. into ih.1 m)
    ]
  where
    merge : (x == y) ≡ true → Member z (x ∷ y ∷ ys) → Member z (y ∷ ys)
    merge e (inl p) = inl (p ∙ (==_iff x y).0 e)
    merge e (inr m) = m

    out :
        (Member z (dedup_behind y ys) → Member z (y ∷ ys))
        → Member z (x ∷ dedup_behind y ys)
        → Member z (x ∷ y ∷ ys)
    out f (inl p) = inl p
    out f (inr m) = inr (f m)

    into :
        (Member z (y ∷ ys) → Member z (dedup_behind y ys))
        → Member z (x ∷ y ∷ ys)
        → Member z (x ∷ dedup_behind y ys)
    into f (inl p) = inl p
    into f (inr m) = inr (f m)

dedup-Ordered : (xs : List ℕ) → Ordered ◌≤◌ xs → Ordered ◌<◌ (dedup xs)
unfolding dedup
dedup-Ordered [] o = tt
dedup-Ordered (x ∷ xs) o = dedup_behind-Ordered x xs o

dedup-members : (xs : List ℕ) → SameMembers (dedup xs) xs
unfolding dedup
dedup-members [] z = (λ m. m, λ m. m)
dedup-members (x ∷ xs) z = dedup_behind-members x xs z

-- `sort_unstable` and `dedup`: the members in increasing order.
unfoldable pub sort_dedup : List ℕ → List ℕ
unfolding sort_by dedup
sort_dedup xs = dedup (sort_by leb xs)

pub sort_dedup-Ordered : (xs : List ℕ) → Ordered ◌<◌ (sort_dedup xs)
unfolding sort_dedup
sort_dedup-Ordered xs = dedup-Ordered _ (sort-le xs)

pub sort_dedup-members : (xs : List ℕ) → SameMembers (sort_dedup xs) xs
unfolding sort_dedup
sort_dedup-members xs z =
    let d = dedup-members (sort_by leb xs) z in
    let s = sort_by-members leb xs z in (λ m. s.0 (d.0 m), λ m. d.1 (s.1 m))

-- Lists with the same members are sorted and deduplicated to the same list.
pub sort_dedup_unique : (xs ys : List ℕ) → SameMembers xs ys → sort_dedup xs ≡ sort_dedup ys
sort_dedup_unique xs ys h =
    Ordered-unique ◌<◌ (λ x p. omega arith) (λ x y z p q. omega arith) _ _ (sort_dedup-Ordered xs)
      (sort_dedup-Ordered ys)
      (λ z.
        let a = sort_dedup-members xs z in
        let b = sort_dedup-members ys z in (λ m. b.1 ((h z).0 (a.0 m)), λ m. a.1 ((h z).1 (b.0 m))))
