-- ===== src/Base/Maps.antt =====
-- Maps with numeric keys as association lists: `HashMap`'s get, insert, remove, get_mut, retain.
use inference_bazaar.Base.Sets.{Member}
use inference_bazaar.Base.Tests.{eq_of_some, ◌==◌, if◌then◌else◌, Bool-cases, ==_iff}
use inference_bazaar.Base.Lists.{All, select}
use Prim.Native.Nat.{ℕ}
use mathlib.Core.Path.{◌≡◌, refl, sym, ap, ◌∙◌}
use mathlib.Core.Logic.{inl, inr}
use mathlib.Core.Bool.{Bool, true, false, not}
use mathlib.Core.Option.{Option, none, some}
use mathlib.Core.List.{List, [], ◌∷◌}

module _ {V : Type 0} where
  abbrev pub lookup : ℕ → List (ℕ × V) → Option V
  lookup k [] = none
  lookup k ((j, v) ∷ m) = if j == k then some v else lookup k m

  abbrev pub has_key : ℕ → List (ℕ × V) → Bool
  has_key k [] = false
  has_key k ((j, v) ∷ m) = if j == k then true else has_key k m

  abbrev pub delete : ℕ → List (ℕ × V) → List (ℕ × V)
  delete k m = select (λ p. not (p.0 == k)) m

  abbrev pub insert_key : ℕ → V → List (ℕ × V) → List (ℕ × V)
  insert_key k v m = (k, v) ∷ delete k m

  -- At the key's entry; a map has one for a key.
  abbrev pub adjust : (V → V) → ℕ → List (ℕ × V) → List (ℕ × V)
  adjust f k [] = []
  adjust f k ((j, v) ∷ m) = (j, if j == k then f v else v) ∷ adjust f k m

  abbrev pub retain : (ℕ → V → Bool) → List (ℕ × V) → List (ℕ × V)
  retain p m = select (λ q. p q.0 q.1) m

  pub lookup-insert_key : (k : ℕ) (v : V) (m : List (ℕ × V)) → lookup k (insert_key k v m) ≡ some v
  lookup-insert_key k v m = rw ((==_iff k k).1 refl) refl

  pub has_key-Member : (k : ℕ) (v : V) (m : List (ℕ × V)) → Member (k, v) m → has_key k m ≡ true
  has_key-Member k v [] h = absurd h
  has_key-Member k v ((j, w) ∷ m) (inl e) =
      rw ((==_iff j k).1 (sym (ap (λ (p : ℕ × V). p.0) e))) refl
  has_key-Member k v ((j, w) ∷ m) (inr h) = elim (Bool-cases (j == k)) [
    | inl e ↦ rw (e) refl
    | inr e ↦ rw (e) (has_key-Member k v m h)
  ]

  pub has_key-select :
      (k : ℕ) (p : ℕ × V → Bool) (m : List (ℕ × V))
      → has_key k m ≡ false
      → has_key k (select p m) ≡ false
  has_key-select k p [] h = refl
  has_key-select k p ((j, w) ∷ m) h = elim (Bool-cases (j == k)) [
    | inl e ↦ cc (rw (e) at h)
    | inr e ↦ elim (Bool-cases (p (j, w))) [
      | inl f ↦ rw (f, e) (has_key-select k p m (rw (e) at h))
      | inr f ↦ rw (f) (has_key-select k p m (rw (e) at h))
    ]
  ]

  pub lookup-Member : (k : ℕ) (v : V) (m : List (ℕ × V)) → lookup k m ≡ some v → Member (k, v) m
  lookup-Member k v [] h = cc
  lookup-Member k v ((j, w) ∷ m) h = elim (Bool-cases (j == k)) [
    | inl e ↦ inl (λ i. (sym ((==_iff j k).0 e) i, sym (eq_of_some (rw (e) at h)) i))
    | inr e ↦ inr (lookup-Member k v m (rw (e) at h))
  ]

  -- The deleted key is gone.
  pub delete-Apart : (k : ℕ) (m : List (ℕ × V)) → All (λ q. (q.0 == k) ≡ false) (delete k m)
  delete-Apart k [] = tt
  delete-Apart k ((j, w) ∷ m) = elim (Bool-cases (j == k)) [
    | inl e ↦ rw (e) (delete-Apart k m)
    | inr e ↦ rw (e) (e, delete-Apart k m)
  ]

  pub All-adjust {κ} :
      (P : ℕ × V → Type κ) (f : V → V) (k : ℕ) (m : List (ℕ × V))
      → ((j : ℕ) (v : V) → P (j, v) → P (j, f v))
      → All P m
      → All P (adjust f k m)
  All-adjust P f k [] g h = tt
  All-adjust P f k ((j, v) ∷ m) g h = elim (Bool-cases (j == k)) [
    | inl e ↦ rw (e) (g j v h.0, All-adjust P f k m g h.1)
    | inr e ↦ rw (e) (h.0, All-adjust P f k m g h.1)
  ]

module _ {V W : Type 0} where
  -- No key of the map is a key of the other.
  pub has_key-disjoint :
      (k : ℕ) (m : List (ℕ × V)) (s : List (ℕ × W))
      → All (λ q. has_key q.0 s ≡ false) m
      → has_key k s ≡ true
      → has_key k m ≡ false
  has_key-disjoint k [] s h t = refl
  has_key-disjoint k ((j, v) ∷ m) s h t = elim (Bool-cases (j == k)) [
    | inl e ↦ cc (h.0, t, (==_iff j k).0 e)
    | inr e ↦ rw (e) (has_key-disjoint k m s h.1 t)
  ]

module _ {A : Type 0} where
  pub Member-select :
      (p : A → Bool) (x : A) (xs : List A) → Member x xs → p x ≡ true → Member x (select p xs)
  Member-select p x [] h e = absurd h
  Member-select p x (y ∷ ys) (inl q) e = rw (ap p (sym q) ∙ e) (inl q)
  Member-select p x (y ∷ ys) (inr h) e = elim (Bool-cases (p y)) [
    | inl f ↦ rw (f) (inr (Member-select p x ys h e))
    | inr f ↦ rw (f) (Member-select p x ys h e)
  ]

  pub All-select {κ} :
      (P : A → Type κ) (p : A → Bool) (xs : List A) → All P xs → All P (select p xs)
  All-select P p [] h = tt
  All-select P p (x ∷ xs) h = elim (Bool-cases (p x)) [
    | inl e ↦ rw (e) (h.0, All-select P p xs h.1)
    | inr e ↦ rw (e) (All-select P p xs h.1)
  ]
