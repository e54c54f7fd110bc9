-- ===== src/Base/Names.antt =====
-- Maps whose keys are texts, as association lists.
use Prim.Native.String.{String}
use mathlib.Core.Path.{◌≡◌, refl, sym, ◌∙◌}
use mathlib.Core.Logic.{◌≢◌, inl, inr}
use mathlib.Core.Bool.{true, false, not}
use mathlib.Core.Option.{Option, none, some}
use mathlib.Core.List.{List, [], ◌∷◌}
use text.Mathlib.Text.{◌==◌ as str_eq}
use text.Mathlib.TextEquality.{eq_iff}
use inference_bazaar.Base.Tests.{if◌then◌else◌, Bool-cases}
use inference_bazaar.Base.Lists.{select}

pub str_eq-same : (k : String) → str_eq k k ≡ true
str_eq-same k = (eq_iff k k).1 refl

pub str_eq-other : (j k : String) → j ≢ k → str_eq j k ≡ false
str_eq-other j k n = elim (Bool-cases (str_eq j k)) [
  | inl e ↦ absurd (n ((eq_iff j k).0 e))
  | inr e ↦ e
]

module _ {V : Type 0} where
  abbrev pub find_name : String → List (String × V) → Option V
  find_name k [] = none
  find_name k ((j, v) ∷ m) = if str_eq j k then some v else find_name k m

  abbrev pub drop_name : String → List (String × V) → List (String × V)
  drop_name k m = select (λ p. not (str_eq p.0 k)) m

  abbrev pub put_name : String → V → List (String × V) → List (String × V)
  put_name k v m = (k, v) ∷ drop_name k m

  pub find-put :
      (k : String) (v : V) (m : List (String × V)) → find_name k (put_name k v m) ≡ some v
  find-put k v m = rw (str_eq-same k) refl

  pub find-drop-other :
      (j k : String) (m : List (String × V)) → j ≢ k → find_name j (drop_name k m) ≡ find_name j m
  find-drop-other j k [] n = refl
  find-drop-other j k ((i, v) ∷ m) n = elim (Bool-cases (str_eq i k)) [
    | inl e ↦
        let far : str_eq i j ≡ false = str_eq-other i j (λ q. n (sym q ∙ (eq_iff i k).0 e)) in
        rw (e, far) (find-drop-other j k m n)
    | inr e ↦ elim (Bool-cases (str_eq i j)) [
      | inl f ↦ rw (e, f) refl
      | inr f ↦ rw (e, f) (find-drop-other j k m n)
    ]
  ]

  pub find-put-other :
      (j k : String) (v : V) (m : List (String × V))
      → j ≢ k
      → find_name j (put_name k v m) ≡ find_name j m
  find-put-other j k v m n = rw (str_eq-other k j (λ q. n (sym q))) (find-drop-other j k m n)
