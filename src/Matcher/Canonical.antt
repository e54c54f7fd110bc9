-- ===== src/Matcher/Canonical.antt =====
-- crates/matcher/src/lib.rs: what the canonicalisation of an order set keeps.
use inference_bazaar.Base.{
  List, [], ◌∷◌, Option, none, some, false, ◌≡◌, ◌≢◌, refl, sym, ap, subst, ◌∙◌, inl, inr, ◌==◌,
  ==_iff, arith, All, All-map, Bool-cases, Option-cases, eq_of_some,
}
use inference_bazaar.Base.Sets.{Member, Ordered}
use inference_bazaar.Settlement.Types.{B256, Order, Eip712Domain, Crypto}
use inference_bazaar.Settlement.Core.{order_digest}
use inference_bazaar.Matcher.Epoch.{CanonOrder, canonical, canonicalize, unseen, has_digest}
use inference_bazaar.Matcher.Sorting.{Differ}

-- The hash has no collision among the orders of the list.
abbrev pub NoCollision : Crypto → Eip712Domain → List Order → Type 0
NoCollision c dom os =
    (a b : Order) → Member a os → Member b os → order_digest c a dom ≡ order_digest c b dom → a ≡ b

module _ (c : Crypto) (want : B256) (dom : Eip712Domain) where
  pub canonical-digest :
      (o : Order) (k : CanonOrder)
      → canonical c want dom o ≡ some k
      → (k.order ≡ o) × (k.digest ≡ order_digest c o dom)
  unfolding canonical
  canonical-digest o k h = ground arith

  unseen_inv :
      (seen : List B256) (m : Option CanonOrder) (k : CanonOrder)
      → unseen c seen m ≡ some k
      → (m ≡ some k) × (has_digest c k.digest seen ≡ false)
  unseen_inv seen none k h = cc
  unseen_inv seen (some j) k h = elim (Bool-cases (has_digest c j.digest seen)) [
    | inl e ↦ cc (rw e at h)
    | inr e ↦
        let q = eq_of_some (rw e at h) in
        (ap some q, subst (λ (x : CanonOrder). has_digest c x.digest seen ≡ false) q e)
  ]

  pub canonicalize-unseen :
      (seen : List B256) (os : List Order)
      → All
          (λ (k : CanonOrder). has_digest c k.digest seen ≡ false)
          (canonicalize c want dom seen os)
  unfolding canonicalize
  canonicalize-unseen seen [] = tt
  canonicalize-unseen seen (o ∷ os) = elim (Option-cases (unseen c seen (canonical c want dom o))) [
    | inl e ↦ rw (e, canonicalize) (canonicalize-unseen seen os)
    | inr (k, e) ↦
        rw (e, canonicalize)
          (
            (unseen_inv seen (canonical c want dom o) k e).1,
            All-map _ _ (canonicalize c want dom (k.digest ∷ seen) os) (λ x p. ground arith)
                (canonicalize-unseen (k.digest ∷ seen) os),
          )
  ]

  differ_of_unseen :
      (d : B256) (seen : List B256) (k : CanonOrder)
      → has_digest c k.digest (d ∷ seen) ≡ false
      → d ≢ k.digest
  differ_of_unseen d seen k h = ground arith

  -- Kept orders have different digests.
  pub canonicalize-Ordered :
      (seen : List B256) (os : List Order) → Ordered Differ (canonicalize c want dom seen os)
  unfolding canonicalize
  canonicalize-Ordered seen [] = tt
  canonicalize-Ordered seen (o ∷ os) =
      elim (Option-cases (unseen c seen (canonical c want dom o))) [
        | inl e ↦ rw (e, canonicalize) (canonicalize-Ordered seen os)
        | inr (k, e) ↦
            rw (e, canonicalize)
              (
                All-map _ _ (canonicalize c want dom (k.digest ∷ seen) os)
                    (differ_of_unseen k.digest seen) (canonicalize-unseen (k.digest ∷ seen) os),
                canonicalize-Ordered (k.digest ∷ seen) os,
              )
      ]

  -- A kept order is canonical for an order of the input.
  abbrev IsCanonOf : List Order → CanonOrder → Type 0
  IsCanonOf os k = (o : Order) × Member o os × (canonical c want dom o ≡ some k)

  IsCanonOf-later :
      (o : Order) (os : List Order) (k : CanonOrder) → IsCanonOf os k → IsCanonOf (o ∷ os) k
  IsCanonOf-later o os k (p, m, e) = (p, inr m, e)

  IsCanonOf-here :
      (o : Order) (os : List Order) (j k : CanonOrder) (kept : List CanonOrder)
      → canonical c want dom o ≡ some j
      → (Member k kept → IsCanonOf os k)
      → Member k (j ∷ kept)
      → IsCanonOf (o ∷ os) k
  IsCanonOf-here o os j k kept e f (inl q) = (o, inl refl, e ∙ sym (ap some q))
  IsCanonOf-here o os j k kept e f (inr m) = IsCanonOf-later o os k (f m)

  pub canonicalize-IsCanonOf :
      (seen : List B256) (os : List Order) (k : CanonOrder)
      → Member k (canonicalize c want dom seen os)
      → IsCanonOf os k
  unfolding canonicalize
  canonicalize-IsCanonOf seen [] k m = absurd m
  canonicalize-IsCanonOf seen (o ∷ os) k m =
      elim (Option-cases (unseen c seen (canonical c want dom o))) [
        | inl e ↦
            IsCanonOf-later o os k (canonicalize-IsCanonOf seen os k (rw (e, canonicalize) at m))
        | inr (j, e) ↦
            IsCanonOf-here o os j k (canonicalize c want dom (j.digest ∷ seen) os)
              (unseen_inv seen (canonical c want dom o) j e).0
              (canonicalize-IsCanonOf (j.digest ∷ seen) os k) (rw (e, canonicalize) at m)
      ]

  unseen_new :
      (seen : List B256) (m : Option CanonOrder) (k : CanonOrder)
      → m ≡ some k
      → has_digest c k.digest seen ≡ false
      → unseen c seen m ≡ some k
  unseen_new seen m k e h = rw (e, h)

  -- Every order of the input that is canonical and not seen is kept.
  pub canonicalize-Member :
      (seen : List B256) (os : List Order) (o : Order) (k : CanonOrder)
      → NoCollision c dom os
      → Member o os
      → canonical c want dom o ≡ some k
      → has_digest c k.digest seen ≡ false
      → Member k (canonicalize c want dom seen os)
  unfolding canonicalize
  canonicalize-Member seen [] o k n m e h = absurd m
  canonicalize-Member seen (p ∷ os) o k n (inl q) e h =
      rw
        (
          unseen_new seen (canonical c want dom p) k
              (subst (λ (x : Order). canonical c want dom x ≡ some k) q e) h,
          canonicalize,
        )
        (inl refl)
  canonicalize-Member seen (p ∷ os) o k n (inr m) e h =
      let rest = λ (a b : Order) (x : Member a os) (y : Member b os). n a b (inr x) (inr y) in
      elim (Option-cases (unseen c seen (canonical c want dom p))) [
        | inl f ↦ rw (f, canonicalize) (canonicalize-Member seen os o k rest m e h)
        | inr (j, f) ↦
            let g = (unseen_inv seen (canonical c want dom p) j f).0 in
            rw (f, canonicalize)
              (elim (Bool-cases (j.digest == k.digest)) [
                | inl same ↦ inl (
                    eq_of_some (
                      sym e
                      ∙ ap (canonical c want dom) (
                          n o p (inr m) (inl refl) (
                            sym (canonical-digest o k e).1
                            ∙ sym ((==_iff j.digest k.digest).0 same)
                            ∙ (canonical-digest p j g).1))
                      ∙ g))
                | inr other ↦
                    inr (canonicalize-Member (j.digest ∷ seen) os o k rest m e (rw other h))
              ])
      ]
