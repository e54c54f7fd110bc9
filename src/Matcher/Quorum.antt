-- ===== src/Matcher/Quorum.antt =====
-- crates/matcher/src/consensus.rs and crates/settlement/src/lib.rs: what the proposer aggregates is
-- what the contract's quorum check accepts.
use inference_bazaar.Base.{
  ℕ, zero, suc, ◌<◌, List, [], ◌∷◌, map, Option, none, some, true, false, not, ◌&&◌, ◌||◌, ◌≡◌, ◌≢◌,
  refl, ap, ◌∙◌, inl, inr, arith, All, All-map, ltb, leb, ◌==◌, length, Bool-cases, eq_of_some,
}
use inference_bazaar.Base.Sets.{Ordered, sort_by, All-sort_by, length-sort_by, sort_by-Ordered}
use inference_bazaar.Settlement.Types.{B256, Address, Bytes, Crypto}
use inference_bazaar.Settlement.Core.{recover_signer, is_signer}
use inference_bazaar.Settlement.Fills.{contains, ascending_from, verify_quorum}
use inference_bazaar.Matcher.Consensus.{Attestation, accepted, by_address, aggregate_attestation}

module _ (c : Crypto) (d : B256) (bonded : List Address) where
  -- A signature with the bonded operator to which it recovers.
  abbrev Vouches : Address × Bytes → Type 0
  Vouches p = (recover_signer c d p.1 ≡ some p.0) × (contains c bonded p.0 ≡ true)

  abbrev Apart : Address × Bytes → Address × Bytes → Type 0
  Apart p q = p.0 ≢ q.0

  abbrev Below : Address × Bytes → Address × Bytes → Type 0
  Below p q = p.0 < q.0

  is_signer-eq : (m : Option Address) (a : Address) → is_signer c m a ≡ true → m ≡ some a
  is_signer-eq none a h = cc
  is_signer-eq (some s) a h = ground arith

  accepted-Vouches :
      (counted : List Address) (ats : List Attestation)
      → All Vouches (accepted c d bonded counted ats)
  unfolding accepted
  accepted-Vouches counted [] = tt
  accepted-Vouches counted (a ∷ rest) =
      elim (Bool-cases (
        is_signer c (recover_signer c d a.signature) a.attester
        && (contains c bonded a.attester && not (contains c counted a.attester)))) [
          | inl e ↦
              rw (e, accepted)
                (
                  (is_signer-eq _ a.attester (ground arith), ground arith),
                  accepted-Vouches (a.attester ∷ counted) rest,
                )
          | inr e ↦ rw (e, accepted) (accepted-Vouches counted rest)
        ]

  accepted-fresh :
      (counted : List Address) (ats : List Attestation)
      → All
          (λ (p : Address × Bytes). contains c counted p.0 ≡ false)
          (accepted c d bonded counted ats)
  unfolding accepted
  accepted-fresh counted [] = tt
  accepted-fresh counted (a ∷ rest) =
      elim (Bool-cases (
        is_signer c (recover_signer c d a.signature) a.attester
        && (contains c bonded a.attester && not (contains c counted a.attester)))) [
          | inl e ↦
              rw (e, accepted)
                (
                  ground arith,
                  All-map _ _ (accepted c d bonded (a.attester ∷ counted) rest)
                      (λ p h. ground arith) (accepted-fresh (a.attester ∷ counted) rest),
                )
          | inr e ↦ rw (e, accepted) (accepted-fresh counted rest)
        ]

  Apart-of_fresh :
      (a : Address) (counted : List Address) (s : Bytes) (q : Address × Bytes)
      → contains c (a ∷ counted) q.0 ≡ false
      → Apart (a, s) q
  Apart-of_fresh a counted s q h = ground arith

  accepted-Ordered :
      (counted : List Address) (ats : List Attestation)
      → Ordered Apart (accepted c d bonded counted ats)
  unfolding accepted
  accepted-Ordered counted [] = tt
  accepted-Ordered counted (a ∷ rest) =
      elim (Bool-cases (
        is_signer c (recover_signer c d a.signature) a.attester
        && (contains c bonded a.attester && not (contains c counted a.attester)))) [
          | inl e ↦
              rw (e, accepted)
                (
                  All-map _ _ (accepted c d bonded (a.attester ∷ counted) rest)
                      (Apart-of_fresh a.attester counted a.signature)
                      (accepted-fresh (a.attester ∷ counted) rest),
                  accepted-Ordered (a.attester ∷ counted) rest,
                )
          | inr e ↦ rw (e, accepted) (accepted-Ordered counted rest)
        ]

  -- Sorted, the accepted signatures are in the contract's strictly ascending order.
  submitted-Ordered :
      (ats : List Attestation) → Ordered Below (sort_by by_address (accepted c d bonded [] ats))
  submitted-Ordered ats =
      sort_by-Ordered by_address Below (λ p q r h k. omega arith) Apart (λ p q h e. ground arith)
        (λ p q h e. ground arith) _ (accepted-Ordered [] ats)

  ascends :
      (last : Address) (ps : List (Address × Bytes))
      → All (λ (p : Address × Bytes). last < p.0) ps
      → Ordered Below ps
      → All Vouches ps
      → ascending_from c d bonded last (map (λ p. p.1) ps) ≡ true
  unfolding ascending_from
  ascends last [] l o v = refl
  ascends last (p ∷ ps) l o v =
      rw (v.0.0, ascending_from) (rw (above last p.0 l.0, v.0.1) (ascends p.0 ps o.0 o.1 v.1))
    where
      above : (x y : ℕ) → x < y → leb y x ≡ false
      above x y h = ground arith

  length-map :
      (ps : List (Address × Bytes)) → length (map (λ (p : Address × Bytes). p.1) ps) ≡ length ps
  length-map [] = refl
  length-map (p ∷ ps) = ap suc (length-map ps)

  positive : contains c bonded 0 ≡ false → (p : Address × Bytes) → Vouches p → 0 < p.0
  positive z (zero, s) h = cc (z, h.1)
  positive z (suc a, s) h = omega arith

  -- Whatever signatures a proposer has collected, the set that it submits on reaching a positive
  -- threshold passes the contract's quorum check, where no bonded operator has the address zero.
  pub aggregate-verify :
      (ats : List Attestation) (threshold : ℕ) (sigs : List Bytes)
      → contains c bonded 0 ≡ false
      → 0 < threshold
      → aggregate_attestation c d ats bonded threshold ≡ some sigs
      → verify_quorum c d sigs bonded threshold ≡ true
  unfolding aggregate_attestation verify_quorum
  aggregate-verify ats threshold sigs z t h =
      elim (Bool-cases (ltb (length (accepted c d bonded [] ats)) threshold)) [
        | inl e ↦ cc (rw e at h)
        | inr e ↦
            let ps = sort_by by_address (accepted c d bonded [] ats) in
            let v = All-sort_by by_address Vouches _ (accepted-Vouches [] ats) in
            rw (← eq_of_some (rw e at h), enough (length-map ps ∙ length-sort_by by_address _) e)
              (ascends 0 ps (All-map Vouches (λ (p : Address × Bytes). 0 < p.0) ps (positive z) v)
                (submitted-Ordered ats) v)
      ]
    where
      enough :
          {n m : ℕ} → n ≡ m → ltb m threshold ≡ false → (threshold == 0 || ltb n threshold) ≡ false
      enough e q = ground arith
