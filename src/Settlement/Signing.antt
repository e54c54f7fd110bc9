-- ===== src/Settlement/Signing.antt =====
-- crates/settlement/src/lib.rs, crates/settlement-core/src/lib.rs: what a signer signs is recovered
-- to its address.
use inference_bazaar.Base.{
  ℕ, zero, suc, ◌+◌, ◌<◌, ◌≡◌, refl, sym, ap, ◌∙◌, subst, arith, [], ◌∷◌, ◌++◌, some, none, true,
  false, ltb, if◌then◌else◌, Bool-cases, inl, inr, ◌==◌, length, take, Option-cases, eq_of_some,
  ==_iff, length-append,
}
use inference_bazaar.Settlement.Types.{B256, Bytes, Order, Eip712Domain, Crypto}
use inference_bazaar.Settlement.Core.{
  recover_signer, recovery_id, order_digest, verify_order, nth, address_of,
}
use inference_bazaar.Settlement.Fills.{Signer, signer_of_key, sign_digest, sign_order, verify}

-- The signatures of the ECDSA library: 64 bytes, with a low `s`, from which the public point is
-- recovered with the recovery id that stands beside them, of 0 to 3.
pub record IsEcdsa (c : Crypto) : Type 0 where
  pub sized : (k : ℕ) (d : B256) → length (c.sign_prehash k d).0 ≡ 64
  pub identified : (k : ℕ) (d : B256) → (c.sign_prehash k d).1 < 4
  pub numbers : ℕ → B256 → ℕ × ℕ
  pub parsed : (k : ℕ) (d : B256) → c.parse_signature (c.sign_prehash k d).0 ≡ some (numbers k d)
  pub low : (k : ℕ) (d : B256) → c.is_high (numbers k d).1 ≡ false
  pub recovered :
      (k : ℕ) (d : B256)
      → c.recover_from_prehash d (numbers k d) (c.sign_prehash k d).1 ≡ some (c.public_point k)

nth-last : (xs : Bytes) (y : ℕ) → nth (xs ++ y ∷ []) (length xs) ≡ some y
nth-last [] y = refl
nth-last (x ∷ xs) y = nth-last xs y

take-front : (xs ys : Bytes) → take (length xs) (xs ++ ys) ≡ xs
take-front [] [] = refl
take-front [] (y ∷ ys) = refl
take-front (x ∷ xs) ys = ap (λ zs. x ∷ zs) (take-front xs ys)

module _ (c : Crypto) (ecdsa : IsEcdsa c) where
  recovery_id-of : (r : ℕ) → r < 2 → recovery_id c (some (27 + r)) ≡ some r
  recovery_id-of zero h = refl
  recovery_id-of (suc zero) h = refl
  recovery_id-of (suc (suc r)) h = absurd (omega (arith, h))

  recovery_id-other : (r : ℕ) → ltb r 2 ≡ false → recovery_id c (some (27 + r)) ≡ none
  recovery_id-other zero h = cc
  recovery_id-other (suc zero) h = cc
  recovery_id-other (suc (suc r)) h =
      let no_27 : (27 + suc (suc r) == 27) ≡ false = ground arith in
      let no_28 : (27 + suc (suc r) == 28) ≡ false = ground arith in rw (no_27, no_28) refl

  recover_signer-sign :
      (k : ℕ) (d : B256)
      → recover_signer c d ((c.sign_prehash k d).0 ++ (27 + (c.sign_prehash k d).1) ∷ [])
        ≡ (if ltb (c.sign_prehash k d).1 2 then some (address_of c (c.public_point k)) else none)
  unfolding recover_signer
  recover_signer-sign k d =
      let sig = (c.sign_prehash k d).0 in
      let rec = (c.sign_prehash k d).1 in
      let whole = sig ++ (27 + rec) ∷ [] in
      let n : length sig ≡ 64 = ecdsa.sized k d in
      let size : (length whole == 65) ≡ true =
        (==_iff (length whole) 65).1 (length-append sig ((27 + rec) ∷ []) ∙ omega (arith, n)) in
      let last : nth whole 64 ≡ some (27 + rec) =
        subst (λ m. nth whole m ≡ some (27 + rec)) n (nth-last sig (27 + rec)) in
      let front : take 64 whole ≡ sig =
        subst (λ m. take m whole ≡ sig) n (take-front sig ((27 + rec) ∷ [])) in
      elim (Bool-cases (ltb rec 2)) [
        | inr e ↦ rw (size, last, recovery_id-other rec e, e, recover_signer) refl
        | inl e ↦
            rw
              (
                size,
                last,
                recovery_id-of rec (ground arith),
                front,
                ecdsa.parsed k d,
                ecdsa.low k d,
                ecdsa.recovered k d,
                e,
                recover_signer,
              )
              refl
      ]

  signer_of_key-address :
      (raw : Bytes) (s : Signer)
      → signer_of_key c raw ≡ some s
      → address_of c (c.public_point s.key) ≡ s.address
  unfolding signer_of_key
  signer_of_key-address raw s h = elim (Option-cases (c.parse_key raw)) [
    | inl e ↦ cc (rw (e, signer_of_key) at h)
    | inr (key, e) ↦
        subst (λ (x : Signer). address_of c (c.public_point x.key) ≡ x.address)
          (eq_of_some (rw (e, signer_of_key) at h)) refl
  ]

  -- What a signer that was made from a key signs is recovered to the signer's address when the
  -- recovery id of the signature is 0 or 1, whatever the digest, and to nothing when it is 2 or 3; so
  -- an order that it signs for itself, of any side, price and quantity, verifies in the domain it was
  -- signed for just when that id is 0 or 1. The signature library behaves as ECDSA with low `s` does.
  pub sign_digest-recover_signer :
      (raw : Bytes) (s : Signer)
      → signer_of_key c raw ≡ some s
      → ((d : B256)
          → recover_signer c d (sign_digest c s d)
            ≡ (if ltb (c.sign_prehash s.key d).1 2 then some s.address else none))
        × ((order : Order) (dom : Eip712Domain)
            → order.trader ≡ s.address
            → verify c (sign_order c s order dom) dom
              ≡ ltb (c.sign_prehash s.key (order_digest c order dom)).1 2)
  unfolding sign_digest sign_order verify verify_order
  sign_digest-recover_signer raw s h =
      let back : (d : B256)
          → recover_signer c d (sign_digest c s d)
            ≡ (if ltb (c.sign_prehash s.key d).1 2 then some s.address else none) =
        λ d.
          recover_signer-sign s.key d
          ∙ ap (λ a. if ltb (c.sign_prehash s.key d).1 2 then some a else none)
              (signer_of_key-address raw s h) in
      (back, λ order dom e. verified order dom e (back (order_digest c order dom)))
    where
      verified :
          (order : Order) (dom : Eip712Domain)
          → order.trader ≡ s.address
          → recover_signer c (order_digest c order dom) (sign_digest c s (order_digest c order dom))
            ≡ (if ltb (c.sign_prehash s.key (order_digest c order dom)).1 2
                then some s.address
                else none)
          → verify c (sign_order c s order dom) dom
            ≡ ltb (c.sign_prehash s.key (order_digest c order dom)).1 2
      verified order dom e back =
          elim (Bool-cases (ltb (c.sign_prehash s.key (order_digest c order dom)).1 2)) [
            | inl f ↦ rw (back, f) ((==_iff s.address order.trader).1 (sym e))
            | inr f ↦ rw (back, f) refl
          ]
