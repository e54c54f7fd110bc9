-- ===== src/Settlement/Tests.antt =====
-- crates/settlement/src/lib.rs: the signatures of the small instance.
use inference_bazaar.Base.{◌≡◌, refl, arith, [], ◌∷◌, some, none, ltb, if◌then◌else◌}
use inference_bazaar.Settlement.Types.{B256, Order, Eip712Domain}
use inference_bazaar.Settlement.Core.{recover_signer, order_digest}
use inference_bazaar.Settlement.Fills.{Signer, signer_of_key, sign_digest, sign_order, verify}
use inference_bazaar.Settlement.Toy.{toy}
use inference_bazaar.Settlement.Signing.{IsEcdsa, sign_digest-recover_signer}

toy-IsEcdsa : IsEcdsa toy
toy-IsEcdsa = record {
  sized = λ k d. refl;
  identified = λ k d. omega arith;
  numbers = λ k d. (k, 1);
  parsed = λ k d. refl;
  low = λ k d. refl;
  recovered = λ k d. refl;
}

abbrev signer : Signer
signer = record { key = 12; address = 12 }

-- The small instance signs with the recovery id 0.
sign_digest-recover_signer_example :
    ((d : B256)
      → recover_signer toy d (sign_digest toy signer d)
        ≡ (if ltb (toy.sign_prehash 12 d).1 2 then some 12 else none))
    × ((order : Order) (dom : Eip712Domain)
        → order.trader ≡ 12
        → verify toy (sign_order toy signer order dom) dom
          ≡ ltb (toy.sign_prehash 12 (order_digest toy order dom)).1 2)
unfolding signer_of_key
sign_digest-recover_signer_example =
    sign_digest-recover_signer toy toy-IsEcdsa (5 ∷ 7 ∷ []) signer refl
