-- ===== src/Matcher/SetDeterminism.antt =====
-- crates/matcher/src/lib.rs: `match_epoch` is a function of the set of orders.
use inference_bazaar.Base.{String, List, [], ◌≡◌, refl}
use inference_bazaar.Base.Int.{I64}
use inference_bazaar.Base.Sets.{SameMembers}
use inference_bazaar.Settlement.Types.{B256, Order, Eip712Domain, Crypto}
use inference_bazaar.Settlement.Core.{instrument_hash}
use inference_bazaar.Matcher.Epoch.{canonicalize, match_epoch}
use inference_bazaar.Matcher.Sorting.{feed_unique}
use inference_bazaar.Matcher.Canonical.{
  NoCollision, canonicalize-Ordered, canonicalize-IsCanonOf, canonicalize-Member,
}

module _ (c : Crypto) (dom : Eip712Domain) (xs ys : List Order) (distinct : NoCollision c dom xs)
    (same : SameMembers xs ys) where
  collision_free : NoCollision c dom ys
  collision_free a b p q e = distinct a b ((same a).1 p) ((same b).1 q) e

  canonicalize_same :
      (want : B256) → SameMembers (canonicalize c want dom [] xs) (canonicalize c want dom [] ys)
  canonicalize_same want k = (
    λ m.
        let (o, n, e) = canonicalize-IsCanonOf c want dom [] xs k m in
        canonicalize-Member c want dom [] ys o k collision_free ((same o).0 n) e refl,
    λ m.
        let (o, n, e) = canonicalize-IsCanonOf c want dom [] ys k m in
        canonicalize-Member c want dom [] xs o k distinct ((same o).1 n) e refl,
  )

  -- Two lists with the same orders, in whatever order and however often each, have the same epoch
  -- batch, fills and hash, where no two different orders of the list share a digest.
  pub match_epoch_set :
      (instrument_id : String) (tick_size min_qty : I64)
      → match_epoch c instrument_id tick_size min_qty dom xs
        ≡ match_epoch c instrument_id tick_size min_qty dom ys
  unfolding match_epoch
  match_epoch_set instrument_id tick_size min_qty =
      let want = instrument_hash c instrument_id in
      rw
        (feed_unique (canonicalize c want dom [] xs) (canonicalize c want dom [] ys)
          (canonicalize-Ordered c want dom [] xs) (canonicalize-Ordered c want dom [] ys)
          (canonicalize_same want))
        refl
