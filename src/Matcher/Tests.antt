-- ===== src/Matcher/Tests.antt =====
-- crates/matcher: runs of the matcher and the consensus, and their theorems at small sets.
use inference_bazaar.Base.{
  ℕ, ◌+◌, ◌≡◌, ◌∙◌, ◌≤◌, ◌<◌, refl, sym, ap, List, [], ◌∷◌, map, arith, All, some, true, inl, inr,
  length,
}
use inference_bazaar.Base.Int.{pos, add_i64, sub_i64, rem_i64, wrap_i64, ◌+ℤ◌, ◌-ℤ◌}
use inference_bazaar.Base.Sets.{Member, sort_dedup, sort_by}
use inference_bazaar.Base.Text.{order_id, address_hex}
use inference_bazaar.Settlement.Types.{Order}
use inference_bazaar.Settlement.Core.{
  order_digest, batch_digest, instrument_hash, fills_hash, recover_signer, verify_order,
}
use inference_bazaar.Settlement.Fills.{verify, verify_quorum}
use inference_bazaar.Settlement.Toy.{toy, toy_domain, toy_order, toy_signed, signed_by}
use inference_bazaar.OrderBook.Types.{opposite}
use inference_bazaar.OrderBook.Native.{
  new, validate, id_exists, before, insert_into, insert_on, side_of, with_side,
}
use inference_bazaar.OrderBook.Engine.{
  crosses, print, reduce_maker, trade, round, round_against, match_loop, start, matched, settle,
  settle_on, place_unique, place,
}
use inference_bazaar.Matcher.Epoch.{
  EpochBatch, match_epoch, canonical, canonicalize, feed, sell_le, buy_le, book_order, after_place,
  replay_from, i64_of_u64, u64_of_i64,
}
use inference_bazaar.Matcher.Canonical.{NoCollision}
use inference_bazaar.Matcher.SetDeterminism.{match_epoch_set}
use inference_bazaar.Matcher.Consensus.{
  elect_proposer, BatchProposal, Attestation, sign, digests_of, forged_orders, censored_orders,
  check_batch, verify_proposal, accepted, aggregate_attestation,
}
use inference_bazaar.Matcher.Election.{elect_proposer_set, elect_proposer_fair}
use inference_bazaar.Matcher.Quorum.{aggregate-verify}
use inference_bazaar.Matcher.Verdicts.{IsIncluded, verify_proposal-sign}

program : Unit {0}
unfolding validate id_exists before insert_into insert_on side_of with_side crosses print
    reduce_maker trade round round_against match_loop start matched settle settle_on place_unique
    place add_i64 sub_i64 rem_i64 wrap_i64 ◌+ℤ◌ ◌-ℤ◌ opposite new order_id address_hex order_digest
    batch_digest instrument_hash fills_hash recover_signer verify_order verify match_epoch canonical
    canonicalize feed sell_le buy_le book_order after_place replay_from i64_of_u64 u64_of_i64
    digests_of forged_orders censored_orders check_batch verify_proposal accepted
    aggregate_attestation elect_proposer sort_dedup sort_by verify_quorum
program = tt

abbrev offer : Order
offer = toy_order 1 100 10 2 21

abbrev bid : Order
bid = toy_order 0 100 10 1 11

abbrev batch : EpochBatch
batch = record {
  fills = record { buy = bid; sell = offer; qty_tokens = 10; exec_price_micro_per_m = 100 } ∷ [];
  fills_hash = 10;
}

-- The bid lifts the offer, in whatever order they arrive.
match_epoch-offer : match_epoch toy "m" (pos 1) (pos 1) toy_domain (offer ∷ bid ∷ []) ≡ some batch
unfolding program
match_epoch-offer = refl

-- An order whose side is neither buy nor sell is matched as a sell against an earlier bid.
match_epoch-odd_side :
    match_epoch toy "m" (pos 1) (pos 1) toy_domain (toy_order 2 90 10 2 22 ∷ bid ∷ [])
    ≡ some (record {
      fills =
          record {
            buy = bid;
            sell = toy_order 2 90 10 2 22;
            qty_tokens = 10;
            exec_price_micro_per_m = 100;
          }
          ∷ [];
      fills_hash = 10;
    })
unfolding program
match_epoch-odd_side = refl

there : (z : Order) → Member z (offer ∷ bid ∷ []) → Member z (bid ∷ offer ∷ bid ∷ [])
there z (inl e) = inr (inl e)
there z (inr (inl e)) = inl e
there z (inr (inr m)) = absurd m

back : (z : Order) → Member z (bid ∷ offer ∷ bid ∷ []) → Member z (offer ∷ bid ∷ [])
back z (inl e) = inr (inl e)
back z (inr (inl e)) = inl e
back z (inr (inr (inl e))) = inr (inl e)
back z (inr (inr (inr m))) = absurd m

digests_differ : order_digest toy offer toy_domain ≡ order_digest toy bid toy_domain → ⊥
unfolding order_digest
digests_differ h = omega arith

-- The two orders have two digests.
no_collision : NoCollision toy toy_domain (offer ∷ bid ∷ [])
no_collision a b (inl e) (inl f) h = e ∙ sym f
no_collision a b (inl e) (inr (inl f)) h = absurd (digests_differ (sym (digest e) ∙ h ∙ digest f))
  where
    digest : {x y : Order} → x ≡ y → order_digest toy x toy_domain ≡ order_digest toy y toy_domain
    digest p = ap (λ (o : Order). order_digest toy o toy_domain) p
no_collision a b (inr (inl e)) (inl f) h =
    absurd (digests_differ (sym (digest f) ∙ sym h ∙ digest e))
  where
    digest : {x y : Order} → x ≡ y → order_digest toy x toy_domain ≡ order_digest toy y toy_domain
    digest p = ap (λ (o : Order). order_digest toy o toy_domain) p
no_collision a b (inr (inl e)) (inr (inl f)) h = e ∙ sym f
no_collision a b (inl e) (inr (inr m)) h = absurd m
no_collision a b (inr (inl e)) (inr (inr m)) h = absurd m
no_collision a b (inr (inr m)) n h = absurd m

match_epoch_set_example :
    match_epoch toy "m" (pos 1) (pos 1) toy_domain (offer ∷ bid ∷ [])
    ≡ match_epoch toy "m" (pos 1) (pos 1) toy_domain (bid ∷ offer ∷ bid ∷ [])
match_epoch_set_example =
    match_epoch_set toy toy_domain (offer ∷ bid ∷ []) (bid ∷ offer ∷ bid ∷ []) no_collision
      (λ z. (there z, back z)) "m" (pos 1) (pos 1)

-- Operator 5 signs before operator 3; the submission is in ascending order.
abbrev attestations : List Attestation
attestations =
    record { attester = 5; signature = signed_by 5 }
    ∷ record { attester = 3; signature = signed_by 3 }
    ∷ record { attester = 3; signature = signed_by 3 }
    ∷ []

aggregated :
    aggregate_attestation toy 77 attestations (3 ∷ 5 ∷ []) 2 ≡ some (signed_by 3 ∷ signed_by 5 ∷ [])
unfolding program
aggregated = refl

aggregate-verify_example :
    verify_quorum toy 77 (signed_by 3 ∷ signed_by 5 ∷ []) (3 ∷ 5 ∷ []) 2 ≡ true
aggregate-verify_example =
    aggregate-verify toy 77 (3 ∷ 5 ∷ []) attestations 2 (signed_by 3 ∷ signed_by 5 ∷ []) refl
      (omega arith) aggregated

elect_proposer_set_example : elect_proposer (5 ∷ 3 ∷ []) 4 ≡ elect_proposer (3 ∷ 5 ∷ 3 ∷ []) 4
elect_proposer_set_example =
    elect_proposer_set (5 ∷ 3 ∷ []) (3 ∷ 5 ∷ 3 ∷ []) 4 (λ z. (over z, under z))
  where
    over : (z : ℕ) → Member z (5 ∷ 3 ∷ []) → Member z (3 ∷ 5 ∷ 3 ∷ [])
    over z (inl e) = inr (inl e)
    over z (inr (inl e)) = inl e
    over z (inr (inr m)) = absurd m

    under : (z : ℕ) → Member z (3 ∷ 5 ∷ 3 ∷ []) → Member z (5 ∷ 3 ∷ [])
    under z (inl e) = inr (inl e)
    under z (inr (inl e)) = inl e
    under z (inr (inr (inl e))) = inr (inl e)
    under z (inr (inr (inr m))) = absurd m

elect_proposer_fair_example :
    (e' : ℕ) × (7 ≤ e')
    × (e' < 7 + length (sort_dedup (5 ∷ 3 ∷ [])))
    × (elect_proposer (5 ∷ 3 ∷ []) e' ≡ some 3)
elect_proposer_fair_example = elect_proposer_fair (5 ∷ 3 ∷ []) 3 7 (inr (inl refl))

abbrev proposal : BatchProposal
proposal = record {
  epoch = 7;
  book_id = 0;
  batch_nonce = 4;
  instrument_id = "m";
  proposer = 3;
  orders = toy_signed offer ∷ toy_signed bid ∷ [];
  fills_hash = 10;
}

co_signed :
    verify_proposal toy proposal (toy_signed bid ∷ []) (pos 1) (pos 1) toy_domain ≡ sign 14 batch
unfolding program
co_signed = refl

verify_proposal-sign_example :
    All (λ so. verify toy so toy_domain ≡ true) proposal.orders
    × (match_epoch toy "m" (pos 1) (pos 1) toy_domain (map (λ so. so.order) proposal.orders)
        ≡ some batch)
    × (batch.fills_hash ≡ proposal.fills_hash)
    × (◌≡◌ {A = ℕ} 14 (batch_digest toy 0 4 10 toy_domain))
    × All
        (IsIncluded toy toy_domain (instrument_hash toy "m") proposal.orders)
        (toy_signed bid ∷ [])
verify_proposal-sign_example =
    verify_proposal-sign toy toy_domain proposal (toy_signed bid ∷ []) (pos 1) (pos 1) 14 batch
      co_signed
