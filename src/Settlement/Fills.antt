-- ===== src/Settlement/Fills.antt =====
-- crates/settlement/src/lib.rs: signed orders, fills paired from them, signers, batches and quorums.
use inference_bazaar.Base.{
  ℕ, ◌+◌, ◌%◌, ◌^◌, List, [], ◌∷◌, ◌++◌, map, Option, none, some, Bool, true, false, not, ◌&&◌,
  ◌||◌, ltb, leb, ◌==◌, if◌then◌else◌, length, any, Result, ok, err, panic,
}
use inference_bazaar.Base.Sets.{sort_by}
use inference_bazaar.Settlement.Types.{
  B256, Address, Bytes, Order, BatchFill, Eip712Domain, Crypto, side_buy, side_sell,
}
use inference_bazaar.Settlement.Core.{
  order_digest, receipt_digest, batch_digest, fills_hash, recover_signer, verify_order, PairError,
  invalid_order_pair, validate_pair, cost_micro, address_of,
}

pub record SignedOrder : Type 0 where
  pub order : Order
  pub signature : Bytes

pub record SignedFill : Type 0 where
  pub buy : SignedOrder
  pub sell : SignedOrder
  pub qty_tokens : ℕ
  pub exec_price_micro_per_m : ℕ

pub data FillError : Type 0 where
  pair_error : PairError → FillError
  bad_signature : B256 → FillError

pub record Signer : Type 0 where
  pub key : ℕ
  pub address : Address

pub record Batch : Type 0 where
  pub fills : List SignedFill

unfoldable pub batch_fill : SignedFill → BatchFill
batch_fill f = record {
  buy = f.buy.order;
  sell = f.sell.order;
  qty_tokens = f.qty_tokens;
  exec_price_micro_per_m = f.exec_price_micro_per_m;
}

unfoldable pub fill_cost_micro : SignedFill → ℕ
fill_cost_micro f = cost_micro f.exec_price_micro_per_m f.qty_tokens % 2 ^ 128

-- The buyer's and the seller's order, by the sides of taker and maker.
unfoldable pub buy_and_sell : SignedOrder → SignedOrder → Option (SignedOrder × SignedOrder)
buy_and_sell maker taker =
    if taker.order.side == side_buy && maker.order.side == side_sell
    then some (taker, maker)
    else if taker.order.side == side_sell && maker.order.side == side_buy
    then some (maker, taker)
    else none

module _ (c : Crypto) where
  unfoldable pub digest : SignedOrder → Eip712Domain → B256
  digest so dom = order_digest c so.order dom

  unfoldable pub verify : SignedOrder → Eip712Domain → Bool
  verify so dom = verify_order c so.order so.signature dom

  abbrev pub validated : Result PairError (Unit {0}) → SignedFill → Result FillError SignedFill
  validated (ok u) f = ok f
  validated (err e) f = err (pair_error e)
  validated panic f = panic

  unfoldable pub pair_sides :
      SignedOrder × SignedOrder → ℕ → ℕ → ℕ → Eip712Domain → Result FillError SignedFill
  pair_sides (buy, sell) exec_price qty now_unix dom =
      if not (verify buy dom)
      then err (bad_signature (digest buy dom))
      else if not (verify sell dom)
      then err (bad_signature (digest sell dom))
      else validated (validate_pair buy.order sell.order qty exec_price now_unix)
          (record { buy = buy; sell = sell; qty_tokens = qty; exec_price_micro_per_m = exec_price })

  unfoldable pub pair :
      SignedOrder → SignedOrder → ℕ → ℕ → Eip712Domain → Result FillError SignedFill
  unfolding pair_sides buy_and_sell
  pair maker taker qty now_unix dom = elim (buy_and_sell maker taker) [
    | none ↦ err (pair_error invalid_order_pair)
    | some sides ↦ pair_sides sides maker.order.price_micro_per_m qty now_unix dom
  ]

  unfoldable pub signer_of_key : Bytes → Option Signer
  signer_of_key raw = elim (c.parse_key raw) [
    | none ↦ none
    | some key ↦ some (record { key = key; address = address_of c (c.public_point key) })
  ]

  unfoldable pub sign_digest : Signer → B256 → Bytes
  sign_digest s d = let (sig, rec) = c.sign_prehash s.key d in sig ++ (27 + rec) ∷ []

  unfoldable pub sign_order : Signer → Order → Eip712Domain → SignedOrder
  unfolding sign_digest
  sign_order s order dom = record {
    order = order;
    signature = sign_digest s (order_digest c order dom);
  }

  unfoldable pub sign_receipt : Signer → B256 → ℕ → B256 → Eip712Domain → Bytes
  unfolding sign_digest
  sign_receipt s redemption_id served work_commitment dom =
      sign_digest s (receipt_digest c redemption_id served work_commitment dom)

  unfoldable pub push : SignedFill → Batch → Batch
  push fill batch = record { fills = batch.fills ++ fill ∷ [] }

  unfoldable pub batch_fills : Batch → List BatchFill
  batch_fills batch = map batch_fill batch.fills

  unfoldable pub attestation_digest : Batch → B256 → ℕ → Eip712Domain → B256
  attestation_digest batch book_id batch_nonce dom =
      batch_digest c book_id batch_nonce (fills_hash c (batch_fills batch)) dom

  abbrev pub contains : List Address → Address → Bool
  contains attesters a = any (λ b. a == b) attesters

  -- The loop of `verify_quorum`: `last` is the signer before.
  unfoldable pub ascending_from : B256 → List Address → Address → List Bytes → Bool
  ascending_from d attesters last [] = true
  ascending_from d attesters last (sig ∷ sigs) = elim (recover_signer c d sig) [
    | none ↦ false
    | some signer ↦
        if leb signer last || not (contains attesters signer)
        then false
        else ascending_from d attesters signer sigs
  ]

  unfoldable pub verify_quorum : B256 → List Bytes → List Address → ℕ → Bool
  unfolding ascending_from
  verify_quorum d sigs attesters threshold =
      if threshold == 0 || ltb (length sigs) threshold
      then false
      else ascending_from d attesters 0 sigs

  -- `dedup_by_key`: the first of each run stays.
  unfoldable pub dedup_behind : Address × Bytes → List (Address × Bytes) → List (Address × Bytes)
  dedup_behind p [] = p ∷ []
  dedup_behind p (q ∷ qs) = elim (p.0 == q.0) [
    | true ↦ dedup_behind p qs
    | false ↦ p ∷ dedup_behind q qs
  ]

  unfoldable pub dedup_by_signer : List (Address × Bytes) → List (Address × Bytes)
  unfolding dedup_behind
  dedup_by_signer [] = []
  dedup_by_signer (p ∷ ps) = dedup_behind p ps

  -- Each signature that recovers, with its signer.
  abbrev pub recovered : B256 → List Bytes → List (Address × Bytes)
  recovered d [] = []
  recovered d (sig ∷ sigs) =
      let rest = recovered d sigs in
      elim (recover_signer c d sig) [ none ↦ rest | some a ↦ (a, sig) ∷ rest ]

  unfoldable pub sort_quorum_sigs : B256 → List Bytes → List Bytes
  unfolding dedup_by_signer sort_by
  sort_quorum_sigs d sigs =
      map (λ p. p.1) (dedup_by_signer (sort_by (λ p q. leb p.0 q.0) (recovered d sigs)))
