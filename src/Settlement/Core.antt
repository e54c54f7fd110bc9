-- ===== src/Settlement/Core.antt =====
-- crates/settlement-core/src/lib.rs: digests, signature recovery, and the stateless rules of a fill.
use inference_bazaar.Base.{
  ℕ, zero, suc, ◌+◌, ◌-◌, ◌*◌, ◌/◌, ◌%◌, ◌^◌, String, List, [], ◌∷◌, ◌++◌, map, Option, none, some,
  Bool, true, false, not, ◌||◌, ltb, ◌==◌, if◌then◌else◌, length, take, Result, ok, err, ◌>>◌,
}
use inference_bazaar.Base.Sets.{sort_dedup}
use inference_bazaar.Settlement.Types.{
  B256, Address, Bytes, Order, BatchFill, Eip712Domain, Crypto, be_bytes, side_buy, side_sell,
}

unfoldable pub domain : ℕ → Address → Eip712Domain
domain chain_id verifying_contract = record {
  name = "InferenceBazaarSettlement";
  version = "1";
  chain_id = chain_id;
  verifying_contract = verifying_contract;
}

abbrev pub nth : List ℕ → ℕ → Option ℕ
nth [] i = none
nth (x ∷ xs) zero = some x
nth (x ∷ xs) (suc i) = nth xs i

abbrev pub drop_first : Bytes → Bytes
drop_first [] = []
drop_first (b ∷ bs) = bs

module _ (c : Crypto) where
  unfoldable pub order_digest : Order → Eip712Domain → B256
  order_digest order dom = c.order_signing_hash order dom

  unfoldable pub order_struct_hash : Order → B256
  order_struct_hash order = c.order_hash_struct order

  unfoldable pub receipt_digest : B256 → ℕ → B256 → Eip712Domain → B256
  receipt_digest redemption_id served_tokens work_commitment dom =
      c.receipt_signing_hash
        (record {
          redemption_id = redemption_id;
          served_tokens = served_tokens;
          work_commitment = work_commitment;
        })
        dom

  unfoldable pub work_commitment : B256 → B256 → B256 → B256
  work_commitment model_id_hash messages_hash output_hash =
      c.keccak256
        (be_bytes 32 model_id_hash ++ (be_bytes 32 messages_hash ++ be_bytes 32 output_hash))

  unfoldable pub batch_digest : B256 → ℕ → B256 → Eip712Domain → B256
  batch_digest book_id batch_nonce fills_hash dom =
      c.batch_signing_hash
        (record { book_id = book_id; batch_nonce = batch_nonce; fills_hash = fills_hash }) dom

  unfoldable pub fills_hash : List BatchFill → B256
  fills_hash fills = c.keccak256 (c.abi_encode_fills fills)

  unfoldable pub batch_public_values : B256 → B256 → ℕ → B256 → B256 → Bytes
  batch_public_values domain_separator book_id batch_nonce orders_commitment fills_hash =
      c.abi_encode_words
        (domain_separator ∷ book_id ∷ batch_nonce ∷ orders_commitment ∷ fills_hash ∷ [])

  -- `keccak256` of the sorted digests without duplicates.
  abbrev word_bytes : List B256 → Bytes
  word_bytes [] = []
  word_bytes (d ∷ ds) = be_bytes 32 d ++ word_bytes ds

  unfoldable pub orders_commitment : List Order → Eip712Domain → B256
  orders_commitment orders dom =
      c.keccak256 (word_bytes (sort_dedup (map (λ o. c.order_signing_hash o dom) orders)))

  unfoldable pub instrument_hash : String → B256
  instrument_hash instrument_id = c.keccak256 (c.as_bytes instrument_id)

  -- The recovery id of the last signature byte: 27 and 28 only.
  abbrev pub recovery_id : Option ℕ → Option ℕ
  recovery_id none = none
  recovery_id (some v) = if v == 27 || v == 28 then some (v - 27) else none

  abbrev pub address_of : Bytes → Address
  address_of point = c.keccak256 (drop_first point) % 2 ^ 160

  abbrev recover_with : B256 → Option (ℕ × ℕ) → ℕ → Option Address
  recover_with digest none v = none
  recover_with digest (some rs) v =
      if c.is_high rs.1 then none else elim (c.recover_from_prehash digest rs v) [
        | none ↦ none
        | some point ↦ some (address_of point)
      ]

  unfoldable pub recover_signer : B256 → Bytes → Option Address
  recover_signer digest signature =
      if length signature == 65
      then elim (recovery_id (nth signature 64)) [
        | none ↦ none
        | some v ↦ recover_with digest (c.parse_signature (take 64 signature)) v
      ]
      else none

  abbrev pub is_signer : Option Address → Address → Bool
  is_signer none a = false
  is_signer (some s) a = s == a

  unfoldable pub verify_order : Order → Bytes → Eip712Domain → Bool
  unfolding recover_signer order_digest
  verify_order order signature dom =
      is_signer (recover_signer (order_digest order dom) signature) order.trader

pub data PairError : Type 0 where
  invalid_order_pair self_fill zero_amount order_expired price_outside_limits qty_exceeds_order :
      PairError

abbrev pub reject_if : Bool → PairError → Result PairError (Unit {0})
reject_if true e = err e
reject_if false e = ok tt

unfoldable pub validate_pair : Order → Order → ℕ → ℕ → ℕ → Result PairError (Unit {0})
validate_pair buy sell qty exec_price now_unix = do
  reject_if
      (not (buy.side == side_buy)
        || not (sell.side == side_sell)
        || not (buy.instrument == sell.instrument)
        || not (buy.lot_id == 0))
      invalid_order_pair
  reject_if (buy.trader == sell.trader) self_fill
  reject_if (qty == 0 || exec_price == 0) zero_amount
  reject_if (ltb buy.expiry now_unix || ltb sell.expiry now_unix) order_expired
  reject_if (ltb buy.price_micro_per_m exec_price || ltb exec_price sell.price_micro_per_m)
      price_outside_limits
  reject_if (ltb buy.qty_tokens qty || ltb sell.qty_tokens qty) qty_exceeds_order

-- In `U256`, which wraps.
unfoldable pub cost_micro : ℕ → ℕ → ℕ
cost_micro exec_price qty = ((exec_price * qty) % 2 ^ 256 + 500_000) % 2 ^ 256 / 1_000_000
