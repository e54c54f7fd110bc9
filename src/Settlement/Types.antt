-- ===== src/Settlement/Types.antt =====
-- crates/settlement-core/src/lib.rs: the typed data that is signed, and the third-party functions
-- over it (alloy's EIP-712 and ABI encodings, keccak, k256), which are a parameter of the model.
use inference_bazaar.Base.{ℕ, zero, suc, ◌/◌, ◌%◌, String, List, [], ◌∷◌, ◌++◌, Option, Bool}

-- A 32-byte word (`B256`), an address, and a `U256` are the numbers that their bytes spell.
abbrev pub B256 : Type 0
B256 = ℕ

abbrev pub Address : Type 0
Address = ℕ

abbrev pub Bytes : Type 0
Bytes = List ℕ

abbrev pub side_buy : ℕ
side_buy = 0

abbrev pub side_sell : ℕ
side_sell = 1

pub record Order : Type 0 where
  pub instrument : B256
  pub side : ℕ
  pub price_micro_per_m : ℕ
  pub qty_tokens : ℕ
  pub lot_id : B256
  pub trader : Address
  pub expiry : ℕ
  pub salt : B256

pub record BatchFill : Type 0 where
  pub buy : Order
  pub sell : Order
  pub qty_tokens : ℕ
  pub exec_price_micro_per_m : ℕ

pub record RedemptionReceipt : Type 0 where
  pub redemption_id : B256
  pub served_tokens : ℕ
  pub work_commitment : B256

pub record SettlementBatch : Type 0 where
  pub book_id : B256
  pub batch_nonce : ℕ
  pub fills_hash : B256

pub record Eip712Domain : Type 0 where
  pub name : String
  pub version : String
  pub chain_id : ℕ
  pub verifying_contract : Address

-- What the code calls of alloy and k256. A parsed ECDSA signature is its pair (r, s); a recovered
-- key is its uncompressed point, tag byte first.
pub record Crypto : Type 0 where
  pub keccak256 : Bytes → B256
  pub order_signing_hash : Order → Eip712Domain → B256
  pub order_hash_struct : Order → B256
  pub receipt_signing_hash : RedemptionReceipt → Eip712Domain → B256
  pub batch_signing_hash : SettlementBatch → Eip712Domain → B256
  pub abi_encode_fills : List BatchFill → Bytes
  pub abi_encode_words : List B256 → Bytes
  pub parse_signature : Bytes → Option (ℕ × ℕ)
  pub is_high : ℕ → Bool
  pub recover_from_prehash : B256 → ℕ × ℕ → ℕ → Option Bytes
  -- A signing key from its bytes, its public point, and a signature with its recovery id.
  pub parse_key : Bytes → Option ℕ
  pub public_point : ℕ → Bytes
  pub sign_prehash : ℕ → B256 → Bytes × ℕ
  -- `hex::decode`, and the bytes of a text.
  pub hex_decode : String → Option Bytes
  pub as_bytes : String → Bytes

-- The `n` bytes of a number, highest first.
unfoldable pub be_bytes : ℕ → ℕ → Bytes
be_bytes zero x = []
be_bytes (suc n) x = be_bytes n (x / 256) ++ (x % 256) ∷ []
