-- ===== src/Clob/Types.antt =====
-- operator/src/clob/mod.rs, clob/wire.rs: the state of the shared order book's service, its wire
-- types and its constants. Replies that are JSON are records, refusals are a data type.
use inference_bazaar.Base.{
  ℕ, ◌+◌, ◌*◌, ◌/◌, ◌%◌, ◌^◌, String, str_eq, List, [], ◌∷◌, ◌++◌, map, Option, none, some, Bool,
  ltb, if◌then◌else◌,
}
use inference_bazaar.Base.Int.{I64}
use inference_bazaar.Settlement.Types.{B256, Address, Bytes, Order, Eip712Domain, Crypto, be_bytes}
use inference_bazaar.Settlement.Fills.{SignedOrder, Signer}

abbrev pub expiry_margin_secs : ℕ
expiry_margin_secs = 30

abbrev pub max_pool : ℕ
max_pool = 10_000

abbrev pub cancel_ttl_secs : ℕ
cancel_ttl_secs = 172_800

abbrev pub pending_settle_min_secs : ℕ
pending_settle_min_secs = 30

abbrev pub pending_settle_epochs : ℕ
pending_settle_epochs = 3

-- The sums of seconds are of `u64`, which wraps.
abbrev pub add_u64 : ℕ → ℕ → ℕ
add_u64 a b = (a + b) % 2 ^ 64

abbrev pub mul_u64 : ℕ → ℕ → ℕ
mul_u64 a b = a * b % 2 ^ 64

unfoldable pub pending_settle_ttl : ℕ → ℕ
pending_settle_ttl epoch_secs =
    let ttl = mul_u64 pending_settle_epochs epoch_secs in
    if ltb ttl pending_settle_min_secs then pending_settle_min_secs else ttl

-- In milliseconds.
unfoldable pub attest_deadline : ℕ → ℕ
attest_deadline epoch_secs =
    let millis = mul_u64 epoch_secs 800 in
    if ltb millis 1_000 then 1_000 else if ltb 8_000 millis then 8_000 else millis

pub record PendingBatch : Type 0 where
  pub batch_nonce : ℕ
  pub deadline : ℕ

pub record PoolEntry : Type 0 where
  pub instrument_id : String
  pub signed : SignedOrder
  pub pending : Option PendingBatch

pub record FinalityJournal : Type 0 where
  pub settled : List (B256 × ℕ)
  pub cancelled : List (B256 × (Address × ℕ))

pub record Instrument : Type 0 where
  pub id : String
  pub tick_size : I64
  pub min_qty : I64

pub record ClobConfig : Type 0 where
  pub operators : List (Address × String)
  pub threshold : ℕ
  pub epoch_secs : ℕ
  pub book_id : B256

-- The pool and the finality sets, what they are read with, and the journal file, which is there
-- when a data directory is configured.
pub record Clob : Type 0 where
  pub cfg : ClobConfig
  pub domain : Eip712Domain
  pub contract : Address
  pub signer : Signer
  pub instruments : List Instrument
  pub pool : List (B256 × PoolEntry)
  pub settled : List (B256 × ℕ)
  pub cancelled : List (B256 × (Address × ℕ))
  pub file : Option FinalityJournal

pub record SignedOrderBody : Type 0 where
  pub instrument_id : String
  pub order : Order
  pub signature : String

pub record WireCancel : Type 0 where
  pub order_hash : B256
  pub trader : Address
  pub signature : String

pub record WireProposal : Type 0 where
  pub epoch : ℕ
  pub book_id : B256
  pub batch_nonce : ℕ
  pub instrument_id : String
  pub proposer : Address
  pub proposer_sig : String
  pub orders : List SignedOrder
  pub fills_hash : B256

pub record WireAttestation : Type 0 where
  pub attester : Address
  pub signature : Bytes

-- The reasons of a refused order or cancel.
pub data PoolError : Type 0 where
  instrument_mismatch signature_not_hex unknown_instrument bad_signature expires_too_soon zero_qty
        out_of_range already_settled already_cancelled pool_full unrecoverable_cancel not_by_trader
        not_owner :
      PoolError

-- The HTTP status of each.
unfoldable pub status_of : PoolError → ℕ
status_of unknown_instrument = 404
status_of already_settled = 409
status_of already_cancelled = 409
status_of pool_full = 429
status_of not_owner = 403
status_of _ = 422

pub record Admitted : Type 0 where
  pub digest : B256
  pub instrument_id : String
  pub epoch : ℕ
  pub pool_size : ℕ

pub record CancelReply : Type 0 where
  pub order_hash : B256
  pub removed_from_pool : Bool

unfoldable pub current_epoch : Clob → ℕ → ℕ
current_epoch b now = now / b.cfg.epoch_secs

unfoldable pub settlement_deadline : Clob → ℕ → ℕ
settlement_deadline b epoch =
    add_u64 (mul_u64 (add_u64 epoch 1) b.cfg.epoch_secs) expiry_margin_secs

abbrev find_instrument : String → List Instrument → Option Instrument
find_instrument id [] = none
find_instrument id (i ∷ is) = if str_eq i.id id then some i else find_instrument id is

unfoldable pub instrument : Clob → String → Option Instrument
instrument b id = find_instrument id b.instruments

-- keccak256(\x19\x01 ‖ domainSeparator ‖ structHash) for an order cancel.
unfoldable pub cancel_digest : Crypto → ℕ → Address → B256 → B256
cancel_digest c chain_id settlement order_hash =
    let dom =
      be_bytes 32 (
        c.keccak256 (
          c.as_bytes
            "EIP712Domain(string name,string version,uint256 chainId,address verifyingContract)"))
      ++ (be_bytes 32 (c.keccak256 (c.as_bytes "InferenceBazaarCancel"))
          ++ (be_bytes 32 (c.keccak256 (c.as_bytes "1"))
              ++ (be_bytes 32 chain_id ++ (be_bytes 12 0 ++ be_bytes 20 settlement)))) in
    let st =
      be_bytes 32 (c.keccak256 (c.as_bytes "OrderCancel(bytes32 orderHash)"))
      ++ be_bytes 32 order_hash in
    c.keccak256 (25 ∷ 1 ∷ be_bytes 32 (c.keccak256 dom) ++ be_bytes 32 (c.keccak256 st))

abbrev pub addresses : ClobConfig → List Address
addresses cfg = map (λ p. p.0) cfg.operators
