-- ===== src/Spend/Types.antt =====
-- operator/src/spend.rs: the digests of the spend rail, its journal, and its requests.
use inference_bazaar.Base.{ℕ, String, str_eq, if◌then◌else◌, List, ◌∷◌, ◌++◌, Option}
use inference_bazaar.Settlement.Types.{B256, Address, Bytes, Crypto, be_bytes}

abbrev pub spend_expiry_margin_secs : ℕ
spend_expiry_margin_secs = 120

abbrev pub max_tokens_per_request : ℕ
max_tokens_per_request = 8_192

module _ (c : Crypto) where
  -- The bytes of a text's hash.
  abbrev hashed : String → Bytes
  hashed s = be_bytes 32 (c.keccak256 (c.as_bytes s))

  unfoldable pub settlement_domain_separator : ℕ → Address → B256
  settlement_domain_separator chain_id settlement = c.keccak256 (
      hashed "EIP712Domain(string name,string version,uint256 chainId,address verifyingContract)"
      ++ (hashed "InferenceBazaarSettlement"
          ++ (hashed "1" ++ (be_bytes 32 chain_id ++ (be_bytes 12 0 ++ be_bytes 20 settlement)))))

  unfoldable pub eip712 : B256 → B256 → B256
  eip712 domain_separator struct_hash =
      c.keccak256 (25 ∷ 1 ∷ be_bytes 32 domain_separator ++ be_bytes 32 struct_hash)

  unfoldable pub spend_permit_digest : ℕ → Address → B256 → Address → ℕ → ℕ → B256
  unfolding eip712 settlement_domain_separator
  spend_permit_digest chain_id settlement lot_id session_key max_tokens expiry =
      eip712 (settlement_domain_separator chain_id settlement) (
        c.keccak256 (
          hashed "SpendPermit(bytes32 lotId,address sessionKey,uint64 maxTokens,uint64 expiry)"
          ++ (be_bytes 32 lot_id
              ++ (be_bytes 12 0
                  ++ (be_bytes 20 session_key ++ (be_bytes 32 max_tokens ++ be_bytes 32 expiry))))))

  unfoldable pub spend_voucher_digest : ℕ → Address → B256 → Address → ℕ → B256
  unfolding eip712 settlement_domain_separator
  spend_voucher_digest chain_id settlement lot_id session_key served_cumulative =
      eip712 (settlement_domain_separator chain_id settlement) (
        c.keccak256 (
          hashed "SpendVoucher(bytes32 lotId,address sessionKey,uint64 servedCumulative)"
          ++ (be_bytes 32 lot_id
              ++ (be_bytes 12 0 ++ (be_bytes 20 session_key ++ be_bytes 32 served_cumulative)))))

  unfoldable pub usage_query_digest : ℕ → Address → Address → ℕ → B256
  unfolding eip712 settlement_domain_separator
  usage_query_digest chain_id settlement holder expiry =
      eip712 (settlement_domain_separator chain_id settlement) (
        c.keccak256 (
          hashed "UsageQuery(address holder,uint64 expiry)"
          ++ (be_bytes 12 0 ++ (be_bytes 20 holder ++ be_bytes 32 expiry))))

pub record StoredPermit : Type 0 where
  pub lot_id : B256
  pub session_key : Address
  pub max_tokens : ℕ
  pub expiry : ℕ
  pub holder_sig : String
  pub holder : Address
  pub instrument_id : String
  pub model_id : String
  pub token_kind : String

-- By session key: the permit, the tokens served, the latest voucher, the tokens settled.
pub record SpendJournal : Type 0 where
  pub permits : List (Address × StoredPermit)
  pub served : List (Address × ℕ)
  pub voucher : List (Address × (ℕ × String))
  pub settled : List (Address × ℕ)

pub record VoucherHeader : Type 0 where
  pub session_key : Address
  pub cumulative : ℕ
  pub signature : String

pub record ChatBody : Type 0 where
  pub model : String
  pub max_tokens : Option ℕ

-- The refusals, by their error codes.
pub data SpendError : Type 0 where
  unconfigured invalid_api_key voucher_not_hex bad_voucher cap_exceeded stale_voucher ahead_voucher
        key_expired insufficient_quota model_mismatch upstream :
      SpendError

-- What the inference backend answers: no answer, a status of failure, or a completion with the
-- prompt and completion tokens it reports.
pub data Upstream : Type 0 where
  unreachable failed : Upstream
  completed : Option ℕ → Option ℕ → Upstream

-- The field that bills the channel, by the lot's token kind.
unfoldable pub usage_of : StoredPermit → Option ℕ → Option ℕ → Option ℕ
usage_of p prompt_tokens completion_tokens =
    if str_eq p.token_kind "input" then prompt_tokens else completion_tokens
