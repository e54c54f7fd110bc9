-- ===== src/Redeem.antt =====
-- operator/src/redeem.rs, venue.rs: redemptions are served on the holder's authorization, and each
-- authorization once. The chain, the backend and the parser of ids are parameters; completions are
-- the contents that are hashed and the usage that is billed.
use inference_bazaar.Base.{
  ℕ, ◌+◌, ◌-◌, ◌%◌, ◌^◌, min, String, str_eq, List, [], ◌∷◌, ◌++◌, Option, none, some, Bool, true,
  false, not, ◌&&◌, ◌||◌, ltb, leb, ◌==◌, if◌then◌else◌, any, select, Result, ok, err, panic,
}
use inference_bazaar.Base.Names.{find_name, drop_name, put_name}
use inference_bazaar.Base.Text.{trim_0x}
use inference_bazaar.Settlement.Types.{B256, Address, Bytes, Crypto, be_bytes}
use inference_bazaar.Settlement.Core.{recover_signer, instrument_hash, work_commitment}
use inference_bazaar.Clob.Types.{add_u64}
use inference_bazaar.Spend.Types.{eip712}
use inference_bazaar.Venue.Types.{SettleCtx}
use inference_bazaar.Venue.Rfq.{operator_of}
pub mod Quota
pub mod Vetting
mod Tests

pub record ServeAuth : Type 0 where
  pub expiry : ℕ
  pub signature : String

pub record RedeemServeBody : Type 0 where
  pub redemption_id : String
  pub messages : String
  pub max_tokens : Option ℕ
  pub auth : ServeAuth

-- What is served and used up of a redemption.
pub record RedeemProgress : Type 0 where
  pub served : ℕ
  pub used_auths : List B256
  pub work : Option B256
  pub served_at : ℕ

-- By the redemption's id as it was written; and the journal file, when there is one.
pub record RedeemState : Type 0 where
  pub progress : List (String × RedeemProgress)
  pub file : Option (List (String × RedeemProgress))

pub record Lot : Type 0 where
  pub issuer : Address
  pub instrument : B256

-- A redemption as the chain has it, and what the read of its lot answers.
pub record Redemption : Type 0 where
  pub state : ℕ
  pub deadline : ℕ
  pub holder : Address
  pub qty_tokens : ℕ
  pub lot : Option Lot

pub record ServedModel : Type 0 where
  pub id : String
  pub model_id : String
  pub token_kind : String

-- What the backend answers: nothing, a failure, or contents and usage.
pub data Completion : Type 0 where
  unreachable failed : Completion
  completed : (contents : List String) → (prompt_tokens completion_tokens : Option ℕ) → Completion

pub data RedeemError : Type 0 where
  unconfigured bad_id auth_expired auth_too_far signature_not_hex unrecoverable chain_error not_open
        past_deadline not_holder not_issuer unknown_model auth_used fully_served backend_error :
      RedeemError

abbrev fresh : RedeemProgress
fresh = record { served = 0; used_auths = []; work = none; served_at = 0 }

abbrev or_fresh : Option RedeemProgress → RedeemProgress
or_fresh none = fresh
or_fresh (some p) = p

abbrev pub progress_of : String → RedeemState → RedeemProgress
progress_of id s = or_fresh (find_name id s.progress)

unfoldable pub persist_redeem : RedeemState → RedeemState
persist_redeem s = elim s.file [ none ↦ s | some j ↦ record s { file = some s.progress } ]

abbrev pub with_progress : String → RedeemProgress → RedeemState → RedeemState
with_progress id p s = record s { progress = put_name id p s.progress }

abbrev pub is_used : B256 → RedeemProgress → Bool
is_used d p = any (λ x. d == x) p.used_auths

-- The authorization is consumed and the count is read, in one step.
unfoldable pub reserve : String → B256 → RedeemState → RedeemState × Result RedeemError ℕ
reserve id d s =
    let p = progress_of id s in
    if is_used d p
    then (s, err auth_used)
    else (with_progress id (record p { used_auths = d ∷ p.used_auths }) s, ok p.served)

-- The authorization is given back.
unfoldable pub release_auth : String → B256 → RedeemState → RedeemState
unfolding persist_redeem
release_auth id d s = elim (find_name id s.progress) [
  | none ↦ persist_redeem s
  | some p ↦
      persist_redeem
        (with_progress id (record p { used_auths = select (λ x. not (d == x)) p.used_auths }) s)
]

unfoldable pub record_progress : ℕ → String → ℕ → B256 → RedeemState → RedeemState
unfolding persist_redeem
record_progress now id total work s = persist_redeem (
    with_progress id
      (record (progress_of id s) { served = total; work = some work; served_at = now }) s)

unfoldable pub usage_for : ServedModel → Option ℕ → Option ℕ → ℕ
usage_for m prompt_tokens completion_tokens =
    elim (if str_eq m.token_kind "input" then prompt_tokens else completion_tokens) [
      | none ↦ 0
      | some n ↦ n
    ]

pub record Served : Type 0 where
  pub used : ℕ
  pub served_now : ℕ
  pub total : ℕ
  pub remaining_quota : ℕ
  pub work : B256

-- A request that passed every check on the chain.
pub record Vetted : Type 0 where
  pub digest : B256
  pub messages_hash : B256
  pub redemption : Redemption
  pub model : ServedModel

abbrev is_some : Option String → Bool
is_some none = false
is_some (some x) = true

abbrev pub serve_cap : Option ℕ → ℕ
serve_cap none = 1_024
serve_cap (some n) = min n 8_192

abbrev pub asked_tokens : Option ℕ → ℕ
asked_tokens none = 0
asked_tokens (some n) = n

module _ (c : Crypto) where
  abbrev hashed : String → Bytes
  hashed s = be_bytes 32 (c.keccak256 (c.as_bytes s))

  unfoldable pub serve_digest : ℕ → Address → B256 → B256 → ℕ → ℕ → B256
  unfolding eip712
  serve_digest chain_id settlement redemption_id messages_hash max_tokens expiry =
      eip712 c
        (c.keccak256 (
          hashed
            "EIP712Domain(string name,string version,uint256 chainId,address verifyingContract)"
          ++ (hashed "InferenceBazaarServe"
              ++ (hashed "1"
                  ++ (be_bytes 32 chain_id ++ (be_bytes 12 0 ++ be_bytes 20 settlement))))))
        (c.keccak256 (
          hashed
            "ServeRequest(bytes32 redemptionId,bytes32 messagesHash,uint64 maxTokens,uint64 expiry)"
          ++ (be_bytes 32 redemption_id
              ++ (be_bytes 32 messages_hash ++ (be_bytes 32 max_tokens ++ be_bytes 32 expiry)))))

  abbrev contents_bytes : List String → Bytes
  contents_bytes [] = []
  contents_bytes (s ∷ ss) = c.as_bytes s ++ contents_bytes ss

  unfoldable pub output_hash : List String → B256
  output_hash contents = c.keccak256 (contents_bytes contents)

  abbrev pub find_model : B256 → List ServedModel → Option ServedModel
  find_model h [] = none
  find_model h (m ∷ ms) = if instrument_hash c m.id == h then some m else find_model h ms

  -- The redemption must be open, in its deadline, the holder's, and of a lot that we issued.
  unfoldable pub vet_redemption :
      ℕ
      → Option Address
      → List ServedModel
      → Address
      → B256
      → B256
      → Redemption
      → Result RedeemError Vetted
  unfolding instrument_hash
  vet_redemption now me models signer d messages_hash r =
      if not (r.state == 1)
      then err not_open
      else if ltb r.deadline now
      then err past_deadline
      else if not (signer == r.holder)
      then err not_holder
      else elim r.lot [
        | none ↦ err chain_error
        | some lot ↦ elim me [
          | none ↦ err unconfigured
          | some a ↦
              if not (lot.issuer == a)
              then err not_issuer
              else elim (find_model lot.instrument models) [
                | none ↦ err unknown_model
                | some m ↦ ok (record {
                  digest = d;
                  messages_hash = messages_hash;
                  redemption = r;
                  model = m;
                })
              ]
        ]
      ]

  unfoldable pub vet_serve :
      ℕ
      → SettleCtx
      → List ServedModel
      → (parse : String → Option B256) → (get_redemption : B256 → Option Redemption)
      → RedeemServeBody
      → Result RedeemError Vetted
  unfolding serve_digest recover_signer trim_0x vet_redemption
  vet_serve now ctx models parse get_redemption body = elim (parse body.redemption_id) [
    | none ↦ err bad_id
    | some rid ↦
        if ltb body.auth.expiry now
        then err auth_expired
        else if ltb (add_u64 now 3_600) body.auth.expiry
        then err auth_too_far
        else elim (c.hex_decode (trim_0x body.auth.signature)) [
          | none ↦ err signature_not_hex
          | some sig ↦
              let messages_hash = c.keccak256 (c.as_bytes body.messages) in
              let d =
                serve_digest ctx.domain.chain_id ctx.contract rid messages_hash
                  (asked_tokens body.max_tokens) body.auth.expiry in
              elim (recover_signer c d sig) [
                | none ↦ err unrecoverable
                | some signer ↦ elim (get_redemption rid) [
                  | none ↦ err chain_error
                  | some r ↦ vet_redemption now (operator_of ctx) models signer d messages_hash r
                ]
              ]
        ]
  ]

  -- The end of a serve, when the backend has answered: `already` was read at the reservation.
  unfoldable pub conclude :
      ℕ → String → Vetted → ℕ → Completion → RedeemState → RedeemState × Result RedeemError Served
  unfolding release_auth record_progress usage_for output_hash work_commitment
  conclude now id v already unreachable s = (release_auth id v.digest s, err backend_error)
  conclude now id v already failed s = (release_auth id v.digest s, err backend_error)
  conclude now id v already (completed contents prompt_tokens completion_tokens) s =
      let used = usage_for v.model prompt_tokens completion_tokens in
      let served_now = min used (v.redemption.qty_tokens - already) in
      let total = add_u64 already served_now in
      let work =
        work_commitment c (c.keccak256 (c.as_bytes v.model.model_id)) v.messages_hash
          (output_hash contents) in
      (
        record_progress now id total work s,
        ok (record {
          used = used;
          served_now = served_now;
          total = total;
          remaining_quota = v.redemption.qty_tokens - total;
          work = work;
        }),
      )

  -- The serve of a vetted request: reserved, journaled, served.
  unfoldable pub serve_vetted :
      ℕ
      → RedeemServeBody
      → Vetted
      → (ServedModel → String → ℕ → Completion)
      → RedeemState
      → RedeemState × Result RedeemError Served
  unfolding reserve conclude
  serve_vetted now body v backend s =
      let (s1, reserved) = reserve body.redemption_id v.digest s in
      elim reserved [
        | err e ↦ (s1, err e)
        | panic ↦ (s1, panic)
        | ok already ↦
            if (v.redemption.qty_tokens - already) == 0
            then (release_auth body.redemption_id v.digest s1, err fully_served)
            else conclude now body.redemption_id v already
                (backend v.model body.messages (serve_cap body.max_tokens)) (persist_redeem s1)
      ]

  -- Can the operator submit: an RPC address, and a key of the submitter or the operator.
  abbrev pub can_submit : SettleCtx → Bool
  can_submit ctx = is_some ctx.rpc_url && (is_some ctx.submitter_key || is_some ctx.operator_key)

  unfoldable pub redeem_serve :
      ℕ
      → Option SettleCtx
      → List ServedModel
      → (parse : String → Option B256) → (get_redemption : B256 → Option Redemption)
      → (ServedModel → String → ℕ → Completion)
      → RedeemServeBody
      → RedeemState
      → RedeemState × Result RedeemError Served
  unfolding vet_serve serve_vetted
  redeem_serve now settle models parse get_redemption backend body s = elim settle [
    | none ↦ (s, err unconfigured)
    | some ctx ↦
        if can_submit ctx
        then elim (vet_serve now ctx models parse get_redemption body) [
          | err e ↦ (s, err e)
          | panic ↦ (s, panic)
          | ok v ↦ serve_vetted now body v backend s
        ]
        else (s, err unconfigured)
  ]

pub data RedeemAction : Type 0 where
  attest finalize drop wait : RedeemAction

abbrev saturating_add : ℕ → ℕ → ℕ
saturating_add a b = min (a + b) (2 ^ 64 - 1)

unfoldable pub redeem_attest_action : ℕ → ℕ → ℕ → ℕ → ℕ → ℕ → ℕ → ℕ → RedeemAction
redeem_attest_action state served now served_at deadline challenge_deadline grace margin =
    if state == 1
    then (if ltb 0 served
          && (leb (saturating_add served_at grace) now && ltb (saturating_add now margin) deadline)
        then attest
        else wait)
    else if state == 2
    then (if ltb challenge_deadline now then finalize else wait)
    else drop

-- A settled receipt forgets the redemption.
unfoldable pub redeem_receipt : String → RedeemState → RedeemState
unfolding persist_redeem
redeem_receipt id s = persist_redeem (record s { progress = drop_name id s.progress })
