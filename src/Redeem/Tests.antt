-- ===== src/Redeem/Tests.antt =====
-- operator/src/redeem.rs: a redemption of 20 tokens that is served 15 of them, and the replays.
use inference_bazaar.Base.{
  ℕ, ◌<◌, ◌^◌, ◌≡◌, refl, arith, String, [], ◌∷◌, some, none, Option, ok, err, Result, eq_of_some,
  subst,
}
use inference_bazaar.Settlement.Types.{B256, be_bytes}
use inference_bazaar.Settlement.Core.{instrument_hash, work_commitment}
use inference_bazaar.Settlement.Toy.{toy}
use inference_bazaar.Venue.Types.{SettleCtx}
use inference_bazaar.Venue.Toy.{ctx}
use inference_bazaar.Redeem.{
  RedeemServeBody, RedeemState, Redemption, ServedModel, Completion, completed, failed, RedeemError,
  Served, Vetted, auth_used, output_hash, redeem_serve,
}
use inference_bazaar.Redeem.Vetting.{IsAuthorized}
use inference_bazaar.Redeem.Quota.{IsServedOnce, redeem_serve-IsServed}

abbrev configured : Option SettleCtx
configured = some (record ctx { rpc_url = some "rpc"; operator_key = some "key" })

abbrev model : ServedModel
model = record { id = "m"; model_id = "llm"; token_kind = "output" }

abbrev redemption : Redemption
redemption = record {
  state = 1;
  deadline = 50;
  holder = 2;
  qty_tokens = 20;
  lot = some (record { issuer = 7; instrument = instrument_hash toy "m" });
}

abbrev parse : String → Option B256
parse s = some 5

abbrev chain : B256 → Option Redemption
chain id = some redemption

abbrev backend : ServedModel → String → ℕ → Completion
backend m messages cap = completed ("hi" ∷ []) (some 3) (some 15)

abbrev broken : ServedModel → String → ℕ → Completion
broken m messages cap = failed

abbrev body : String → RedeemServeBody
body id = record {
  redemption_id = id;
  messages = "hello";
  max_tokens = none;
  auth = record { expiry = 40; signature = "0xab" };
}

abbrev unserved : RedeemState
unserved = record { progress = []; file = some [] }

abbrev serve : String → RedeemState → RedeemState × Result RedeemError Served
serve id s = redeem_serve toy 10 configured (model ∷ []) parse chain backend (body id) s

abbrev served : Served
served = record {
  used = 15;
  served_now = 15;
  total = 15;
  remaining_quota = 5;
  work =
      work_commitment toy (toy.keccak256 (toy.as_bytes "llm"))
        (toy.keccak256 (toy.as_bytes "hello")) (output_hash toy ("hi" ∷ []));
}

redeem_serve-IsServed_example :
    (v : Vetted) × IsAuthorized toy 10 configured (model ∷ []) parse chain (body "05") v
    × IsServedOnce toy 10 (body "05") v unserved (serve "05" unserved).0 served
unfolding redeem_serve
redeem_serve-IsServed_example =
    redeem_serve-IsServed toy 10 configured (model ∷ []) parse chain backend (body "05") unserved
      served (λ id x e. subst (λ y. y.qty_tokens < 2 ^ 64) (eq_of_some e) (omega arith)) refl

-- The same request again is refused.
replay_refused : (serve "05" (serve "05" unserved).0).1 ≡ err auth_used
unfolding redeem_serve be_bytes
replay_refused = refl

-- Its id in another spelling of the same word is another key: the request is served again.
respelled_served : (serve "0x05" (serve "05" unserved).0).1 ≡ ok served
unfolding redeem_serve
respelled_served = refl

-- A backend that fails gives the authorization back.
failed_released :
    (serve "05"
      (redeem_serve toy 10 configured (model ∷ []) parse chain broken (body "05") unserved).0).1
    ≡ ok served
unfolding redeem_serve be_bytes
failed_released = refl
