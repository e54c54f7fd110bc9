-- ===== src/Settlement/Toy.antt =====
-- A concrete instance of the third-party functions, at which the theorems are tried: a signature
-- recovers to its first byte, and an order's digest is its salt.
use inference_bazaar.Base.{ℕ, zero, suc, ◌+◌, [], ◌∷◌, ◌++◌, map, Option, none, some, false}
use inference_bazaar.Settlement.Types.{Bytes, Order, Eip712Domain, Crypto}
use inference_bazaar.Settlement.Fills.{SignedOrder}
use Prim.Native.String

abbrev pub sum_bytes : Bytes → ℕ
sum_bytes [] = 0
sum_bytes (b ∷ bs) = b + sum_bytes bs

abbrev pub first_byte : Bytes → Option (ℕ × ℕ)
first_byte [] = none
first_byte (b ∷ bs) = some (b, 1)

abbrev pub zeros : ℕ → Bytes
zeros zero = []
zeros (suc n) = 0 ∷ zeros n

abbrev pub toy : Crypto
toy = record {
  keccak256 = sum_bytes;
  order_signing_hash = λ o d. o.salt;
  order_hash_struct = λ o. o.salt;
  receipt_signing_hash = λ r d. r.served_tokens;
  batch_signing_hash = λ b d. b.batch_nonce + b.fills_hash;
  abi_encode_fills = map (λ f. f.qty_tokens);
  abi_encode_words = λ ws. ws;
  parse_signature = first_byte;
  is_high = λ s. false;
  recover_from_prehash = λ d rs v. some (4 ∷ rs.0 ∷ []);
  parse_key = λ bs. some (sum_bytes bs);
  public_point = λ k. 4 ∷ k ∷ [];
  sign_prehash = λ k d. (k ∷ zeros 63, 0);
  hex_decode = λ s. some (String.len s ∷ zeros 63 ++ 27 ∷ []);
  as_bytes = λ s. String.len s ∷ [];
}

abbrev pub toy_domain : Eip712Domain
toy_domain = record { name = "n"; version = "1"; chain_id = 1; verifying_contract = 9 }

abbrev pub signed_by : ℕ → Bytes
signed_by a = a ∷ zeros 63 ++ 27 ∷ []

-- An order of the instrument whose hash is 1, by trader and salt.
abbrev pub toy_order : ℕ → ℕ → ℕ → ℕ → ℕ → Order
toy_order side price qty trader salt = record {
  instrument = 1;
  side = side;
  price_micro_per_m = price;
  qty_tokens = qty;
  lot_id = 0;
  trader = trader;
  expiry = 100;
  salt = salt;
}

abbrev pub toy_signed : Order → SignedOrder
toy_signed o = record { order = o; signature = signed_by o.trader }
