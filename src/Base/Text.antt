-- ===== src/Base/Text.antt =====
-- `format!` of a number: its digits in base 10 or 16.
use Prim.Native.Nat.{ℕ, zero, suc, ◌-◌, ◌/◌, ◌%◌}
use Prim.Native.Char.{Char, nul}
use Prim.Native.String.{String}
use Prim.Native.String
use text.Mathlib.Text.{◌==◌ as str_eq}
use mathlib.Core.Path.{◌≡◌, refl}
use inference_bazaar.Base.Tests.{◌==◌, if◌then◌else◌}

abbrev char_of : String → ℕ → Char
char_of String.[] i = nul
char_of (String.◌∷◌ c s) zero = c
char_of (String.◌∷◌ c s) (suc i) = char_of s i

-- The digits of a number in front of a text, by fuel above the number.
unfoldable pub digits : ℕ → ℕ → ℕ → String → String
digits base zero n s = s
digits base (suc fuel) n s =
    let s' = String.◌∷◌ (char_of "0123456789abcdef" (n % base)) s in
    let rest = digits base fuel (n / base) s' in if (n / base) == 0 then s' else rest

-- `format!("o{n}")`.
unfoldable pub order_id : ℕ → String
unfolding digits
order_id n = String.◌++◌ "o" (digits 10 (suc n) n "")

pad : ℕ → String → String
pad zero s = s
pad (suc k) s = String.◌++◌ "0" (pad k s)

-- `format!("{:#x}", a)` of an address: forty digits behind `0x`.
unfoldable pub address_hex : ℕ → String
unfolding digits pad
address_hex a = let s = digits 16 (suc a) a "" in String.◌++◌ "0x" (pad (40 - String.len s) s)

-- `format!("{:#x}", w)` of a 32-byte word: sixty-four digits behind `0x`.
unfoldable pub word_hex : ℕ → String
unfolding digits pad
word_hex w = let s = digits 16 (suc w) w "" in String.◌++◌ "0x" (pad (64 - String.len s) s)

trim_from : ℕ → String → String
trim_from zero s = s
trim_from (suc fuel) s =
    let rest = trim_from fuel (String.slice s 2 (String.len s)) in
    if str_eq (String.slice s 0 2) "0x" then rest else s

-- `trim_start_matches("0x")`: a text has fewer such prefixes than bytes.
unfoldable pub trim_0x : String → String
unfolding trim_from
trim_0x s = trim_from (String.len s) s

trim_0x-twice : trim_0x "0x0xab" ≡ "ab"
unfolding trim_0x
trim_0x-twice = refl

order_id-12 : order_id 12 ≡ "o12"
unfolding order_id
order_id-12 = refl

address_hex-204 : address_hex 204 ≡ "0x00000000000000000000000000000000000000cc"
unfolding address_hex
address_hex-204 = refl
