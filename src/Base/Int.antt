-- ===== src/Base/Int.antt =====
-- Rust's `i64`: integers over the native numbers, with the wrap-around of the release build.
-- Sums and orders go through the two parts of an integer, which are numbers that `omega` reads.
use Prim.Native.Nat.{ℕ, suc, ◌+◌, ◌-◌, ◌/◌, ◌%◌, ◌^◌, ◌≤◌, ◌<◌}
use mathlib.Core.Path.{◌≡◌}
use mathlib.Core.Bool.{Bool, true}
use native.Mathlib.Omega.{arith}
use inference_bazaar.Base.Tests.{ltb, leb, ◌==◌, if◌then◌else◌}

-- `negsuc n` is -(n + 1).
pub data ℤ : Type 0 where
  pos : ℕ → ℤ
  negsuc : ℕ → ℤ

abbrev pub pos_part : ℤ → ℕ
pos_part (pos n) = n
pos_part (negsuc n) = 0

abbrev pub neg_part : ℤ → ℕ
neg_part (pos n) = 0
neg_part (negsuc n) = suc n

-- a - b, as an integer.
abbrev pub sub_ℕ : ℕ → ℕ → ℤ
sub_ℕ a b = if leb b a then pos (a - b) else negsuc (b - a - 1)

infixl 65 ◌+ℤ◌ ◌-ℤ◌
infix 50 ◌≤ℤ◌ ◌<ℤ◌
unfoldable pub ◌+ℤ◌ : ℤ → ℤ → ℤ
a +ℤ b = sub_ℕ (pos_part a + pos_part b) (neg_part a + neg_part b)

unfoldable pub ◌-ℤ◌ : ℤ → ℤ → ℤ
a -ℤ b = sub_ℕ (pos_part a + neg_part b) (neg_part a + pos_part b)

abbrev pub ◌≤ℤ◌ : ℤ → ℤ → Type 0
a ≤ℤ b = pos_part a + neg_part b ≤ pos_part b + neg_part a

abbrev pub ◌<ℤ◌ : ℤ → ℤ → Type 0
a <ℤ b = pos_part a + neg_part b < pos_part b + neg_part a

abbrev pub ltb_ℤ : ℤ → ℤ → Bool
ltb_ℤ a b = ltb (pos_part a + neg_part b) (pos_part b + neg_part a)

abbrev pub leb_ℤ : ℤ → ℤ → Bool
leb_ℤ a b = leb (pos_part a + neg_part b) (pos_part b + neg_part a)

abbrev pub eqb_ℤ : ℤ → ℤ → Bool
eqb_ℤ a b = (pos_part a + neg_part b) == (pos_part b + neg_part a)

pub eqb_ℤ→eq : (a b : ℤ) → eqb_ℤ a b ≡ true → a ≡ b
eqb_ℤ→eq a b h = ground arith

pub +ℤ_parts :
    (a b : ℤ)
    → pos_part (a +ℤ b) + neg_part a + neg_part b ≡ neg_part (a +ℤ b) + pos_part a + pos_part b
unfolding ◌+ℤ◌
+ℤ_parts a b = ground arith

pub -ℤ_parts :
    (a b : ℤ)
    → pos_part (a -ℤ b) + neg_part a + pos_part b ≡ neg_part (a -ℤ b) + pos_part a + neg_part b
unfolding ◌-ℤ◌
-ℤ_parts a b = ground arith

pub eq_of_parts : (a b : ℤ) → pos_part a + neg_part b ≡ pos_part b + neg_part a → a ≡ b
eq_of_parts a b h = ground arith

pub ruleset int_laws = (arith, +ℤ_parts, -ℤ_parts, eq_of_parts)

-- A value of type `i64`; its range is `InI64`.
abbrev pub I64 : Type 0
I64 = ℤ

abbrev pub i64_half : ℕ
i64_half = 2 ^ 63

abbrev pub InI64 : ℤ → Type 0
InI64 z = (pos_part z < i64_half) × (neg_part z ≤ i64_half)

-- The value of type `i64` that is congruent to `z` modulo 2 ^ 64.
unfoldable pub wrap_i64 : ℤ → I64
wrap_i64 (pos n) = let m = n % 2 ^ 64 in if ltb m i64_half then pos m else negsuc (2 ^ 64 - 1 - m)
wrap_i64 (negsuc n) =
    let m = n % 2 ^ 64 in if ltb m i64_half then negsuc m else pos (2 ^ 64 - 1 - m)

pub wrap_i64-eq : (z : ℤ) → InI64 z → wrap_i64 z ≡ z
unfolding wrap_i64
wrap_i64-eq (pos n) h = ground arith
wrap_i64-eq (negsuc n) h = ground arith

pub wrap_i64-InI64 : (z : ℤ) → InI64 (wrap_i64 z)
unfolding wrap_i64
wrap_i64-InI64 (pos n) = ground arith
wrap_i64-InI64 (negsuc n) = ground arith

unfoldable pub add_i64 : I64 → I64 → I64
add_i64 a b = wrap_i64 (a +ℤ b)

unfoldable pub sub_i64 : I64 → I64 → I64
sub_i64 a b = wrap_i64 (a -ℤ b)

abbrev pub min_i64 : I64 → I64 → I64
min_i64 a b = if leb_ℤ a b then a else b

-- `a % b`: the remainder of the division that rounds towards zero. At `b = 0` Rust panics.
unfoldable pub rem_i64 : I64 → I64 → I64
rem_i64 (pos a) b = pos (a % (pos_part b + neg_part b))
rem_i64 (negsuc a) b = sub_ℕ 0 (suc a % (pos_part b + neg_part b))

-- `a / 2`, rounded towards zero.
unfoldable pub half_i64 : I64 → I64
half_i64 (pos a) = pos (a / 2)
half_i64 (negsuc a) = sub_ℕ 0 (suc a / 2)

pub sub_i64-eq : (a b : I64) → pos 0 ≤ℤ b → b ≤ℤ a → InI64 a → sub_i64 a b ≡ a -ℤ b
unfolding sub_i64
sub_i64-eq a b p q r = wrap_i64-eq _ (in_range a b p q r)
  where
    in_range : (a b : I64) → pos 0 ≤ℤ b → b ≤ℤ a → InI64 a → InI64 (a -ℤ b)
    in_range (pos a) (pos b) p q r = ground (arith, -ℤ_parts (pos a) (pos b))
    in_range (pos a) (negsuc b) p q r = absurd (omega arith)
    in_range (negsuc a) (pos b) p q r = absurd (omega arith)
    in_range (negsuc a) (negsuc b) p q r = absurd (omega arith)
