-- ===== src/Prelude/Int.antt =====
-- Signed integers over the native numbers, for the source's `i32` and `i64`, and the casts between
-- machine words.
use Prim.Native.Nat.{ℕ, suc, ◌+◌, ◌-◌, ◌^◌, ◌%◌, ◌≤◌, ◌<◌}
use mathlib.Core.Path.{◌≡◌}
use mathlib.Core.Logic.{◌↔◌}
use mathlib.Core.Bool.{Bool, true, false}
use native.Mathlib.Omega.{arith}
use streamstack.Prelude.Tests.{ltb, leb, ◌==◌, if◌then◌else◌}

-- `negsuc n` is -(n + 1).
pub data ℤ : Type 0 where
  pos : ℕ → ℤ
  negsuc : ℕ → ℤ

abbrev pub pos_part : ℤ → ℕ
pos_part (pos n) = n
pos_part (negsuc n) = 0

abbrev pub neg_part : ℤ → ℕ
neg_part (pos n) = 0
neg_part (negsuc n) = suc n

-- a - b, as an integer.
abbrev pub sub_ℕ : ℕ → ℕ → ℤ
sub_ℕ a b = if leb b a then pos (a - b) else negsuc (b - a - 1)

infix 50 ◌≤ℤ◌ ◌<ℤ◌
abbrev pub ◌≤ℤ◌ : ℤ → ℤ → Type 0
a ≤ℤ b = pos_part a + neg_part b ≤ pos_part b + neg_part a

abbrev pub ◌<ℤ◌ : ℤ → ℤ → Type 0
a <ℤ b = pos_part a + neg_part b < pos_part b + neg_part a

unfoldable pub eqb_ℤ : ℤ → ℤ → Bool
eqb_ℤ (pos a) (pos b) = a == b
eqb_ℤ (negsuc a) (negsuc b) = a == b
eqb_ℤ _ _ = false

unfoldable pub ltb_ℤ : ℤ → ℤ → Bool
ltb_ℤ a b = ltb (pos_part a + neg_part b) (pos_part b + neg_part a)

pub eqb_ℤ_iff : (a b : ℤ) → (eqb_ℤ a b ≡ true) ↔ (a ≡ b)
unfolding eqb_ℤ
eqb_ℤ_iff (pos a) (pos b) = ground arith
eqb_ℤ_iff (negsuc a) (negsuc b) = ground arith
eqb_ℤ_iff (pos a) (negsuc b) = ground arith
eqb_ℤ_iff (negsuc a) (pos b) = ground arith

pub ltb_ℤ_iff : (a b : ℤ) → (ltb_ℤ a b ≡ true) ↔ (a <ℤ b)
unfolding ltb_ℤ
ltb_ℤ_iff a b = ground arith

pub eq_of_parts : (a b : ℤ) → pos_part a + neg_part b ≡ pos_part b + neg_part a → a ≡ b
eq_of_parts a b h = ground arith

-- `Ord::max` and `Ord::min` on signed integers
abbrev pub max_ℤ : ℤ → ℤ → ℤ
max_ℤ a b = if ltb_ℤ b a then a else b

abbrev pub min_ℤ : ℤ → ℤ → ℤ
min_ℤ a b = if ltb_ℤ b a then b else a

abbrev pub u64_mod : ℕ
u64_mod = 2 ^ 64

abbrev pub u64_max : ℕ
u64_max = 2 ^ 64 - 1

-- `u64` addition of a release build
abbrev pub add_u64 : ℕ → ℕ → ℕ
add_u64 a b = (a + b) % u64_mod

-- `x as i64` for a `u64`
abbrev pub u64_as_i64 : ℕ → ℤ
u64_as_i64 n = if ltb n (2 ^ 63) then pos n else negsuc (u64_mod - 1 - n)

-- `x as u64` for an `i32` or an `i64`
abbrev pub int_as_u64 : ℤ → ℕ
int_as_u64 (pos n) = n
int_as_u64 (negsuc n) = u64_mod - 1 - n

-- `i64` addition of a release build
unfoldable pub add_i64 : ℤ → ℤ → ℤ
add_i64 a b = u64_as_i64 ((int_as_u64 a + int_as_u64 b) % u64_mod)

pub pos_not_negative : (n : ℕ) → ltb_ℤ (pos n) (pos 0) ≡ false
unfolding ltb_ℤ
pos_not_negative n = ground arith

pub not_negative : (z : ℤ) → ltb_ℤ z (pos 0) ≡ false → z ≡ pos (int_as_u64 z)
unfolding ltb_ℤ
not_negative (pos n) h = λ i. pos n
not_negative (negsuc n) h = ground arith
