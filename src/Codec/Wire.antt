-- ===== src/Codec/Wire.antt =====
-- Big-endian integers in byte strings, slices, and what a decoder returns
-- (s3stream/s3stream-codec/src/error.rs). A byte string is the list of its bytes.
use streamstack.Prelude.{
  ℕ, ◌+◌, ◌-◌, ◌*◌, ◌/◌, ◌%◌, ◌^◌, ◌<◌, ℤ, pos, negsuc, ◌≡◌, List, [], ◌∷◌, ◌++◌, arith, drop,
  if◌then◌else◌, ltb,
}

abbrev pub Bytes : Type 0
Bytes = List ℕ

pub data CodecError : Type 0 where
  invalid_magic buffer_too_short crc_mismatch : ℕ → ℕ → CodecError

-- `panicked` stands for a slice or an index out of bounds.
pub data Decoded {ℓ} (A : Type ℓ) : Type ℓ where
  ok : A → Decoded A
  err : CodecError → Decoded A
  panicked : Decoded A

infixl 5 ◌>>=◌
abbrev pub ◌>>=◌ {ℓ κ} : {A : Type ℓ} {B : Type κ} → Decoded A → (A → Decoded B) → Decoded B
ok a >>= f = f a
err e >>= f = err e
panicked >>= f = panicked

-- `put_u32` and `put_u64` of `BufMut`
abbrev pub put_u32 : ℕ → Bytes
put_u32 n = (n / 2 ^ 24 % 256) ∷ (n / 2 ^ 16 % 256) ∷ (n / 2 ^ 8 % 256) ∷ (n % 256) ∷ []

abbrev pub put_u64 : ℕ → Bytes
put_u64 n = put_u32 (n / 2 ^ 32) ++ put_u32 (n % 2 ^ 32)

abbrev pub i32_bits : ℤ → ℕ
i32_bits (pos n) = n
i32_bits (negsuc n) = 2 ^ 32 - 1 - n

abbrev pub of_i32_bits : ℕ → ℤ
of_i32_bits n = if ltb n (2 ^ 31) then pos n else negsuc (2 ^ 32 - 1 - n)

abbrev pub be_u32 : Bytes → Decoded ℕ
be_u32 (a ∷ b ∷ c ∷ d ∷ _) = ok (((a * 256 + b) * 256 + c) * 256 + d)
be_u32 _ = panicked

-- `from_be_bytes` of a slice from a position on
abbrev pub read_u32 : Bytes → ℕ → Decoded ℕ
read_u32 buf at = be_u32 (drop at buf)

abbrev pub read_u64 : Bytes → ℕ → Decoded ℕ
read_u64 buf at = do hi ← read_u32 buf at; lo ← read_u32 buf (at + 4); ok (hi * 2 ^ 32 + lo)

abbrev pub read_i32 : Bytes → ℕ → Decoded ℤ
read_i32 buf at = do bits ← read_u32 buf at; ok (of_i32_bits bits)

pub be_u32-put_u32 : (n : ℕ) (rest : Bytes) → n < 2 ^ 32 → be_u32 (put_u32 n ++ rest) ≡ ok n
be_u32-put_u32 n rest h = ground arith

pub u64_halves : (n : ℕ) → n / 2 ^ 32 * 2 ^ 32 + n % 2 ^ 32 ≡ n
u64_halves n = omega arith
