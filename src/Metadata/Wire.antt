-- ===== src/Metadata/Wire.antt =====
-- The primitives of the command codec (picomq/pico-metadata/src/codec.rs): checked little-endian
-- reads, texts, byte strings and counted lists. A writer is given what is written behind it; a
-- reader returns its value and the bytes that it leaves. Every read is checked: what is cut off is an error.
pub mod Laws
use streamstack.Prelude.{
  ℕ, zero, suc, ◌+◌, ◌*◌, ◌/◌, ◌%◌, ◌^◌, ℤ, pos, negsuc, Bool, true, false, ◌&&◌, Option, none,
  some, List, [], ◌∷◌, ◌++◌, length, take, drop, ltb, leb, ◌==◌, if◌then◌else◌, int_as_u64,
  u64_as_i64,
}
use streamstack.Codec.Wire.{i32_bits, of_i32_bits}
use streamstack.Metadata.Types.{Bytes}

pub data CodecError : Type 0 where
  unsupported_version unknown_command unknown_result : ℕ → CodecError
  -- Without the text of the message.
  corrupt : CodecError

pub data Decoded {ℓ} (A : Type ℓ) : Type ℓ where
  ok : A → Decoded A
  err : CodecError → Decoded A

abbrev pub Decoder : Type 0 → Type 0
Decoder A = Bytes → Decoded (A × Bytes)

abbrev pub next : {A B : Type 0} → Decoded (A × Bytes) → (A → Decoder B) → Decoded (B × Bytes)
next (ok (a, rest)) f = f a rest
next (err e) f = err e

infixl 5 ◌>>=◌ ◌>>◌
abbrev pub ◌>>=◌ : {A B : Type 0} → Decoder A → (A → Decoder B) → Decoder B
◌>>=◌ m f buf = next (m buf) f

abbrev pub ◌>>◌ : {A B : Type 0} → Decoder A → Decoder B → Decoder B
m >> k = m >>= λ _. k

abbrev pub pure : {A : Type 0} → A → Decoder A
pure a buf = ok (a, buf)

abbrev pub fail : {A : Type 0} → CodecError → Decoder A
fail e buf = err e

-- `put_u8` to `put_i64_le`
abbrev pub put_u8 : ℕ → Bytes → Bytes
put_u8 n rest = n ∷ rest

unfoldable pub put_u32 : ℕ → Bytes → Bytes
put_u32 n rest = (n % 256) ∷ (n / 2 ^ 8 % 256) ∷ (n / 2 ^ 16 % 256) ∷ (n / 2 ^ 24 % 256) ∷ rest

unfoldable pub put_u64 : ℕ → Bytes → Bytes
put_u64 n rest = put_u32 (n % 2 ^ 32) (put_u32 (n / 2 ^ 32) rest)

unfoldable pub put_i32 : ℤ → Bytes → Bytes
put_i32 z rest = put_u32 (i32_bits z) rest

unfoldable pub put_i64 : ℤ → Bytes → Bytes
put_i64 z rest = put_u64 (int_as_u64 z) rest

unfoldable pub get_u8 : Decoder ℕ
get_u8 (b ∷ rest) = ok (b, rest)
get_u8 [] = err corrupt

unfoldable pub get_u32 : Decoder ℕ
get_u32 (a ∷ b ∷ c ∷ d ∷ rest) = ok (a + b * 2 ^ 8 + c * 2 ^ 16 + d * 2 ^ 24, rest)
get_u32 _ = err corrupt

unfoldable pub get_u64 : Decoder ℕ
get_u64 = do lo ← get_u32; hi ← get_u32; pure (lo + hi * 2 ^ 32)

unfoldable pub get_i32 : Decoder ℤ
get_i32 = do bits ← get_u32; pure (of_i32_bits bits)

unfoldable pub get_i64 : Decoder ℤ
get_i64 = do bits ← get_u64; pure (u64_as_i64 bits)

-- What `str::from_utf8` accepts: how many bytes a leading byte wants behind it, and the range of
-- the first of them.
abbrev pub utf8_lead : ℕ → Option (ℕ × ℕ × ℕ)
utf8_lead b =
    if ltb b 0x80
    then some (0, 0x80, 0xbf)
    else if ltb b 0xc2
    then none
    else if ltb b 0xe0
    then some (1, 0x80, 0xbf)
    else if b == 0xe0
    then some (2, 0xa0, 0xbf)
    else if b == 0xed
    then some (2, 0x80, 0x9f)
    else if ltb b 0xf0
    then some (2, 0x80, 0xbf)
    else if b == 0xf0
    then some (3, 0x90, 0xbf)
    else if ltb b 0xf4
    then some (3, 0x80, 0xbf)
    else if b == 0xf4
    then some (3, 0x80, 0x8f)
    else none

unfoldable pub utf8_from : ℕ → ℕ → ℕ → Bytes → Bool
utf8_from zero lo hi [] = true
utf8_from (suc wanted) lo hi [] = false
utf8_from zero lo hi (b ∷ text) = elim (utf8_lead b) [
  | none ↦ false
  | some (wanted, lo', hi') ↦ utf8_from wanted lo' hi' text
]
utf8_from (suc wanted) lo hi (b ∷ text) = leb lo b && (leb b hi && utf8_from wanted 0x80 0xbf text)

abbrev pub is_utf8 : Bytes → Bool
is_utf8 = utf8_from 0 0x80 0xbf

unfoldable pub put_str : Bytes → Bytes → Bytes
put_str text rest = put_u32 (length text % 2 ^ 32) (text ++ rest)

-- The next bytes, if there are as many.
unfoldable pub get_bytes : ℕ → Decoder Bytes
get_bytes len buf = if ltb (length buf) len then err corrupt else ok (take len buf, drop len buf)

unfoldable pub get_str : Decoder Bytes
get_str = do len ← get_u32; text ← get_bytes len; if is_utf8 text then pure text else fail corrupt

unfoldable pub get_blob : Decoder Bytes
get_blob = do len ← get_u32; get_bytes len

-- A loop that writes the items of a vector, and one that reads a counted number of items.
unfoldable pub put_items : {A : Type 0} → (A → Bytes → Bytes) → List A → Bytes → Bytes
put_items put [] rest = rest
put_items put (x ∷ xs) rest = put x (put_items put xs rest)

unfoldable pub get_items : {A : Type 0} → Decoder A → ℕ → Decoder (List A)
get_items get zero = pure []
get_items get (suc count) = do x ← get; xs ← get_items get count; pure (x ∷ xs)

-- The count of a vector before its items.
unfoldable pub put_counted : {A : Type 0} → (A → Bytes → Bytes) → List A → Bytes → Bytes
put_counted put xs rest = put_u32 (length xs % 2 ^ 32) (put_items put xs rest)

unfoldable pub get_counted : {A : Type 0} → Decoder A → Decoder (List A)
get_counted get = do count ← get_u32; get_items get count

abbrev pub codec_version : ℕ
codec_version = 0

unfoldable pub check_version : Decoder (Unit {0})
check_version = do
  version ← get_u8
  if version == codec_version then pure tt else fail (unsupported_version version)

unfoldable pub ensure_drained : Decoder (Unit {0})
ensure_drained [] = ok (tt, [])
ensure_drained (b ∷ buf) = err corrupt

-- The value without the bytes left, of which there are none.
abbrev pub value_of : {A : Type 0} → Decoded (A × Bytes) → Decoded A
value_of (ok (a, rest)) = ok a
value_of (err e) = err e
