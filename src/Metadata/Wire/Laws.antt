-- ===== src/Metadata/Wire/Laws.antt =====
-- What the primitives write is read back by theirs.
use streamstack.Prelude.{
  ℕ, ◌/◌, ◌%◌, ◌^◌, ◌<◌, ℤ, pos, negsuc, ◌≡◌, refl, arith, true, false, List, [], ◌∷◌, ◌++◌, length,
  length-append, ltb, int_as_u64, u64_as_i64,
}
use streamstack.Codec.Wire.{i32_bits}
use streamstack.Codec.Record.RoundTrip.{
  IsI32, take-length, drop-length, of_i32_bits-i32_bits, i32_bits_bound,
}
use streamstack.Metadata.Types.{Bytes}
use streamstack.Metadata.Wire.{
  Decoder, ok, put_u32, put_u64, put_i32, put_i64, get_u32, get_u64, get_i32, get_i64, is_utf8,
  put_str, get_bytes, get_str, get_blob, put_items, get_items, put_counted, get_counted,
}

-- The values of an `i64`.
abbrev pub IsI64 : ℤ → Type 0
IsI64 (pos n) = n < 2 ^ 63
IsI64 (negsuc n) = n < 2 ^ 63

-- What `put` writes of a value, `get` reads back, whatever stands behind it.
abbrev pub Reads : {A : Type 0} → Decoder A → (A → Bytes → Bytes) → A → Type 0
Reads get put x = (rest : Bytes) → get (put x rest) ≡ ok (x, rest)

pub get_u32-put_u32 : (n : ℕ) → n < 2 ^ 32 → Reads get_u32 put_u32 n
unfolding get_u32 put_u32
get_u32-put_u32 n h rest = ground arith

pub get_u64-put_u64 : (n : ℕ) → n < 2 ^ 64 → Reads get_u64 put_u64 n
unfolding get_u64 put_u64
get_u64-put_u64 n h rest =
    rw (get_u32-put_u32 (n % 2 ^ 32) (omega arith), get_u32-put_u32 (n / 2 ^ 32) (omega arith))
      (ground arith)

pub get_i32-put_i32 : (z : ℤ) → IsI32 z → Reads get_i32 put_i32 z
unfolding get_i32 put_i32
get_i32-put_i32 z h rest =
    rw (get_u32-put_u32 (i32_bits z) (i32_bits_bound z h), of_i32_bits-i32_bits z h)

u64_as_i64-int_as_u64 : (z : ℤ) → IsI64 z → u64_as_i64 (int_as_u64 z) ≡ z
u64_as_i64-int_as_u64 (pos n) h = ground arith
u64_as_i64-int_as_u64 (negsuc n) h = ground arith

pub get_i64-put_i64 : (z : ℤ) → IsI64 z → Reads get_i64 put_i64 z
unfolding get_i64 put_i64
get_i64-put_i64 z h rest = rw (get_u64-put_u64 (int_as_u64 z) (word z h), u64_as_i64-int_as_u64 z h)
  where
    word : (z : ℤ) → IsI64 z → int_as_u64 z < 2 ^ 64
    word (pos n) h = omega arith
    word (negsuc n) h = omega arith

pub get_bytes-append :
    (text rest : Bytes) → get_bytes (length text) (text ++ rest) ≡ ok (text, rest)
unfolding get_bytes
get_bytes-append text rest =
    let enough : ltb (length (text ++ rest)) (length text) ≡ false =
      ground (arith, length-append text rest) in
    rw (enough, take-length text rest, drop-length text rest)

abbrev pub Short : {A : Type 0} → List A → Type 0
Short xs = length xs < 2 ^ 32

Short-length : {A : Type 0} (xs : List A) → Short xs → length xs % 2 ^ 32 ≡ length xs
Short-length xs h = omega arith

pub get_blob-put_str : (text : Bytes) → Short text → Reads get_blob put_str text
unfolding get_blob put_str
get_blob-put_str text h rest = rw (
  get_u32-put_u32 (length text % 2 ^ 32) (omega arith),
  Short-length text h,
  get_bytes-append text rest,
)

-- A text of a command: valid UTF-8, and not too long.
pub record IsText (text : Bytes) : Type 0 where
  pub short : length text < 2 ^ 32
  pub utf8 : is_utf8 text ≡ true

pub get_str-put_str : (text : Bytes) → IsText text → Reads get_str put_str text
unfolding get_str put_str
get_str-put_str text h rest = rw (
  get_u32-put_u32 (length text % 2 ^ 32) (omega arith),
  Short-length text h.short,
  get_bytes-append text rest,
  h.utf8,
)

abbrev pub Each : {A : Type 0} → (A → Type 0) → List A → Type 0
Each P [] = Unit
Each P (x ∷ xs) = P x × Each P xs

module _ {A : Type 0} (get : Decoder A) (put : A → Bytes → Bytes) (P : A → Type 0)
    (reads : (x : A) → P x → Reads get put x) where
  get_items-put_items :
      (xs : List A)
      → Each P xs
      → (rest : Bytes) → get_items get (length xs) (put_items put xs rest) ≡ ok (xs, rest)
  unfolding get_items put_items
  get_items-put_items [] h rest = refl
  get_items-put_items (x ∷ xs) h rest = rw (reads x h.0, get_items-put_items xs h.1)

  pub get_counted-put_counted :
      (xs : List A) → Short xs → Each P xs → Reads (get_counted get) (put_counted put) xs
  unfolding get_counted put_counted
  get_counted-put_counted xs s h rest = rw (
    get_u32-put_u32 (length xs % 2 ^ 32) (omega arith),
    Short-length xs s,
    get_items-put_items xs h rest,
  )
