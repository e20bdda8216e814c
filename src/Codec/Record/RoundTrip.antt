-- ===== src/Codec/Record/RoundTrip.antt =====
-- What `new` writes, the accessors and `parse` read back; `parse` reads no byte out of bounds.
use streamstack.Prelude.{
  int_as_u64, pos_not_negative, ltb, length-append, [], sym, ℕ, ◌+◌, ◌%◌, ◌^◌, ◌<◌, ℤ, pos, negsuc,
  ◌≡◌, refl, ◌++◌, arith, length, ap, ◌∙◌, sym, ◌∷◌, ◌≤◌, ◌++◌, false, take, drop, ◌*◌, ◌/◌,
}
use streamstack.Codec.Wire.{
  read_u64, Bytes, Decoded, ok, put_u32, put_u64, i32_bits, of_i32_bits, be_u32-put_u32, u64_halves,
  ◌>>=◌, read_i32, read_u32,
}
use streamstack.Codec.Record.{
  StreamRecordBatch, last_offset, size, add_count, header_size, parse, first_byte, magic_v0, new,
  stream_id, epoch, base_offset, count, payload, payload_length_pos,
}

-- The values of an `i32`.
abbrev pub IsI32 : ℤ → Type 0
IsI32 (pos n) = n < 2 ^ 31
IsI32 (negsuc n) = n < 2 ^ 31

pub of_i32_bits-i32_bits : (z : ℤ) → IsI32 z → of_i32_bits (i32_bits z) ≡ z
of_i32_bits-i32_bits (pos n) h = ground arith
of_i32_bits-i32_bits (negsuc n) h = ground arith

pub i32_bits_bound : (z : ℤ) → IsI32 z → i32_bits z < 2 ^ 32
i32_bits_bound (pos n) h = omega arith
i32_bits_bound (negsuc n) h = omega arith

-- A record in the ranges of its fields.
pub record InRange (i e b : ℕ) (n : ℤ) (p : Bytes) : Type 0 where
  pub stream_id : i < 2 ^ 64
  pub epoch : e < 2 ^ 64
  pub base_offset : b < 2 ^ 64
  pub count : IsI32 n
  pub payload : length p < 2 ^ 31

pub read_u32-put_u32 : (n : ℕ) (rest : Bytes) → n < 2 ^ 32 → read_u32 (put_u32 n ++ rest) 0 ≡ ok n
read_u32-put_u32 n rest h = be_u32-put_u32 n rest h

read_i32-put_u32 :
    (z : ℤ) (rest : Bytes) → IsI32 z → read_i32 (put_u32 (i32_bits z) ++ rest) 0 ≡ ok z
read_i32-put_u32 z rest h =
    ap (λ r. r >>= λ bits. ok (of_i32_bits bits))
      (be_u32-put_u32 (i32_bits z) rest (i32_bits_bound z h))
    ∙ ap ok (of_i32_bits-i32_bits z h)

-- A u64 is read by its halves.
read_halves :
    (h l : ℕ) (x y : Decoded ℕ)
    → x ≡ ok h
    → y ≡ ok l
    → (x >>= λ a. y >>= λ c. ok (a * 2 ^ 32 + c)) ≡ ok (h * 2 ^ 32 + l)
read_halves h l x y p q = rw p (rw q refl)

pub read_u64-put_u64 : (n : ℕ) (rest : Bytes) → n < 2 ^ 64 → read_u64 (put_u64 n ++ rest) 0 ≡ ok n
read_u64-put_u64 n rest h =
    read_halves (n / 2 ^ 32) (n % 2 ^ 32) _ _
      (be_u32-put_u32 (n / 2 ^ 32) (put_u32 (n % 2 ^ 32) ++ rest) (omega arith))
      (be_u32-put_u32 (n % 2 ^ 32) rest (omega arith))
    ∙ ap ok (u64_halves n)

-- What stands behind each field of the header.
abbrev after_count : Bytes → Bytes
after_count p = put_u32 (length p % 2 ^ 32) ++ p

abbrev after_base : ℤ → Bytes → Bytes
after_base n p = put_u32 (i32_bits n) ++ after_count p

abbrev after_epoch : ℕ → ℤ → Bytes → Bytes
after_epoch b n p = put_u64 b ++ after_base n p

stream_id-new : (i e b : ℕ) (n : ℤ) (p : Bytes) → i < 2 ^ 64 → stream_id (new i e b n p) ≡ ok i
unfolding stream_id new
stream_id-new i e b n p h = read_u64-put_u64 i (put_u64 e ++ after_epoch b n p) h

epoch-new : (i e b : ℕ) (n : ℤ) (p : Bytes) → e < 2 ^ 64 → epoch (new i e b n p) ≡ ok e
unfolding epoch new
epoch-new i e b n p h = read_u64-put_u64 e (after_epoch b n p) h

count-new : (i e b : ℕ) (n : ℤ) (p : Bytes) → IsI32 n → count (new i e b n p) ≡ ok n
unfolding count new
count-new i e b n p h = read_i32-put_u32 n (after_count p) h

base_offset-new : (i e b : ℕ) (n : ℤ) (p : Bytes) → b < 2 ^ 64 → base_offset (new i e b n p) ≡ ok b
unfolding base_offset new
base_offset-new i e b n p h = read_u64-put_u64 b (after_base n p) h

payload-new : (i e b : ℕ) (n : ℤ) (p : Bytes) → payload (new i e b n p) ≡ p
unfolding payload new
payload-new i e b n p = refl

length_field :
    (i e b : ℕ) (n : ℤ) (p rest : Bytes)
    → length p < 2 ^ 31
    → read_i32 ((new i e b n p).encoded ++ rest) payload_length_pos ≡ ok (pos (length p))
unfolding new
length_field i e b n p rest h =
    let is_small : length p % 2 ^ 32 ≡ length p = omega arith in
    rw is_small (read_i32-put_u32 (pos (length p)) (p ++ rest) h)

pub drop-length : (p rest : Bytes) → drop (length p) (p ++ rest) ≡ rest
drop-length [] rest = refl
drop-length (b ∷ p) rest = drop-length p rest

pub take-length : (p rest : Bytes) → take (length p) (p ++ rest) ≡ p
take-length [] rest = refl
take-length (b ∷ p) rest = ap (λ l. b ∷ l) (take-length p rest)

pub length-new :
    (i e b : ℕ) (n : ℤ) (p : Bytes) → length ((new i e b n p).encoded) ≡ header_size + length p
unfolding new
length-new i e b n p = omega arith

-- What `parse` returns where none of its guards fires.
parse_ok :
    (buf : Bytes) (n : ℕ)
    → header_size + n ≤ length buf
    → first_byte buf ≡ ok magic_v0
    → read_i32 buf payload_length_pos ≡ ok (pos n)
    → parse buf ≡ ok (record { encoded = take (header_size + n) buf }, drop (header_size + n) buf)
unfolding parse
parse_ok buf n h m l =
    let long : ltb (length buf) header_size ≡ false = ground arith in
    let longer : ltb (length buf) (header_size + n) ≡ false = ground arith in
    rw long (rw m (rw l (rw (pos_not_negative n) (rw longer refl))))

-- A batch encoded by `new` with a payload shorter than 2^31 bytes and followed by any bytes is what `parse` returns,
-- together with those bytes.
pub parse-new :
    (i e b : ℕ) (n : ℤ) (p rest : Bytes)
    → length p < 2 ^ 31
    → parse ((new i e b n p).encoded ++ rest) ≡ ok (new i e b n p, rest)
unfolding new
parse-new i e b n p rest h =
    let enc = (new i e b n p).encoded in
    let whole : length enc ≡ header_size + length p = length-new i e b n p in
    parse_ok (enc ++ rest) (length p) (omega (arith, length-append enc rest)) refl
      (length_field i e b n p rest h)
    ∙ rw (sym whole) (rw (take-length enc rest) (rw (drop-length enc rest) refl))

size-new :
    (i e b : ℕ) (n : ℤ) (p : Bytes) → length p < 2 ^ 31 → size (new i e b n p) ≡ ok (length p)
unfolding size new
size-new i e b n p h =
    ap (λ r. r >>= λ m. ok (int_as_u64 m))
      (read_i32-put_u32 (pos (length p % 2 ^ 32)) p (omega arith))
    ∙ ap ok (omega arith)

last_offset-new :
    (i e b : ℕ) (n : ℤ) (p : Bytes)
    → b < 2 ^ 64
    → IsI32 n
    → last_offset (new i e b n p) ≡ ok (add_count b n)
unfolding last_offset
last_offset-new i e b n p hb hn =
    rw (count-new i e b n p hn) (rw (base_offset-new i e b n p hb) refl)

-- What a client reads in the header and the payload of a batch.
pub record Fields (r : StreamRecordBatch) (i e b : ℕ) (n : ℤ) (p : Bytes) : Type 0 where
  pub stream_id : stream_id r ≡ ok i
  pub epoch : epoch r ≡ ok e
  pub base_offset : base_offset r ≡ ok b
  pub count : count r ≡ ok n
  pub last_offset : last_offset r ≡ ok (add_count b n)
  pub size : size r ≡ ok (length p)
  pub payload : payload r ≡ p

-- The accessors of a batch that `new` encodes return the arguments of `new`, as the last
-- offset the base offset and the absolute value of the count added with the wrap-around of
-- u64, and as the size the length of the payload, where the arguments are in the ranges of
-- their types and the payload is shorter than 2^31 bytes.
pub new-Fields :
    (i e b : ℕ) (n : ℤ) (p : Bytes) → InRange i e b n p → Fields (new i e b n p) i e b n p
new-Fields i e b n p r = record {
  stream_id = stream_id-new i e b n p r.stream_id;
  epoch = epoch-new i e b n p r.epoch;
  base_offset = base_offset-new i e b n p r.base_offset;
  count = count-new i e b n p r.count;
  last_offset = last_offset-new i e b n p r.base_offset r.count;
  size = size-new i e b n p r.payload;
  payload = payload-new i e b n p;
}
