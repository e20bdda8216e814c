-- ===== src/Object/Index/RoundTrip.antt =====
-- An index block is read back from its bytes.
use streamstack.Prelude.{
  ℕ, zero, suc, ◌+◌, ◌*◌, ◌/◌, ◌%◌, ◌^◌, ◌<◌, ℤ, ◌≡◌, refl, sym, ap, ◌∙◌, arith, true, false, List,
  [], ◌∷◌, ◌++◌, length, length-append, drop, ltb, ◌==◌,
}
use streamstack.Codec.Wire.{
  Bytes, Decoded, ok, ◌>>=◌, put_u32, put_u64, of_i32_bits, be_u32-put_u32,
}
use streamstack.Codec.Record.RoundTrip.{read_u64-put_u64}
use streamstack.Object.Index.{
  DataBlockIndex, parsed, of_read, encode, read_fields, decode, add_entry, parse_from, parse,
  encode_index,
}

-- The fields are words of their widths.
pub record InRange (e : DataBlockIndex) : Type 0 where
  pub stream_id : e.stream_id < 2 ^ 64
  pub start_offset : e.start_offset < 2 ^ 64
  pub end_offset_delta : e.end_offset_delta < 2 ^ 32
  pub record_count : e.record_count < 2 ^ 32
  pub start_position : e.start_position < 2 ^ 64
  pub size : e.size < 2 ^ 32

abbrev pub AllInRange : List DataBlockIndex → Type 0
AllInRange [] = Unit
AllInRange (e ∷ entries) = InRange e × AllInRange entries

-- An entry under the ordinal that the reader gives it.
abbrev pub with_id : ℤ → DataBlockIndex → DataBlockIndex
with_id block_id e = record e { block_id = block_id }

abbrev pub numbered : ℕ → List DataBlockIndex → List DataBlockIndex
numbered i [] = []
numbered i (e ∷ entries) = with_id (of_i32_bits (i % 2 ^ 32)) e ∷ numbered (i + 1) entries

-- An entry is read by its fields.
of_reads :
    (i : ℤ) (e : DataBlockIndex) (r0 r1 r2 r3 r4 r5 : Decoded ℕ)
    → r0 ≡ ok e.stream_id
    → r1 ≡ ok e.start_offset
    → r2 ≡ ok e.end_offset_delta
    → r3 ≡ ok e.record_count
    → r4 ≡ ok e.start_position
    → r5 ≡ ok e.size
    → (do
      a ← r0
      b ← r1
      c ← r2
      d ← r3
      f ← r4
      g ← r5
      ok (record {
        block_id = i;
        stream_id = a;
        start_offset = b;
        end_offset_delta = c;
        record_count = d;
        start_position = f;
        size = g;
      }))
      ≡ ok (with_id i e)
of_reads i e r0 r1 r2 r3 r4 r5 p0 p1 p2 p3 p4 p5 = rw (p0, p1, p2, p3, p4, p5) refl

read_fields-encode :
    (i : ℤ) (e : DataBlockIndex) (rest : Bytes)
    → InRange e
    → read_fields i (encode e ++ rest) ≡ ok (with_id i e)
read_fields-encode i e rest h =
    let p5 = be_u32-put_u32 e.size rest h.size in
    let p4 = read_u64-put_u64 e.start_position (put_u32 e.size ++ rest) h.start_position in
    let p3 =
      be_u32-put_u32 e.record_count (put_u64 e.start_position ++ put_u32 e.size ++ rest)
        h.record_count in
    let p2 =
      be_u32-put_u32 e.end_offset_delta
        (put_u32 e.record_count ++ put_u64 e.start_position ++ put_u32 e.size ++ rest)
        h.end_offset_delta in
    let p1 =
      read_u64-put_u64 e.start_offset
        (put_u32 e.end_offset_delta
          ++ put_u32 e.record_count
          ++ put_u64 e.start_position
          ++ put_u32 e.size
          ++ rest)
        h.start_offset in
    let p0 =
      read_u64-put_u64 e.stream_id
        (put_u64 e.start_offset
          ++ put_u32 e.end_offset_delta
          ++ put_u32 e.record_count
          ++ put_u64 e.start_position
          ++ put_u32 e.size
          ++ rest)
        h.stream_id in
    of_reads i e _ _ _ _ _ _ p0 p1 p2 p3 p4 p5

decode-encode :
    (i : ℤ) (e : DataBlockIndex) (rest : Bytes)
    → InRange e
    → decode i (encode e ++ rest) ≡ parsed (with_id i e)
unfolding decode
decode-encode i e rest h =
    let enough : ltb (length (encode e ++ rest)) 36 ≡ false = ground arith in
    rw enough (ap of_read (read_fields-encode i e rest h))

encode-length : (e : DataBlockIndex) → length (encode e) ≡ 36
encode-length e = refl

encode_index-length :
    (entries : List DataBlockIndex) → length (encode_index entries) ≡ length entries * 36
unfolding encode_index
encode_index-length [] = refl
encode_index-length (e ∷ entries) = omega (
  arith,
  length-append (encode e) (encode_index entries),
  encode-length e,
  encode_index-length entries,
)

drop-append : (n : ℕ) (a b : Bytes) → length a ≡ n → drop n (a ++ b) ≡ b
drop-append zero [] b h = refl
drop-append zero (x ∷ a) b h = absurd (omega arith)
drop-append (suc n) [] b h = absurd (omega arith)
drop-append (suc n) (x ∷ a) b h = drop-append n a b (omega arith)

bytes_assoc : (a b c : Bytes) → (a ++ b) ++ c ≡ a ++ (b ++ c)
bytes_assoc [] b c = refl
bytes_assoc (x ∷ a) b c = ap (λ l. x ∷ l) (bytes_assoc a b c)

-- The entries from ordinal `i` on stand behind 36 bytes for each one before.
parse_from-encode_index :
    (i : ℕ) (front : Bytes) (entries : List DataBlockIndex)
    → length front ≡ i * 36
    → AllInRange entries
    → parse_from (length entries) i (front ++ encode_index entries) ≡ parsed (numbered i entries)
unfolding parse_from encode_index
parse_from-encode_index i front [] l h = refl
parse_from-encode_index i front (e ∷ entries) l h =
    let here = drop-append (i * 36) front (encode e ++ encode_index entries) l in
    let first : decode (of_i32_bits (i % 2 ^ 32))
          (drop (i * 36) (front ++ (encode e ++ encode_index entries)))
        ≡ parsed (with_id (of_i32_bits (i % 2 ^ 32)) e) =
      ap (decode (of_i32_bits (i % 2 ^ 32))) here
      ∙ decode-encode (of_i32_bits (i % 2 ^ 32)) e (encode_index entries) h.0 in
    let others : parse_from (length entries) (i + 1) (front ++ (encode e ++ encode_index entries))
        ≡ parsed (numbered (i + 1) entries) =
      ap (parse_from (length entries) (i + 1))
        (sym (bytes_assoc front (encode e) (encode_index entries)))
      ∙ parse_from-encode_index (i + 1) (front ++ encode e) entries
          (omega (arith, length-append front (encode e), encode-length e)) h.1 in
    ap
      (λ x.
        add_entry x
          (parse_from (length entries) (i + 1) (front ++ (encode e ++ encode_index entries))))
      first
    ∙ ap (add_entry (parsed (with_id (of_i32_bits (i % 2 ^ 32)) e))) others

-- What `encode` writes of entries whose fields fit their words, `parse` reads back, each entry under its place in the
-- index in place of the block id that it had.
pub parse-encode_index :
    (entries : List DataBlockIndex)
    → AllInRange entries
    → parse (encode_index entries) ≡ parsed (numbered 0 entries)
unfolding parse
parse-encode_index entries h =
    let size = encode_index-length entries in
    let whole : (length (encode_index entries) % 36 == 0) ≡ true = ground (arith, size) in
    let count : length (encode_index entries) / 36 ≡ length entries = omega (arith, size) in
    rw (whole, count) (parse_from-encode_index 0 [] entries refl h)
