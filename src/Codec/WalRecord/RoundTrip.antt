-- ===== src/Codec/WalRecord/RoundTrip.antt =====
-- What is framed for the write-ahead log is read back, headers and whole records.
use streamstack.Prelude.{
  ℕ, zero, suc, ◌+◌, ◌-◌, ◌%◌, ◌^◌, ◌<◌, ◌≤◌, ℤ, ◌≡◌, refl, sym, ap, ◌∙◌, arith, true, false, [],
  ◌∷◌, ◌++◌, drop, take, length, length-append, ltb, not, ◌&&◌, ◌==◌,
}
use streamstack.Codec.Wire.{
  invalid_magic, Bytes, ok, err, put_u32, put_u64, read_u32, read_u64, be_u32-put_u32,
}
use streamstack.Codec.Record.{StreamRecordBatch, parse, new}
use streamstack.Codec.Record.RoundTrip.{
  read_u64-put_u64, drop-length, take-length, length-new, parse-new,
}
use streamstack.Codec.WalRecord.{
  WalRecordHeader, wal_record_header_size, wal_record_header_without_crc_size, record_data_magic,
  record_empty_magic, data_header, padding_header, marshal_fields, wal_crc32, marshal, unmarshal,
  frame_record, decode_record, zeros, frame_padding_record,
}

-- What stands behind each field of a header.
abbrev after_offset : WalRecordHeader → ℕ → Bytes → Bytes
after_offset h crc rest = put_u32 h.body_crc ++ put_u32 crc ++ rest

abbrev after_length : WalRecordHeader → ℕ → Bytes → Bytes
after_length h crc rest = put_u64 h.body_offset ++ after_offset h crc rest

abbrev after_magic : WalRecordHeader → ℕ → Bytes → Bytes
after_magic h crc rest = put_u32 h.body_length ++ after_length h crc rest

drop_behind : (front back : Bytes) (n : ℕ) → drop (length front + n) (front ++ back) ≡ drop n back
drop_behind [] back n = let e : 0 + n ≡ n = omega arith in rw e refl
drop_behind (x ∷ front) back n =
    let e : suc (length front) + n ≡ suc (length front + n) = omega arith in
    rw e (drop_behind front back n)

slice_behind :
    (front back : Bytes) (n : ℕ)
    → drop (length front) (take (length front + n) (front ++ back)) ≡ take n back
slice_behind [] back n = let e : 0 + n ≡ n = omega arith in rw e refl
slice_behind (x ∷ front) back n =
    let e : suc (length front) + n ≡ suc (length front + n) = omega arith in
    rw e (slice_behind front back n)

-- A frame's body by its length, given as the header has it.
slice_body :
    (front body rest : Bytes) (n : ℕ)
    → n ≡ length body
    → drop (length front) (take (length front + n) (front ++ (body ++ rest))) ≡ body
slice_body front body rest n e = slice_behind front (body ++ rest) n ∙ rw e (take-length body rest)

drop_frame :
    (front body rest : Bytes) (n : ℕ)
    → n ≡ length body
    → drop (length front + n) (front ++ (body ++ rest)) ≡ rest
drop_frame front body rest n e = drop_behind front (body ++ rest) n ∙ rw e (drop-length body rest)

append_nil : (l : Bytes) → l ++ [] ≡ l
append_nil [] = refl
append_nil (x ∷ l) = ap (λ r. x ∷ r) (append_nil l)

-- The fields of a header fit their words.
pub record Fits (h : WalRecordHeader) : Type 0 where
  pub magic : (not (h.magic == record_data_magic) && not (h.magic == record_empty_magic)) ≡ false
  pub body_length : h.body_length < 2 ^ 32
  pub body_offset : h.body_offset < 2 ^ 64
  pub body_crc : h.body_crc < 2 ^ 32

module _ (hash : Bytes → ℕ) where
  wal_crc32_bound : (buf : Bytes) → wal_crc32 hash buf < 2 ^ 31
  unfolding wal_crc32
  wal_crc32_bound buf = omega arith

  length-marshal : (h : WalRecordHeader) → length (marshal hash h) ≡ wal_record_header_size
  unfolding marshal
  length-marshal h = refl

  -- What `unmarshal` returns where none of its guards fires.
  unmarshal_ok :
      (buf : Bytes) (h : WalRecordHeader)
      → wal_record_header_size ≤ length buf
      → read_u32 buf 20 ≡ ok h.header_crc
      → wal_crc32 hash (take wal_record_header_without_crc_size buf) ≡ h.header_crc
      → read_u32 buf 0 ≡ ok h.magic
      → (not (h.magic == record_data_magic) && not (h.magic == record_empty_magic)) ≡ false
      → read_u32 buf 4 ≡ ok h.body_length
      → read_u64 buf 8 ≡ ok h.body_offset
      → read_u32 buf 16 ≡ ok h.body_crc
      → unmarshal hash buf ≡ ok h
  unfolding unmarshal
  unmarshal_ok buf h long crc same magic known len off body =
      let enough : ltb (length buf) wal_record_header_size ≡ false = ground arith in
      let right : (h.header_crc == h.header_crc) ≡ true = ground arith in
      rw enough (rw crc (rw same (rw right (rw magic (rw known (rw len (rw off (rw body refl))))))))

  -- A header with one of the two magic numbers whose fields fit their words, marshalled and
  -- followed by any bytes, is read back with its checksum filled in.
  pub unmarshal-marshal :
      (h : WalRecordHeader) (rest : Bytes)
      → Fits h
      → unmarshal hash (marshal hash h ++ rest)
        ≡ ok (record h { header_crc = wal_crc32 hash (marshal_fields h) })
  unfolding marshal
  unmarshal-marshal h rest f =
      let crc = wal_crc32 hash (marshal_fields h) in
      let small : h.magic < 2 ^ 32 = ground (arith, f.magic) in
      let crc_small : crc < 2 ^ 32 = omega (arith, wal_crc32_bound (marshal_fields h)) in
      unmarshal_ok (marshal_fields h ++ put_u32 crc ++ rest) (record h { header_crc = crc })
        (omega arith) (be_u32-put_u32 crc rest crc_small) refl
        (be_u32-put_u32 h.magic (after_magic h crc rest) small) f.magic
        (be_u32-put_u32 h.body_length (after_length h crc rest) f.body_length)
        (read_u64-put_u64 h.body_offset (after_offset h crc rest) f.body_offset)
        (be_u32-put_u32 h.body_crc (put_u32 crc ++ rest) f.body_crc)

  data_header-Fits :
      (offset : ℕ) (body : Bytes)
      → length body < 2 ^ 32
      → Fits (data_header offset (length body % 2 ^ 32) (wal_crc32 hash body))
  data_header-Fits offset body l = record {
    magic = refl;
    body_length = omega arith;
    body_offset = omega arith;
    body_crc = omega (arith, wal_crc32_bound body);
  }

  -- What `decode_record` returns where none of its guards fires.
  decode_record_ok :
      (buf : Bytes) (h : WalRecordHeader) (r : StreamRecordBatch) (body rest : Bytes)
      → unmarshal hash buf ≡ ok h
      → h.magic ≡ record_data_magic
      → wal_record_header_size + h.body_length ≤ length buf
      → drop wal_record_header_size (take (wal_record_header_size + h.body_length) buf) ≡ body
      → wal_crc32 hash body ≡ h.body_crc
      → parse body ≡ ok (r, [])
      → drop (wal_record_header_size + h.body_length) buf ≡ rest
      → decode_record hash buf ≡ ok (r, rest)
  unfolding decode_record
  decode_record_ok buf h r body rest u m long b c p d =
      let enough : ltb (length buf) (wal_record_header_size + h.body_length) ≡ false =
        ground arith in
      let right : (h.magic == record_data_magic) ≡ true = ground arith in
      let same : (h.body_crc == h.body_crc) ≡ true = ground arith in
      rw u (rw right (rw enough (rw b (rw c (rw same (rw p (rw d refl)))))))

  -- A batch encoded by `new`, framed for the log and followed by any bytes, is what
  -- `decode_record` returns, with those bytes, whatever the hash function, where the payload is shorter than 2^31 bytes.
  pub decode_record-frame_record :
      (offset i e b : ℕ) (n : ℤ) (p rest : Bytes)
      → length p < 2 ^ 31
      → decode_record hash (frame_record hash offset ((new i e b n p).encoded) ++ rest)
        ≡ ok (new i e b n p, rest)
  unfolding frame_record marshal
  decode_record-frame_record offset i e b n p rest l =
      let enc = (new i e b n p).encoded in
      let size = length enc % 2 ^ 32 in
      let h = data_header offset size (wal_crc32 hash enc) in
      let fits : length enc < 2 ^ 32 = omega (arith, length-new i e b n p) in
      let whole : size ≡ length enc = omega arith in
      decode_record_ok (marshal hash h ++ (enc ++ rest))
        (record h { header_crc = wal_crc32 hash (marshal_fields h) }) (new i e b n p) enc rest
        (unmarshal-marshal h (enc ++ rest) (data_header-Fits offset enc fits)) refl
        (omega (arith, whole, length-append enc rest))
        (slice_body (marshal hash h) enc rest size whole) refl
        (ap parse (sym (append_nil enc)) ∙ parse-new i e b n p [] l)
        (drop_frame (marshal hash h) enc rest size whole)

  decode_record_padding :
      (buf : Bytes) (h : WalRecordHeader)
      → unmarshal hash buf ≡ ok h
      → h.magic ≡ record_empty_magic
      → decode_record hash buf ≡ err (invalid_magic record_data_magic record_empty_magic)
  unfolding decode_record
  decode_record_padding buf h u m = rw u (rw m refl)

  length-zeros : (n : ℕ) → length (zeros n) ≡ n
  length-zeros zero = refl
  length-zeros (suc n) = omega (arith, length-zeros n)

  -- A padding frame of a total length from 24 to below 2^32 + 24 bytes is built, has that length,
  -- and is refused by `decode_record` as no data record, with any bytes behind it.
  pub frame_padding_refused :
      (offset total : ℕ)
      → wal_record_header_size ≤ total
      → total < 2 ^ 32 + wal_record_header_size
      → (frame : Bytes) × (frame_padding_record hash offset total ≡ ok frame)
        × (length frame ≡ total)
        × ((rest : Bytes)
            → decode_record hash (frame ++ rest)
              ≡ err (invalid_magic record_data_magic record_empty_magic))
  unfolding frame_padding_record marshal
  frame_padding_refused offset total l m =
      let size = total - wal_record_header_size in
      let h = padding_header offset (size % 2 ^ 32) in
      let enough : ltb total wal_record_header_size ≡ false = ground arith in
      (
        marshal hash h ++ zeros size,
        rw enough refl,
        omega (arith, length-zeros size),
        λ rest.
            decode_record_padding (marshal hash h ++ (zeros size ++ rest))
              (record h { header_crc = wal_crc32 hash (marshal_fields h) })
              (unmarshal-marshal h (zeros size ++ rest) (record {
                magic = refl;
                body_length = omega arith;
                body_offset = omega arith;
                body_crc = omega arith;
              }))
              refl,
      )
