-- ===== src/Tests/Codec.antt =====
-- The theorems on record batches and frames at concrete bytes.
use streamstack.Prelude.{ℕ, length, ◌+◌, ◌++◌, pos, ◌≡◌, refl, [], ◌∷◌, ◌++◌, arith}
use streamstack.OrdMap.Sorted.{sorted_lists}
use streamstack.OrdMap.Keys.{u64_key, i32_key, pair_key, triple_key, text_key}
use streamstack.Codec.Wire.{Bytes, Decoded}
use streamstack.Codec.Wire
use streamstack.Codec.Record.{new, parse}
use streamstack.Codec.Record.RoundTrip.{InRange, Fields, new-Fields, parse-new}
use streamstack.Codec.WalRecord.{
  WalRecordHeader, data_header, wal_crc32, marshal, unmarshal, marshal_fields, frame_record,
  decode_record, frame_padding_record, record_data_magic, record_empty_magic,
}
use streamstack.Codec.WalRecord.RoundTrip.{
  Fits, unmarshal-marshal, decode_record-frame_record, frame_padding_refused,
}
use streamstack.Codec.Record.Parse.{Parsed, parse-Parsed}

-- A batch of three records and four bytes.
batch_InRange : InRange 7 2 100 (pos 3) (1 ∷ 2 ∷ 3 ∷ 4 ∷ [])
batch_InRange = record {
  stream_id = omega arith;
  epoch = omega arith;
  base_offset = omega arith;
  count = omega arith;
  payload = omega arith;
}

new-Fields_example :
    Fields (new 7 2 100 (pos 3) (1 ∷ 2 ∷ 3 ∷ 4 ∷ [])) 7 2 100 (pos 3) (1 ∷ 2 ∷ 3 ∷ 4 ∷ [])
new-Fields_example = new-Fields 7 2 100 (pos 3) (1 ∷ 2 ∷ 3 ∷ 4 ∷ []) batch_InRange

parse-new_example :
    parse ((new 7 2 100 (pos 3) (1 ∷ 2 ∷ [])).encoded ++ (9 ∷ 9 ∷ []))
    ≡ Wire.ok (new 7 2 100 (pos 3) (1 ∷ 2 ∷ []), 9 ∷ 9 ∷ [])
parse-new_example = parse-new 7 2 100 (pos 3) (1 ∷ 2 ∷ []) (9 ∷ 9 ∷ []) (omega arith)

abbrev two_bytes_and_rest : Bytes
two_bytes_and_rest = (new 7 2 100 (pos 3) (1 ∷ 2 ∷ [])).encoded ++ (9 ∷ 9 ∷ [])

parse-Parsed_example : Parsed two_bytes_and_rest (parse two_bytes_and_rest)
parse-Parsed_example = parse-Parsed two_bytes_and_rest

-- A stand-in for the hash function: the sum of the bytes.
abbrev byte_sum : Bytes → ℕ
byte_sum [] = 0
byte_sum (b ∷ bytes) = b + byte_sum bytes

abbrev some_header : WalRecordHeader
some_header = data_header 100 5 77

some_header-Fits : Fits some_header
some_header-Fits = record {
  magic = refl;
  body_length = omega arith;
  body_offset = omega arith;
  body_crc = omega arith;
}

unmarshal-marshal_example :
    unmarshal byte_sum (marshal byte_sum some_header ++ (1 ∷ []))
    ≡ Wire.ok (record some_header { header_crc = wal_crc32 byte_sum (marshal_fields some_header) })
unmarshal-marshal_example = unmarshal-marshal byte_sum some_header (1 ∷ []) some_header-Fits

decode_record-frame_record_example :
    decode_record byte_sum
      (frame_record byte_sum 24 ((new 7 2 100 (pos 3) (1 ∷ 2 ∷ [])).encoded) ++ (9 ∷ []))
    ≡ Wire.ok (new 7 2 100 (pos 3) (1 ∷ 2 ∷ []), 9 ∷ [])
decode_record-frame_record_example =
    decode_record-frame_record byte_sum 24 7 2 100 (pos 3) (1 ∷ 2 ∷ []) (9 ∷ []) (omega arith)

frame_padding_refused_example :
    (frame : Bytes) × (frame_padding_record byte_sum 0 30 ≡ Wire.ok frame)
    × (length frame ≡ 30)
    × ((rest : Bytes)
        → decode_record byte_sum (frame ++ rest)
          ≡ Wire.err (Wire.invalid_magic record_data_magic record_empty_magic))
frame_padding_refused_example = frame_padding_refused byte_sum 0 30 (omega arith) (omega arith)
