-- ===== src/Codec/Record.antt =====
-- `StreamRecordBatch` (s3stream/s3stream-codec/src/record.rs, with the layout of codec.rs): one
-- byte string that holds a header of 33 bytes and the payload.
pub mod RoundTrip
pub mod Parse
use streamstack.Prelude.{
  ℕ, ◌+◌, ◌%◌, ◌^◌, ℤ, pos, negsuc, List, ◌∷◌, ◌++◌, drop, take, length, if◌then◌else◌, ltb, not,
  ◌==◌, ltb_ℤ, int_as_u64, u64_mod,
}
use streamstack.Codec.Wire.{
  Bytes, Decoded, ok, err, panicked, ◌>>=◌, invalid_magic, buffer_too_short, put_u32, put_u64,
  i32_bits, read_u32, read_u64, read_i32,
}

abbrev pub magic_v0 : ℕ
magic_v0 = 0x22

abbrev pub stream_id_pos : ℕ
stream_id_pos = 1

abbrev pub epoch_pos : ℕ
epoch_pos = 9

abbrev pub base_offset_pos : ℕ
base_offset_pos = 17

abbrev pub last_offset_delta_pos : ℕ
last_offset_delta_pos = 25

abbrev pub payload_length_pos : ℕ
payload_length_pos = 29

abbrev pub header_size : ℕ
header_size = 33

abbrev pub object_overhead : ℕ
object_overhead = 48

pub record StreamRecordBatch : Type 0 where
  pub encoded : Bytes

unfoldable pub new : ℕ → ℕ → ℕ → ℤ → Bytes → StreamRecordBatch
new stream_id epoch base_offset count payload = record {
  encoded =
      magic_v0
      ∷ (put_u64 stream_id
          ++ (put_u64 epoch
              ++ (put_u64 base_offset
                  ++ (put_u32 (i32_bits count)
                      ++ (put_u32 (length payload % 2 ^ 32) ++ payload)))));
}

abbrev pub first_byte : Bytes → Decoded ℕ
first_byte List.[] = panicked
first_byte (b ∷ _) = ok b

-- The bytes of one record, and those that are left in the buffer.
unfoldable pub parse : Bytes → Decoded (StreamRecordBatch × Bytes)
parse buf =
    if ltb (length buf) header_size then err (buffer_too_short header_size (length buf)) else (do
      magic ← first_byte buf
      if not (magic == magic_v0) then err (invalid_magic magic_v0 magic) else (do
        payload_len ← read_i32 buf payload_length_pos
        if ltb_ℤ payload_len (pos 0) then err (buffer_too_short header_size (length buf)) else (do
          let encoded_size = header_size + int_as_u64 payload_len
          if ltb (length buf) encoded_size
              then err (buffer_too_short encoded_size (length buf))
              else ok (record { encoded = take encoded_size buf }, drop encoded_size buf))))

unfoldable pub stream_id : StreamRecordBatch → Decoded ℕ
stream_id b = read_u64 b.encoded stream_id_pos

unfoldable pub epoch : StreamRecordBatch → Decoded ℕ
epoch b = read_u64 b.encoded epoch_pos

unfoldable pub base_offset : StreamRecordBatch → Decoded ℕ
base_offset b = read_u64 b.encoded base_offset_pos

unfoldable pub count : StreamRecordBatch → Decoded ℤ
count b = read_i32 b.encoded last_offset_delta_pos

-- `wrapping_add` of a positive count, `wrapping_sub` of any other
abbrev pub add_count : ℕ → ℤ → ℕ
add_count base (pos n) = (base + n) % u64_mod
add_count base (negsuc n) = (base + (n + 1)) % u64_mod

unfoldable pub last_offset : StreamRecordBatch → Decoded ℕ
unfolding count base_offset
last_offset b = do n ← count b; base ← base_offset b; ok (add_count base n)

unfoldable pub payload : StreamRecordBatch → Bytes
payload b = drop header_size b.encoded

-- The length field, cast from `i32` to `usize`.
unfoldable pub size : StreamRecordBatch → Decoded ℕ
size b = do n ← read_i32 b.encoded payload_length_pos; ok (int_as_u64 n)

unfoldable pub occupied_size : StreamRecordBatch → Decoded ℕ
unfolding size
occupied_size b = do n ← size b; ok ((n + object_overhead) % u64_mod)
