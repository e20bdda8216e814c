-- ===== src/Codec/WalRecord.antt =====
-- The frames of the write-ahead log (s3stream/s3stream-codec/src/wal_record.rs, with crc.rs): a
-- header of 24 bytes before each body. The hash of the crate crc32fast is a parameter.
pub mod RoundTrip
use streamstack.Prelude.{
  ℕ, zero, suc, ◌+◌, ◌-◌, ◌%◌, ◌^◌, Bool, List, [], ◌∷◌, ◌++◌, drop, take, length, if◌then◌else◌,
  ltb, leb, not, ◌&&◌, ◌==◌, u64_mod,
}
use streamstack.Codec.Wire.{
  Bytes, Decoded, ok, err, panicked, ◌>>=◌, invalid_magic, buffer_too_short, crc_mismatch, put_u32,
  put_u64, read_u32, read_u64,
}
use streamstack.Codec.Record.{StreamRecordBatch, parse}

abbrev pub wal_record_header_size : ℕ
wal_record_header_size = 24

abbrev pub wal_record_header_without_crc_size : ℕ
wal_record_header_without_crc_size = 20

abbrev pub record_data_magic : ℕ
record_data_magic = 0x87654321

abbrev pub record_empty_magic : ℕ
record_empty_magic = 0x76543210

pub record WalRecordHeader : Type 0 where
  pub magic : ℕ
  pub body_length : ℕ
  pub body_offset : ℕ
  pub body_crc : ℕ
  pub header_crc : ℕ

abbrev pub data_header : ℕ → ℕ → ℕ → WalRecordHeader
data_header offset body_length body_crc = record {
  magic = record_data_magic;
  body_length = body_length;
  body_offset = (offset + wal_record_header_size) % u64_mod;
  body_crc = body_crc;
  header_crc = 0;
}

abbrev pub padding_header : ℕ → ℕ → WalRecordHeader
padding_header offset body_length = record {
  magic = record_empty_magic;
  body_length = body_length;
  body_offset = (offset + wal_record_header_size) % u64_mod;
  body_crc = 0;
  header_crc = 0;
}

abbrev pub is_padding : WalRecordHeader → Bool
is_padding header = header.magic == record_empty_magic

abbrev pub zeros : ℕ → Bytes
zeros zero = []
zeros (suc n) = 0 ∷ zeros n

-- The header without its checksum.
abbrev pub marshal_fields : WalRecordHeader → Bytes
marshal_fields header =
    put_u32 header.magic
    ++ (put_u32 header.body_length ++ (put_u64 header.body_offset ++ put_u32 header.body_crc))

module _ (hash : Bytes → ℕ) where
  unfoldable pub wal_crc32 : Bytes → ℕ
  wal_crc32 buf = hash buf % 2 ^ 31

  unfoldable pub marshal : WalRecordHeader → Bytes
  marshal header = marshal_fields header ++ put_u32 (wal_crc32 (marshal_fields header))

  unfoldable pub unmarshal : Bytes → Decoded WalRecordHeader
  unmarshal buf =
      if ltb (length buf) wal_record_header_size
      then err (buffer_too_short wal_record_header_size (length buf))
      else (do
        stored_crc ← read_u32 buf 20
        let computed_crc = wal_crc32 (take wal_record_header_without_crc_size buf)
        if not (stored_crc == computed_crc) then err (crc_mismatch stored_crc computed_crc) else (do
          magic ← read_u32 buf 0
          if not (magic == record_data_magic) && not (magic == record_empty_magic)
              then err (invalid_magic record_data_magic magic)
              else (do
                body_length ← read_u32 buf 4
                body_offset ← read_u64 buf 8
                body_crc ← read_u32 buf 16
                ok (record {
                  magic = magic;
                  body_length = body_length;
                  body_offset = body_offset;
                  body_crc = body_crc;
                  header_crc = stored_crc;
                }))))

  unfoldable pub frame_record : ℕ → Bytes → Bytes
  frame_record offset body =
      marshal (data_header offset (length body % 2 ^ 32) (wal_crc32 body)) ++ body

  unfoldable pub frame_padding_record : ℕ → ℕ → Decoded Bytes
  frame_padding_record offset total_length =
      if ltb total_length wal_record_header_size
      then panicked
      else (let body_length = total_length - wal_record_header_size in
          ok (marshal (padding_header offset (body_length % 2 ^ 32)) ++ zeros body_length))

  -- The record, and what is left of the buffer.
  unfoldable pub decode_record : Bytes → Decoded (StreamRecordBatch × Bytes)
  decode_record buf = do
    header ← unmarshal buf
    if not (header.magic == record_data_magic)
        then err (invalid_magic record_data_magic header.magic)
        else (do
          let total = wal_record_header_size + header.body_length
          if ltb (length buf) total then err (buffer_too_short total (length buf)) else (do
            let body = drop wal_record_header_size (take total buf)
            let computed = wal_crc32 body
            if not (computed == header.body_crc)
                then err (crc_mismatch header.body_crc computed)
                else (do
                  (parsed, body_buf) ← parse body
                  if not (leb (length body_buf) 0)
                      then err (
                          buffer_too_short header.body_length
                            (header.body_length - length body_buf))
                      else ok (parsed, drop total buf))))
