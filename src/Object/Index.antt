-- ===== src/Object/Index.antt =====
-- The index block of an object (s3stream/s3stream-object/src/index.rs): one entry of 36 bytes for
-- each data block, and the lookup of the blocks of a range.
pub mod Chain
pub mod Find
pub mod RoundTrip
pub mod Search
use streamstack.Prelude.{
  ℕ, zero, suc, ◌+◌, ◌-◌, ◌*◌, ◌/◌, ◌%◌, ◌^◌, ℤ, Bool, true, false, not, ◌&&◌, ◌||◌, Option, none,
  some, List, [], ◌∷◌, ◌++◌, length, drop, ltb, leb, ◌==◌, if◌then◌else◌, add_u64,
}
use streamstack.Codec.Wire
use streamstack.Codec.Wire.{
  Bytes, Decoded, ok, ◌>>=◌, put_u32, put_u64, read_u32, read_u64, of_i32_bits,
}

pub record DataBlockIndex : Type 0 where
  pub block_id : ℤ
  pub stream_id : ℕ
  pub start_offset : ℕ
  pub end_offset_delta : ℕ
  pub record_count : ℕ
  pub start_position : ℕ
  pub size : ℕ

abbrev pub end_offset : DataBlockIndex → ℕ
end_offset e = add_u64 e.start_offset e.end_offset_delta

abbrev pub end_position : DataBlockIndex → ℕ
end_position e = add_u64 e.start_position e.size

abbrev pub block_index_size : ℕ
block_index_size = 36

-- `invalid_format` is without the text of its reason; `panicked` stands for a slice out of bounds.
pub data Parsed (A : Type 0) : Type 0 where
  parsed : A → Parsed A
  invalid_format panicked : Parsed A

abbrev pub of_read : {A : Type 0} → Decoded A → Parsed A
of_read (ok a) = parsed a
of_read (Wire.err e) = invalid_format
of_read Wire.panicked = panicked

-- The bytes that are appended to the buffer.
abbrev pub encode : DataBlockIndex → Bytes
encode e =
    put_u64 e.stream_id
    ++ put_u64 e.start_offset
    ++ put_u32 e.end_offset_delta
    ++ put_u32 e.record_count
    ++ put_u64 e.start_position
    ++ put_u32 e.size

abbrev pub read_fields : ℤ → Bytes → Decoded DataBlockIndex
read_fields block_id buf = do
  stream_id ← read_u64 buf 0
  start_offset ← read_u64 buf 8
  end_offset_delta ← read_u32 buf 16
  record_count ← read_u32 buf 20
  start_position ← read_u64 buf 24
  size ← read_u32 buf 32
  ok (record {
    block_id = block_id;
    stream_id = stream_id;
    start_offset = start_offset;
    end_offset_delta = end_offset_delta;
    record_count = record_count;
    start_position = start_position;
    size = size;
  })

unfoldable pub decode : ℤ → Bytes → Parsed DataBlockIndex
decode block_id buf =
    if ltb (length buf) block_index_size then invalid_format else of_read (read_fields block_id buf)

abbrev pub add_entry :
    Parsed DataBlockIndex → Parsed (List DataBlockIndex) → Parsed (List DataBlockIndex)
add_entry (parsed e) (parsed entries) = parsed (e ∷ entries)
add_entry (parsed e) invalid_format = invalid_format
add_entry (parsed e) panicked = panicked
add_entry invalid_format _ = invalid_format
add_entry panicked _ = panicked

-- The entries from ordinal `i` on.
unfoldable pub parse_from : ℕ → ℕ → Bytes → Parsed (List DataBlockIndex)
parse_from zero i data_bytes = parsed []
parse_from (suc left) i data_bytes =
    add_entry (decode (of_i32_bits (i % 2 ^ 32)) (drop (i * block_index_size) data_bytes))
      (parse_from left (i + 1) data_bytes)

unfoldable pub parse : Bytes → Parsed (List DataBlockIndex)
parse data_bytes =
    if length data_bytes % block_index_size == 0
    then parse_from (length data_bytes / block_index_size) 0 data_bytes
    else invalid_format

unfoldable pub encode_index : List DataBlockIndex → Bytes
encode_index [] = []
encode_index (e ∷ entries) = encode e ++ encode_index entries

-- How an entry compares with a position of a stream.
abbrev pub is_less : ℕ → ℕ → DataBlockIndex → Bool
is_less stream_id offset e =
    ltb e.stream_id stream_id || (e.stream_id == stream_id && leb (end_offset e) offset)

abbrev pub is_greater : ℕ → ℕ → DataBlockIndex → Bool
is_greater stream_id offset e =
    ltb stream_id e.stream_id || (e.stream_id == stream_id && ltb offset e.start_offset)

-- `Ok` and `Err` of the search.
pub data Searched : Type 0 where
  found insertion : ℕ → Searched

-- The loop of the search. The source's `hi` is `hi - 1` here, since it ends at -1. None stands for no fuel, and for
-- an index out of bounds.
unfoldable pub search_loop : ℕ → List DataBlockIndex → ℕ → ℕ → ℕ → ℕ → Option Searched
search_loop zero entries stream_id offset lo hi = none
search_loop (suc fuel) entries stream_id offset lo hi =
    let mid = (lo + (hi - 1)) / 2 in
    let above = search_loop fuel entries stream_id offset (mid + 1) hi in
    let below = search_loop fuel entries stream_id offset lo mid in
    if ltb lo hi
    then elim (drop mid entries) [
      | [] ↦ none
      | e ∷ _ ↦
          if is_less stream_id offset e
          then above
          else if is_greater stream_id offset e
          then below
          else some (found mid)
    ]
    else some (insertion lo)

-- Each round halves the range; its length is fuel enough.
unfoldable pub search : List DataBlockIndex → ℕ → ℕ → Option Searched
search entries stream_id offset =
    search_loop (suc (length entries)) entries stream_id offset 0 (length entries)

pub record FindIndexResult : Type 0 where
  pub fulfilled : Bool
  pub next_start_offset : ℕ
  pub next_max_bytes : ℕ
  pub blocks : List DataBlockIndex

abbrev pub noop_offset : ℕ
noop_offset = 2 ^ 64 - 1

-- The bytes of the records of a block, without their headers and that of the block.
abbrev pub record_payload_size : DataBlockIndex → ℕ
record_payload_size e = e.size - e.record_count * 33 - 10

abbrev pub add_found : DataBlockIndex → FindIndexResult → FindIndexResult
add_found e r = record r { blocks = e ∷ r.blocks }

abbrev pub stop_at : Bool → ℕ → ℕ → FindIndexResult
stop_at fulfilled next max_bytes = record {
  fulfilled = fulfilled;
  next_start_offset = next;
  next_max_bytes = max_bytes;
  blocks = [];
}

abbrev pub is_fulfilled : ℕ → ℕ → ℕ → Bool
is_fulfilled until next max_bytes =
    (not (until == noop_offset) && leb until next) || (max_bytes == 0)

-- What is left of the bytes behind a block; a block that is cut at its start is not charged.
abbrev pub charge : Bool → ℕ → DataBlockIndex → ℕ
charge matched max_bytes e = if matched then max_bytes - record_payload_size e else max_bytes

-- The loop over the entries from the found one on.
unfoldable pub find_from : ℕ → ℕ → Bool → ℕ → ℕ → List DataBlockIndex → FindIndexResult
find_from stream_id until matched next max_bytes [] = stop_at false next max_bytes
find_from stream_id until matched next max_bytes (e ∷ entries) =
    let skipped = find_from stream_id until matched next max_bytes entries in
    let matched' = next == e.start_offset in
    let max_bytes' = charge matched' max_bytes e in
    let taken = find_from stream_id until matched' (end_offset e) max_bytes' entries in
    if e.stream_id == stream_id
    then (if ltb next e.start_offset
        then stop_at false next max_bytes
        else if leb (end_offset e) next
        then skipped
        else if is_fulfilled until (end_offset e) max_bytes'
        then add_found e (stop_at true (end_offset e) max_bytes')
        else add_found e taken)
    else (if matched then stop_at false next max_bytes else skipped)

abbrev pub find_at : List DataBlockIndex → ℕ → ℕ → ℕ → ℕ → Searched → FindIndexResult
find_at entries stream_id start until max_bytes (found i) =
    find_from stream_id until false start max_bytes (drop i entries)
find_at entries stream_id start until max_bytes (insertion _) = stop_at false start max_bytes

unfoldable pub find : List DataBlockIndex → ℕ → ℕ → ℕ → ℕ → Option FindIndexResult
find entries stream_id start_offset until max_bytes = elim (search entries stream_id start_offset) [
  | none ↦ none
  | some s ↦ some (find_at entries stream_id start_offset until max_bytes s)
]
