-- ===== src/Metadata/Snapshot/RoundTrip.antt =====
-- A snapshot is read back into a state that holds the rows of the tables.
use streamstack.Prelude.{ℕ, ◌%◌, ◌^◌, ◌<◌, ℤ, ◌≡◌, refl, arith, List, [], ◌∷◌, length}
use streamstack.OrdMap.Keys.{u64_key, i32_key, pair_key, triple_key, text_key}
use streamstack.Metadata.Types.{
  Bytes, StreamRow, NodeRow, S3ObjectType, stream_set, stream_only, StreamOffsetRange,
  S3ObjectMetadata,
}
use streamstack.Codec.Record.RoundTrip.{IsI32}
use streamstack.Metadata.Wire.{Decoder, ok, put_items, get_u8}
use streamstack.Metadata.Wire.Laws.{
  IsI64, IsText, Short, Each, Reads, get_u32-put_u32, get_u64-put_u64, get_i32-put_i32,
  get_i64-put_i64, get_str-put_str, get_counted-put_counted,
}
use streamstack.Metadata.CommandCodec.RoundTrip.{IsU64, IsU32, get_state-put_state}
use streamstack.Metadata.Snapshot.{
  put_rows, insert_each, insert_rows, put_stream_row, get_stream_row, put_node_row, get_node_row,
  put_lease, get_lease, put_type, get_type, put_offset_range, get_offset_range, put_object,
  get_object,
}

abbrev pub RowFits : StreamRow → Type 0
RowFits r =
    IsU64 r.stream_id × IsI64 r.epoch × IsU64 r.start_offset × IsU64 r.end_offset × IsI32 r.node_id

abbrev pub NodeFits : NodeRow → Type 0
NodeFits r = IsI32 r.node_id × IsI64 r.epoch × IsText r.http_address × IsU32 r.slots

abbrev pub OffsetRangeFits : StreamOffsetRange → Type 0
OffsetRangeFits r = IsU64 r.stream_id × IsU64 r.start_offset × IsU64 r.end_offset

pub record ObjectFits (o : S3ObjectMetadata) : Type 0 where
  pub object_id : IsU64 o.object_id
  pub object_size : IsU64 o.object_size
  pub attributes : IsU32 o.attributes
  pub committed : IsI64 o.committed_timestamp_ms
  pub data_time : IsI64 o.data_timestamp_ms
  pub ranges : Short o.offset_ranges × Each OffsetRangeFits o.offset_ranges

pub get_stream_row-put_stream_row :
    (r : StreamRow) → RowFits r → Reads get_stream_row put_stream_row r
unfolding get_stream_row put_stream_row
get_stream_row-put_stream_row r h rest = rw (
  get_u64-put_u64 r.stream_id h.0,
  get_i64-put_i64 r.epoch h.1,
  get_u64-put_u64 r.start_offset h.2,
  get_u64-put_u64 r.end_offset h.3,
  get_state-put_state r.state,
  get_i32-put_i32 r.node_id h.4,
)

pub get_node_row-put_node_row : (r : NodeRow) → NodeFits r → Reads get_node_row put_node_row r
unfolding get_node_row put_node_row
get_node_row-put_node_row r h rest = rw (
  get_i32-put_i32 r.node_id h.0,
  get_i64-put_i64 r.epoch h.1,
  get_str-put_str r.http_address h.2,
  get_u32-put_u32 r.slots h.3,
)

pub get_lease-put_lease : (e : ℕ × ℤ) → IsU64 e.0 × IsI64 e.1 → Reads get_lease put_lease e
unfolding get_lease put_lease
get_lease-put_lease (i, d) h rest = rw (get_u64-put_u64 i h.0, get_i64-put_i64 d h.1)

pub get_type-put_type : (t : S3ObjectType) → Reads get_type put_type t
unfolding get_type put_type get_u8
get_type-put_type stream_set rest = refl
get_type-put_type stream_only rest = refl

pub get_offset_range-put_offset_range :
    (r : StreamOffsetRange) → OffsetRangeFits r → Reads get_offset_range put_offset_range r
unfolding get_offset_range put_offset_range
get_offset_range-put_offset_range r h rest = rw (
  get_u64-put_u64 r.stream_id h.0,
  get_u64-put_u64 r.start_offset h.1,
  get_u64-put_u64 r.end_offset h.2,
)

pub get_object-put_object : (o : S3ObjectMetadata) → ObjectFits o → Reads get_object put_object o
unfolding get_object put_object
get_object-put_object o h rest = rw (
  get_u64-put_u64 o.object_id h.object_id,
  get_type-put_type o.object_type,
  get_u64-put_u64 o.object_size h.object_size,
  get_u32-put_u32 o.attributes h.attributes,
  get_i64-put_i64 o.committed_timestamp_ms h.committed,
  get_i64-put_i64 o.data_timestamp_ms h.data_time,
  get_counted-put_counted get_offset_range put_offset_range OffsetRangeFits
      get_offset_range-put_offset_range o.offset_ranges h.ranges.0 h.ranges.1,
)

-- The rows given to a state, one after another.
abbrev pub fold_rows : {E A S : Type 0} → (E → A) → (A → S → S) → List E → S → S
fold_rows view put [] s = s
fold_rows view put (e ∷ rows) s = fold_rows view put rows (put (view e) s)

module _ {E A S : Type 0} (get : Decoder A) (put : E → Bytes → Bytes) (view : E → A)
    (ins : A → S → S) (P : E → Type 0)
    (reads : (e : E) → P e → (rest : Bytes) → get (put e rest) ≡ ok (view e, rest)) where
  insert_each-put_items :
      (rows : List E) (s : S) (rest : Bytes)
      → Each P rows
      → insert_each get ins (length rows) s (put_items put rows rest)
        ≡ ok (fold_rows view ins rows s, rest)
  unfolding insert_each put_items
  insert_each-put_items [] s rest h = refl
  insert_each-put_items (e ∷ rows) s rest h =
      rw (reads e h.0) (insert_each-put_items rows (ins (view e) s) rest h.1)

  pub insert_rows-put_rows :
      (rows : List E)
      → (length rows < 2 ^ 64) × Each P rows
      → (s : S) (rest : Bytes)
      → insert_rows get ins s (put_rows put rows rest) ≡ ok (fold_rows view ins rows s, rest)
  unfolding insert_rows put_rows
  insert_rows-put_rows rows h s rest =
      let count : length rows % 2 ^ 64 ≡ length rows = omega (arith, h.0) in
      rw (get_u64-put_u64 (length rows % 2 ^ 64) (omega arith), count)
        (insert_each-put_items rows s rest h.1)
