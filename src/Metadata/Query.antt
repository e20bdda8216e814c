-- ===== src/Metadata/Query.antt =====
-- The queries on the metadata state (picomq/pico-metadata/src/query.rs). A lookup that panics on a
-- missing row is `none`, and so is the query around it.
pub mod Prefix
pub mod Opening
use streamstack.Prelude.{
  ℕ, zero, suc, ◌+◌, ℤ, Bool, true, false, not, ◌&&◌, ◌||◌, Option, none, some, List, [], ◌∷◌, map,
  take, length, ltb, ◌==◌, if◌then◌else◌, u64_max,
}
use streamstack.OrdMap.{OrdMap}
use streamstack.OrdMap.Keys.{u64_key, i32_key, pair_key, triple_key, text_key}
use streamstack.Metadata.Types.{
  Bytes, StreamMetadata, StreamOffsetRange, S3ObjectMetadata, StreamObjectRow, CompactOperations,
}
use streamstack.Metadata.State.{MetadataState}
use streamstack.Metadata.Streams.{to_stream_metadata}
use streamstack.Metadata.Nodes.{is_empty_text}
use streamstack.Metadata.Objects.{is_some}

abbrev pub filter_map : {A B : Type 0} → (A → Option B) → List A → List B
filter_map f [] = []
filter_map f (x ∷ xs) = elim (f x) [ none ↦ filter_map f xs | some y ↦ y ∷ filter_map f xs ]

abbrev pub map_option : {A B : Type 0} → (A → B) → Option A → Option B
map_option f none = none
map_option f (some x) = some (f x)

-- The rest of a query behind a lookup that may panic.
abbrev pub or_panic : {A B : Type 0} → Option A → (A → Option B) → Option B
or_panic none f = none
or_panic (some x) f = f x

-- `Index` on a vector
abbrev pub first_range : List StreamOffsetRange → Option StreamOffsetRange
first_range [] = none
first_range (range ∷ _) = some range

-- Whether a range overlaps the one from `start_offset` to `end_offset`.
abbrev pub overlaps : ℕ → ℕ → ℕ → ℕ → Bool
overlaps start_offset end_offset range_start range_end =
    ltb start_offset range_end && ltb range_start end_offset

-- The next stream-set slice and what stands behind it: `take_while` and `filter` up to the element that `peek` shows.
abbrev pub peek_slice : ℕ → ℕ → List ((ℕ × ℕ × ℕ) × ℕ) → Option ((ℕ × ℕ) × List ((ℕ × ℕ × ℕ) × ℕ))
peek_slice start_offset end_offset [] = none
peek_slice start_offset end_offset (((_, range_start, object_id), range_end) ∷ l) =
    let rest = peek_slice start_offset end_offset l in
    if not (ltb range_start end_offset)
    then none
    else if overlaps start_offset end_offset range_start range_end
    then some ((range_start, object_id), l)
    else rest

-- The next stream object, which panics on one without a range.
abbrev pub peek_stream_object :
    ℕ
    → ℕ
    → List ((ℕ × ℕ × ℕ) × StreamObjectRow)
    → Option (Option ((ℕ × StreamObjectRow) × List ((ℕ × ℕ × ℕ) × StreamObjectRow)))
peek_stream_object start_offset end_offset [] = some none
peek_stream_object start_offset end_offset (((_, range_start, _), row) ∷ l) =
    let rest = peek_stream_object start_offset end_offset l in
    if not (ltb range_start end_offset)
    then some none
    else or_panic (first_range row.object.offset_ranges) λ range.
      if overlaps start_offset end_offset range.start_offset range.end_offset
      then some (some ((range_start, row), l))
      else rest

-- `take(limit)` of the stream objects, each of which is sought only when it is wanted.
abbrev pub take_stream_objects :
    ℕ → ℕ → ℕ → List ((ℕ × ℕ × ℕ) × StreamObjectRow) → Option (List S3ObjectMetadata)
take_stream_objects start_offset end_offset zero l = some []
take_stream_objects start_offset end_offset (suc limit) l =
    or_panic (peek_stream_object start_offset end_offset l) λ next. elim next [
      | none ↦ some []
      | some ((_, row), rest) ↦
          map_option (λ objects. row.object ∷ objects)
            (take_stream_objects start_offset end_offset limit rest)
    ]

abbrev pub starts_with : Bytes → Bytes → Bool
starts_with [] key = true
starts_with (b ∷ prefix) [] = false
starts_with (b ∷ prefix) (c ∷ key) = b == c && starts_with prefix key

-- `take_while` on the keys
abbrev pub take_prefixed : Bytes → List (Bytes × Bytes) → List (Bytes × Bytes)
take_prefixed prefix [] = []
take_prefixed prefix ((key, value) ∷ l) =
    if starts_with prefix key then (key, value) ∷ take_prefixed prefix l else []

module _ ⦃im : OrdMap⦄ where
  open im use {Map, get, iter, range, range_from}

  unfoldable pub get_stream : MetadataState → ℕ → Option StreamMetadata
  get_stream s stream_id = map_option to_stream_metadata (get s.streams stream_id)

  unfoldable pub get_streams : MetadataState → List ℕ → List StreamMetadata
  get_streams s stream_ids = filter_map (get_stream s) stream_ids

  unfoldable pub get_opening_streams : MetadataState → ℤ → List StreamMetadata
  get_opening_streams s node_id =
      filter_map (λ e. get_stream s e.0.1) (range s.opening_by_node (node_id, 0) (node_id, u64_max))

  unfoldable pub placed_count : MetadataState → ℤ → ℕ
  placed_count s node_id = length (range s.placed_by_node (node_id, 0) (node_id, u64_max))

  unfoldable pub get_node_address : MetadataState → ℤ → Option Bytes
  get_node_address s node_id = elim (get s.nodes node_id) [
    | none ↦ none
    | some node ↦ if is_empty_text node.http_address then none else some node.http_address
  ]

  -- The loop of `get_objects`, which ends when the limit is reached or both sources are used up.
  unfoldable pub merge_objects :
      MetadataState
      → ℕ
      → ℕ
      → ℕ
      → List ((ℕ × ℕ × ℕ) × ℕ)
      → List ((ℕ × ℕ × ℕ) × StreamObjectRow)
      → Option (List S3ObjectMetadata)
  merge_objects s start_offset end_offset zero slices objects = some []
  merge_objects s start_offset end_offset (suc limit) slices objects =
      or_panic (peek_stream_object start_offset end_offset objects) λ next.
        elim (peek_slice start_offset end_offset slices) [
          | none ↦ elim next [
            | none ↦ some []
            | some ((_, row), rest) ↦
                map_option (λ l. row.object ∷ l)
                  (merge_objects s start_offset end_offset limit slices rest)
          ]
          | some ((sso_start, object_id), slices') ↦
              let push_slice = or_panic (get s.stream_set_objects object_id) λ row.
                map_option (λ l. row.object ∷ l)
                  (merge_objects s start_offset end_offset limit slices' objects) in
              elim next [
                | none ↦ push_slice
                | some ((so_start, row), rest) ↦
                    let push_object =
                      map_option (λ l. row.object ∷ l)
                        (merge_objects s start_offset end_offset limit slices rest) in
                    if not (ltb so_start sso_start) then push_slice else push_object
              ]
        ]

  unfoldable pub get_objects : MetadataState → ℕ → ℕ → ℕ → ℕ → Option (List S3ObjectMetadata)
  get_objects s stream_id start_offset end_offset limit =
      merge_objects s start_offset end_offset limit
        (range s.sso_ranges (stream_id, 0, 0) (stream_id, u64_max, u64_max))
        (range s.stream_objects (stream_id, 0, 0) (stream_id, u64_max, u64_max))

  unfoldable pub get_stream_objects : MetadataState → ℕ → ℕ → ℕ → ℕ → Option (List S3ObjectMetadata)
  get_stream_objects s stream_id start_offset end_offset limit =
      take_stream_objects start_offset end_offset limit
        (range s.stream_objects (stream_id, 0, 0) (stream_id, u64_max, u64_max))

  unfoldable pub rows_of :
      MetadataState → List ((ℤ × ℕ) × Unit {0}) → Option (List S3ObjectMetadata)
  rows_of s [] = some []
  rows_of s ((k, _) ∷ l) =
      or_panic (get s.stream_set_objects k.1)
        λ row. map_option (λ objects. row.object ∷ objects) (rows_of s l)

  unfoldable pub get_server_objects : MetadataState → ℤ → Option (List S3ObjectMetadata)
  get_server_objects s node_id = rows_of s (range s.sso_by_node (node_id, 0) (node_id, u64_max))

  unfoldable pub is_object_exist : MetadataState → ℕ → Bool
  is_object_exist s object_id =
      is_some (get s.stream_set_objects object_id)
      || (is_some (get s.prepared object_id) || is_some (get s.stream_object_ids object_id))

  unfoldable pub objects_count : MetadataState → ℕ
  objects_count s = length (iter s.stream_set_objects) + length (iter s.stream_objects)

  unfoldable pub prepared_objects_count : MetadataState → ℕ
  prepared_objects_count s = length (iter s.prepared)

  unfoldable pub peek_destroyed_objects : MetadataState → ℕ → List (ℕ × CompactOperations)
  peek_destroyed_objects s limit = take limit (map (λ e. e.1) (iter s.mark_destroyed))

  unfoldable pub get_kv : MetadataState → Bytes → Option Bytes
  get_kv s key = get s.kv key

  unfoldable pub list_kv : MetadataState → Bytes → List (Bytes × Bytes)
  list_kv s prefix = take_prefixed prefix (range_from s.kv prefix)
