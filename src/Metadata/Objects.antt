-- ===== src/Metadata/Objects.antt =====
-- The indexes of committed objects, of picomq/pico-metadata/src/apply.rs.
use streamstack.Prelude.{
  ℕ, ℤ, Bool, true, false, Option, none, some, List, [], ◌∷◌, map, ◌==◌, if◌then◌else◌,
}
use streamstack.OrdMap.{OrdMap}
use streamstack.OrdMap.Keys.{u64_key, i32_key, pair_key, triple_key, eqb_triple}
use streamstack.Metadata.Types.{
  StreamOffsetRange, S3ObjectMetadata, stream_set, stream_only, ObjectStreamRange,
  CommitStreamSetObjectRequest, Result, ok, err, unexpected,
}
use streamstack.Metadata.State.{MetadataState}

abbrev pub is_some {ℓ} : {A : Type ℓ} → Option A → Bool
is_some none = false
is_some (some a) = true

abbrev pub is_empty {ℓ} : {A : Type ℓ} → List A → Bool
is_empty [] = true
is_empty (x ∷ xs) = false

abbrev pub to_offset_range : ObjectStreamRange → StreamOffsetRange
to_offset_range r = record {
  stream_id = r.stream_id;
  start_offset = r.start_offset;
  end_offset = r.end_offset;
}

module _ ⦃im : OrdMap⦄ where
  open im use {Map, get, insert, remove, iter, range, range_to}

  unfoldable pub stream_object_committed : MetadataState → ℕ → ℕ → Bool
  stream_object_committed s stream_id object_id = elim (get s.stream_object_ids object_id) [
    | none ↦ false
    | some k ↦ k.0 == stream_id
  ]

  -- Whether `new_key` is the key under which the id is committed.
  abbrev pub same_key : Option (ℕ × ℕ × ℕ) → ℕ × ℕ × ℕ → Bool
  same_key none existing = false
  same_key (some k) existing = eqb_triple k existing

  unfoldable pub check_object_id_free : MetadataState → ℕ → Option (ℕ × ℕ × ℕ) → Result (Unit {0})
  check_object_id_free s object_id new_key =
      if is_some (get s.stream_set_objects object_id)
      then err unexpected
      else elim (get s.stream_object_ids object_id) [
        | none ↦ ok tt
        | some existing ↦ if same_key new_key existing then ok tt else err unexpected
      ]

  unfoldable pub insert_ranges : List ObjectStreamRange → ℕ → Map (ℕ × ℕ × ℕ) ℕ → Map (ℕ × ℕ × ℕ) ℕ
  insert_ranges [] object_id m = m
  insert_ranges (r ∷ ranges) object_id m =
      insert_ranges ranges object_id
        (insert m (r.stream_id, r.start_offset, object_id) r.end_offset)

  unfoldable pub insert_stream_set_object :
      ℤ → CommitStreamSetObjectRequest → ℤ → ℤ → MetadataState → MetadataState
  insert_stream_set_object node_id request data_time_ms now_ms s =
      let object : S3ObjectMetadata = record {
        object_id = request.object_id;
        object_type = stream_set;
        offset_ranges = map to_offset_range request.stream_ranges;
        object_size = request.object_size;
        attributes = request.attributes;
        committed_timestamp_ms = now_ms;
        data_timestamp_ms = data_time_ms;
      } in
      record s {
        sso_ranges = insert_ranges request.stream_ranges request.object_id s.sso_ranges;
        sso_by_node = insert s.sso_by_node (node_id, request.object_id) tt;
        stream_set_objects =
            insert s.stream_set_objects request.object_id
              (record { node_id = node_id; object = object });
      }

  unfoldable pub insert_stream_object :
      ℕ → ℕ → ℕ → ℕ → ℕ → ℕ → ℤ → ℤ → MetadataState → MetadataState
  insert_stream_object stream_id object_id start end size attributes data_time_ms now_ms s =
      let object : S3ObjectMetadata = record {
        object_id = object_id;
        object_type = stream_only;
        offset_ranges =
            record { stream_id = stream_id; start_offset = start; end_offset = end } ∷ [];
        object_size = size;
        attributes = attributes;
        committed_timestamp_ms = now_ms;
        data_timestamp_ms = data_time_ms;
      } in
      record s {
        stream_objects =
            insert s.stream_objects (stream_id, start, object_id) (record { object = object });
        stream_object_ids = insert s.stream_object_ids object_id (stream_id, start, object_id);
      }

  unfoldable pub remove_ranges : List StreamOffsetRange → ℕ → Map (ℕ × ℕ × ℕ) ℕ → Map (ℕ × ℕ × ℕ) ℕ
  remove_ranges [] object_id m = m
  remove_ranges (r ∷ ranges) object_id m =
      remove_ranges ranges object_id (remove m (r.stream_id, r.start_offset, object_id))

  unfoldable pub remove_stream_set_object : ℕ → MetadataState → MetadataState
  remove_stream_set_object object_id s = elim (get s.stream_set_objects object_id) [
    | none ↦ s
    | some row ↦ record s {
      stream_set_objects = remove s.stream_set_objects object_id;
      sso_ranges = remove_ranges row.object.offset_ranges object_id s.sso_ranges;
      sso_by_node = remove s.sso_by_node (row.node_id, object_id);
    }
  ]
