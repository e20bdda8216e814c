-- ===== src/Metadata/Streams.antt =====
-- Streams that are created, opened, trimmed and closed: the handlers of
-- picomq/pico-metadata/src/apply.rs, and `to_stream_metadata` of state.rs.
use streamstack.Prelude.{
  ℕ, zero, suc, ◌-◌, ℤ, negsuc, eqb_ℤ, ltb_ℤ, pos_part, add_u64, not, ◌&&◌, none, some, ltb, ◌==◌,
  if◌then◌else◌,
}
use streamstack.OrdMap.{OrdMap}
use streamstack.OrdMap.Keys.{u64_key, i32_key, pair_key, triple_key}
use streamstack.Metadata.Types.{
  closed, opened, StreamRow, StreamMetadata, MetadataResult, unit, id, stream, Result, ok, err,
  stream_not_exist, stream_not_closed, stream_fenced, expired_epoch, unexpected,
}
use streamstack.Metadata.State.{MetadataState, is_opened, Outcome, attempt}
use streamstack.Metadata.Nodes.{node_epoch_check}

-- `node_id` and `epoch` of a stream that was never placed and never opened, -1
abbrev pub no_node : ℤ
no_node = negsuc 0

abbrev pub no_epoch : ℤ
no_epoch = negsuc 0

abbrev pub max_create_streams : ℕ
max_create_streams = 4096

-- The row of a stream that was never opened.
abbrev pub new_row : ℕ → StreamRow
new_row stream_id = record {
  stream_id = stream_id;
  epoch = no_epoch;
  start_offset = 0;
  end_offset = 0;
  state = closed;
  node_id = no_node;
}

abbrev pub to_stream_metadata : StreamRow → StreamMetadata
to_stream_metadata row = record {
  stream_id = row.stream_id;
  epoch = pos_part row.epoch;
  start_offset = row.start_offset;
  end_offset = row.end_offset;
  state = row.state;
  node_id = row.node_id;
}

module _ ⦃im : OrdMap⦄ where
  open im use {Map, get, insert, remove, iter, range, range_to}

  unfoldable pub create_stream : ℤ → ℤ → MetadataState → Outcome MetadataState MetadataResult
  create_stream node_id node_epoch s = attempt (node_epoch_check s node_id node_epoch) s λ _.
      let stream_id = s.next_stream_id in
      (
        ok (id stream_id),
        record s {
          next_stream_id = add_u64 stream_id 1;
          streams = insert s.streams stream_id (new_row stream_id);
        },
      )

  -- The rows of `rounds` streams from `first` on.
  unfoldable pub insert_new_rows : ℕ → ℕ → Map ℕ StreamRow → Map ℕ StreamRow
  insert_new_rows zero first streams = streams
  insert_new_rows (suc rounds) first streams =
      insert_new_rows rounds (suc first) (insert streams first (new_row first))

  unfoldable pub create_streams : ℤ → ℤ → ℕ → MetadataState → Outcome MetadataState MetadataResult
  create_streams node_id node_epoch rounds s =
      attempt (node_epoch_check s node_id node_epoch) s λ _.
        if rounds == 0
        then (err unexpected, s)
        else if ltb max_create_streams rounds
        then (err unexpected, s)
        else (let first = s.next_stream_id in
            (
              ok (id first),
              record s {
                streams = insert_new_rows (add_u64 first rounds - first) first s.streams;
                next_stream_id = add_u64 first rounds;
              },
            ))

  unfoldable pub require_stream : MetadataState → ℕ → Result StreamRow
  require_stream s stream_id = elim (get s.streams stream_id) [
    | none ↦ err (stream_not_exist stream_id)
    | some row ↦ ok row
  ]

  unfoldable pub open_stream : ℤ → ℤ → ℕ → ℤ → MetadataState → Outcome MetadataState MetadataResult
  open_stream node_id node_epoch stream_id epoch s =
      attempt (node_epoch_check s node_id node_epoch) s λ _.
        attempt (require_stream s stream_id) s λ row.
          if ltb_ℤ epoch row.epoch
          then (err (stream_fenced stream_id epoch), s)
          else if eqb_ℤ row.epoch epoch
          then (if is_opened row.state && eqb_ℤ row.node_id node_id
              then (ok (stream (to_stream_metadata row)), s)
              else (err (stream_fenced stream_id epoch), s))
          else if is_opened row.state
          then (err (stream_not_closed stream_id), s)
          else (let row' = record row { epoch = epoch; state = opened; node_id = node_id } in
              (
                ok (stream (to_stream_metadata row')),
                record s {
                  streams = insert s.streams stream_id row';
                  placed_by_node = remove s.placed_by_node (row.node_id, stream_id);
                  opening_by_node = insert s.opening_by_node (node_id, stream_id) tt;
                },
              ))

  unfoldable pub require_opened_stream : MetadataState → ℕ → ℤ → Result StreamRow
  require_opened_stream s stream_id epoch = elim (require_stream s stream_id) [
    | err e ↦ err e
    | ok row ↦
        if not (is_opened row.state)
        then err unexpected
        else if not (eqb_ℤ row.epoch epoch)
        then err (expired_epoch stream_id epoch)
        else ok row
  ]

  unfoldable pub trim_stream :
      ℤ → ℤ → ℕ → ℤ → ℕ → MetadataState → Outcome MetadataState MetadataResult
  trim_stream node_id node_epoch stream_id epoch new_start_offset s =
      attempt (node_epoch_check s node_id node_epoch) s λ _.
        attempt (require_opened_stream s stream_id epoch) s λ row.
          if ltb new_start_offset row.start_offset
          then (err unexpected, s)
          else if ltb row.end_offset new_start_offset
          then (err unexpected, s)
          else (
            ok unit,
            record s {
              streams = insert s.streams stream_id (record row { start_offset = new_start_offset });
            },
          )

  unfoldable pub close_stream : ℤ → ℤ → ℕ → ℤ → MetadataState → Outcome MetadataState MetadataResult
  close_stream node_id node_epoch stream_id epoch s =
      attempt (node_epoch_check s node_id node_epoch) s λ _.
        attempt (require_stream s stream_id) s λ row.
          if not (is_opened row.state) && eqb_ℤ row.epoch epoch
          then (ok unit, s)
          else if not (is_opened row.state)
          then (err unexpected, s)
          else if not (eqb_ℤ row.epoch epoch)
          then (err (expired_epoch stream_id epoch), s)
          else (
            ok unit,
            record s {
              streams = insert s.streams stream_id (record row { state = closed });
              opening_by_node = remove s.opening_by_node (row.node_id, stream_id);
            },
          )
