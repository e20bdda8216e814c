-- ===== src/Tests/Snapshot.antt =====
-- The round trip of a snapshot at a state with a row in most tables.
use streamstack.Prelude.{pos, ◌≡◌, refl, arith, [], ◌∷◌}
use streamstack.OrdMap.Sorted.{sorted_lists}
use streamstack.OrdMap.Keys.{u64_key, i32_key, pair_key, triple_key, text_key}
use streamstack.Metadata.Types.{StreamRow, StreamObjectRow, opened, stream_only, keep_data}
use streamstack.Metadata.State.{MetadataState, empty_state}
use streamstack.Metadata.Wire.{ok, utf8_from}
use streamstack.Metadata.Snapshot.Body.{encode, decode}
use streamstack.Metadata.Snapshot.Restored.{StateFits}
use streamstack.Metadata.Snapshot.Tables.{RowsKeyed, SameTables, decode-encode}

abbrev open_row : StreamRow
open_row = record {
  stream_id = 0;
  epoch = pos 1;
  start_offset = 0;
  end_offset = 40;
  state = opened;
  node_id = pos 1;
}

abbrev object_row : StreamObjectRow
object_row = record {
  object = record {
    object_id = 8;
    object_type = stream_only;
    offset_ranges = record { stream_id = 0; start_offset = 0; end_offset = 40 } ∷ [];
    object_size = 300;
    attributes = 0;
    committed_timestamp_ms = pos 99;
    data_timestamp_ms = pos 90;
  };
}

abbrev some_state : MetadataState
some_state = record empty_state {
  next_stream_id = 1;
  streams = ((0, open_row) ∷ [], (tt, tt));
  nodes = (
    (pos 1, record { node_id = pos 1; epoch = pos 10; http_address = 110 ∷ 49 ∷ []; slots = 4 })
        ∷ [],
    (tt, tt),
  );
  next_object_id = 9;
  prepared = ((7, pos 1000) ∷ [], (tt, tt));
  stream_objects = (((0, 0, 8), object_row) ∷ [], (tt, tt));
  mark_destroyed = ((0, (3, keep_data)) ∷ [], (tt, tt));
  next_destroyed_seq = 1;
  kv = ((107 ∷ [], 1 ∷ 2 ∷ []) ∷ [], (tt, tt));
  pending_transfers = ((0, record { from_node = pos 1; to_node = pos 2 }) ∷ [], (tt, tt));
}

some_state-StateFits : StateFits some_state
unfolding utf8_from
some_state-StateFits = record {
  streams = (omega arith, ((omega arith, omega arith, omega arith, omega arith, omega arith), tt));
  nodes = (
    omega arith,
    ((omega arith, omega arith, record { short = omega arith; utf8 = refl }, omega arith), tt),
  );
  prepared = (omega arith, ((omega arith, omega arith), tt));
  set_objects = (omega arith, tt);
  objects = (
    omega arith,
    (
      (
        record {
          object_id = omega arith;
          object_size = omega arith;
          attributes = omega arith;
          committed = omega arith;
          data_time = omega arith;
          ranges = (omega arith, ((omega arith, omega arith, omega arith), tt));
        },
        (_, refl, refl),
      ),
      tt,
    ),
  );
  destroyed = (omega arith, ((omega arith, omega arith), tt));
  kv = (omega arith, ((record { short = omega arith; utf8 = refl }, omega arith), tt));
  transfers = (omega arith, ((omega arith, omega arith, omega arith), tt));
  next_stream = omega arith;
  next_object = omega arith;
  next_seq = omega arith;
}

some_state-RowsKeyed : RowsKeyed some_state
some_state-RowsKeyed = record {
  streams = (refl, tt);
  nodes = (refl, tt);
  set_objects = tt;
  objects = ((_, refl, refl), tt);
}

decode-encode_example :
    (t : MetadataState) × (decode (encode some_state) ≡ ok t) × SameTables some_state t
decode-encode_example = decode-encode some_state some_state-StateFits some_state-RowsKeyed
