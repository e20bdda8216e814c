-- ===== src/Planner/Block.antt =====
-- Data blocks with their source objects, and the planned objects.
use streamstack.Prelude.{ℕ, ◌+◌, ◌-◌, ◌%◌, ◌^◌, negsuc, List, [], ◌∷◌, u64_mod}
use streamstack.Object.Index.{DataBlockIndex, end_offset}

pub record StreamDataBlock : Type 0 where
  pub object_id : ℕ
  pub index : DataBlockIndex

unfoldable pub new_block : ℕ → ℕ → ℕ → ℕ → ℕ → ℕ → ℕ → StreamDataBlock
new_block stream_id start_offset end_offset object_id block_position block_size record_count =
    record {
      object_id = object_id;
      index = record {
        block_id = negsuc 0;
        stream_id = stream_id;
        start_offset = start_offset;
        end_offset_delta = (end_offset + u64_mod - start_offset) % 2 ^ 32;
        record_count = record_count;
        start_position = block_position;
        size = block_size;
      };
    }

abbrev pub stream_id : StreamDataBlock → ℕ
stream_id b = b.index.stream_id

abbrev pub start_offset : StreamDataBlock → ℕ
start_offset b = b.index.start_offset

abbrev pub block_end_offset : StreamDataBlock → ℕ
block_end_offset b = end_offset b.index

abbrev pub block_size : StreamDataBlock → ℕ
block_size b = b.index.size

abbrev pub block_start_position : StreamDataBlock → ℕ
block_start_position b = b.index.start_position

pub data CompactionType : Type 0 where
  split compact : CompactionType

pub record CompactedObject : Type 0 where
  pub compaction_type : CompactionType
  pub blocks : List StreamDataBlock

-- The sum of the sizes, before it wraps.
abbrev pub sizes : List StreamDataBlock → ℕ
sizes [] = 0
sizes (b ∷ blocks) = block_size b + sizes blocks
