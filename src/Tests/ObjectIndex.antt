-- ===== src/Tests/ObjectIndex.antt =====
-- The theorems on the index block of an object at an index of three blocks.
use streamstack.Prelude.{ℕ, ◌^◌, ◌<◌, true, pos, ◌≡◌, refl, arith, List, [], ◌∷◌}
use streamstack.Object.Index.{DataBlockIndex, parsed, parse, encode_index, search, find}
use streamstack.Object.Index.RoundTrip.{InRange, AllInRange, numbered, parse-encode_index}
use streamstack.Object.Index.Search.{is_sorted, Searches, search-Searches}
use streamstack.Object.Index.Find.{Finds, find-Finds}

abbrev entry : ℕ → ℕ → ℕ → ℕ → DataBlockIndex
entry stream_id start_offset end_offset_delta start_position = record {
  block_id = pos 9;
  stream_id = stream_id;
  start_offset = start_offset;
  end_offset_delta = end_offset_delta;
  record_count = 2;
  start_position = start_position;
  size = 120;
}

-- Blocks of the offsets 0 to 10 and 10 to 25 of stream 3, and of 0 to 4 of stream 5.
abbrev three_entries : List DataBlockIndex
three_entries = entry 3 0 10 0 ∷ entry 3 10 15 120 ∷ entry 5 0 4 240 ∷ []

three_entries_sorted : is_sorted three_entries ≡ true
three_entries_sorted = refl

in_range :
    (stream_id start_offset end_offset_delta start_position : ℕ)
    → stream_id < 2 ^ 64
    → start_offset < 2 ^ 64
    → end_offset_delta < 2 ^ 32
    → start_position < 2 ^ 64
    → InRange (entry stream_id start_offset end_offset_delta start_position)
in_range i s d p a b c e = record {
  stream_id = a;
  start_offset = b;
  end_offset_delta = c;
  record_count = omega arith;
  start_position = e;
  size = omega arith;
}

three_in_range : AllInRange three_entries
three_in_range = (
  in_range 3 0 10 0 (omega arith) (omega arith) (omega arith) (omega arith),
  (
    in_range 3 10 15 120 (omega arith) (omega arith) (omega arith) (omega arith),
    (in_range 5 0 4 240 (omega arith) (omega arith) (omega arith) (omega arith), tt),
  ),
)

parse-encode_index_example : parse (encode_index three_entries) ≡ parsed (numbered 0 three_entries)
parse-encode_index_example = parse-encode_index three_entries three_in_range

search-Searches_example :
    Searches three_entries 3 12 three_entries_sorted (search three_entries 3 12)
search-Searches_example = search-Searches three_entries 3 12 three_entries_sorted

find-Finds_example : Finds three_entries 3 2 20 (find three_entries 3 2 20 1000)
find-Finds_example = find-Finds three_entries 3 2 20 1000 three_entries_sorted
