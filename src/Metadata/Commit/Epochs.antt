-- ===== src/Metadata/Commit/Epochs.antt =====
-- What a commit makes of the stream epochs in the ranges of its request.
use streamstack.Prelude.{ℕ, ℤ, ◌≡◌, Bool, List, [], ◌∷◌, refl, ap, map}
use streamstack.OrdMap.{OrdMap}
use streamstack.OrdMap.Keys.{u64_key, i32_key, pair_key, triple_key}
use streamstack.Metadata.State.{MetadataState, chain}
use streamstack.Metadata.Types.{ObjectStreamRange, CommitStreamSetObjectRequest}
use streamstack.Metadata.Objects.{to_offset_range, insert_ranges, insert_stream_set_object}
use streamstack.Metadata.Commit.{
  advance_ranges, advance_end_offset, commit_object, commit_stream_set_object,
  redundant_commit_check,
}

-- The ranges with other stream epochs, chosen range by range.
abbrev pub with_epochs : (ObjectStreamRange → ℕ) → List ObjectStreamRange → List ObjectStreamRange
with_epochs f [] = []
with_epochs f (r ∷ ranges) = record r { epoch = f r } ∷ with_epochs f ranges

abbrev pub request_with_epochs :
    (ObjectStreamRange → ℕ) → CommitStreamSetObjectRequest → CommitStreamSetObjectRequest
request_with_epochs f r = record r { stream_ranges = with_epochs f r.stream_ranges }

module _ ⦃im : OrdMap⦄ (f : ObjectStreamRange → ℕ) where
  open im use {Map, get, insert, remove, iter, range, range_to}

  advance_ranges-epochs :
      (ranges : List ObjectStreamRange) (compact : Bool) (s : MetadataState)
      → advance_ranges (with_epochs f ranges) compact s ≡ advance_ranges ranges compact s
  unfolding advance_ranges
  advance_ranges-epochs [] compact s = refl
  advance_ranges-epochs (r ∷ ranges) compact s = λ i.
      chain (advance_end_offset r.stream_id r.start_offset r.end_offset compact s)
        λ _ t. advance_ranges-epochs ranges compact t i

  insert_ranges-epochs :
      (ranges : List ObjectStreamRange) (i : ℕ) (m : Map (ℕ × ℕ × ℕ) ℕ)
      → insert_ranges (with_epochs f ranges) i m ≡ insert_ranges ranges i m
  unfolding insert_ranges
  insert_ranges-epochs [] i m = refl
  insert_ranges-epochs (r ∷ ranges) i m = insert_ranges-epochs ranges i _

  map-epochs :
      (ranges : List ObjectStreamRange)
      → map to_offset_range (with_epochs f ranges) ≡ map to_offset_range ranges
  map-epochs [] = refl
  map-epochs (r ∷ ranges) = ap (λ l. to_offset_range r ∷ l) (map-epochs ranges)

  insert_stream_set_object-epochs :
      (n : ℤ) (r : CommitStreamSetObjectRequest) (time now : ℤ) (s : MetadataState)
      → insert_stream_set_object n (request_with_epochs f r) time now s
        ≡ insert_stream_set_object n r time now s
  unfolding insert_stream_set_object
  insert_stream_set_object-epochs n r time now s =
      rw (map-epochs r.stream_ranges, insert_ranges-epochs r.stream_ranges)

  commit_object-epochs :
      (n : ℤ) (r : CommitStreamSetObjectRequest) (compact : Bool) (time now : ℤ) (s : MetadataState)
      → commit_object n (request_with_epochs f r) compact time now s
        ≡ commit_object n r compact time now s
  unfolding commit_object
  commit_object-epochs n r compact time now s =
      simp (advance_ranges-epochs, insert_stream_set_object-epochs) refl

  -- A commit of a stream-set object ends in the same result and the same state whatever stream
  -- epochs the ranges of its request carry, older ones than those of the streams included.
  pub commit_ignores_epochs :
      (n ne : ℤ) (r : CommitStreamSetObjectRequest) (now : ℤ) (s : MetadataState)
      → commit_stream_set_object n ne (request_with_epochs f r) now s
        ≡ commit_stream_set_object n ne r now s
  unfolding commit_stream_set_object redundant_commit_check
  commit_ignores_epochs n ne r now s = simp commit_object-epochs refl
