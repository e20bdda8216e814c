-- ===== src/Metadata/Fencing.antt =====
-- The fences on stream epochs, and what they keep over a log.
pub mod Nodes
use streamstack.Prelude.{
  ℕ, ◌<◌, ◌≤◌, ℤ, eqb_ℤ_iff, ltb_ℤ_iff, ◌<ℤ◌, ◌≤ℤ◌, ◌≡◌, ◌≢◌, Bool, true, false, Option, none, some,
  List, arith, refl, Option-cases, inl, inr, u64_as_i64,
}
use streamstack.OrdMap.{OrdMap}
use streamstack.OrdMap.Keys.{u64_key, i32_key, pair_key, triple_key}
use streamstack.Metadata.State.{MetadataState, is_opened, Outcome}
use streamstack.Metadata.Streams.{require_stream, require_opened_stream}
use streamstack.Metadata.Nodes.{node_epoch_check}
use streamstack.Metadata.Types
use streamstack.Metadata.Types.{
  MetadataCommand, MetadataResult, node_epoch_mismatch, StreamRow, NodeRow, ok, err,
}
use streamstack.Metadata.Transfers.{complete_transfer}
use streamstack.Metadata.Indexed.{IsIndexed}
use streamstack.Metadata.Indexed.Replay.{AllAdmissible}
use streamstack.Metadata.Evolution.Replay.{AllInOrder, replay-Evolves}
use streamstack.Metadata.Apply.{apply, apply_inner, settle, replay}
use streamstack.Metadata.Streams.{
  create_stream, create_streams, open_stream, trim_stream, close_stream,
}
use streamstack.Metadata.Deletion.{delete_stream}
use streamstack.Metadata.Leases.{prepare_object}
use streamstack.Metadata.Commit.{commit_stream_set_object}
use streamstack.Metadata.Compaction.{compact_stream_object}

-- The stream and the stream epoch that a handler compares with the row. The ranges of a commit of a
-- stream-set object have epochs too, and no handler reads them.
abbrev pub checked_epoch : MetadataCommand → Option (ℕ × ℤ)
checked_epoch (Types.open_stream n ne i e) = some (i, e)
checked_epoch (Types.trim_stream n ne i e o) = some (i, e)
checked_epoch (Types.close_stream n ne i e) = some (i, e)
checked_epoch (Types.delete_stream n ne i e) = some (i, e)
checked_epoch (Types.complete_transfer i e) = some (i, e)
checked_epoch (Types.compact_stream_object n ne r now) =
    some (r.stream_id, u64_as_i64 r.stream_epoch)
checked_epoch _ = none

-- Whether a step fails.
abbrev pub failed : {S A : Type 0} → Outcome S A → Bool
failed (ok a, s) = false
failed (err e, s) = true

module _ ⦃im : OrdMap⦄ where
  open im use {get}

  failure_is_atomic :
      (c : MetadataCommand) (s : MetadataState)
      → failed (apply_inner c s) ≡ true
      → (failed (apply c s) ≡ true) × ((apply c s).1 ≡ s)
  unfolding apply
  failure_is_atomic c s h = settled (apply_inner c s) h
    where
      settled :
          (o : Outcome MetadataState MetadataResult)
          → failed o ≡ true
          → (failed (settle s o) ≡ true) × ((settle s o).1 ≡ s)
      settled (ok r, t) h = (cc, cc)
      settled (err e, t) h = (refl, refl)

  stale_inner :
      (c : MetadataCommand) (s : MetadataState) (i : ℕ) (e : ℤ) (row : StreamRow)
      → checked_epoch c ≡ some (i, e)
      → get s.streams i ≡ some row
      → e <ℤ row.epoch
      → failed (apply_inner c s) ≡ true
  unfolding apply_inner open_stream trim_stream close_stream delete_stream complete_transfer
      compact_stream_object require_stream require_opened_stream
  stale_inner (Types.open_stream n ne j f) s i e row h q l =
      ground (arith, q, ltb_ℤ_iff f row.epoch)
  stale_inner (Types.trim_stream n ne j f o) s i e row h q l =
      ground (arith, q, eqb_ℤ_iff row.epoch f)
  stale_inner (Types.close_stream n ne j f) s i e row h q l =
      ground (arith, q, eqb_ℤ_iff row.epoch f)
  stale_inner (Types.delete_stream n ne j f) s i e row h q l =
      ground (arith, q, eqb_ℤ_iff row.epoch f)
  stale_inner (Types.complete_transfer j f) s i e row h q l =
      ground (arith, q, eqb_ℤ_iff row.epoch f)
  stale_inner (Types.compact_stream_object n ne r now) s i e row h q l =
      ground (arith, q, eqb_ℤ_iff row.epoch (u64_as_i64 r.stream_epoch))
  stale_inner c s i e row h q l = ground (arith, h)

  -- A command that opens, trims, closes, deletes, compacts or completes a transfer of a stream under an
  -- epoch below that of its row fails, and changes nothing.
  pub stale_epoch_fenced :
      (c : MetadataCommand) (s : MetadataState) (i : ℕ) (e : ℤ) (row : StreamRow)
      → checked_epoch c ≡ some (i, e)
      → get s.streams i ≡ some row
      → e <ℤ row.epoch
      → (failed (apply c s) ≡ true) × ((apply c s).1 ≡ s)
  stale_epoch_fenced c s i e row h q l = failure_is_atomic c s (stale_inner c s i e row h q l)

  -- From a state whose indexes accord with its rows, and over a log in which no node registers
  -- under -1, the ids do not run out and the ranges of commits have their ends not before their
  -- starts: once a stream has an epoch, and for as long as the stream exists, each command that
  -- opens, trims, closes, deletes or compacts it or completes its transfer under an older epoch
  -- fails and changes nothing. Commits of stream-set objects are not among these commands.
  pub zombie_fenced :
      (log : List MetadataCommand) (s : MetadataState) (c : MetadataCommand) (i : ℕ) (e : ℤ)
      (row row' : StreamRow)
      → IsIndexed s
      → AllAdmissible log s
      → AllInOrder log
      → get s.streams i ≡ some row
      → get (replay log s).streams i ≡ some row'
      → checked_epoch c ≡ some (i, e)
      → e <ℤ row.epoch
      → (failed (apply c (replay log s)) ≡ true) × ((apply c (replay log s)).1 ≡ replay log s)
  zombie_fenced log s c i e row row' v h o q q' w l =
      stale_epoch_fenced c (replay log s) i e row' w q'
        (ground (arith, (replay-Evolves log s h o v).rows i, q, q', ltb_ℤ_iff row'.epoch row.epoch))

  -- From a state whose indexes accord with its rows, and over a log in which no node registers
  -- under -1, the ids do not run out and the ranges of commits have their ends not before their
  -- starts: if a stream is open afterwards under the epoch that it had before, then it was open
  -- before, and on the same node.
  pub one_owner_per_epoch :
      (log : List MetadataCommand) (s : MetadataState) (i : ℕ) (row row' : StreamRow)
      → IsIndexed s
      → AllAdmissible log s
      → AllInOrder log
      → get s.streams i ≡ some row
      → get (replay log s).streams i ≡ some row'
      → is_opened row'.state ≡ true
      → row'.epoch ≡ row.epoch
      → (is_opened row.state ≡ true) × (row'.node_id ≡ row.node_id)
  one_owner_per_epoch log s i row row' v h o q q' w l = ground (
    arith,
    (replay-Evolves log s h o v).rows i,
    q,
    q',
    ltb_ℤ_iff row.epoch row'.epoch,
    eqb_ℤ_iff row.node_id row'.node_id,
  )

  -- From a state whose indexes accord with its rows, and over a log in which no node registers
  -- under -1, the ids do not run out and the ranges of commits have their ends not before their
  -- starts: if a stream is found afterwards under an id that had been given out, it was there
  -- before, and neither its start offset nor its end offset nor its epoch has gone back.
  pub offsets_monotone :
      (log : List MetadataCommand) (s : MetadataState) (i : ℕ) (row' : StreamRow)
      → IsIndexed s
      → AllAdmissible log s
      → AllInOrder log
      → i < s.next_stream_id
      → get (replay log s).streams i ≡ some row'
      → (row : StreamRow) × (get s.streams i ≡ some row)
        × (row.start_offset ≤ row'.start_offset)
        × (row.end_offset ≤ row'.end_offset)
        × (row.epoch ≤ℤ row'.epoch)
  offsets_monotone log s i row' v h o l q' =
      let e = (replay-Evolves log s h o v).rows i in
      elim (Option-cases (get s.streams i)) [
        | inl q ↦ absurd (ground (arith, e, q, q'))
        | inr (row, q) ↦ (
          row,
          q,
          ground (arith, e, q, q'),
          ground (arith, e, q, q'),
          ground (arith, e, q, q', ltb_ℤ_iff row'.epoch row.epoch),
        )
      ]
