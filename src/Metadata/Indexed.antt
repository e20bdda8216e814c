-- ===== src/Metadata/Indexed.antt =====
-- The indexes of the stream table: `opening_by_node` and `placed_by_node` list exactly the streams
-- that the rows say are open on a node or placed there.
pub mod Streams
pub mod Placement
pub mod Transfers
pub mod Frames
pub mod Deletion
pub mod Commit
pub mod Replay
use streamstack.Prelude.{
  ℕ, ◌≤◌, ℤ, eqb_ℤ, ltb_ℤ, ◌≡◌, ◌≢◌, arith, true, false, not, ◌&&◌, ◌||◌, Bool, Option, none, some,
  if◌then◌else◌,
}
use mathlib.Core.Path.{subst, sym}
use streamstack.OrdMap.{OrdMap}
use streamstack.OrdMap.Keys.{u64_key, i32_key, pair_key}
use streamstack.Metadata.Types.{StreamRow, NodeRow, PendingTransfer}
use streamstack.Metadata.State.{MetadataState, empty_state, is_opened}
use streamstack.Metadata.Streams.{no_node, no_epoch}

-- The entry that `opening_by_node` should have for a stream on a node.
abbrev pub opened_on : ℤ → Option StreamRow → Option (Unit {0})
opened_on n none = none
opened_on n (some row) = if is_opened row.state && eqb_ℤ row.node_id n then some tt else none

-- The entry that `placed_by_node` should have.
abbrev pub placed_on : ℤ → Option StreamRow → Option (Unit {0})
placed_on n none = none
placed_on n (some row) =
    if not (is_opened row.state)
      && (eqb_ℤ row.epoch no_epoch && (not (eqb_ℤ row.node_id no_node) && eqb_ℤ row.node_id n))
    then some tt
    else none

-- No epoch is below -1, and that of an open stream is above it.
abbrev pub sane_epoch : Option StreamRow → Bool
sane_epoch none = true
sane_epoch (some row) =
    not (ltb_ℤ row.epoch no_epoch) && (not (is_opened row.state) || not (eqb_ℤ row.epoch no_epoch))

-- A stream in transfer exists, and was opened.
abbrev pub sane_transfer : Option PendingTransfer → Option StreamRow → Bool
sane_transfer none row = true
sane_transfer (some transfer) none = false
sane_transfer (some transfer) (some row) = not (eqb_ℤ row.epoch no_epoch)

module _ ⦃im : OrdMap⦄ where
  open im use {Map, get, get-new}

  -- The stream table, its indexes and what they rest on.
  pub record StreamPlane : Type 0 where
    pub next_stream_id : ℕ
    pub streams : Map ℕ StreamRow
    pub nodes : Map ℤ NodeRow
    pub opening_by_node : Map (ℤ × ℕ) (Unit {0})
    pub placed_by_node : Map (ℤ × ℕ) (Unit {0})
    pub pending_transfers : Map ℕ PendingTransfer

  abbrev pub stream_plane : MetadataState → StreamPlane
  stream_plane s = record {
    next_stream_id = s.next_stream_id;
    streams = s.streams;
    nodes = s.nodes;
    opening_by_node = s.opening_by_node;
    placed_by_node = s.placed_by_node;
    pending_transfers = s.pending_transfers;
  }

  pub record PlaneIsIndexed (p : StreamPlane) : Type 0 where
    pub opening : (n : ℤ) (i : ℕ) → get p.opening_by_node (n, i) ≡ opened_on n (get p.streams i)
    pub placed : (n : ℤ) (i : ℕ) → get p.placed_by_node (n, i) ≡ placed_on n (get p.streams i)
    pub epochs : (i : ℕ) → sane_epoch (get p.streams i) ≡ true
    pub pending : (i : ℕ) → sane_transfer (get p.pending_transfers i) (get p.streams i) ≡ true
    -- Ids from the next one on are free.
    pub fresh : (i : ℕ) → p.next_stream_id ≤ i → get p.streams i ≡ none
    -- The sentinel -1 is no node.
    pub nodes : get p.nodes no_node ≡ none

  abbrev pub IsIndexed : MetadataState → Type 0
  IsIndexed s = PlaneIsIndexed (stream_plane s)

  -- A step that leaves the plane as it is leaves the indexes right.
  pub IsIndexed-frame :
      (s t : MetadataState) → stream_plane t ≡ stream_plane s → IsIndexed s → IsIndexed t
  IsIndexed-frame s t e v = subst PlaneIsIndexed (sym e) v

  pub empty_state-IsIndexed : IsIndexed empty_state
  empty_state-IsIndexed = record {
    opening = λ n i. simp get-new (ground arith);
    placed = λ n i. simp get-new (ground arith);
    epochs = λ i. simp get-new (ground arith);
    pending = λ i. simp get-new (ground arith);
    fresh = λ i l. get-new i;
    nodes = get-new no_node;
  }
