-- ===== src/Metadata/Evolution.antt =====
-- How the row of a stream or of a node may change: the relation that every command keeps to.
pub mod Streams
pub mod Moves
pub mod Commit
pub mod Replay
use mathlib.Core.Path.{ap}
use streamstack.Prelude.{
  ℕ, ◌≤◌, ◌<◌, ◌≢◌, ℤ, eqb_ℤ, ltb_ℤ, eqb_ℤ_iff, ltb_ℤ_iff, eq_of_parts, ◌≡◌, refl, true, false, not,
  ◌&&◌, ◌||◌, Bool, Option, none, some, arith, if◌then◌else◌, ltb, leb, ==_iff,
}
use streamstack.OrdMap.{OrdMap}
use streamstack.OrdMap.Keys.{u64_key, i32_key}
use streamstack.Metadata.Types.{StreamRow, NodeRow}
use streamstack.Metadata.State.{MetadataState, is_opened}
use streamstack.Metadata.Indexed.{stream_plane}

-- From one row to a later one of the same stream neither the epoch nor an offset falls, and a
-- stream that is open later was opened by a newer epoch, or was open before on the same node.
abbrev pub row_evolves : StreamRow → StreamRow → Bool
row_evolves r r' =
    not (ltb_ℤ r'.epoch r.epoch)
    && (leb r.start_offset r'.start_offset
        && (leb r.end_offset r'.end_offset
            && (not (is_opened r'.state)
                || (ltb_ℤ r.epoch r'.epoch || (is_opened r.state && eqb_ℤ r.node_id r'.node_id)))))

-- `known` says that the id was given out before. A stream that goes away does so for good.
abbrev pub evolves : Bool → Option StreamRow → Option StreamRow → Bool
evolves known none none = true
evolves known none (some r') = not known
evolves known (some r) none = true
evolves known (some r) (some r') = row_evolves r r'

pub evolves_refl : (known : Bool) (o : Option StreamRow) → evolves known o o ≡ true
evolves_refl known none = refl
evolves_refl known (some r) =
    ground (arith, ltb_ℤ_iff r.epoch r.epoch, eqb_ℤ_iff r.node_id r.node_id)

row_evolves_trans :
    (r r' r'' : StreamRow)
    → row_evolves r r' ≡ true
    → row_evolves r' r'' ≡ true
    → row_evolves r r'' ≡ true
row_evolves_trans r r' r'' h k = ground (
  arith,
  ltb_ℤ_iff r.epoch r'.epoch,
  ltb_ℤ_iff r'.epoch r.epoch,
  ltb_ℤ_iff r'.epoch r''.epoch,
  ltb_ℤ_iff r''.epoch r'.epoch,
  ltb_ℤ_iff r.epoch r''.epoch,
  ltb_ℤ_iff r''.epoch r.epoch,
  eqb_ℤ_iff r.node_id r'.node_id,
  eqb_ℤ_iff r'.node_id r''.node_id,
  eqb_ℤ_iff r.node_id r''.node_id,
)

-- A node that is registered stays so, and its epoch does not fall.
abbrev pub node_evolves : Option NodeRow → Option NodeRow → Bool
node_evolves none _ = true
node_evolves (some r) none = false
node_evolves (some r) (some r') = not (ltb_ℤ r'.epoch r.epoch)

pub node_evolves_refl : (o : Option NodeRow) → node_evolves o o ≡ true
node_evolves_refl none = refl
node_evolves_refl (some r) = ground (arith, ltb_ℤ_iff r.epoch r.epoch)

node_evolves_trans :
    (o p q : Option NodeRow)
    → node_evolves o p ≡ true
    → node_evolves p q ≡ true
    → node_evolves o q ≡ true
node_evolves_trans none p q e f = refl
node_evolves_trans (some r) none q e f = ground arith
node_evolves_trans (some r) (some r') none e f = ground arith
node_evolves_trans (some r) (some r') (some r'') e f =
    ground
      (arith, ltb_ℤ_iff r'.epoch r.epoch, ltb_ℤ_iff r''.epoch r'.epoch, ltb_ℤ_iff r''.epoch r.epoch)

module _ ⦃im : OrdMap⦄ where
  open im use {get, insert, get-insert}

  pub record Evolves (s t : MetadataState) : Type 0 where
    pub next : s.next_stream_id ≤ t.next_stream_id
    pub rows : (i : ℕ) → evolves (ltb i s.next_stream_id) (get s.streams i) (get t.streams i) ≡ true
    pub nodes : (n : ℤ) → node_evolves (get s.nodes n) (get t.nodes n) ≡ true

  pub Evolves-refl : (s : MetadataState) → Evolves s s
  Evolves-refl s = record {
    next = omega arith;
    rows = λ i. evolves_refl (ltb i s.next_stream_id) (get s.streams i);
    nodes = λ n. node_evolves_refl (get s.nodes n);
  }

  -- Where an id is below the counter and a row is gone, the id stays unused.
  evolves_trans :
      (i m n : ℕ) (o p q : Option StreamRow)
      → m ≤ n
      → (o ≢ none → i < m)
      → evolves (ltb i m) o p ≡ true
      → evolves (ltb i n) p q ≡ true
      → evolves (ltb i m) o q ≡ true
  evolves_trans i m n none none q l h e f =
      elim q as (λ q. evolves (ltb i n) none q ≡ true → evolves (ltb i m) none q ≡ true) [
        | none ↦ λ _. refl
        | some r ↦ λ g. ground arith
      ]
        f
  evolves_trans i m n none (some p) q l h e f = ground arith
  evolves_trans i m n (some o) none none l h e f = refl
  evolves_trans i m n (some o) none (some q) l h e f = ground (arith, h (λ z. cc))
  evolves_trans i m n (some o) (some p) none l h e f = refl
  evolves_trans i m n (some o) (some p) (some q) l h e f = row_evolves_trans o p q e f

  -- Every row stands below the counter.
  abbrev pub Bounded : MetadataState → Type 0
  Bounded s = (i : ℕ) → s.next_stream_id ≤ i → get s.streams i ≡ none

  pub Evolves-trans : {s t u : MetadataState} → Bounded s → Evolves s t → Evolves t u → Evolves s u
  Evolves-trans {s} {t} {u} b e f = record {
    next = omega (arith, e.next, f.next);
    rows = λ i.
        evolves_trans i s.next_stream_id t.next_stream_id (get s.streams i) (get t.streams i)
          (get u.streams i) e.next (λ h. ground (arith, b i)) (e.rows i) (f.rows i);
    nodes = λ n.
        node_evolves_trans (get s.nodes n) (get t.nodes n) (get u.nodes n) (e.nodes n) (f.nodes n);
  }

  -- A step that leaves the rows and the counters as they are.
  pub Evolves-frame :
      (s t u : MetadataState) → stream_plane u ≡ stream_plane t → Evolves s t → Evolves s u
  Evolves-frame s t u p e = record {
    next = rw (ap (λ x. x.next_stream_id) p) e.next;
    rows = λ i. rw (ap (λ x. x.streams) p) (e.rows i);
    nodes = λ n. rw (ap (λ x. x.nodes) p) (e.nodes n);
  }

  -- A step that writes one row.
  pub Evolves-write :
      (s t : MetadataState) (i : ℕ) (r : StreamRow)
      → s.next_stream_id ≤ t.next_stream_id
      → t.streams ≡ insert s.streams i r
      → t.nodes ≡ s.nodes
      → evolves (ltb i s.next_stream_id) (get s.streams i) (some r) ≡ true
      → Evolves s t
  Evolves-write s t i r l p q e = record {
    next = l;
    rows = λ j. rw p (
        simp get-insert
          (ground (arith, e, ==_iff i j, evolves_refl (ltb j s.next_stream_id) (get s.streams j))));
    nodes = λ n. rw q (node_evolves_refl (get s.nodes n));
  }
