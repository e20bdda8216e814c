-- ===== src/Metadata/State.antt =====
-- The metadata state (picomq/pico-metadata/src/state.rs), and how a step that may fail acts on it.
-- The step returns the state that it left in both cases: what was written before a failure stays
-- written, until `apply` drops it.
use streamstack.Prelude.{ℕ, ℤ, ◌≡◌, refl, Bool, true, false, if◌then◌else◌}
use streamstack.OrdMap.{OrdMap}
use streamstack.OrdMap.Keys.{u64_key, i32_key, pair_key, triple_key, text_key}
use streamstack.Metadata.Types.{
  Bytes, StreamRow, NodeRow, PendingTransfer, StreamSetObjectRow, StreamObjectRow, MetadataError,
  CompactOperations, StreamState, closed, opened, Result, ok, err,
}

module _ ⦃im : OrdMap⦄ where
  open im use {Map, new}

  pub record MetadataState : Type 0 where
    pub next_stream_id : ℕ
    pub streams : Map ℕ StreamRow
    pub nodes : Map ℤ NodeRow
    pub opening_by_node : Map (ℤ × ℕ) (Unit {0})
    pub placed_by_node : Map (ℤ × ℕ) (Unit {0})
    pub pending_transfers : Map ℕ PendingTransfer
    pub next_object_id : ℕ
    pub prepared : Map ℕ ℤ
    pub prepared_by_deadline : Map (ℤ × ℕ) (Unit {0})
    pub stream_set_objects : Map ℕ StreamSetObjectRow
    pub sso_ranges : Map (ℕ × ℕ × ℕ) ℕ
    pub sso_by_node : Map (ℤ × ℕ) (Unit {0})
    pub stream_objects : Map (ℕ × ℕ × ℕ) StreamObjectRow
    pub stream_object_ids : Map ℕ (ℕ × ℕ × ℕ)
    pub mark_destroyed : Map ℕ (ℕ × CompactOperations)
    pub destroyed_by_id : Map ℕ ℕ
    pub next_destroyed_seq : ℕ
    pub kv : Map Bytes Bytes

  abbrev pub empty_state : MetadataState
  empty_state = record {
    next_stream_id = 0;
    streams = new;
    nodes = new;
    opening_by_node = new;
    placed_by_node = new;
    pending_transfers = new;
    next_object_id = 0;
    prepared = new;
    prepared_by_deadline = new;
    stream_set_objects = new;
    sso_ranges = new;
    sso_by_node = new;
    stream_objects = new;
    stream_object_ids = new;
    mark_destroyed = new;
    destroyed_by_id = new;
    next_destroyed_seq = 0;
    kv = new;
  }

abbrev pub is_opened : StreamState → Bool
is_opened closed = false
is_opened opened = true

-- The outcome of a step beside the state that it left.
abbrev pub Outcome : Type 0 → Type 0 → Type 0
Outcome S A = Result A × S

module _ {S A B : Type 0} where
  -- `check?; rest`, where the check does not write.
  abbrev pub attempt : Result A → S → (A → Outcome S B) → Outcome S B
  attempt (ok a) s rest = rest a
  attempt (err e) s rest = (err e, s)

  -- `step?; rest`, where the step may write.
  abbrev pub chain : Outcome S A → (A → S → Outcome S B) → Outcome S B
  chain (ok a, s) rest = rest a s
  chain (err e, s) rest = (err e, s)

-- What holds of the state that a step leaves, and of its value, where it succeeds.
pub data OnOk {S A : Type 0} (P : S → A → Type 0) : Outcome S A → Type 0 where
  returns : {a : A} {s : S} → P s a → OnOk P (ok a, s)
  fails : {e : MetadataError} {s : S} → OnOk P (err e, s)

pub OnOk-ok : {S A : Type 0} {P : S → A → Type 0} (a : A) (s : S) → OnOk P (ok a, s) → P s a
OnOk-ok a s (returns p) = p

module _ {S A B : Type 0} {P : S → B → Type 0} where
  pub attempt_cases :
      (r : Result A) (s : S) {rest : A → Outcome S B}
      → ((a : A) → r ≡ ok a → OnOk P (rest a))
      → OnOk P (attempt r s rest)
  attempt_cases (ok a) s h = h a refl
  attempt_cases (err e) s h = fails

  pub chain_cases :
      {Q : S → A → Type 0} {o : Outcome S A} {rest : A → S → Outcome S B}
      → OnOk Q o
      → ((a : A) (t : S) → Q t a → OnOk P (rest a t))
      → OnOk P (chain o rest)
  chain_cases (returns q) h = h _ _ q
  chain_cases fails h = fails

module _ {S B : Type 0} {P : S → B → Type 0} where
  pub if_cases :
      (b : Bool) {x y : Outcome S B}
      → (b ≡ true → OnOk P x)
      → (b ≡ false → OnOk P y)
      → OnOk P (if b then x else y)
  if_cases true h k = h refl
  if_cases false h k = k refl

  pub OnOk-map :
      {Q : S → B → Type 0} {o : Outcome S B}
      → OnOk P o
      → ((s : S) (b : B) → P s b → Q s b)
      → OnOk Q o
  OnOk-map (returns p) h = returns (h _ _ p)
  OnOk-map fails h = fails

module _ {S B : Type 0} where
  -- A property of the state alone that holds whether or not the step fails.
  pub OnOk-state : {Q : S → Type 0} (o : Outcome S B) → Q o.1 → OnOk (λ s _. Q s) o
  OnOk-state (ok b, s) q = returns q
  OnOk-state (err e, s) q = fails
