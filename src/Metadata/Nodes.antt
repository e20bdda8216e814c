-- ===== src/Metadata/Nodes.antt =====
-- Node registration and the fence that every write of a node passes: `register_node` and
-- `node_epoch_check` of picomq/pico-metadata/src/apply.rs.
use streamstack.Prelude.{
  ℕ, ℤ, eqb_ℤ, ltb_ℤ, Bool, true, false, Option, none, some, [], ◌∷◌, if◌then◌else◌,
}
use streamstack.OrdMap.{OrdMap}
use streamstack.OrdMap.Keys.{i32_key}
use streamstack.Metadata.Types.{
  Bytes, NodeRow, MetadataResult, unit, node_epoch_mismatch, Result, ok, err,
}
use streamstack.Metadata.State.{MetadataState, Outcome}

abbrev pub is_empty_text : Bytes → Bool
is_empty_text [] = true
is_empty_text (b ∷ bs) = false

-- The address of the row that is replaced, or the empty text.
abbrev known_address : Option NodeRow → Bytes
known_address none = []
known_address (some node) = node.http_address

-- Whether a registered row has a newer epoch.
abbrev pub is_newer : Option NodeRow → ℤ → Bool
is_newer none node_epoch = false
is_newer (some node) node_epoch = ltb_ℤ node_epoch node.epoch

module _ ⦃im : OrdMap⦄ where
  open im use {get, insert}

  unfoldable pub register_node :
      ℤ → ℤ → Bytes → ℕ → MetadataState → Outcome MetadataState MetadataResult
  register_node node_id node_epoch http_address slots s =
      let old = get s.nodes node_id in
      if is_newer old node_epoch then (err (node_epoch_mismatch node_id), s) else (
        ok unit,
        record s {
          nodes = insert s.nodes node_id (record {
            node_id = node_id;
            epoch = node_epoch;
            http_address = if is_empty_text http_address then known_address old else http_address;
            slots = slots;
          });
        },
      )

  unfoldable pub node_epoch_check : MetadataState → ℤ → ℤ → Result (Unit {0})
  node_epoch_check s node_id node_epoch = elim (get s.nodes node_id) [
    | none ↦ err (node_epoch_mismatch node_id)
    | some node ↦ if eqb_ℤ node.epoch node_epoch then ok tt else err (node_epoch_mismatch node_id)
  ]
