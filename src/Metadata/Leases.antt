-- ===== src/Metadata/Leases.antt =====
-- Leases on object ids: `prepare_object`, `commit_prepared` and `expire_prepared_objects` of
-- picomq/pico-metadata/src/apply.rs.
pub mod Expiry
use streamstack.Prelude.{
  ℕ, zero, suc, ◌-◌, ℤ, pos, max_ℤ, add_i64, add_u64, u64_max, none, some, List, [], ◌∷◌, length,
  ◌==◌, if◌then◌else◌,
}
use streamstack.OrdMap.{OrdMap}
use streamstack.OrdMap.Keys.{u64_key, i32_key, pair_key, triple_key}
use streamstack.Metadata.Types.{count, MetadataResult, id, ok, err, unexpected}
use streamstack.Metadata.State.{MetadataState, Outcome, attempt}
use streamstack.Metadata.Nodes.{node_epoch_check}

module _ ⦃im : OrdMap⦄ where
  open im use {Map, get, insert, remove, iter, range, range_to}

  -- The leases of `rounds` ids from `object_id` on.
  unfoldable pub lease : ℕ → ℕ → ℤ → MetadataState → MetadataState
  lease zero object_id deadline s = s
  lease (suc rounds) object_id deadline s = lease rounds (suc object_id) deadline (record s {
    prepared = insert s.prepared object_id deadline;
    prepared_by_deadline = insert s.prepared_by_deadline (deadline, object_id) tt;
  })

  unfoldable pub prepare_object :
      ℤ → ℤ → ℕ → ℤ → ℤ → MetadataState → Outcome MetadataState MetadataResult
  prepare_object node_id node_epoch n ttl_ms now_ms s =
      attempt (node_epoch_check s node_id node_epoch) s λ _.
        if n == 0
        then (err unexpected, s)
        else (let first = s.next_object_id in
            let deadline = add_i64 now_ms (max_ℤ ttl_ms (pos 0)) in
            (
              ok (id first),
              lease (add_u64 first n - first) first deadline
                  (record s { next_object_id = add_u64 first n }),
            ))

  unfoldable pub commit_prepared : ℕ → MetadataState → MetadataState
  commit_prepared object_id s = elim (get s.prepared object_id) [
    | none ↦ s
    | some deadline ↦ record s {
      prepared = remove s.prepared object_id;
      prepared_by_deadline = remove s.prepared_by_deadline (deadline, object_id);
    }
  ]

  unfoldable pub expire_each : List ((ℤ × ℕ) × Unit {0}) → MetadataState → MetadataState
  expire_each [] s = s
  expire_each ((k, _) ∷ expired) s = expire_each expired (record s {
    prepared_by_deadline = remove s.prepared_by_deadline k;
    prepared = remove s.prepared k.1;
  })

  unfoldable pub expire_prepared_objects : ℤ → MetadataState → Outcome MetadataState MetadataResult
  expire_prepared_objects now_ms s =
      let expired = range_to s.prepared_by_deadline (now_ms, u64_max) in
      (ok (count (length expired)), expire_each expired s)
