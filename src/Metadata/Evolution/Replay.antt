-- ===== src/Metadata/Evolution/Replay.antt =====
-- Every command lets the rows of the streams evolve, so every log does.
use streamstack.Prelude.{ℕ, ℤ, eqb_ℤ_iff, arith, List, [], ◌∷◌, Option-cases, inl, inr}
use streamstack.OrdMap.{OrdMap}
use streamstack.OrdMap.Keys.{u64_key, i32_key, pair_key, triple_key, text_key}
use streamstack.Metadata.State.{MetadataState, OnOk, returns, fails, if_cases}
use streamstack.Metadata.Nodes.{register_node, is_newer}
use streamstack.Metadata.Types
use streamstack.Metadata.Types.{MetadataCommand, Bytes, NodeRow}
use streamstack.Metadata.Apply.{apply, apply_inner, replay, settle_cases}
use streamstack.Metadata.Destroyed.{clean_destroyed_objects, clean_each}
use streamstack.Metadata.Kv.{put_kv, put_kv_if_absent, delete_kv}
use streamstack.Metadata.Indexed.{IsIndexed}
use streamstack.Metadata.Indexed.Frames.{stream_plane-clean_each}
use streamstack.Metadata.Indexed.Replay.{Admissible, AllAdmissible, apply-IsIndexed}
use streamstack.Metadata.Evolution.{
  Evolves, Evolves-refl, Evolves-trans, Evolves-frame, Bounded, node_evolves_refl,
}
use streamstack.Metadata.Evolution.Streams.{
  create_stream-Evolves, create_streams-Evolves, open_stream-Evolves, trim_stream-Evolves,
  close_stream-Evolves,
}
use streamstack.Metadata.Evolution.Moves.{
  place_stream-Evolves, transfer_stream-Evolves, complete_transfer-Evolves, delete_stream-Evolves,
}
use streamstack.Metadata.Evolution.Commit.{
  Ordered, OrderedObjects, commit_stream_set_object-Evolves, compact_stream_object-Evolves,
  prepare_object-Evolves, expire_prepared_objects-Evolves,
}

-- The offsets of a commit are in order.
abbrev pub OffsetsInOrder : MetadataCommand → Type 0
OffsetsInOrder (Types.commit_stream_set_object n ne r now) =
    Ordered r.stream_ranges × OrderedObjects r.stream_objects
OffsetsInOrder _ = Unit

abbrev pub AllInOrder : List MetadataCommand → Type 0
AllInOrder [] = Unit
AllInOrder (c ∷ log) = OffsetsInOrder c × AllInOrder log

module _ ⦃im : OrdMap⦄ where
  open im use {
    Map, get, insert, remove, iter, range, range_to, get-insert, get-remove, get-iter, range-iter,
  }

  register_node-Evolves :
      (n ne : ℤ) (a : Bytes) (w : ℕ) (s : MetadataState)
      → OnOk (λ t _. Evolves s t) (register_node n ne a w s)
  unfolding register_node
  register_node-Evolves n ne a w s =
      let same : Evolves s s = Evolves-refl s in
      if_cases (is_newer (get s.nodes n) ne) (λ _. fails)
        λ f. returns (record {
          next = same.next;
          rows = same.rows;
          nodes = λ m.
              simp get-insert (ground (arith, f, eqb_ℤ_iff n m, node_evolves_refl (get s.nodes m)));
        })

  put_kv_if_absent-Evolves :
      (k w : Bytes) (s : MetadataState) → OnOk (λ t _. Evolves s t) (put_kv_if_absent k w s)
  unfolding put_kv_if_absent
  put_kv_if_absent-Evolves k w s =
      let same : Evolves s s = Evolves-refl s in
      elim (Option-cases (get s.kv k)) [
        | inl q ↦
            rw (q, put_kv_if_absent)
              (returns (record { next = same.next; rows = same.rows; nodes = same.nodes }))
        | inr (_, q) ↦ rw (q, put_kv_if_absent) (returns same)
      ]

  apply_inner-Evolves :
      (c : MetadataCommand) (s : MetadataState)
      → Admissible s c
      → OffsetsInOrder c
      → Bounded s
      → OnOk (λ t _. Evolves s t) (apply_inner c s)
  unfolding apply_inner put_kv delete_kv clean_destroyed_objects
  apply_inner-Evolves (Types.register_node n e a w) s h o b = register_node-Evolves n e a w s
  apply_inner-Evolves (Types.place_stream i) s h o b = place_stream-Evolves i s
  apply_inner-Evolves (Types.create_stream n ne) s h o b = create_stream-Evolves n ne s h b
  apply_inner-Evolves (Types.open_stream n ne i e) s h o b = open_stream-Evolves n ne i e s
  apply_inner-Evolves (Types.trim_stream n ne i e t) s h o b = trim_stream-Evolves n ne i e t s
  apply_inner-Evolves (Types.close_stream n ne i e) s h o b = close_stream-Evolves n ne i e s
  apply_inner-Evolves (Types.delete_stream n ne i e) s h o b = delete_stream-Evolves n ne i e s
  apply_inner-Evolves (Types.prepare_object n ne c ttl now) s h o b =
      prepare_object-Evolves n ne c ttl now s
  apply_inner-Evolves (Types.commit_stream_set_object n ne r now) s h o b =
      commit_stream_set_object-Evolves n ne r now s o.0 o.1 b
  apply_inner-Evolves (Types.compact_stream_object n ne r now) s h o b =
      compact_stream_object-Evolves n ne r now s
  apply_inner-Evolves (Types.expire_prepared_objects now) s h o b =
      expire_prepared_objects-Evolves now s
  apply_inner-Evolves (Types.clean_destroyed_objects ids) s h o b =
      returns
        (Evolves-frame s s (clean_each ids s) (stream_plane-clean_each ids s) (Evolves-refl s))
  apply_inner-Evolves (Types.put_kv k w) s h o b =
      let same : Evolves s s = Evolves-refl s in
      returns (record { next = same.next; rows = same.rows; nodes = same.nodes })
  apply_inner-Evolves (Types.put_kv_if_absent k w) s h o b = put_kv_if_absent-Evolves k w s
  apply_inner-Evolves (Types.delete_kv k) s h o b =
      let same : Evolves s s = Evolves-refl s in
      returns (record { next = same.next; rows = same.rows; nodes = same.nodes })
  apply_inner-Evolves (Types.transfer_stream i from to) s h o b =
      transfer_stream-Evolves i from to s
  apply_inner-Evolves (Types.complete_transfer i e) s h o b = complete_transfer-Evolves i e s
  apply_inner-Evolves (Types.create_streams n ne c) s h o b = create_streams-Evolves n ne c s h b

  apply-Evolves :
      (c : MetadataCommand) (s : MetadataState)
      → Admissible s c
      → OffsetsInOrder c
      → Bounded s
      → Evolves s (apply c s).1
  unfolding apply
  apply-Evolves c s h o b =
      settle_cases (Evolves s) (Evolves-refl s) (apply_inner-Evolves c s h o b)

  pub replay-Evolves :
      (log : List MetadataCommand) (s : MetadataState)
      → AllAdmissible log s
      → AllInOrder log
      → IsIndexed s
      → Evolves s (replay log s)
  unfolding replay
  replay-Evolves [] s h o v = Evolves-refl s
  replay-Evolves (c ∷ log) s h o v =
      Evolves-trans v.fresh (apply-Evolves c s h.0 o.0 v.fresh)
        (replay-Evolves log (apply c s).1 h.1 o.1 (apply-IsIndexed c s h.0 v))
