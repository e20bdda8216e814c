-- ===== src/Planner/Selection/Order.antt =====
-- What `sort_stream_range_positions` returns: all blocks, by stream and then by start offset.
use streamstack.Prelude.{
  ℕ, ◌<◌, ◌≤◌, ◌≡◌, arith, Bool-cases, ◌⊎◌, inl, inr, List, [], ◌∷◌, ◌++◌, ltb, ◌==◌,
}
use streamstack.Planner.Block.{StreamDataBlock, stream_id, start_offset}
use streamstack.Planner.Entries.{
  Entries, push_at, push_all, sort_entries, values, weigh, push_all-weigh, sort_entries-weigh,
}
use streamstack.Planner.Stages.Reads.{InOrder, AreFrom, Filed, push_all-Keyed, sort_entries-Filed}
use streamstack.Planner.Selection.{sort_stream_range_positions}

-- Of two blocks in a row the first is of the lower stream, or of the same and not behind the other.
abbrev pub Precedes : StreamDataBlock → StreamDataBlock → Type 0
Precedes a b =
    (stream_id a < stream_id b) ⊎ ((stream_id a ≡ stream_id b) × (start_offset a ≤ start_offset b))

abbrev pub StreamMajor : List StreamDataBlock → Type 0
StreamMajor [] = Unit
StreamMajor (a ∷ []) = Unit
StreamMajor (a ∷ b ∷ blocks) = Precedes a b × StreamMajor (b ∷ blocks)

-- All streams are above a number.
abbrev Above : ℕ → List StreamDataBlock → Type 0
Above k [] = Unit
Above k (b ∷ blocks) = (k < stream_id b) × Above k blocks

abbrev KeysAbove : ℕ → Entries → Type 0
KeysAbove k [] = Unit
KeysAbove k ((key, blocks) ∷ entries) = (k < key) × KeysAbove k entries

abbrev Ascending : Entries → Type 0
Ascending [] = Unit
Ascending ((key, blocks) ∷ entries) = KeysAbove key entries × Ascending entries

KeysAbove-le : (k m : ℕ) (es : Entries) → k ≤ m → KeysAbove m es → KeysAbove k es
KeysAbove-le k m [] l h = tt
KeysAbove-le k m ((key, blocks) ∷ es) l h = (omega (arith, h.0), KeysAbove-le k m es l h.1)

push_at-KeysAbove :
    (n k : ℕ) (b : StreamDataBlock) (es : Entries)
    → n < k
    → KeysAbove n es
    → KeysAbove n (push_at k b es)
unfolding push_at
push_at-KeysAbove n k b [] l h = (l, tt)
push_at-KeysAbove n k b ((key, blocks) ∷ es) l h = elim (Bool-cases (ltb k key)) [
  | inl g ↦ rw g (l, h)
  | inr g ↦ elim (Bool-cases (k == key)) [
    | inl e ↦ rw (g, e) h
    | inr e ↦ rw (g, e) (h.0, push_at-KeysAbove n k b es l h.1)
  ]
]

push_at-Ascending :
    (k : ℕ) (b : StreamDataBlock) (es : Entries) → Ascending es → Ascending (push_at k b es)
unfolding push_at
push_at-Ascending k b [] h = (tt, tt)
push_at-Ascending k b ((key, blocks) ∷ es) h = elim (Bool-cases (ltb k key)) [
  | inl g ↦
      let below : k < key = ground (arith, g) in
      rw g ((below, KeysAbove-le k key es (omega arith) h.0), h)
  | inr g ↦ elim (Bool-cases (k == key)) [
    | inl e ↦ rw (g, e) h
    | inr e ↦
        rw (g, e)
          (push_at-KeysAbove key k b es (ground (arith, g, e)) h.0, push_at-Ascending k b es h.1)
  ]
]

push_all-Ascending :
    (l : List StreamDataBlock) (es : Entries) → Ascending es → Ascending (push_all stream_id l es)
unfolding push_all
push_all-Ascending [] es h = h
push_all-Ascending (b ∷ l) es h =
    push_all-Ascending l (push_at (stream_id b) b es) (push_at-Ascending (stream_id b) b es h)

sort_entries-KeysAbove :
    (k : ℕ) (es : Entries) → KeysAbove k es → KeysAbove k (sort_entries start_offset es)
unfolding sort_entries
sort_entries-KeysAbove k [] h = tt
sort_entries-KeysAbove k ((key, blocks) ∷ es) h = (h.0, sort_entries-KeysAbove k es h.1)

sort_entries-Ascending : (es : Entries) → Ascending es → Ascending (sort_entries start_offset es)
unfolding sort_entries
sort_entries-Ascending [] h = tt
sort_entries-Ascending ((key, blocks) ∷ es) h =
    (sort_entries-KeysAbove key es h.0, sort_entries-Ascending es h.1)

Above-under :
    (k key : ℕ) (l rest : List StreamDataBlock)
    → k < key
    → AreFrom stream_id key l
    → Above k rest
    → Above k (l ++ rest)
Above-under k key [] rest l h a = a
Above-under k key (b ∷ bs) rest l h a = (omega (arith, h.0), Above-under k key bs rest l h.1 a)

values-Above :
    (k : ℕ) (es : Entries) → KeysAbove k es → Filed stream_id start_offset es → Above k (values es)
values-Above k [] h f = tt
values-Above k ((key, blocks) ∷ es) h f =
    Above-under k key blocks (values es) h.0 f.0 (values-Above k es h.1 f.2)

behind :
    (k : ℕ) (l rest : List StreamDataBlock)
    → AreFrom stream_id k l
    → InOrder start_offset l
    → Above k rest
    → StreamMajor rest
    → StreamMajor (l ++ rest)
behind k [] rest f o a m = m
behind k (x ∷ []) [] f o a m = tt
behind k (x ∷ []) (y ∷ rest) f o a m = (inl (omega (arith, f.0, a.0)), m)
behind k (x ∷ y ∷ l) rest f o a m =
    (inr (omega (arith, f.0, f.1.0), o.0), behind k (y ∷ l) rest f.1 o.1 a m)

values-StreamMajor :
    (es : Entries) → Ascending es → Filed stream_id start_offset es → StreamMajor (values es)
values-StreamMajor [] a f = tt
values-StreamMajor ((k, blocks) ∷ es) a f =
    behind k blocks (values es) f.0 f.1 (values-Above k es a.0 f.2) (values-StreamMajor es a.1 f.2)

-- `sort_stream_range_positions`, whatever the order in which the map is read: the blocks come by stream and, in a stream,
-- by start offset, and each comes as often as the map holds it, since any weight of the blocks sums to the same.
pub sort_stream_range_positions-StreamMajor :
    (map : Entries) (w : StreamDataBlock → ℕ)
    → StreamMajor (sort_stream_range_positions map)
      × (weigh w (sort_stream_range_positions map) ≡ weigh w (values map))
unfolding sort_stream_range_positions
sort_stream_range_positions-StreamMajor map w =
    let pushed = push_all stream_id (values map) [] in
    (
      values-StreamMajor (sort_entries start_offset pushed)
          (sort_entries-Ascending pushed (push_all-Ascending (values map) [] tt))
          (sort_entries-Filed stream_id start_offset pushed
            (push_all-Keyed stream_id (values map) [] tt)),
      omega (
        arith,
        sort_entries-weigh w start_offset pushed,
        push_all-weigh w stream_id (values map) [],
      ),
    )
