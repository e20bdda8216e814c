-- ===== src/Planner/Selection/Sharing.antt =====
-- Objects that share a stream: what `filter_blocks_to_compact` is to keep.
use streamstack.Prelude.{
  ℕ, ◌≡◌, ◌≢◌, arith, Bool, true, false, Bool-cases, not, ◌&&◌, ◌||◌, inl, inr, List, [], ◌∷◌, ◌==◌,
  if◌then◌else◌,
}
use streamstack.Planner.Block.{StreamDataBlock, stream_id}
use streamstack.Planner.Entries.{Entries}

-- Whether a block of the stream `k` among the blocks is of another object than `o`.
abbrev pub elsewhere : ℕ → ℕ → List StreamDataBlock → Bool
elsewhere o k [] = false
elsewhere o k (c ∷ blocks) = ((stream_id c == k) && not (c.object_id == o)) || elsewhere o k blocks

-- Whether one of `blocks` is of the object `o`, and its stream has a block of another object in `all`.
abbrev pub shares : ℕ → List StreamDataBlock → List StreamDataBlock → Bool
shares o all [] = false
shares o all (b ∷ blocks) =
    ((b.object_id == o) && elsewhere o (stream_id b) all) || shares o all blocks

abbrev pub keep_sharing : List StreamDataBlock → Entries → Entries
keep_sharing all [] = []
keep_sharing all ((o, blocks) ∷ entries) =
    let rest = keep_sharing all entries in if shares o all all then (o, blocks) ∷ rest else rest

-- Whether one of the blocks is of the stream `k` and the object `x`.
abbrev pub has : ℕ → ℕ → List StreamDataBlock → Bool
has k x [] = false
has k x (b ∷ blocks) = ((stream_id b == k) && (b.object_id == x)) || has k x blocks

-- A block of the stream and the object, and one of another object.
pub has-elsewhere :
    (k o x : ℕ) (blocks : List StreamDataBlock)
    → x ≢ o
    → has k x blocks ≡ true
    → elsewhere o k blocks ≡ true
has-elsewhere k o x [] n h = h
has-elsewhere k o x (b ∷ blocks) n h = ground (arith, has-elsewhere k o x blocks n)

pub elsewhere-has :
    (k o : ℕ) (blocks : List StreamDataBlock)
    → elsewhere o k blocks ≡ true
    → (x : ℕ) × (x ≢ o) × (has k x blocks ≡ true)
elsewhere-has k o [] h = absurd (ground (arith, h))
elsewhere-has k o (b ∷ blocks) h =
    elim (Bool-cases ((stream_id b == k) && not (b.object_id == o))) [
      | inl e ↦ (b.object_id, ground (arith, e), ground (arith, e))
      | inr e ↦
          let (x, n, g) = elsewhere-has k o blocks (ground (arith, h, e)) in
          (x, n, ground (arith, g))
    ]

pub has-shares :
    (k o : ℕ) (all blocks : List StreamDataBlock)
    → has k o blocks ≡ true
    → elsewhere o k all ≡ true
    → shares o all blocks ≡ true
has-shares k o all [] h e = h
has-shares k o all (b ∷ blocks) h e = elim (Bool-cases (stream_id b == k)) [
  | inl g ↦
      let same : stream_id b ≡ k = ground (arith, g) in
      rw same (ground (arith, h, e, has-shares k o all blocks))
  | inr g ↦ ground (arith, h, g, has-shares k o all blocks)
]

pub shares-has :
    (o : ℕ) (all blocks : List StreamDataBlock)
    → shares o all blocks ≡ true
    → (k : ℕ) × (has k o blocks ≡ true) × (elsewhere o k all ≡ true)
shares-has o all [] h = absurd (ground (arith, h))
shares-has o all (b ∷ blocks) h =
    elim (Bool-cases ((b.object_id == o) && elsewhere o (stream_id b) all)) [
      | inl e ↦ (stream_id b, ground (arith, e), ground (arith, e))
      | inr e ↦
          let (k, g, f) = shares-has o all blocks (ground (arith, h, e)) in
          (k, ground (arith, g), f)
    ]
