-- ===== src/Planner/Objects/Split.antt =====
-- What a cut pushes holds the blocks of the builder, in order.
use streamstack.Prelude.{
  not, leb, ◌||◌, ltb_ℤ, ◌-◌, int_as_u64, ℕ, ◌+◌, ◌<◌, ◌%◌, ℤ, pos, ◌≡◌, refl, sym, ap, ◌∙◌, arith,
  Bool, true, some, List, [], ◌∷◌, ◌++◌, length, length-append, take, drop, ◌==◌, Bool-cases, inl,
  inr, u64_mod,
}
use streamstack.Planner.Block.{
  StreamDataBlock, stream_id, start_offset, block_end_offset, block_size, sizes,
}
use streamstack.Planner.Builder.{
  CompactedObjectBuilder, new_builder, last, add_block, add_blocks, run_tail, split_current_stream,
  split_range, reset_curr_stream_position, total_block_size,
}
use streamstack.Planner.Builder.Window.{
  Window, append_assoc, append_nil, split_current_stream-whole,
}
use streamstack.Planner.Objects.{split_object}

abbrev pub all_blocks : List CompactedObjectBuilder → List StreamDataBlock
all_blocks [] = []
all_blocks (b ∷ builders) = b.blocks ++ all_blocks builders

-- The window of a builder ends behind its blocks.
abbrev pub HasTail : CompactedObjectBuilder → Type 0
HasTail b = b.curr_stream_index_tail ≡ run_tail b.blocks

abbrev pub HaveTails : List CompactedObjectBuilder → Type 0
HaveTails [] = Unit
HaveTails (b ∷ builders) = HasTail b × HaveTails builders

-- No block is empty.
abbrev pub Solid : List StreamDataBlock → Type 0
Solid [] = Unit
Solid (b ∷ blocks) = (0 < block_size b) × Solid blocks

abbrev pub in_order : StreamDataBlock → StreamDataBlock → Bool
in_order a b = not (stream_id a == stream_id b) || leb (block_end_offset a) (start_offset b)

-- Blocks of one stream in a row do not overlap.
abbrev pub Ordered : List StreamDataBlock → Type 0
Ordered [] = Unit
Ordered (a ∷ []) = Unit
Ordered (a ∷ b ∷ blocks) = (in_order a b ≡ true) × Ordered (b ∷ blocks)

pub all_blocks-append :
    (a b : List CompactedObjectBuilder) → all_blocks (a ++ b) ≡ all_blocks a ++ all_blocks b
all_blocks-append [] b = refl
all_blocks-append (x ∷ a) b =
    ap (λ l. x.blocks ++ l) (all_blocks-append a b)
    ∙ sym (append_assoc x.blocks (all_blocks a) (all_blocks b))

pub HaveTails-append :
    (a b : List CompactedObjectBuilder) → HaveTails a → HaveTails b → HaveTails (a ++ b)
HaveTails-append [] b h k = k
HaveTails-append (x ∷ a) b h k = (h.0, HaveTails-append a b h.1 k)

pub sizes-append : (a b : List StreamDataBlock) → sizes (a ++ b) ≡ sizes a + sizes b
sizes-append [] b = omega arith
sizes-append (x ∷ a) b = omega (arith, sizes-append a b)

pub Solid-left : (a b : List StreamDataBlock) → Solid (a ++ b) → Solid a
Solid-left [] b h = tt
Solid-left (x ∷ a) b h = (h.0, Solid-left a b h.1)

pub Solid-right : (a b : List StreamDataBlock) → Solid (a ++ b) → Solid b
Solid-right [] b h = h
Solid-right (x ∷ a) b h = Solid-right a b h.1

-- Solid blocks with no bytes are none, as long as the sum does not wrap.
pub no_blocks :
    (l : List StreamDataBlock) → Solid l → sizes l < u64_mod → sizes l % u64_mod ≡ 0 → l ≡ []
no_blocks [] s h e = refl
no_blocks (x ∷ l) s h e = absurd (omega arith)

pub run_tail-append :
    (l : List StreamDataBlock) (x : StreamDataBlock) → run_tail (l ++ (x ∷ [])) ≡ pos (length l + 1)
run_tail-append [] x = ap pos (omega arith)
run_tail-append (y ∷ l) x = ap pos (omega (arith, length-append l (x ∷ [])))

pub add_blocks-HasTail :
    (b : CompactedObjectBuilder) (l : List StreamDataBlock) → HasTail b → HasTail (add_blocks b l)
unfolding add_block
add_blocks-HasTail b [] h = h
add_blocks-HasTail b (x ∷ l) h =
    add_blocks-HasTail (add_block b x) l (sym (run_tail-append b.blocks x))

pub run_tail_some : (l : List StreamDataBlock) → 0 < length l → run_tail l ≡ pos (length l)
run_tail_some [] h = absurd (omega arith)
run_tail_some (x ∷ l) h = refl

pub Window-HasTail : (b : CompactedObjectBuilder) (h : ℕ) → Window b h → HasTail b
Window-HasTail b h w = w.tail ∙ sym (run_tail_some b.blocks (omega (arith, w.inside)))

pub split_range-HaveTails :
    (b : CompactedObjectBuilder) (start end : ℤ)
    → HasTail b
    → HasTail (split_range b start end).0 × HasTail (split_range b start end).1
unfolding split_range reset_curr_stream_position
split_range-HaveTails b start end h =
    elim (Bool-cases (ltb_ℤ start (pos 0) || ltb_ℤ b.curr_stream_index_tail end)) [
      | inl g ↦ rw g (refl, h)
      | inr g ↦ rw g (
        add_blocks-HasTail new_builder
            (take (int_as_u64 end - int_as_u64 start) (drop (int_as_u64 start) b.blocks)) refl,
        refl,
      )
    ]

pub last-append : (l : List StreamDataBlock) (x : StreamDataBlock) → last (l ++ (x ∷ [])) ≡ some x
last-append [] x = refl
last-append (y ∷ []) x = refl
last-append (y ∷ z ∷ l) x = last-append (z ∷ l) x

-- What `split_object` pushes holds the blocks of the builder in their order.
pub split_object-blocks :
    (b : CompactedObjectBuilder) (acc : List CompactedObjectBuilder) (h : ℕ)
    → Window b h
    → Solid b.blocks
    → sizes b.blocks < u64_mod
    → all_blocks (split_object b acc) ≡ all_blocks acc ++ b.blocks
unfolding split_object
split_object-blocks b acc h w s l =
    let front = (split_current_stream b).1.blocks in
    let back = (split_current_stream b).0.blocks in
    let whole : front ++ back ≡ b.blocks = split_current_stream-whole b h w in
    let solid : Solid front = Solid-left front back (rw whole s) in
    let small : sizes front < u64_mod = omega (arith, sizes-append front back, ap sizes whole) in
    elim (Bool-cases (sizes front % u64_mod == 0)) [
      | inl e ↦
          let none_left : front ≡ [] = no_blocks front solid small (ground (arith, e)) in
          rw e (
            all_blocks-append acc _
            ∙ ap (λ l. all_blocks acc ++ l)
                (append_nil back ∙ (ap (λ r. r ++ back) (sym none_left) ∙ whole)))
      | inr e ↦ rw e (
          all_blocks-append acc _
          ∙ ap (λ l. all_blocks acc ++ l) (ap (λ r. front ++ r) (append_nil back) ∙ whole))
    ]

pub split_object-HaveTails :
    (b : CompactedObjectBuilder) (acc : List CompactedObjectBuilder)
    → HasTail b
    → HaveTails acc
    → HaveTails (split_object b acc)
unfolding split_object split_current_stream
split_object-HaveTails b acc h t =
    let parts = split_range-HaveTails b b.curr_stream_index_head b.curr_stream_index_tail h in
    elim (Bool-cases (total_block_size (split_current_stream b).1 == 0)) [
      | inl e ↦ rw e (HaveTails-append acc _ t (parts.0, tt))
      | inr e ↦ rw e (HaveTails-append acc _ t (parts.1, (parts.0, tt)))
    ]
