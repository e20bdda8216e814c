-- ===== src/Planner/Builder/Window.antt =====
-- The window of a builder lies in its blocks, so no cut leaves them, and a cut loses none.
use streamstack.Prelude.{
  ℕ, zero, suc, ◌+◌, ◌-◌, ◌<◌, ◌≤◌, ℤ, pos, ltb_ℤ, ◌≡◌, refl, sym, ap, ◌∙◌, arith, true, false,
  List, [], ◌∷◌, ◌++◌, length, length-append, take, drop, if◌then◌else◌, pos_not_negative,
  ltb_ℤ_iff,
}
use streamstack.Planner.Block.{StreamDataBlock, stream_id}
use streamstack.Planner.Builder.{
  CompactedObjectBuilder, new_builder, last, is_stream, add_block, add_blocks, split_range,
  split_current_stream, reset_curr_stream_position,
}

-- The window of a builder with blocks: it begins at one of them, and ends behind the last.
pub record Window (b : CompactedObjectBuilder) (h : ℕ) : Type 0 where
  pub head : b.curr_stream_index_head ≡ pos h
  pub tail : b.curr_stream_index_tail ≡ pos (length b.blocks)
  pub inside : h < length b.blocks

pub append_assoc : (a b c : List StreamDataBlock) → (a ++ b) ++ c ≡ a ++ (b ++ c)
append_assoc [] b c = refl
append_assoc (x ∷ a) b c = ap (λ l. x ∷ l) (append_assoc a b c)

pub append_nil : (a : List StreamDataBlock) → a ++ [] ≡ a
append_nil [] = refl
append_nil (x ∷ a) = ap (λ l. x ∷ l) (append_nil a)

pub take-drop : (n : ℕ) (l : List StreamDataBlock) → take n l ++ drop n l ≡ l
take-drop zero l = refl
take-drop (suc n) [] = refl
take-drop (suc n) (x ∷ l) = ap (λ r. x ∷ r) (take-drop n l)

pub take_all : (n : ℕ) (l : List StreamDataBlock) → length l ≤ n → take n l ≡ l
take_all zero [] h = refl
take_all zero (x ∷ l) h = absurd (omega arith)
take_all (suc n) [] h = refl
take_all (suc n) (x ∷ l) h = ap (λ r. x ∷ r) (take_all n l (omega arith))

drop_all : (n : ℕ) (l : List StreamDataBlock) → length l ≤ n → drop n l ≡ []
drop_all zero [] h = refl
drop_all zero (x ∷ l) h = absurd (omega arith)
drop_all (suc n) [] h = refl
drop_all (suc n) (x ∷ l) h = drop_all n l (omega arith)

length-drop : (n : ℕ) (l : List StreamDataBlock) → length (drop n l) ≡ length l - n
length-drop zero l = omega arith
length-drop (suc n) [] = omega arith
length-drop (suc n) (x ∷ l) = omega (arith, length-drop n l)

add_blocks-blocks :
    (b : CompactedObjectBuilder) (l : List StreamDataBlock)
    → (add_blocks b l).blocks ≡ b.blocks ++ l
unfolding add_block
add_blocks-blocks b [] = sym (append_nil b.blocks)
add_blocks-blocks b (x ∷ l) = add_blocks-blocks (add_block b x) l ∙ append_assoc b.blocks (x ∷ []) l

pub add_block-Window_new : (x : StreamDataBlock) → Window (add_block new_builder x) 0
unfolding add_block
add_block-Window_new x = record { head = refl; tail = refl; inside = omega arith }

pub add_block-Window :
    (b : CompactedObjectBuilder) (h : ℕ) (x : StreamDataBlock)
    → Window b h
    → (h' : ℕ) × Window (add_block b x) h'
unfolding add_block
add_block-Window b h x w =
    elim (is_stream (stream_id x) (last b.blocks))
      as (λ s.
        (h' : ℕ) × Window
          (record b {
            blocks = b.blocks ++ (x ∷ []);
            curr_stream_index_head = if s then b.curr_stream_index_head else pos (length b.blocks);
            curr_stream_index_tail = pos (length b.blocks + 1);
          })
          h') [
            | true ↦ (
              h,
              record {
                head = w.head;
                tail = ap pos (omega (arith, length-append b.blocks (x ∷ [])));
                inside = omega (arith, w.inside, length-append b.blocks (x ∷ []));
              },
            )
            | false ↦ (
              length b.blocks,
              record {
                head = refl;
                tail = ap pos (omega (arith, length-append b.blocks (x ∷ [])));
                inside = omega (arith, length-append b.blocks (x ∷ []));
              },
            )
          ]

tail_covers : (t : ℤ) (n to : ℕ) → t ≡ pos n → to ≤ n → ltb_ℤ t (pos to) ≡ false
tail_covers t n to e l = ground (arith, ltb_ℤ_iff t (pos to))

-- What `split_range` returns where its guard does not fire.
pub split_range-parts :
    (b : CompactedObjectBuilder) (from to : ℕ)
    → b.curr_stream_index_tail ≡ pos (length b.blocks)
    → to ≤ length b.blocks
    → ((split_range b (pos from) (pos to)).0.blocks ≡ take (to - from) (drop from b.blocks))
      × ((split_range b (pos from) (pos to)).1.blocks ≡ take from b.blocks ++ drop to b.blocks)
unfolding split_range reset_curr_stream_position
split_range-parts b from to t l =
    let low = pos_not_negative from in
    let high = tail_covers b.curr_stream_index_tail (length b.blocks) to t l in
    (
      rw (low, high) (add_blocks-blocks new_builder (take (to - from) (drop from b.blocks))),
      rw (low, high),
    )

-- The parts of a cut at the window: what stands before it, and the window.
pub split_current_stream-parts :
    (b : CompactedObjectBuilder) (h : ℕ)
    → Window b h
    → ((split_current_stream b).0.blocks ≡ drop h b.blocks)
      × ((split_current_stream b).1.blocks ≡ take h b.blocks)
unfolding split_current_stream
split_current_stream-parts b h w =
    let n = length b.blocks in
    let parts = split_range-parts b h n w.tail (omega arith) in
    let e : split_range b b.curr_stream_index_head b.curr_stream_index_tail
        ≡ split_range b (pos h) (pos n) =
      ap (λ z. split_range b z b.curr_stream_index_tail) w.head
      ∙ ap (λ z. split_range b (pos h) z) w.tail in
    (
      ap (λ q. q.0.blocks) e
          ∙ (parts.0 ∙ take_all (n - h) (drop h b.blocks) (omega (arith, length-drop h b.blocks))),
      ap (λ q. q.1.blocks) e
          ∙ (parts.1
              ∙ (ap (λ r. take h b.blocks ++ r) (drop_all n b.blocks (omega arith))
                  ∙ append_nil (take h b.blocks))),
    )

-- A cut at the window loses no block and changes no order.
pub split_current_stream-whole :
    (b : CompactedObjectBuilder) (h : ℕ)
    → Window b h
    → (split_current_stream b).1.blocks ++ (split_current_stream b).0.blocks ≡ b.blocks
split_current_stream-whole b h w =
    let parts = split_current_stream-parts b h w in rw (parts.0, parts.1) (take-drop h b.blocks)
