-- ===== src/Planner/Group/Rows.antt =====
-- The groups hold every block once, in order, and each group is a row of adjoining blocks of one stream.
use streamstack.Prelude.{
  ℕ, ◌^◌, ◌<◌, pos, eqb_ℤ, ◌≡◌, refl, ap, ◌∙◌, arith, Bool, true, false, Bool-cases, ◌&&◌, inl, inr,
  Option, none, some, List, [], ◌∷◌, ◌++◌, ltb, ◌==◌, u64_as_i64,
}
use streamstack.Planner.Block.{StreamDataBlock, stream_id, start_offset, block_end_offset}
use streamstack.Planner.Builder.{last}
use streamstack.Planner.Builder.Window.{append_assoc}
use streamstack.Planner.Objects.Split.{last-append}
use streamstack.Planner.Group.{
  group_from, group_stream_data_blocks, GroupByOffsetPredicate, new_offset, test_offset,
}

abbrev pub ungroup : List (List StreamDataBlock) → List StreamDataBlock
ungroup [] = []
ungroup (g ∷ groups) = g ++ ungroup groups

abbrev pub EachGroup : (List StreamDataBlock → Type 0) → List (List StreamDataBlock) → Type 0
EachGroup Q [] = Unit
EachGroup Q (g ∷ groups) = Q g × EachGroup Q groups

-- Blocks of one stream, each of which begins where the one before it ends.
abbrev pub Adjoin : List StreamDataBlock → Type 0
Adjoin [] = Unit
Adjoin (a ∷ []) = Unit
Adjoin (a ∷ b ∷ blocks) =
    (stream_id a ≡ stream_id b) × (block_end_offset a ≡ start_offset b) × Adjoin (b ∷ blocks)

pub Adjoin-append :
    (l : List StreamDataBlock) (p b : StreamDataBlock)
    → last l ≡ some p
    → stream_id p ≡ stream_id b
    → block_end_offset p ≡ start_offset b
    → Adjoin l
    → Adjoin (l ++ (b ∷ []))
Adjoin-append [] p b e s o h = tt
Adjoin-append (x ∷ []) p b e s o h =
    let same : x ≡ p = ap (λ (q : Option StreamDataBlock). elim q [ none ↦ x | some y ↦ y ]) e in
    rw same (s, o, tt)
Adjoin-append (x ∷ y ∷ l) p b e s o h = (h.0, h.1, Adjoin-append (y ∷ l) p b e s o h.2)

-- A predicate that keeps `R` of its state and the group in hand: `R` holds of each group when it is closed.
module _ {S : Type 0} (test : S → StreamDataBlock → Bool × S) (Ok : StreamDataBlock → Type 0)
    (R : S → List StreamDataBlock → Type 0) (Q : List StreamDataBlock → Type 0)
    (good : (s : S) (curr : List StreamDataBlock) → R s curr → Q curr)
    (keeps : (s : S) (b c : StreamDataBlock) (bs : List StreamDataBlock)
      → Ok b
      → R s (c ∷ bs)
      → (test s b).0 ≡ true
      → R (test s b).1 ((c ∷ bs) ++ (b ∷ [])))
    (begins : (s : S) (b c : StreamDataBlock) (bs : List StreamDataBlock)
      → Ok b
      → R s (c ∷ bs)
      → (test s b).0 ≡ false
      → R (test s b).1 (b ∷ [])) where
  abbrev pub EachOk : List StreamDataBlock → Type 0
  EachOk [] = Unit
  EachOk (b ∷ blocks) = Ok b × EachOk blocks

  abbrev pub Grouped : List StreamDataBlock → List (List StreamDataBlock) → Type 0
  Grouped blocks groups = (ungroup groups ≡ blocks) × EachGroup Q groups

  pub group_from-Grouped :
      (s : S) (c : StreamDataBlock) (bs blocks : List StreamDataBlock)
      → R s (c ∷ bs)
      → EachOk blocks
      → Grouped ((c ∷ bs) ++ blocks) (group_from test s (c ∷ bs) blocks)
  unfolding group_from
  group_from-Grouped s c bs [] r k = (refl, (good s (c ∷ bs) r, tt))
  group_from-Grouped s c bs (b ∷ blocks) r k = elim (Bool-cases (test s b).0) [
    | inl e ↦
        let ih =
          group_from-Grouped (test s b).1 c (bs ++ (b ∷ [])) blocks (keeps s b c bs k.0 r e) k.1 in
        rw e (ih.0 ∙ append_assoc (c ∷ bs) (b ∷ []) blocks, ih.1)
    | inr e ↦
        let ih = group_from-Grouped (test s b).1 b [] blocks (begins s b c bs k.0 r e) k.1 in
        rw e (ap (λ l. (c ∷ bs) ++ l) ih.0, (good s (c ∷ bs) r, ih.1))
  ]

pub as_i64_small : (n : ℕ) → n < 2 ^ 63 → u64_as_i64 n ≡ pos n
as_i64_small n h = let small : ltb n (2 ^ 63) ≡ true = ground arith in rw small refl

abbrev pub IsStream : StreamDataBlock → Type 0
IsStream b = stream_id b < 2 ^ 63

abbrev pub EachIsStream : List StreamDataBlock → Type 0
EachIsStream [] = Unit
EachIsStream (b ∷ blocks) = IsStream b × EachIsStream blocks

-- What the offset predicate knows of the group in hand.
record Row (s : GroupByOffsetPredicate) (curr : List StreamDataBlock) : Type 0 where
  p : StreamDataBlock
  at_end : last curr ≡ some p
  adjoin : Adjoin curr
  stream : s.curr_stream ≡ pos (stream_id p)
  next : s.next_offset ≡ block_end_offset p

test_offset-keeps :
    (s : GroupByOffsetPredicate) (b c : StreamDataBlock) (bs : List StreamDataBlock)
    → IsStream b
    → Row s (c ∷ bs)
    → (test_offset s b).0 ≡ true
    → Row (test_offset s b).1 ((c ∷ bs) ++ (b ∷ []))
unfolding test_offset eqb_ℤ
test_offset-keeps s b c bs k r h =
    let z = as_i64_small (stream_id b) k in
    elim (Bool-cases (stream_id r.p == stream_id b)) [
      | inr e ↦ ground (arith, rw (r.stream, z, e) at h)
      | inl e ↦ elim (Bool-cases (s.next_offset == start_offset b)) [
        | inr g ↦ ground (arith, rw (r.stream, z, e, g) at h)
        | inl g ↦
            let meet : block_end_offset r.p ≡ start_offset b = ground (arith, g, r.next) in
            let same : stream_id r.p ≡ stream_id b = ground (arith, e) in
            rw (r.stream, z, e, g)
              (record {
                p = b;
                at_end = last-append (c ∷ bs) b;
                adjoin = Adjoin-append (c ∷ bs) r.p b r.at_end same meet r.adjoin;
                stream = ap pos same;
                next = refl;
              })
      ]
    ]

test_offset-begins :
    (s : GroupByOffsetPredicate) (b c : StreamDataBlock) (bs : List StreamDataBlock)
    → IsStream b
    → Row s (c ∷ bs)
    → (test_offset s b).0 ≡ false
    → Row (test_offset s b).1 (b ∷ [])
unfolding test_offset eqb_ℤ
test_offset-begins s b c bs k r h =
    let z = as_i64_small (stream_id b) k in
    elim (Bool-cases ((stream_id r.p == stream_id b) && (s.next_offset == start_offset b))) [
      | inl e ↦ ground (arith, rw (r.stream, z, e) at h)
      | inr e ↦
          rw (r.stream, z, e)
            (record { p = b; at_end = refl; adjoin = tt; stream = refl; next = refl })
    ]

-- On blocks of streams below 2^63, the groups that the offset predicate cuts hold all blocks, one after another, and each
-- is a row of adjoining blocks of one stream.
pub offset_groups :
    (blocks : List StreamDataBlock)
    → EachIsStream blocks
    → (ungroup (group_stream_data_blocks test_offset new_offset blocks) ≡ blocks)
      × EachGroup Adjoin (group_stream_data_blocks test_offset new_offset blocks)
unfolding group_stream_data_blocks group_from test_offset eqb_ℤ
offset_groups [] k = (refl, tt)
offset_groups (b ∷ blocks) k =
    group_from-Grouped test_offset IsStream Row Adjoin (λ s curr r. r.adjoin) test_offset-keeps
      test_offset-begins (test_offset new_offset b).1 b [] blocks
      (record {
        p = b;
        at_end = refl;
        adjoin = tt;
        stream = as_i64_small (stream_id b) k.0;
        next = refl;
      })
      k.1
