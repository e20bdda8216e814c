-- ===== src/Planner/Entries.antt =====
-- Blocks under keys, in the order of the keys, for the BTreeMaps of the planner; and its stable sorts.
use streamstack.Prelude.{
  ℕ, ◌+◌, ◌≡◌, refl, arith, Bool-cases, inl, inr, List, [], ◌∷◌, ◌++◌, ltb, ◌==◌, if◌then◌else◌,
}
use streamstack.Planner.Block.{StreamDataBlock}

abbrev pub Entries : Type 0
Entries = List (ℕ × List StreamDataBlock)

-- `entry(key).or_default().push(block)`
unfoldable pub push_at : ℕ → StreamDataBlock → Entries → Entries
push_at k block [] = (k, block ∷ []) ∷ []
push_at k block ((key, blocks) ∷ entries) =
    let rest = push_at k block entries in
    if ltb k key
    then (k, block ∷ []) ∷ (key, blocks) ∷ entries
    else if k == key
    then (key, blocks ++ (block ∷ [])) ∷ entries
    else (key, blocks) ∷ rest

unfoldable pub push_all : (StreamDataBlock → ℕ) → List StreamDataBlock → Entries → Entries
push_all key [] entries = entries
push_all key (block ∷ blocks) entries = push_all key blocks (push_at (key block) block entries)

-- `sort_by_key`: a block stands before those behind it that have the same key.
unfoldable pub insert_by :
    (StreamDataBlock → ℕ) → StreamDataBlock → List StreamDataBlock → List StreamDataBlock
insert_by key block [] = block ∷ []
insert_by key block (b ∷ blocks) =
    let rest = insert_by key block blocks in
    if ltb (key b) (key block) then b ∷ rest else block ∷ b ∷ blocks

unfoldable pub sort_by : (StreamDataBlock → ℕ) → List StreamDataBlock → List StreamDataBlock
sort_by key [] = []
sort_by key (b ∷ blocks) = insert_by key b (sort_by key blocks)

unfoldable pub sort_entries : (StreamDataBlock → ℕ) → Entries → Entries
sort_entries key [] = []
sort_entries key ((k, blocks) ∷ entries) = (k, sort_by key blocks) ∷ sort_entries key entries

abbrev pub values : Entries → List StreamDataBlock
values [] = []
values ((k, blocks) ∷ entries) = blocks ++ values entries

-- The sum of a weight over blocks.
abbrev pub weigh : (StreamDataBlock → ℕ) → List StreamDataBlock → ℕ
weigh w [] = 0
weigh w (b ∷ blocks) = w b + weigh w blocks

module _ (w : StreamDataBlock → ℕ) where
  pub weigh-append : (a b : List StreamDataBlock) → weigh w (a ++ b) ≡ weigh w a + weigh w b
  weigh-append [] b = omega arith
  weigh-append (x ∷ a) b = omega (arith, weigh-append a b)

  push_at-weigh :
      (k : ℕ) (b : StreamDataBlock) (es : Entries)
      → weigh w (values (push_at k b es)) ≡ w b + weigh w (values es)
  unfolding push_at
  push_at-weigh k b [] = omega arith
  push_at-weigh k b ((key, blocks) ∷ es) = elim (Bool-cases (ltb k key)) [
    | inl g ↦ rw g (omega arith)
    | inr g ↦ elim (Bool-cases (k == key)) [
      | inl e ↦
          rw (g, e)
            (omega (
              arith,
              weigh-append blocks (b ∷ []),
              weigh-append (blocks ++ (b ∷ [])) (values es),
              weigh-append blocks (values es),
            ))
      | inr e ↦
          rw (g, e)
            (omega (
              arith,
              push_at-weigh k b es,
              weigh-append blocks (values (push_at k b es)),
              weigh-append blocks (values es),
            ))
    ]
  ]

  pub push_all-weigh :
      (key : StreamDataBlock → ℕ) (l : List StreamDataBlock) (es : Entries)
      → weigh w (values (push_all key l es)) ≡ weigh w l + weigh w (values es)
  unfolding push_all
  push_all-weigh key [] es = omega arith
  push_all-weigh key (b ∷ l) es =
      omega (arith, push_all-weigh key l (push_at (key b) b es), push_at-weigh (key b) b es)

  insert_by-weigh :
      (key : StreamDataBlock → ℕ) (b : StreamDataBlock) (l : List StreamDataBlock)
      → weigh w (insert_by key b l) ≡ w b + weigh w l
  unfolding insert_by
  insert_by-weigh key b [] = refl
  insert_by-weigh key b (x ∷ l) = elim (Bool-cases (ltb (key x) (key b))) [
    | inl g ↦ rw g (omega (arith, insert_by-weigh key b l))
    | inr g ↦ rw g refl
  ]

  pub sort_by-weigh :
      (key : StreamDataBlock → ℕ) (l : List StreamDataBlock) → weigh w (sort_by key l) ≡ weigh w l
  unfolding sort_by
  sort_by-weigh key [] = refl
  sort_by-weigh key (b ∷ l) =
      omega (arith, insert_by-weigh key b (sort_by key l), sort_by-weigh key l)

  pub sort_entries-weigh :
      (key : StreamDataBlock → ℕ) (es : Entries)
      → weigh w (values (sort_entries key es)) ≡ weigh w (values es)
  unfolding sort_entries
  sort_entries-weigh key [] = refl
  sort_entries-weigh key ((k, blocks) ∷ es) = omega (
    arith,
    weigh-append (sort_by key blocks) (values (sort_entries key es)),
    weigh-append blocks (values es),
    sort_by-weigh key blocks,
    sort_entries-weigh key es,
  )
