-- ===== src/Planner/Selection/Shared.antt =====
-- Which objects `filter_blocks_to_compact` keeps.
use streamstack.Prelude.{
  ℕ, ◌≡◌, ◌≢◌, refl, sym, ◌∙◌, arith, true, false, Bool-cases, ◌&&◌, ◌||◌, inl, inr, List, [], ◌∷◌,
  length, ltb, ◌==◌, if◌then◌else◌,
}
use streamstack.Planner.Block.{StreamDataBlock, stream_id}
use streamstack.Planner.Entries.{Entries, values}
use streamstack.Planner.Selection.Sharing.{
  shares, keep_sharing, has, has-elsewhere, elsewhere-has, has-shares, shares-has,
}
use streamstack.Planner.Selection.{
  Sets, contains, insert_id, insert_at, insert_all, is_shared, keep_shared,
  filter_blocks_to_compact,
}

abbrev object_of : StreamDataBlock → ℕ
object_of b = b.object_id

-- The first set under a key.
abbrev at : ℕ → Sets → List ℕ
at k [] = []
at k ((key, ids) ∷ sets) = let rest = at k sets in if k == key then ids else rest

contains-insert_id :
    (x i : ℕ) (ids : List ℕ) → contains x (insert_id i ids) ≡ (contains x ids || (x == i))
contains-insert_id x i ids = elim (Bool-cases (contains i ids)) [
  | inl e ↦ rw e (elim (Bool-cases (x == i)) [
    | inl g ↦ let same : x ≡ i = ground (arith, g) in ground (arith, g, rw (← same) at e)
    | inr g ↦ ground (arith, g)
  ])
  | inr e ↦ rw e (ground arith)
]

contains-insert_at :
    (k x key i : ℕ) (sets : Sets)
    → contains x (at k (insert_at key i sets))
      ≡ (contains x (at k sets) || ((k == key) && (x == i)))
unfolding insert_at
contains-insert_at k x key i [] = ground arith
contains-insert_at k x key i ((c, ids) ∷ sets) =
    ground (arith, contains-insert_at k x key i sets, contains-insert_id x i ids)

contains-insert_all :
    (k x : ℕ) (blocks : List StreamDataBlock) (sets : Sets)
    → contains x (at k (insert_all stream_id object_of blocks sets))
      ≡ (contains x (at k sets) || has k x blocks)
unfolding insert_all
contains-insert_all k x [] sets = ground arith
contains-insert_all k x (b ∷ blocks) sets = ground (
  arith,
  contains-insert_all k x blocks (insert_at (stream_id b) b.object_id sets),
  contains-insert_at k x (stream_id b) b.object_id sets,
)

-- A set under the key with two ids is shared by both.
at-is_shared :
    (k o x : ℕ) (sets : Sets)
    → contains o (at k sets) ≡ true
    → contains x (at k sets) ≡ true
    → x ≢ o
    → is_shared o sets ≡ true
unfolding is_shared
at-is_shared k o x [] h g n = ground arith
at-is_shared k o x ((key, ids) ∷ sets) h g n = ground (arith, at-is_shared k o x sets, two o x ids)
  where
    two :
        (o x : ℕ) (ids : List ℕ)
        → contains o ids ≡ true
        → contains x ids ≡ true
        → x ≢ o
        → ltb 1 (length ids) ≡ true
    two o x [] h g n = ground arith
    two o x (a ∷ []) h g n = ground arith
    two o x (a ∷ b ∷ ids) h g n = ground arith

-- Every set holds ids without duplicates, each of which is of a block of the set's stream.
abbrev Distinct : List ℕ → Type 0
Distinct [] = Unit
Distinct (i ∷ ids) = (contains i ids ≡ false) × Distinct ids

abbrev Sound : List StreamDataBlock → Sets → Type 0
Sound all [] = Unit
Sound all ((k, ids) ∷ sets) =
    Distinct ids × ((x : ℕ) → contains x ids ≡ true → has k x all ≡ true) × Sound all sets

insert_id-Distinct : (i : ℕ) (ids : List ℕ) → Distinct ids → Distinct (insert_id i ids)
insert_id-Distinct i ids d = elim (Bool-cases (contains i ids)) [
  | inl e ↦ rw e d
  | inr e ↦ rw e (e, d)
]

insert_at-Sound :
    (all : List StreamDataBlock) (key i : ℕ) (sets : Sets)
    → has key i all ≡ true
    → Sound all sets
    → Sound all (insert_at key i sets)
unfolding insert_at
insert_at-Sound all key i [] h s =
    ((refl, tt), λ x e. let same : x ≡ i = ground (arith, e) in rw same h, tt)
insert_at-Sound all key i ((k, ids) ∷ sets) h s = elim (Bool-cases (key == k)) [
  | inl e ↦
      let same : key ≡ k = ground (arith, e) in
      rw e (insert_id-Distinct i ids s.0, λ x g. inserted x same (s.1 x) g, s.2)
  | inr e ↦ rw e (s.0, s.1, insert_at-Sound all key i sets h s.2)
]
  where
    inserted :
        (x : ℕ)
        → key ≡ k
        → (contains x ids ≡ true → has k x all ≡ true)
        → contains x (insert_id i ids) ≡ true
        → has k x all ≡ true
    inserted x same old g = elim (Bool-cases (contains x ids)) [
      | inl f ↦ old f
      | inr f ↦
          let new : x ≡ i = ground (arith, f, g, contains-insert_id x i ids) in rw (new, sym same) h
    ]

insert_all-Sound :
    (all blocks : List StreamDataBlock) (sets : Sets)
    → ((k x : ℕ) → has k x blocks ≡ true → has k x all ≡ true)
    → Sound all sets
    → Sound all (insert_all stream_id object_of blocks sets)
unfolding insert_all
insert_all-Sound all [] sets h s = s
insert_all-Sound all (b ∷ blocks) sets h s =
    insert_all-Sound all blocks (insert_at (stream_id b) b.object_id sets)
      (λ k x e. h k x (ground (arith, e)))
      (insert_at-Sound all (stream_id b) b.object_id sets
        (h (stream_id b) b.object_id (ground arith)) s)

another :
    (o : ℕ) (ids : List ℕ)
    → Distinct ids
    → ltb 1 (length ids) ≡ true
    → (x : ℕ) × (x ≢ o) × (contains x ids ≡ true)
another o [] d l = absurd (ground (arith, l))
another o (a ∷ []) d l = absurd (ground (arith, l))
another o (a ∷ b ∷ ids) d l = elim (Bool-cases (a == o)) [
  | inl e ↦ (b, ground (arith, e, d.0), ground arith)
  | inr e ↦ (a, ground (arith, e), ground arith)
]

is_shared-shares :
    (o : ℕ) (all : List StreamDataBlock) (sets : Sets)
    → Sound all sets
    → is_shared o sets ≡ true
    → shares o all all ≡ true
unfolding is_shared
is_shared-shares o all [] s h = absurd (ground (arith, h))
is_shared-shares o all ((k, ids) ∷ sets) s h =
    elim (Bool-cases (ltb 1 (length ids) && contains o ids)) [
      | inl e ↦
          let (x, n, g) = another o ids s.0 (ground (arith, e)) in
          has-shares k o all all (s.1 o (ground (arith, e))) (has-elsewhere k o x all n (s.1 x g))
      | inr e ↦ is_shared-shares o all sets s.2 (ground (arith, h, e))
    ]

shares-is_shared :
    (o : ℕ) (all : List StreamDataBlock)
    → shares o all all ≡ true
    → is_shared o (insert_all stream_id object_of all []) ≡ true
shares-is_shared o all h =
    let (k, g, e) = shares-has o all all h in
    let (x, n, f) = elsewhere-has k o all e in
    at-is_shared k o x (insert_all stream_id object_of all []) (contains-insert_all k o all [] ∙ g)
      (contains-insert_all k x all [] ∙ f) n

is_shared_lem :
    (o : ℕ) (all : List StreamDataBlock)
    → is_shared o (insert_all stream_id object_of all []) ≡ shares o all all
is_shared_lem o all = ground (
  arith,
  shares-is_shared o all,
  is_shared-shares o all (insert_all stream_id object_of all [])
      (insert_all-Sound all all [] (λ k x e. e) tt),
)

keep_shared-eq-keep_sharing :
    (all : List StreamDataBlock) (entries : Entries)
    → keep_shared (insert_all stream_id object_of all []) entries ≡ keep_sharing all entries
keep_shared-eq-keep_sharing all [] = refl
keep_shared-eq-keep_sharing all ((o, blocks) ∷ entries) =
    rw (is_shared_lem o all, keep_shared-eq-keep_sharing all entries)

-- The filter keeps, in their order, the entries of exactly those objects that have a block of a stream of which another
-- object has a block too.
pub filter_blocks_to_compact_exact :
    (map : Entries) → filter_blocks_to_compact map ≡ keep_sharing (values map) map
unfolding filter_blocks_to_compact
filter_blocks_to_compact_exact map = keep_shared-eq-keep_sharing (values map) map
