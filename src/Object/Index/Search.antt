-- ===== src/Object/Index/Search.antt =====
-- The binary search of a sorted index ends, and finds the block of a position exactly where there is one.
use streamstack.Prelude.{
  ℕ, zero, suc, ◌+◌, ◌-◌, ◌/◌, ◌<◌, ◌≤◌, ◌≡◌, refl, sym, ap, ◌∙◌, arith, Bool, true, false,
  Bool-cases, ◌&&◌, ◌||◌, Option, some, ◌⊎◌, inl, inr, List, [], ◌∷◌, length, drop, ltb, leb, ◌==◌,
  all,
}
use streamstack.Object.Index.{
  DataBlockIndex, end_offset, is_less, is_greater, Searched, found, insertion, search_loop, search,
}

-- `entries[i]` is `e`.
abbrev pub At : List DataBlockIndex → ℕ → DataBlockIndex → Type 0
At entries i e = (rest : List DataBlockIndex) × (drop i entries ≡ e ∷ rest)

-- A block of a position of a stream.
abbrev pub Holds : ℕ → ℕ → DataBlockIndex → Type 0
Holds stream_id offset e =
    (e.stream_id ≡ stream_id) × (e.start_offset ≤ offset) × (offset < end_offset e)

abbrev pub before : DataBlockIndex → DataBlockIndex → Bool
before a b =
    ltb a.stream_id b.stream_id || (a.stream_id == b.stream_id && leb (end_offset a) b.start_offset)

-- The entries stand by stream, those of a stream do not overlap, and no offset wraps.
abbrev pub is_sorted : List DataBlockIndex → Bool
is_sorted [] = true
is_sorted (e ∷ entries) =
    leb e.start_offset (end_offset e) && all (before e) entries && is_sorted entries

pub not-At : (i : ℕ) (e : DataBlockIndex) → At [] i e → 1 ≤ 0
not-At zero e (rest, p) = omega (arith, ap length p)
not-At (suc i) e (rest, p) = omega (arith, ap length p)

pub and_parts : (a b : Bool) → (a && b) ≡ true → (a ≡ true) × (b ≡ true)
and_parts true b h = (refl, h)
and_parts false b h = ground (arith, h)

inside-At :
    (entries : List DataBlockIndex) (i : ℕ)
    → i < length entries
    → (e : DataBlockIndex) × At entries i e
inside-At [] i h = absurd (omega arith)
inside-At (e ∷ entries) zero h = (e, (entries, refl))
inside-At (e ∷ entries) (suc i) h = inside-At entries i (omega arith)

pub head_is : {a b : DataBlockIndex} {l r : List DataBlockIndex} → a ∷ l ≡ b ∷ r → a ≡ b
head_is {a} {b} {l} {r} p = ap (λ xs. elim xs [ [] ↦ a | x ∷ _ ↦ x ]) p

pub At-inside :
    (entries : List DataBlockIndex) (i : ℕ) (e : DataBlockIndex)
    → At entries i e
    → i < length entries
At-inside [] i e a = absurd (omega (arith, not-At i e a))
At-inside (x ∷ entries) zero e a = omega arith
At-inside (x ∷ entries) (suc i) e a = omega (arith, At-inside entries i e a)

pub all-At :
    (p : DataBlockIndex → Bool) (entries : List DataBlockIndex) (i : ℕ) (e : DataBlockIndex)
    → all p entries ≡ true
    → At entries i e
    → p e ≡ true
all-At p [] i e h a = absurd (omega (arith, not-At i e a))
all-At p (x ∷ entries) zero e h (rest, q) =
    ap p (sym (head_is q)) ∙ (and_parts (p x) (all p entries) h).0
all-At p (x ∷ entries) (suc i) e h a = all-At p entries i e (and_parts (p x) (all p entries) h).1 a

pub sorted_parts :
    (x : DataBlockIndex) (entries : List DataBlockIndex)
    → is_sorted (x ∷ entries) ≡ true
    → (leb x.start_offset (end_offset x) ≡ true)
      × (all (before x) entries ≡ true)
      × (is_sorted entries ≡ true)
sorted_parts x entries h =
    let (front, tail) =
      and_parts (leb x.start_offset (end_offset x) && all (before x) entries) (is_sorted entries)
        h in
    let (own, behind) =
      and_parts (leb x.start_offset (end_offset x)) (all (before x) entries) front in
    (own, behind, tail)

pub sorted-At :
    (entries : List DataBlockIndex) (i : ℕ) (e : DataBlockIndex)
    → is_sorted entries ≡ true
    → At entries i e
    → e.start_offset ≤ end_offset e
sorted-At [] i e h a = absurd (omega (arith, not-At i e a))
sorted-At (x ∷ entries) zero e h (rest, q) =
    let own = (sorted_parts x entries h).0 in rw⁻¹ (head_is q) (ground (arith, own))
sorted-At (x ∷ entries) (suc i) e h a = sorted-At entries i e (sorted_parts x entries h).2 a

pub sorted_before :
    (entries : List DataBlockIndex) (i j : ℕ) (a b : DataBlockIndex)
    → is_sorted entries ≡ true
    → At entries i a
    → At entries j b
    → i < j
    → before a b ≡ true
sorted_before [] i j a b h p k l = absurd (omega (arith, not-At i a p))
sorted_before (x ∷ entries) i zero a b h p q l = absurd (omega arith)
sorted_before (x ∷ entries) zero (suc j) a b h (rest, q) k l =
    ap (λ y. before y b) (sym (head_is q))
    ∙ all-At (before x) entries j b (sorted_parts x entries h).1 k
sorted_before (x ∷ entries) (suc i) (suc j) a b h p q l =
    sorted_before entries i j a b (sorted_parts x entries h).2 p q (omega arith)

module _ (entries : List DataBlockIndex) (stream_id offset : ℕ)
    (sorted : is_sorted entries ≡ true) where
  -- What is left of a block of the position, and what is right of it.
  less_below :
      (i mid : ℕ) (a e : DataBlockIndex)
      → At entries i a
      → At entries mid e
      → i < mid
      → is_less stream_id offset e ≡ true
      → is_less stream_id offset a ≡ true
  less_below i mid a e p q l h =
      ground (arith, sorted_before entries i mid a e sorted p q l, sorted-At entries mid e sorted q)

  greater_above :
      (mid j : ℕ) (e b : DataBlockIndex)
      → At entries mid e
      → At entries j b
      → mid < j
      → is_greater stream_id offset e ≡ true
      → is_greater stream_id offset b ≡ true
  greater_above mid j e b p q l h =
      ground (arith, sorted_before entries mid j e b sorted p q l, sorted-At entries mid e sorted p)

  less_missing :
      (e : DataBlockIndex) → is_less stream_id offset e ≡ true → ¬ Holds stream_id offset e
  less_missing e h k = ground (arith, k.0, k.1, k.2)

  greater_missing :
      (e : DataBlockIndex) → is_greater stream_id offset e ≡ true → ¬ Holds stream_id offset e
  greater_missing e h k = ground (arith, k.0, k.1, k.2)

  holds :
      (e : DataBlockIndex)
      → is_less stream_id offset e ≡ false
      → is_greater stream_id offset e ≡ false
      → Holds stream_id offset e
  holds e h k = (ground arith, ground arith, ground arith)

  -- What the search owes: a block of the position, or that there is none.
  abbrev pub Searches : Option Searched → Type 0
  Searches result =
      ((i : ℕ) × (e : DataBlockIndex) × (result ≡ some (found i))
        × At entries i e
        × Holds stream_id offset e)
      ⊎ ((i : ℕ) × (result ≡ some (insertion i))
          × ((j : ℕ) (e : DataBlockIndex) → At entries j e → ¬ Holds stream_id offset e))

  -- The entries outside the range are decided.
  record Decided (lo hi : ℕ) : Type 0 where
    low : (i : ℕ) (e : DataBlockIndex) → At entries i e → i < lo → is_less stream_id offset e ≡ true
    high :
        (i : ℕ) (e : DataBlockIndex)
        → At entries i e
        → hi ≤ i
        → is_greater stream_id offset e ≡ true
    inside : hi ≤ length entries

  search_loop-Searches :
      (fuel lo hi : ℕ)
      → Decided lo hi
      → lo ≤ hi
      → hi < lo + fuel
      → Searches (search_loop fuel entries stream_id offset lo hi)
  unfolding search_loop
  search_loop-Searches zero lo hi d l f = absurd (omega arith)
  search_loop-Searches (suc fuel) lo hi d l f =
      let mid = (lo + (hi - 1)) / 2 in
      elim (Bool-cases (ltb lo hi)) [
        | inr g ↦ inr (
          lo,
          rw (g, search_loop) refl,
          λ j e a. elim (Bool-cases (ltb j lo)) [
            | inl k ↦ less_missing e (d.low j e a (ground (arith, k)))
            | inr k ↦ greater_missing e (d.high j e a (ground (arith, k, g)))
          ],
        )
        | inl g ↦
            let order : lo < hi = ground (arith, g) in
            let below_hi : mid < hi = omega arith in
            let (e, (rest, at)) = inside-At entries mid (omega (arith, d.inside)) in
            elim (Bool-cases (is_less stream_id offset e)) [
              | inl k ↦
                  rw (g, at, k, search_loop)
                    (search_loop-Searches fuel (mid + 1) hi
                      (record {
                        low = λ i x a m. elim (Bool-cases (i == mid)) [
                          | inl q ↦
                              ap (is_less stream_id offset) (
                                head_is
                                  (sym a.1 ∙ (ap (λ n. drop n entries) (ground (arith, q)) ∙ at)))
                              ∙ k
                          | inr q ↦ less_below i mid x e a (rest, at) (ground (arith, q)) k
                        ];
                        high = d.high;
                        inside = d.inside;
                      })
                      (omega arith) (omega arith))
              | inr k ↦ elim (Bool-cases (is_greater stream_id offset e)) [
                | inl m ↦
                    rw (g, at, k, m, search_loop)
                      (search_loop-Searches fuel lo mid
                        (record {
                          low = d.low;
                          high = λ i x a n. elim (Bool-cases (i == mid)) [
                            | inl q ↦
                                ap (is_greater stream_id offset) (
                                  head_is
                                    (sym a.1 ∙ (ap (λ n. drop n entries) (ground (arith, q)) ∙ at)))
                                ∙ m
                            | inr q ↦ greater_above mid i e x (rest, at) a (ground (arith, q)) m
                          ];
                          inside = omega (arith, d.inside);
                        })
                        (omega arith) (omega arith))
                | inr m ↦ inl (mid, e, rw (g, at, k, m, search_loop) refl, (rest, at), holds e k m)
              ]
            ]
      ]

-- The search of a sorted index, in which no offset wraps: it ends within one round more than the index has entries, it
-- reads no entry out of bounds, and it returns the place of a block that holds the position, or, exactly where no block
-- of the index holds it, a place of insertion.
pub search-Searches :
    (entries : List DataBlockIndex) (stream_id offset : ℕ) (sorted : is_sorted entries ≡ true)
    → Searches entries stream_id offset sorted (search entries stream_id offset)
unfolding search
search-Searches entries stream_id offset sorted =
    search_loop-Searches entries stream_id offset sorted (suc (length entries)) 0 (length entries)
      (record {
        low = λ i e a l. absurd (omega arith);
        high = λ i e a l. absurd (omega (arith, At-inside entries i e a));
        inside = omega arith;
      })
      (omega arith) (omega arith)
