-- ===== src/Object/Index/Chain.antt =====
-- The loop of `find`: blocks in a row, and what is missing where it stops.
use streamstack.Prelude.{
  ℕ, ◌<◌, ◌≤◌, ◌≡◌, refl, arith, Bool, true, false, Bool-cases, inl, inr, List, [], ◌∷◌, ltb, leb,
  ◌==◌, all,
}
use streamstack.Object.Index.{
  DataBlockIndex, end_offset, FindIndexResult, stop_at, add_found, is_fulfilled, charge, find_from,
}
use streamstack.Object.Index.Search.{Holds, before, is_sorted, and_parts, sorted_parts}

-- Blocks of a stream of which each holds the end of the one before it.
abbrev pub Chained : ℕ → ℕ → List DataBlockIndex → ℕ → Type 0
Chained stream_id offset [] end = offset ≡ end
Chained stream_id offset (e ∷ blocks) end =
    Holds stream_id offset e × Chained stream_id (end_offset e) blocks end

abbrev pub Missing : ℕ → ℕ → List DataBlockIndex → Type 0
Missing stream_id offset [] = Unit
Missing stream_id offset (e ∷ entries) =
    (¬ Holds stream_id offset e) × Missing stream_id offset entries

pub Chained-le : (s n m : ℕ) (l : List DataBlockIndex) → Chained s n l m → n ≤ m
Chained-le s n m [] c = omega arith
Chained-le s n m (e ∷ l) c = omega (arith, c.0.2, Chained-le s (end_offset e) m l c.1)

module _ (s until : ℕ) where
  -- Whatever the entries, the blocks found are in a row, and a fulfilled request has reached its end or spent its bytes.
  pub find_from-Chained :
      (matched : Bool) (next max_bytes : ℕ) (l : List DataBlockIndex)
      → Chained s next
          (find_from s until matched next max_bytes l).blocks
          (find_from s until matched next max_bytes l).next_start_offset
        × ((find_from s until matched next max_bytes l).fulfilled ≡ true
            → is_fulfilled until
                (find_from s until matched next max_bytes l).next_start_offset
                (find_from s until matched next max_bytes l).next_max_bytes
              ≡ true)
  unfolding find_from
  find_from-Chained matched next max_bytes [] = (refl, λ h. ground (arith, h))
  find_from-Chained matched next max_bytes (e ∷ l) = elim (Bool-cases (e.stream_id == s)) [
    | inr g ↦ elim (Bool-cases matched) [
      | inl m ↦ rw (g, m) (refl, λ h. ground (arith, h))
      | inr m ↦ rw (g, m) (find_from-Chained false next max_bytes l)
    ]
    | inl g ↦ elim (Bool-cases (ltb next e.start_offset)) [
      | inl a ↦ rw (g, a) (refl, λ h. ground (arith, h))
      | inr a ↦ elim (Bool-cases (leb (end_offset e) next)) [
        | inl b ↦ rw (g, a, b) (find_from-Chained matched next max_bytes l)
        | inr b ↦
            let here : Holds s next e = (ground (arith, g), ground (arith, a), ground (arith, b)) in
            let left = charge (next == e.start_offset) max_bytes e in
            elim (Bool-cases (is_fulfilled until (end_offset e) left)) [
              | inl c ↦ rw (g, a, b, c) ((here, refl), λ h. c)
              | inr c ↦
                  rw (g, a, b, c)
                    (let ih = find_from-Chained (next == e.start_offset) (end_offset e) left l in
                      ((here, ih.0), ih.1))
            ]
      ]
    ]
  ]

  pub Missing-behind :
      (n : ℕ) (e : DataBlockIndex) (l : List DataBlockIndex)
      → all (before e) l ≡ true
      → ((x : DataBlockIndex) → before e x ≡ true → ¬ Holds s n x)
      → Missing s n l
  Missing-behind n e [] h f = tt
  Missing-behind n e (x ∷ l) h f =
      let (own, behind) = and_parts (before e x) (all (before e) l) h in
      (f x own, Missing-behind n e l behind f)

  -- What is past a stream, or past an offset of it, holds no position before.
  pub past_stream :
      (n : ℕ) (e x : DataBlockIndex) → s < e.stream_id → before e x ≡ true → ¬ Holds s n x
  past_stream n e x h b k = ground (arith, b, k.0)

  pub past_offset :
      (n : ℕ) (e x : DataBlockIndex)
      → e.stream_id ≡ s
      → n < end_offset e
      → before e x ≡ true
      → ¬ Holds s n x
  past_offset n e x h l b k = ground (arith, b, k.0, k.1)

  pub Missing-result :
      (r r' : FindIndexResult) (l : List DataBlockIndex)
      → r ≡ r'
      → Missing s r'.next_start_offset l
      → Missing s r.next_start_offset l
  Missing-result r r' l p m = rw p m

  pub find_from-Missing :
      (matched : Bool) (next max_bytes : ℕ) (l : List DataBlockIndex)
      → is_sorted l ≡ true
      → all (λ x. leb s x.stream_id) l ≡ true
      → (find_from s until matched next max_bytes l).fulfilled ≡ false
      → Missing s (find_from s until matched next max_bytes l).next_start_offset l
  unfolding find_from
  find_from-Missing matched next max_bytes [] sorted low h = tt
  find_from-Missing matched next max_bytes (e ∷ l) sorted low h =
      let result = find_from s until matched next max_bytes (e ∷ l) in
      let (own, behind, tail) = sorted_parts e l sorted in
      let (first, others) = and_parts (leb s e.stream_id) (all (λ x. leb s x.stream_id) l) low in
      elim (Bool-cases (e.stream_id == s)) [
        | inr g ↦
            let other : s < e.stream_id = ground (arith, g, first) in
            elim (Bool-cases matched) [
              | inl m ↦
                  Missing-result result (stop_at false next max_bytes) (e ∷ l) (rw (g, m) refl) (
                    λ k. omega (arith, k.0, other),
                    Missing-behind next e l behind (λ x b. past_stream next e x other b),
                  )
              | inr m ↦
                  Missing-result result (find_from s until false next max_bytes l) (e ∷ l)
                    (rw (g, m) refl)
                    (
                      λ k. omega (arith, k.0, other),
                      find_from-Missing false next max_bytes l tail others (rw (g, m) at h),
                    )
            ]
        | inl g ↦
            let same : e.stream_id ≡ s = ground (arith, g) in
            elim (Bool-cases (ltb next e.start_offset)) [
              | inl a ↦
                  let early : next < e.start_offset = ground (arith, a) in
                  Missing-result result (stop_at false next max_bytes) (e ∷ l) (rw (g, a) refl) (
                    λ k. omega (arith, k.1, early),
                    Missing-behind next e l behind
                        (λ x b. past_offset next e x same (ground (arith, own, early)) b),
                  )
              | inr a ↦ elim (Bool-cases (leb (end_offset e) next)) [
                | inl b ↦
                    let done : end_offset e ≤ next = ground (arith, b) in
                    let on = Chained-le s next _ _ (find_from-Chained matched next max_bytes l).0 in
                    Missing-result result (find_from s until matched next max_bytes l) (e ∷ l)
                      (rw (g, a, b) refl)
                      (
                        λ k. omega (arith, k.2, on, done),
                        find_from-Missing matched next max_bytes l tail others (rw (g, a, b) at h),
                      )
                | inr b ↦
                    let left = charge (next == e.start_offset) max_bytes e in
                    elim (Bool-cases (is_fulfilled until (end_offset e) left)) [
                      | inl c ↦ ground (arith, rw (g, a, b, c) at h)
                      | inr c ↦
                          let on =
                            Chained-le s (end_offset e) _ _
                              (find_from-Chained (next == e.start_offset) (end_offset e) left
                                l).0 in
                          Missing-result result
                            (add_found e
                              (find_from s until (next == e.start_offset) (end_offset e) left l))
                            (e ∷ l) (rw (g, a, b, c) refl)
                            (
                              λ k. omega (arith, k.2, on),
                              find_from-Missing (next == e.start_offset) (end_offset e) left l tail
                                  others (rw (g, a, b, c) at h),
                            )
                    ]
              ]
            ]
      ]
