-- ===== src/Object/Index/Find.antt =====
-- What `find` returns of a sorted index: blocks in a row from the wanted offset on, and, unless the
-- request is fulfilled, all of them.
use streamstack.Prelude.{
  ℕ, zero, suc, ◌-◌, ◌<◌, ◌≤◌, ◌≡◌, refl, arith, true, false, Bool-cases, Option, some, ◌⊎◌, inl,
  inr, List, [], ◌∷◌, drop, ltb, leb, all,
}
use streamstack.Object.Index.{
  DataBlockIndex, FindIndexResult, stop_at, is_fulfilled, find_from, find,
}
use streamstack.Object.Index.Search.{
  At, Holds, before, is_sorted, and_parts, head_is, not-At, sorted_parts, sorted_before,
  search-Searches,
}
use streamstack.Object.Index.Chain.{
  Chained, Missing, Chained-le, find_from-Chained, find_from-Missing,
}

sorted_drop : (i : ℕ) (l : List DataBlockIndex) → is_sorted l ≡ true → is_sorted (drop i l) ≡ true
sorted_drop zero l h = h
sorted_drop (suc i) [] h = h
sorted_drop (suc i) (x ∷ l) h = sorted_drop i l (sorted_parts x l h).2

all_low :
    (s : ℕ) (e : DataBlockIndex) (l : List DataBlockIndex)
    → e.stream_id ≡ s
    → all (before e) l ≡ true
    → all (λ x. leb s x.stream_id) l ≡ true
all_low s e [] q h = refl
all_low s e (x ∷ l) q h =
    let (own, behind) = and_parts (before e x) (all (before e) l) h in
    let low : leb s x.stream_id ≡ true = ground (arith, own, q) in rw low (all_low s e l q behind)

Missing-At :
    (s n : ℕ) (l : List DataBlockIndex) (k : ℕ) (e : DataBlockIndex)
    → Missing s n l
    → At l k e
    → ¬ Holds s n e
Missing-At s n [] k e m a = absurd (omega (arith, not-At k e a))
Missing-At s n (x ∷ l) zero e m (rest, q) = rw⁻¹ (head_is q) m.0
Missing-At s n (x ∷ l) (suc k) e m a = Missing-At s n l k e m.1 a

At-drop :
    (i j : ℕ) (l : List DataBlockIndex) (e : DataBlockIndex)
    → i ≤ j
    → At l j e
    → At (drop i l) (j - i) e
At-drop zero j l e h a = let same : j - zero ≡ j = omega arith in rw same a
At-drop (suc i) j [] e h a = absurd (omega (arith, not-At j e a))
At-drop (suc i) zero (x ∷ l) e h a = absurd (omega arith)
At-drop (suc i) (suc j) (x ∷ l) e h a =
    let less : suc j - suc i ≡ j - i = omega arith in rw less (At-drop i j l e (omega arith) a)

-- No entry before a block that holds an offset holds that offset or a later one.
none_before :
    (entries : List DataBlockIndex) (s start next i j : ℕ) (a e : DataBlockIndex)
    → is_sorted entries ≡ true
    → At entries i e
    → Holds s start e
    → start ≤ next
    → At entries j a
    → j < i
    → ¬ Holds s next a
none_before entries s start next i j a e sorted at hold on k l h =
    ground (arith, sorted_before entries j i a e sorted k at l, hold.0, hold.1, h.0, h.1, h.2)

-- What `find` owes.
pub record Finds (entries : List DataBlockIndex) (stream_id start until : ℕ)
    (result : Option FindIndexResult) : Type 0 where
  pub answer : FindIndexResult
  pub ends : result ≡ some answer
  pub chained : Chained stream_id start answer.blocks answer.next_start_offset
  pub complete :
      ((answer.fulfilled ≡ true)
        × (is_fulfilled until answer.next_start_offset answer.next_max_bytes ≡ true))
      ⊎ ((answer.fulfilled ≡ false)
          × ((j : ℕ) (e : DataBlockIndex)
              → At entries j e
              → ¬ Holds stream_id answer.next_start_offset e))

-- `find` in a sorted index, in which no offset wraps: it ends; the blocks that it returns are of the stream, the first
-- holds the wanted offset, each other one holds the end of the one before it, and the next offset is the end of the last;
-- and either the request is fulfilled, and then the end is reached or the bytes are spent, or no block of the whole index
-- holds the next offset, so that the rest of the range is in no block of this object.
pub find-Finds :
    (entries : List DataBlockIndex) (stream_id start until max_bytes : ℕ)
    → is_sorted entries ≡ true
    → Finds entries stream_id start until (find entries stream_id start until max_bytes)
unfolding find
find-Finds entries s start until max_bytes sorted = elim (search-Searches entries s start sorted) [
  | inr (i, q, none_holds) ↦
      rw (q, find)
        (record {
          answer = stop_at false start max_bytes;
          ends = refl;
          chained = refl;
          complete = inr (refl, none_holds);
        })
  | inl (i, e, q, (rest, at), hold) ↦
      let l = drop i entries in
      let r = find_from s until false start max_bytes l in
      let facts = find_from-Chained s until false start max_bytes l in
      let sorted_l : is_sorted (e ∷ rest) ≡ true = rw at at (sorted_drop i entries sorted) in
      let first : leb s e.stream_id ≡ true = ground (arith, hold.0) in
      let low : all (λ x. leb s x.stream_id) (e ∷ rest) ≡ true =
        rw first (all_low s e rest hold.0 (sorted_parts e rest sorted_l).1) in
      let on = Chained-le s start r.next_start_offset r.blocks facts.0 in
      rw (q, find)
        (record {
          answer = r;
          ends = refl;
          chained = facts.0;
          complete = elim (Bool-cases r.fulfilled) [
            | inl f ↦ inl (f, facts.1 f)
            | inr f ↦
                let missing =
                  find_from-Missing s until false start max_bytes l (sorted_drop i entries sorted)
                    (rw at low) f in
                inr (
                  f,
                  λ j x a. elim (Bool-cases (ltb j i)) [
                    | inl b ↦
                        none_before entries s start r.next_start_offset i j x e sorted (rest, at)
                          hold on a (ground (arith, b))
                    | inr b ↦
                        Missing-At s r.next_start_offset l (j - i) x missing
                          (At-drop i j entries x (ground (arith, b)) a)
                  ],
                )
          ];
        })
]
