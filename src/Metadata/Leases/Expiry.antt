-- ===== src/Metadata/Leases/Expiry.antt =====
-- The deadline index of the leases, and what an expiry takes away.
use streamstack.Prelude.{
  ℕ, zero, suc, ◌+◌, ◌<◌, ◌≤◌, ℤ, pos, eqb_ℤ, ltb_ℤ, eqb_ℤ_iff, add_u64, u64_mod, u64_max, ◌≡◌,
  Bool, true, false, not, ◌||◌, Option, none, some, List, [], ◌∷◌, arith, refl, sym, ap, ◌∙◌,
  if◌then◌else◌, ==_iff, ◌==◌, Bool-cases, Option-cases, inl, inr, max_ℤ, add_i64,
}
use streamstack.OrdMap.{OrdMap, keep, lookup}
use streamstack.OrdMap.Keys.{u64_key, i32_key, pair_key, triple_key, le_key}
use streamstack.Metadata.State.{
  MetadataState, empty_state, OnOk, returns, fails, attempt_cases, if_cases,
}
use streamstack.Metadata.Nodes.{node_epoch_check}
use native.Mathlib.Nat.{mod-eq_of_lt}
use streamstack.Metadata.Indexed.Streams.{add_sub}
use streamstack.Metadata.Leases.{
  lease, prepare_object, commit_prepared, expire_each, expire_prepared_objects,
}

-- The entry that `prepared_by_deadline` should have.
abbrev pub due_at : ℤ → Option ℤ → Option (Unit {0})
due_at d none = none
due_at d (some deadline) = if eqb_ℤ deadline d then some tt else none

-- A lease that an expiry at `now` leaves.
abbrev pub unexpired : ℤ → Option ℤ → Option ℤ
unexpired now none = none
unexpired now (some deadline) = if ltb_ℤ now deadline then some deadline else none

module _ ⦃im : OrdMap⦄ where
  open im use {
    get, insert, remove, iter, range_to, get-new, get-insert, get-remove, get-iter, range_to-iter,
  }

  pub record LeasesIndexed (s : MetadataState) : Type 0 where
    pub due : (d : ℤ) (i : ℕ) → get s.prepared_by_deadline (d, i) ≡ due_at d (get s.prepared i)
    -- Ids from the next one on have no lease.
    pub unused : (i : ℕ) → s.next_object_id ≤ i → get s.prepared i ≡ none
    pub word : s.next_object_id < u64_mod

  pub commit_prepared-LeasesIndexed :
      (i : ℕ) (s : MetadataState) → LeasesIndexed s → LeasesIndexed (commit_prepared i s)
  unfolding commit_prepared
  commit_prepared-LeasesIndexed i s v = elim (Option-cases (get s.prepared i)) [
    | inl q ↦ rw (q, commit_prepared) v
    | inr (deadline, q) ↦
        rw (q, commit_prepared)
          (record {
            due = λ d j.
                simp get-remove (ground (arith, q, v.due d j, eqb_ℤ_iff deadline d, ==_iff i j));
            unused = λ j h. simp get-remove (ground (arith, v.unused j h));
            word = v.word;
          })
  ]

  -- One more lease, on an id that has none.
  lease_one-LeasesIndexed :
      (i next : ℕ) (deadline : ℤ) (s : MetadataState)
      → get s.prepared i ≡ none
      → i < next
      → next < u64_mod
      → s.next_object_id ≤ next
      → LeasesIndexed s
      → LeasesIndexed (record s {
        next_object_id = next;
        prepared = insert s.prepared i deadline;
        prepared_by_deadline = insert s.prepared_by_deadline (deadline, i) tt;
      })
  lease_one-LeasesIndexed i next deadline s q l b n v = record {
    due = λ d j. simp get-insert (ground (arith, q, v.due d j, eqb_ℤ_iff deadline d, ==_iff i j));
    unused = λ j h. simp get-insert (ground (arith, v.unused j));
    word = b;
  }

  lease-LeasesIndexed :
      (rounds i : ℕ) (deadline : ℤ) (s : MetadataState)
      → i + rounds ≤ s.next_object_id
      → ((j : ℕ) → i ≤ j → get s.prepared j ≡ none)
      → LeasesIndexed s
      → LeasesIndexed (lease rounds i deadline s)
  unfolding lease
  lease-LeasesIndexed zero i deadline s l free v = v
  lease-LeasesIndexed (suc rounds) i deadline s l free v =
      lease-LeasesIndexed rounds (suc i) deadline _ (omega arith)
        (λ j h. simp get-insert (ground (arith, free j)))
        (lease_one-LeasesIndexed i s.next_object_id deadline s (free i (omega arith)) (omega arith)
          v.word (omega arith) v)

  -- A reservation of ids, without wrap-around, keeps the deadline index right.
  pub prepare_object-LeasesIndexed :
      (n ne : ℤ) (rounds : ℕ) (ttl now : ℤ) (s : MetadataState)
      → s.next_object_id + rounds < u64_mod
      → LeasesIndexed s
      → OnOk (λ t _. LeasesIndexed t) (prepare_object n ne rounds ttl now s)
  unfolding prepare_object
  prepare_object-LeasesIndexed n ne rounds ttl now s room v =
      attempt_cases (node_epoch_check s n ne) s λ _ _.
        if_cases (rounds == 0) (λ _. fails)
          λ _.
            let e : add_u64 s.next_object_id rounds ≡ s.next_object_id + rounds =
              mod-eq_of_lt room in
            returns (
              rw (e, add_sub s.next_object_id rounds)
                (lease-LeasesIndexed rounds s.next_object_id (add_i64 now (max_ℤ ttl (pos 0)))
                  (record s { next_object_id = s.next_object_id + rounds }) (omega arith) v.unused
                  (record { due = v.due; unused = λ j h. v.unused j (omega arith); word = room })))

  -- Whether an expiry list names the id.
  abbrev names : ℕ → List ((ℤ × ℕ) × Unit {0}) → Bool
  names i [] = false
  names i ((k, _) ∷ l) = k.1 == i || names i l

  get-expire_each :
      (l : List ((ℤ × ℕ) × Unit {0})) (s : MetadataState) (i : ℕ)
      → get (expire_each l s).prepared i ≡ (if names i l then none else get s.prepared i)
  unfolding expire_each
  get-expire_each [] s i = refl
  get-expire_each ((k, _) ∷ l) s i = ground (
    arith,
    get-expire_each l
        (record s {
          prepared_by_deadline = remove s.prepared_by_deadline k;
          prepared = remove s.prepared k.1;
        })
        i,
    get-remove s.prepared k.1 i,
    ==_iff k.1 i,
  )

  abbrev due_by : ℤ → List ((ℤ × ℕ) × Unit {0}) → List ((ℤ × ℕ) × Unit {0})
  due_by now = keep (λ e. le_key e.0 (now, u64_max))

  names_due :
      (now d : ℤ) (i : ℕ) (l : List ((ℤ × ℕ) × Unit {0}))
      → i ≤ u64_max
      → ltb_ℤ now d ≡ false
      → lookup l (d, i) ≡ some tt
      → names i (due_by now l) ≡ true
  names_due now d i [] b h q = cc
  names_due now d i (((d', j), _) ∷ l) b h q =
      ground (arith, names_due now d i l b h, q, h, b, eqb_ℤ_iff d' d, ==_iff j i)

  names_not_due :
      (now : ℤ) (i : ℕ) (l : List ((ℤ × ℕ) × Unit {0}))
      → ((d : ℤ) → ltb_ℤ now d ≡ false → lookup l (d, i) ≡ none)
      → names i (due_by now l) ≡ false
  names_not_due now i [] h = refl
  names_not_due now i (((d', j), _) ∷ l) h = ground (
    arith,
    names_not_due now i l (λ d g. ground (arith, h d g)),
    h d',
    eqb_ℤ_iff d' d',
    ==_iff j i,
  )

  expired_names :
      (now deadline : ℤ) (s : MetadataState) (i : ℕ)
      → LeasesIndexed s
      → get s.prepared i ≡ some deadline
      → names i (range_to s.prepared_by_deadline (now, u64_max)) ≡ not (ltb_ℤ now deadline)
  expired_names now deadline s i v q =
      let l = iter s.prepared_by_deadline in
      let at : (d : ℤ) → lookup l (d, i) ≡ due_at d (some deadline) =
        λ d. sym (get-iter s.prepared_by_deadline (d, i)) ∙ (v.due d i ∙ ap (due_at d) q) in
      rw (range_to-iter s.prepared_by_deadline (now, u64_max))
        (elim (Bool-cases (ltb_ℤ now deadline)) [
          | inl later ↦
              rw later (
                names_not_due now i l
                  (λ d g. at d ∙ ground (arith, later, g, eqb_ℤ_iff deadline d)))
          | inr due ↦ rw due (
              names_due now deadline i l (ground (arith, v.unused i, q, v.word)) due
                (at deadline ∙ ground (arith, eqb_ℤ_iff deadline deadline)))
        ])

  -- In a state whose deadline index holds exactly the leases under their deadlines, and whose
  -- leased ids are below the next one, which is below 2^64, an expiry takes away exactly the
  -- leases whose deadline is not after `now`.
  pub expire_exact :
      (now : ℤ) (s : MetadataState) (i : ℕ)
      → LeasesIndexed s
      → get (expire_prepared_objects now s).1.prepared i ≡ unexpired now (get s.prepared i)
  unfolding expire_prepared_objects
  expire_exact now s i v = elim (Option-cases (get s.prepared i)) [
    | inl q ↦
        rw (get-expire_each (range_to s.prepared_by_deadline (now, u64_max)) s i, q) (ground arith)
    | inr (deadline, q) ↦
        rw
          (
            get-expire_each (range_to s.prepared_by_deadline (now, u64_max)) s i,
            q,
            expired_names now deadline s i v q,
          )
          (ground arith)
  ]

  pub empty_state-LeasesIndexed : LeasesIndexed empty_state
  empty_state-LeasesIndexed = record {
    due = λ d i. simp get-new (ground arith);
    unused = λ i h. get-new i;
    word = omega arith;
  }
