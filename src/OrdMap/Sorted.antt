-- ===== src/OrdMap/Sorted.antt =====
-- A model of the interface `OrdMap`: lists that ascend in their keys.
use streamstack.Prelude.{◌≡◌, refl, true, none, some, List, [], ◌∷◌, arith, if◌then◌else◌}
use streamstack.OrdMap.Keys.{Key, le_key}
use streamstack.OrdMap.{OrdMap, within, lookup, keep, Above, Ascending}

module _ {K V : Type 0} ⦃key : Key K⦄ where
  abbrev pub insert : List (K × V) → K → V → List (K × V)
  insert [] k v = (k, v) ∷ []
  insert ((j, w) ∷ l) k v =
      if key.ltb k j
      then (k, v) ∷ (j, w) ∷ l
      else if key.eqb j k
      then (k, v) ∷ l
      else (j, w) ∷ insert l k v

  abbrev pub remove : List (K × V) → K → List (K × V)
  remove [] k = []
  remove ((j, w) ∷ l) k = if key.eqb j k then l else (j, w) ∷ remove l k

  Above-trans : (j k : K) (l : List (K × V)) → key.ltb j k ≡ true → Above k l → Above j l
  Above-trans j k [] h a = tt
  Above-trans j k ((i, v) ∷ l) h a = (key.ltb_trans j k i h a.0, Above-trans j k l h a.1)

  Above-insert :
      (j : K) (l : List (K × V)) (k : K) (v : V)
      → key.ltb j k ≡ true
      → Above j l
      → Above j (insert l k v)
  Above-insert j [] k v h a = (h, tt)
  Above-insert j ((i, w) ∷ l) k v h a = ground (arith, Above-insert j l k v h)

  pub insert-Ascending : (l : List (K × V)) (k : K) (v : V) → Ascending l → Ascending (insert l k v)
  insert-Ascending [] k v a = (tt, tt)
  insert-Ascending ((i, w) ∷ l) k v a = ground (
    arith,
    insert-Ascending l k v a.1,
    Above-trans k i l,
    Above-insert i l k v,
    key.ltb_total k i,
    key.eqb_iff k i,
    key.eqb_iff i k,
    a.0,
  )

  Above-remove : (j : K) (l : List (K × V)) (k : K) → Above j l → Above j (remove l k)
  Above-remove j [] k a = tt
  Above-remove j ((i, w) ∷ l) k a = ground (arith, Above-remove j l k)

  pub remove-Ascending : (l : List (K × V)) (k : K) → Ascending l → Ascending (remove l k)
  remove-Ascending [] k a = tt
  remove-Ascending ((i, w) ∷ l) k a =
      ground (arith, remove-Ascending l k a.1, Above-remove i l k a.0)

  pub lookup-Above : (k : K) (l : List (K × V)) → Above k l → lookup l k ≡ none
  lookup-Above k [] a = refl
  lookup-Above k ((i, w) ∷ l) a =
      ground (arith, lookup-Above k l a.1, key.eqb_iff i k, key.ltb_irrefl k)

  pub lookup-insert :
      (l : List (K × V)) (k j : K) (v : V)
      → lookup (insert l k v) j ≡ (if key.eqb k j then some v else lookup l j)
  lookup-insert [] k j v = refl
  lookup-insert ((i, w) ∷ l) k j v =
      ground (arith, lookup-insert l k j v, key.eqb_iff i j, key.eqb_iff i k, key.eqb_iff k j)

  pub lookup-remove :
      (l : List (K × V)) (k j : K)
      → Ascending l
      → lookup (remove l k) j ≡ (if key.eqb k j then none else lookup l j)
  lookup-remove [] k j a = ground arith
  lookup-remove ((i, w) ∷ l) k j a = ground (
    arith,
    lookup-remove l k j a.1,
    lookup-Above i l a.0,
    key.eqb_iff i j,
    key.eqb_iff i k,
    key.eqb_iff k j,
  )

instance abbrev pub sorted_lists : OrdMap
sorted_lists = record {
  Map = λ K ⦃key⦄ V. (l : List (K × V)) × Ascending l;
  new = ([], tt);
  get = λ m k. lookup m.0 k;
  insert = λ m k v. (insert m.0 k v, insert-Ascending m.0 k v m.1);
  remove = λ m k. (remove m.0 k, remove-Ascending m.0 k m.1);
  iter = λ m. m.0;
  range = λ m lo hi. keep (λ e. within lo hi e.0) m.0;
  range_to = λ m hi. keep (λ e. le_key e.0 hi) m.0;
  range_from = λ m lo. keep (λ e. le_key lo e.0) m.0;
  get-new = λ k. refl;
  get-insert = λ m k j v. lookup-insert m.0 k j v;
  get-remove = λ m k j. lookup-remove m.0 k j m.1;
  get-iter = λ m k. refl;
  iter-Ascending = λ m. m.1;
  range-iter = λ m lo hi. refl;
  range_to-iter = λ m hi. refl;
  range_from-iter = λ m lo. refl;
}
