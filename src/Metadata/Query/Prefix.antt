-- ===== src/Metadata/Query/Prefix.antt =====
-- `list_kv` stops at the first key without the prefix, and misses none.
use streamstack.Prelude.{◌≡◌, refl, true, false, List, [], ◌∷◌, arith, ap, Bool-cases, inl, inr}
use streamstack.OrdMap.{OrdMap, keep, Above, Ascending}
use streamstack.OrdMap.Keys.{ltb_bytes, text_key, le_key}
use streamstack.Metadata.Types.{Bytes}
use streamstack.Metadata.State.{MetadataState}
use streamstack.Metadata.Query.{starts_with, take_prefixed, list_kv}

-- A text does not precede its prefixes.
starts_with-le : (p k : Bytes) → starts_with p k ≡ true → le_key p k ≡ true
unfolding ltb_bytes
starts_with-le [] [] h = refl
starts_with-le [] (c ∷ k) h = refl
starts_with-le (b ∷ p) [] h = ground arith
starts_with-le (b ∷ p) (c ∷ k) h = ground (arith, starts_with-le p k)

-- Behind a text that follows `p` and does not start with it, none does.
starts_with-upward :
    (p k j : Bytes)
    → le_key p k ≡ true
    → starts_with p k ≡ false
    → text_key.ltb k j ≡ true
    → starts_with p j ≡ false
unfolding ltb_bytes
starts_with-upward [] k j l h m = ground (arith, h)
starts_with-upward (b ∷ p) [] j l h m = absurd (ground (arith, l))
starts_with-upward (b ∷ p) (c ∷ k) [] l h m = refl
starts_with-upward (b ∷ p) (c ∷ k) (d ∷ j) l h m = ground (arith, starts_with-upward p k j, l, h, m)

none_behind :
    (p k : Bytes) (l : List (Bytes × Bytes))
    → le_key p k ≡ true
    → starts_with p k ≡ false
    → Above k l
    → keep (λ e. starts_with p e.0) l ≡ []
none_behind p k [] h n a = refl
none_behind p k ((j, v) ∷ l) h n a =
    rw (starts_with-upward p k j h n a.0) (none_behind p k l h n a.1)

take_prefixed-keep :
    (p : Bytes) (l : List (Bytes × Bytes))
    → Ascending l
    → take_prefixed p (keep (λ e. le_key p e.0) l) ≡ keep (λ e. starts_with p e.0) l
take_prefixed-keep p [] a = refl
take_prefixed-keep p ((k, v) ∷ l) a = elim (Bool-cases (starts_with p k)) [
  | inl h ↦ rw (starts_with-le p k h, h) (ap (λ r. (k, v) ∷ r) (take_prefixed-keep p l a.1))
  | inr n ↦ elim (Bool-cases (le_key p k)) [
    | inl h ↦ rw (h, n, none_behind p k l h n a.0) refl
    | inr h ↦ rw (h, n) (take_prefixed-keep p l a.1)
  ]
]

module _ ⦃im : OrdMap⦄ where
  open im use {iter, range_from, range_from-iter, iter-Ascending}

  -- The entries that `list_kv` returns are, in the order of the keys, exactly those of the store
  -- whose key starts with the prefix.
  pub list_kv_exact :
      (s : MetadataState) (prefix : Bytes)
      → list_kv s prefix ≡ keep (λ e. starts_with prefix e.0) (iter s.kv)
  unfolding list_kv
  list_kv_exact s prefix =
      rw (range_from-iter s.kv prefix) (take_prefixed-keep prefix (iter s.kv) (iter-Ascending s.kv))
