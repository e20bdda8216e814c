-- ===== src/Metadata/Snapshot/Refill.antt =====
-- A map that is filled with the entries of another holds what that one holds, and what a loop does to a field.
use streamstack.Prelude.{
  ◌≡◌, refl, sym, ap, ◌∙◌, true, false, Bool-cases, ◌⊎◌, inl, inr, Option, none, some, List, [],
  ◌∷◌, if◌then◌else◌,
}
use streamstack.OrdMap.{OrdMap, lookup, Ascending}
use streamstack.OrdMap.Keys.{Key, u64_key, i32_key, pair_key, triple_key, text_key}
use streamstack.OrdMap.Sorted.{lookup-Above}
use streamstack.Metadata.State.{MetadataState}
use streamstack.Metadata.Wire.Laws.{Each}
use streamstack.Metadata.Snapshot.RoundTrip.{fold_rows}

abbrev or_else : {V : Type 0} → Option V → Option V → Option V
or_else none o = o
or_else (some v) o = some v

module _ ⦃im : OrdMap⦄ where
  open im use {Map, get, insert, iter, new}

  module _ {K V : Type 0} ⦃key : Key K⦄ where
    abbrev pub insert_list : List (K × V) → Map K V → Map K V
    insert_list [] m = m
    insert_list ((k, v) ∷ l) m = insert_list l (insert m k v)

    pub get-insert_list :
        (l : List (K × V)) (m : Map K V) (k : K)
        → Ascending l
        → get (insert_list l m) k ≡ or_else (lookup l k) (get m k)
    get-insert_list [] m k a = refl
    get-insert_list ((j, v) ∷ l) m k (above, asc) =
        get-insert_list l (insert m j v) k asc
        ∙ (ap (or_else (lookup l k)) (im.get-insert m j k v) ∙ found (Bool-cases (key.eqb j k)))
      where
        found :
            (key.eqb j k ≡ true) ⊎ (key.eqb j k ≡ false)
            → or_else (lookup l k) (if key.eqb j k then some v else get m k)
              ≡ or_else (if key.eqb j k then some v else lookup l k) (get m k)
        found (inl e) =
            let same : j ≡ k = (key.eqb_iff j k).0 e in
            let missing : lookup l k ≡ none = lookup-Above k l (rw same at above) in
            rw (e, missing) refl
        found (inr e) = rw e refl

    -- A map that is filled with the entries of another holds what that one holds.
    pub get-refill : (m : Map K V) (k : K) → get (insert_list (iter m) new) k ≡ get m k
    get-refill m k =
        get-insert_list (iter m) new k (im.iter-Ascending m)
        ∙ (ap (or_else (lookup (iter m) k)) (im.get-new k)
            ∙ (left (lookup (iter m) k) ∙ sym (im.get-iter m k)))
      where
        left : (o : Option V) → or_else o none ≡ o
        left none = refl
        left (some v) = refl

    -- A table that a loop fills with its entries.
    pub fold_field :
        {A : Type 0} (view : K × V → A) (ins : A → MetadataState → MetadataState)
        (P : K × V → Type 0) (field : MetadataState → Map K V)
        → ((e : K × V)
            → P e
            → (s : MetadataState) → field (ins (view e) s) ≡ insert (field s) e.0 e.1)
        → (rows : List (K × V)) → Each P rows
        → (s : MetadataState) → field (fold_rows view ins rows s) ≡ insert_list rows (field s)
    fold_field view ins P field step [] h s = refl
    fold_field view ins P field step (e ∷ rows) h s =
        fold_field view ins P field step rows h.1 (ins (view e) s)
        ∙ ap (insert_list rows) (step e h.0 s)

  -- A field that a loop does not touch.
  pub fold_frame :
      {E A X : Type 0} (view : E → A) (ins : A → MetadataState → MetadataState)
      (field : MetadataState → X)
      → ((a : A) (s : MetadataState) → field (ins a s) ≡ field s)
      → (rows : List E) (s : MetadataState) → field (fold_rows view ins rows s) ≡ field s
  fold_frame view ins field step [] s = refl
  fold_frame view ins field step (e ∷ rows) s =
      fold_frame view ins field step rows (ins (view e) s) ∙ step (view e) s
