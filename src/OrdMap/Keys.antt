-- ===== src/OrdMap/Keys.antt =====
-- The `Ord` of the key types of the metadata maps.
use streamstack.Prelude.{
  ℕ, ◌≡◌, refl, ◌↔◌, Bool, true, false, not, ◌&&◌, ◌||◌, List, [], ◌∷◌, arith, ltb as ltb_ℕ, ◌==◌,
  ==_iff, ℤ, eqb_ℤ, ltb_ℤ, eqb_ℤ_iff, ltb_ℤ_iff, eq_of_parts,
}

pub record Key (K : Type 0) : Type 0 where
  pub eqb : K → K → Bool
  pub ltb : K → K → Bool
  pub eqb_iff : (a b : K) → (eqb a b ≡ true) ↔ (a ≡ b)
  pub ltb_irrefl : (a : K) → ltb a a ≡ false
  pub ltb_trans : (a b c : K) → ltb a b ≡ true → ltb b c ≡ true → ltb a c ≡ true
  pub ltb_total : (a b : K) → ltb a b ≡ false → eqb a b ≡ false → ltb b a ≡ true

abbrev pub le_key : {K : Type 0} ⦃key : Key K⦄ → K → K → Bool
le_key ⦃key⦄ a b = not (key.ltb b a)

pub ltb_irrefl_ℕ : (a : ℕ) → ltb_ℕ a a ≡ false
ltb_irrefl_ℕ a = ground arith

pub ltb_trans_ℕ : (a b c : ℕ) → ltb_ℕ a b ≡ true → ltb_ℕ b c ≡ true → ltb_ℕ a c ≡ true
ltb_trans_ℕ a b c h k = ground arith

pub ltb_total_ℕ : (a b : ℕ) → ltb_ℕ a b ≡ false → (a == b) ≡ false → ltb_ℕ b a ≡ true
ltb_total_ℕ a b h k = ground arith

instance abbrev pub u64_key : Key ℕ
u64_key = record {
  eqb = ◌==◌;
  ltb = ltb_ℕ;
  eqb_iff = ==_iff;
  ltb_irrefl = ltb_irrefl_ℕ;
  ltb_trans = ltb_trans_ℕ;
  ltb_total = ltb_total_ℕ;
}

pub ltb_irrefl_ℤ : (a : ℤ) → ltb_ℤ a a ≡ false
ltb_irrefl_ℤ a = ground (arith, ltb_ℤ_iff a a)

pub ltb_trans_ℤ : (a b c : ℤ) → ltb_ℤ a b ≡ true → ltb_ℤ b c ≡ true → ltb_ℤ a c ≡ true
ltb_trans_ℤ a b c h k = ground (arith, ltb_ℤ_iff a b, ltb_ℤ_iff b c, ltb_ℤ_iff a c)

pub ltb_total_ℤ : (a b : ℤ) → ltb_ℤ a b ≡ false → eqb_ℤ a b ≡ false → ltb_ℤ b a ≡ true
ltb_total_ℤ a b h k = ground (arith, ltb_ℤ_iff a b, ltb_ℤ_iff b a, eqb_ℤ_iff a b, eq_of_parts a b)

instance abbrev pub i32_key : Key ℤ
i32_key = record {
  eqb = eqb_ℤ;
  ltb = ltb_ℤ;
  eqb_iff = eqb_ℤ_iff;
  ltb_irrefl = ltb_irrefl_ℤ;
  ltb_trans = ltb_trans_ℤ;
  ltb_total = ltb_total_ℤ;
}

-- Tuples compare lexicographically.
module _ {A B : Type 0} ⦃a_key : Key A⦄ ⦃b_key : Key B⦄ where
  abbrev pub eqb_pair : A × B → A × B → Bool
  eqb_pair (a, b) (c, d) = a_key.eqb a c && b_key.eqb b d

  abbrev pub ltb_pair : A × B → A × B → Bool
  ltb_pair (a, b) (c, d) = a_key.ltb a c || (a_key.eqb a c && b_key.ltb b d)

  pub eqb_pair_iff : (x y : A × B) → (eqb_pair x y ≡ true) ↔ (x ≡ y)
  eqb_pair_iff (a, b) (c, d) = ground (arith, a_key.eqb_iff a c, b_key.eqb_iff b d)

  pub ltb_pair_irrefl : (x : A × B) → ltb_pair x x ≡ false
  ltb_pair_irrefl (a, b) = ground (arith, a_key.ltb_irrefl a, b_key.ltb_irrefl b)

  pub ltb_pair_trans :
      (x y z : A × B) → ltb_pair x y ≡ true → ltb_pair y z ≡ true → ltb_pair x z ≡ true
  ltb_pair_trans (a, b) (c, d) (e, f) h k = ground (
    arith,
    a_key.ltb_trans a c e,
    b_key.ltb_trans b d f,
    a_key.eqb_iff a c,
    a_key.eqb_iff c e,
    a_key.eqb_iff a e,
  )

  pub ltb_pair_total :
      (x y : A × B) → ltb_pair x y ≡ false → eqb_pair x y ≡ false → ltb_pair y x ≡ true
  ltb_pair_total (a, b) (c, d) h k =
      ground (arith, a_key.ltb_total a c, b_key.ltb_total b d, a_key.eqb_iff a c, a_key.eqb_iff c a)

  instance abbrev pub pair_key : Key (A × B)
  pair_key = record {
    eqb = eqb_pair;
    ltb = ltb_pair;
    eqb_iff = eqb_pair_iff;
    ltb_irrefl = ltb_pair_irrefl;
    ltb_trans = ltb_pair_trans;
    ltb_total = ltb_pair_total;
  }

abbrev Triple : Type 0
Triple = ℕ × ℕ × ℕ

abbrev pub eqb_triple : Triple → Triple → Bool
eqb_triple (a, b, c) (d, e, f) = a == d && (b == e && c == f)

abbrev pub ltb_triple : Triple → Triple → Bool
ltb_triple (a, b, c) (d, e, f) = ltb_ℕ a d || (a == d && (ltb_ℕ b e || (b == e && ltb_ℕ c f)))

pub eqb_triple_iff : (x y : Triple) → (eqb_triple x y ≡ true) ↔ (x ≡ y)
eqb_triple_iff (a, b, c) (d, e, f) = ground arith

pub ltb_triple_irrefl : (x : Triple) → ltb_triple x x ≡ false
ltb_triple_irrefl (a, b, c) = ground arith

pub ltb_triple_trans :
    (x y z : Triple) → ltb_triple x y ≡ true → ltb_triple y z ≡ true → ltb_triple x z ≡ true
ltb_triple_trans (a, b, c) (d, e, f) (g, h, i) p q = ground arith

pub ltb_triple_total :
    (x y : Triple) → ltb_triple x y ≡ false → eqb_triple x y ≡ false → ltb_triple y x ≡ true
ltb_triple_total (a, b, c) (d, e, f) p q = ground arith

instance abbrev pub triple_key : Key (ℕ × ℕ × ℕ)
triple_key = record {
  eqb = eqb_triple;
  ltb = ltb_triple;
  eqb_iff = eqb_triple_iff;
  ltb_irrefl = ltb_triple_irrefl;
  ltb_trans = ltb_triple_trans;
  ltb_total = ltb_triple_total;
}

-- A text is its bytes, which Rust's `String` is compared by.
unfoldable pub eqb_bytes : List ℕ → List ℕ → Bool
eqb_bytes [] [] = true
eqb_bytes (a ∷ as') (b ∷ bs) = a == b && eqb_bytes as' bs
eqb_bytes _ _ = false

unfoldable pub ltb_bytes : List ℕ → List ℕ → Bool
ltb_bytes [] [] = false
ltb_bytes [] (b ∷ bs) = true
ltb_bytes (a ∷ as') [] = false
ltb_bytes (a ∷ as') (b ∷ bs) = ltb_ℕ a b || (a == b && ltb_bytes as' bs)

pub eqb_bytes_iff : (x y : List ℕ) → (eqb_bytes x y ≡ true) ↔ (x ≡ y)
unfolding eqb_bytes
eqb_bytes_iff [] [] = ground arith
eqb_bytes_iff [] (b ∷ bs) = ground arith
eqb_bytes_iff (a ∷ as') [] = ground arith
eqb_bytes_iff (a ∷ as') (b ∷ bs) = ground (arith, eqb_bytes_iff as' bs)

pub ltb_bytes_irrefl : (x : List ℕ) → ltb_bytes x x ≡ false
unfolding ltb_bytes
ltb_bytes_irrefl [] = refl
ltb_bytes_irrefl (a ∷ as') = ground (arith, ltb_bytes_irrefl as')

pub ltb_bytes_trans :
    (x y z : List ℕ) → ltb_bytes x y ≡ true → ltb_bytes y z ≡ true → ltb_bytes x z ≡ true
unfolding ltb_bytes
ltb_bytes_trans [] (b ∷ bs) (c ∷ cs) p q = refl
ltb_bytes_trans (a ∷ as') (b ∷ bs) (c ∷ cs) p q = ground (arith, ltb_bytes_trans as' bs cs)
ltb_bytes_trans [] [] z p q = ground arith
ltb_bytes_trans (a ∷ as') [] z p q = ground arith
ltb_bytes_trans x (b ∷ bs) [] p q = ground arith

pub ltb_bytes_total :
    (x y : List ℕ) → ltb_bytes x y ≡ false → eqb_bytes x y ≡ false → ltb_bytes y x ≡ true
unfolding ltb_bytes eqb_bytes
ltb_bytes_total [] [] p q = ground arith
ltb_bytes_total [] (b ∷ bs) p q = ground arith
ltb_bytes_total (a ∷ as') [] p q = refl
ltb_bytes_total (a ∷ as') (b ∷ bs) p q = ground (arith, ltb_bytes_total as' bs)

instance abbrev pub text_key : Key (List ℕ)
text_key = record {
  eqb = eqb_bytes;
  ltb = ltb_bytes;
  eqb_iff = eqb_bytes_iff;
  ltb_irrefl = ltb_bytes_irrefl;
  ltb_trans = ltb_bytes_trans;
  ltb_total = ltb_bytes_total;
}
