-- ===== src/OrdMap.antt =====
-- The ordered map of the crate `im` (`im::OrdMap`), which the metadata plane stores its rows in. The
-- crate is not part of the repository: it is an interface, and `OrdMap.Sorted` shows that it can be
-- met.
pub mod Keys
pub mod Sorted
use streamstack.Prelude.{◌≡◌, Bool, true, ◌&&◌, Option, none, some, List, [], ◌∷◌, if◌then◌else◌}
use Keys.{Key, le_key}

-- Whether a key lies in `lo..=hi`.
abbrev pub within : {K : Type 0} ⦃key : Key K⦄ → K → K → K → Bool
within ⦃key⦄ lo hi k = le_key lo k && le_key k hi

abbrev pub lookup : {K V : Type 0} ⦃key : Key K⦄ → List (K × V) → K → Option V
lookup [] k = none
lookup ⦃key⦄ ((j, v) ∷ l) k = if key.eqb j k then some v else lookup l k

abbrev pub keep : {A : Type 0} → (A → Bool) → List A → List A
keep p [] = []
keep p (x ∷ xs) = if p x then x ∷ keep p xs else keep p xs

-- Every key of the list lies above `k`.
abbrev pub Above : {K V : Type 0} ⦃key : Key K⦄ → K → List (K × V) → Type 0
Above k [] = Unit
Above ⦃key⦄ k ((j, v) ∷ l) = (key.ltb k j ≡ true) × Above k l

abbrev pub Ascending : {K V : Type 0} ⦃key : Key K⦄ → List (K × V) → Type 0
Ascending [] = Unit
Ascending ((j, v) ∷ l) = Above j l × Ascending l

pub record OrdMap : Type 1 where
  pub Map : (K : Type 0) ⦃key : Key K⦄ → Type 0 → Type 0
  pub new : {K V : Type 0} ⦃key : Key K⦄ → Map K V
  pub get : {K V : Type 0} ⦃key : Key K⦄ → Map K V → K → Option V
  pub insert : {K V : Type 0} ⦃key : Key K⦄ → Map K V → K → V → Map K V
  pub remove : {K V : Type 0} ⦃key : Key K⦄ → Map K V → K → Map K V
  pub iter : {K V : Type 0} ⦃key : Key K⦄ → Map K V → List (K × V)
  -- `range(lo..=hi)`, `range(..=hi)` and `range(lo..)`
  pub range : {K V : Type 0} ⦃key : Key K⦄ → Map K V → K → K → List (K × V)
  pub range_to : {K V : Type 0} ⦃key : Key K⦄ → Map K V → K → List (K × V)
  pub range_from : {K V : Type 0} ⦃key : Key K⦄ → Map K V → K → List (K × V)
  pub get-new : {K V : Type 0} ⦃key : Key K⦄ (k : K) → get (new {K = K} {V = V}) k ≡ none
  pub get-insert :
      {K V : Type 0} ⦃key : Key K⦄ (m : Map K V) (k j : K) (v : V)
      → get (insert m k v) j ≡ (if key.eqb k j then some v else get m j)
  pub get-remove :
      {K V : Type 0} ⦃key : Key K⦄ (m : Map K V) (k j : K)
      → get (remove m k) j ≡ (if key.eqb k j then none else get m j)
  pub get-iter : {K V : Type 0} ⦃key : Key K⦄ (m : Map K V) (k : K) → get m k ≡ lookup (iter m) k
  pub iter-Ascending : {K V : Type 0} ⦃key : Key K⦄ (m : Map K V) → Ascending (iter m)
  pub range-iter :
      {K V : Type 0} ⦃key : Key K⦄ (m : Map K V) (lo hi : K)
      → range m lo hi ≡ keep (λ e. within lo hi e.0) (iter m)
  pub range_to-iter :
      {K V : Type 0} ⦃key : Key K⦄ (m : Map K V) (hi : K)
      → range_to m hi ≡ keep (λ e. le_key e.0 hi) (iter m)
  pub range_from-iter :
      {K V : Type 0} ⦃key : Key K⦄ (m : Map K V) (lo : K)
      → range_from m lo ≡ keep (λ e. le_key lo e.0) (iter m)
