-- ===== src/Map.antt =====
-- `std::unordered_map` as an association list with each key once. The order of the list stands for
-- the unspecified order in which the program visits the entries: theorems hold for every order.
pub mod Laws
use vemory.Prelude.{
  ℕ, Bool, true, false, Option, none, some, List, [], ◌∷◌, Eq, ◌=?◌, if◌then◌else◌, ◌≡◌, length,
}

abbrev pub Map {ℓ} : Type ℓ → Type ℓ → Type ℓ
Map K V = List (K × V)

module _ {ℓ} {K V : Type ℓ} ⦃e : Eq K⦄ where
  -- find
  unfoldable pub lookup : K → Map K V → Option V
  lookup k [] = none
  lookup k ((j, v) ∷ m) = if j =? k then some v else lookup k m

  -- m[k] = v
  unfoldable pub assign : K → V → Map K V → Map K V
  assign k v [] = (k, v) ∷ []
  assign k v ((j, w) ∷ m) = if j =? k then (j, v) ∷ m else (j, w) ∷ assign k v m

  -- emplace: a key that is there keeps its value
  unfoldable pub emplace : K → V → Map K V → Map K V
  emplace k v [] = (k, v) ∷ []
  emplace k v ((j, w) ∷ m) = if j =? k then (j, w) ∷ m else (j, w) ∷ emplace k v m

  -- erase by key
  unfoldable pub erase : K → Map K V → Map K V
  erase k [] = []
  erase k ((j, v) ∷ m) = if j =? k then erase k m else (j, v) ∷ erase k m

  unfoldable pub contains : K → Map K V → Bool
  contains k m = elim (lookup k m) [ none ↦ false | some v ↦ true ]

  -- Each key stands once.
  abbrev pub IsMap : Map K V → Type ℓ
  IsMap [] = Unit
  IsMap ((k, v) ∷ m) = (lookup k m ≡ none) × IsMap m
