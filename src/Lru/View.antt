-- ===== src/Lru/View.antt =====
-- The tracker as a list of ids, and its invariant.
use vemory.Prelude.{
  ℕ, ◌<◌, ◌≡◌, Bool, true, false, some, List, [], ◌∷◌, ◌++◌, nat_eq, ◌==◌, if◌then◌else◌, ap, refl,
  arith, Bool-cases, inl, inr,
}
use vemory.Map.{Map, lookup, erase, IsMap}
use vemory.Lru.{Lru}

-- The ids from the least to the most recently used.
abbrev pub ids_of : Map ℕ ℕ → List ℕ
ids_of [] = []
ids_of ((it, id) ∷ r) = id ∷ ids_of r

abbrev pub ids : Lru → List ℕ
ids s = ids_of s.order

-- A list without an id.
unfoldable pub without : ℕ → List ℕ → List ℕ
without a [] = []
without a (x ∷ xs) = if x == a then without a xs else x ∷ without a xs

-- Whether an id stands in a list.
unfoldable pub mem : ℕ → List ℕ → Bool
mem a [] = false
mem a (x ∷ xs) = if x == a then true else mem a xs

-- Every iterator of the index is the node of its id, every node is in the index, and the list
-- never allocates a live iterator again.
pub record IsValid (s : Lru) : Type 0 where
  pub nodes_unique : IsMap s.order
  pub ids_unique : IsMap s.index
  pub node_of : (id it : ℕ) → lookup id s.index ≡ some it → lookup it s.order ≡ some id
  pub index_of : (it id : ℕ) → lookup it s.order ≡ some id → lookup id s.index ≡ some it
  pub allocated : (it id : ℕ) → lookup it s.order ≡ some id → it < s.fresh

pub ids_of-append : (m n : Map ℕ ℕ) → ids_of (m ++ n) ≡ ids_of m ++ ids_of n
ids_of-append [] n = refl
ids_of-append ((it, id) ∷ m) n = ap (◌∷◌ id) (ids_of-append m n)

-- Where one node holds an id, removing the node removes the id.
pub ids_of-erase :
    (it id : ℕ) (m : Map ℕ ℕ)
    → IsMap m
    → ((j w : ℕ) → lookup j m ≡ some w → (j == it) ≡ (w == id))
    → ids_of (erase it m) ≡ without id (ids_of m)
unfolding lookup erase without
ids_of-erase it id [] u h = refl
ids_of-erase it id ((j, w) ∷ m) u h =
    ground (arith, h j w, ids_of-erase it id m u.1 (λ j' w' e. h j' w' (ground (arith, u))))

pub mem-lookup : (id it : ℕ) (m : Map ℕ ℕ) → lookup it m ≡ some id → mem id (ids_of m) ≡ true
unfolding lookup mem
mem-lookup id it [] h = cc
mem-lookup id it ((j, w) ∷ m) h = ground (arith, mem-lookup id it m)

pub lookup_of_mem :
    (id : ℕ) (m : Map ℕ ℕ) → IsMap m → mem id (ids_of m) ≡ true → (it : ℕ) × (lookup it m ≡ some id)
unfolding lookup mem
lookup_of_mem id [] u h = absurd (ground arith)
lookup_of_mem id ((j, w) ∷ m) u h = elim (Bool-cases (w == id)) [
  | inl here ↦ (j, ground arith)
  | inr there ↦ let (it, e) = lookup_of_mem id m u.1 (ground arith) in (it, ground (arith, u))
]

pub mem-append : (a : ℕ) (xs ys : List ℕ) → mem a (xs ++ ys) ≡ (if mem a xs then true else mem a ys)
unfolding mem
mem-append a [] ys = refl
mem-append a (x ∷ xs) ys = ground (arith, mem-append a xs ys)

pub mem-without :
    (a b : ℕ) (xs : List ℕ) → mem b (without a xs) ≡ (if a == b then false else mem b xs)
unfolding mem without
mem-without a b [] = ground arith
mem-without a b (x ∷ xs) = ground (arith, mem-without a b xs)

pub mem_singleton : (a b : ℕ) → mem b (a ∷ []) ≡ (a == b)
unfolding mem
mem_singleton a b = ground arith
