-- ===== src/Lru.antt =====
-- include/vemory/util/LruOrder.h: the access order of ids. A node of `std::list` is known by a
-- handle, its iterator: `order` gives the nodes from the front with the id that each holds, and
-- `index` is the hash map from ids to iterators.
pub mod View
pub mod Laws
mod Tests
use vemory.Prelude.{
  ℕ, suc, Bool, true, false, Option, none, some, List, [], ◌∷◌, ◌++◌, nat_eq, length,
}
use vemory.Map.{Map, lookup, assign, emplace, erase}

pub record Lru : Type 0 where
  pub order : Map ℕ ℕ
  pub index : Map ℕ ℕ
  -- the iterator of the next node that the list allocates
  pub fresh : ℕ

abbrev pub new_lru : Lru
new_lru = record { order = []; index = []; fresh = 0 }

-- `order_.erase(it); it = order_.insert(order_.end(), id)`
unfoldable pub move_to_back : Lru → ℕ → ℕ → Lru
move_to_back s id it = record {
  order = erase it s.order ++ (s.fresh, id) ∷ [];
  index = assign id s.fresh s.index;
  fresh = suc s.fresh;
}

-- `Touch`
unfoldable pub touch : Lru → ℕ → Lru
touch s id = elim (lookup id s.index) [ none ↦ s | some it ↦ move_to_back s id it ]

-- `Push`
unfoldable pub push : Lru → ℕ → Lru
push s id = elim (lookup id s.index) [
  | some it ↦ move_to_back s id it
  | none ↦ record {
    order = s.order ++ (s.fresh, id) ∷ [];
    index = emplace id s.fresh s.index;
    fresh = suc s.fresh;
  }
]

-- `Erase`
unfoldable pub erase_id : Lru → ℕ → Lru × Bool
erase_id s id = elim (lookup id s.index) [
  | none ↦ (s, false)
  | some it ↦ (record s { order = erase it s.order; index = erase id s.index }, true)
]

abbrev pub front : Map ℕ ℕ → Option ℕ
front [] = none
front ((it, id) ∷ r) = some id

abbrev pub pop_front : Map ℕ ℕ → Map ℕ ℕ
pop_front [] = []
pop_front (n ∷ r) = r

-- `PeekLru`
unfoldable pub peek_lru : Lru → Option ℕ
peek_lru s = front s.order

-- `PopLru`
unfoldable pub pop_lru : Lru → Lru × Option ℕ
pop_lru s = elim (front s.order) [
  | none ↦ (s, none)
  | some id ↦ (record s { order = pop_front s.order; index = erase id s.index }, some id)
]

-- `Clear`
abbrev pub clear : Lru → Lru
clear s = record s { order = []; index = [] }

-- `size`
abbrev pub size : Lru → ℕ
size s = length s.order
