-- ===== src/Storage/Ids.antt =====
-- Which ids the storage holds after each operation.
use vemory.Prelude.{
  ℕ, ◌≡◌, ◌≢◌, Bool, true, false, some, Bytes, nat_eq, bytes_eq, ◌==◌, if◌then◌else◌, arith,
  Option-cases, inl, inr,
}
use vemory.Map.{lookup, contains}
use vemory.Map.Laws.{lookup-assign, lookup-erase}
use vemory.Storage.{VNode, Storage, ok, put, get_by_id, get_by_user_key, del_by_user_key}
use vemory.Storage.Laws.{IsValid, IsFresh}

abbrev pub has_id : Storage → ℕ → Bool
has_id s j = contains j s.by_id

-- A `Put` that succeeds adds its id, new or not, and no other.
pub put-ids :
    (s : Storage) (node : VNode) (id j : ℕ)
    → (put s node).1 ≡ ok
    → (put s node).2 ≡ some id
    → has_id (put s node).0 j ≡ (if id == j then true else has_id s j)
unfolding put contains
put-ids s node id j o i = elim (Option-cases (lookup node.user_key s.by_user_key)) [
  | inl new ↦ ground (arith, lookup-assign s.next_id j (record node { id = s.next_id }) s.by_id)
  | inr (l, e) ↦ ground (arith, lookup-assign l j (record node { id = l }) s.by_id)
]

-- A `Put` that fails changes nothing.
pub put_failed : (s : Storage) (node : VNode) → (put s node).1 ≢ ok → (put s node).0 ≡ s
unfolding put
put_failed s node h = ground arith

pub put-some :
    (s : Storage) (node : VNode) → (put s node).1 ≡ ok → (id : ℕ) × ((put s node).2 ≡ some id)
unfolding put
put-some s node h = elim (Option-cases (put s node).2) [
  | inl missing ↦ absurd (ground arith)
  | inr found ↦ found
]

module _ {s : Storage} (v : IsValid s) where
  -- `DelByUserKey` of a key that finds a node takes that node's id out, and no other.
  pub del-ids :
      (key : Bytes) (n : VNode) (j : ℕ)
      → get_by_user_key s key ≡ some n
      → ((del_by_user_key s key).1 ≡ ok)
        × (has_id (del_by_user_key s key).0 j ≡ (if n.id == j then false else has_id s j))
  unfolding get_by_user_key get_by_id del_by_user_key contains
  del-ids key n j h = elim (Option-cases (lookup key s.by_user_key)) [
    | inl missing ↦ absurd (ground arith)
    | inr (id, e) ↦ ground (arith, v.indexed id n, lookup-erase id j s.by_id)
  ]

  pub del-IsFresh : IsFresh s → (key : Bytes) → IsFresh (del_by_user_key s key).0
  unfolding del_by_user_key
  del-IsFresh f key = record {
    in_range = ground (arith, f.in_range);
    above = λ j n h e. elim (Option-cases (lookup key s.by_user_key)) [
      | inl missing ↦ ground (arith, f.above j n)
      | inr (id, there) ↦ ground (arith, f.above j n, lookup-erase id j s.by_id)
    ];
  }

  pub get_by_id-has_id : (j : ℕ) (n : VNode) → get_by_id s j ≡ some n → has_id s j ≡ true
  unfolding get_by_id contains
  get_by_id-has_id j n h = ground arith
