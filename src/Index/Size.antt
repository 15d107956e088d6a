-- ===== src/Index/Size.antt =====
-- The number of nodes under `Set` and `Del`.
use vemory.Prelude.{
  ℕ, ◌+◌, ◌≤◌, ◌≡◌, ◌≢◌, refl, Bytes, bytes_eq, nat_eq, [], false, Option, some, none, arith,
  Option-cases, Bool-cases, inl, inr, ◌⊎◌, if◌then◌else◌,
}
use vemory.Map.{lookup, contains}
use vemory.Map.Laws.{length-erase, length-assign, length-erase-le, contains_of_lookup, lookup_pos}
use vemory.Request.{is_empty}
use vemory.Storage
use vemory.Storage.{VNode, Storage}
use vemory.Storage.Laws
use vemory.Embed.{Usearch, Embed}
use vemory.Index.{
  VNodeIndex, Status, ok, needs_room_for, del, set, add_vector, put_node, ensure_index,
  parse_float_blob,
}
use vemory.Index.Invariant.{InStep, ensure_index_same}

-- Deleting the key of a node leaves one node less.
del_by_user_key_size :
    (t : Storage) (key : Bytes) (n : VNode)
    → Storage.Laws.IsValid t
    → Storage.get_by_user_key t key ≡ some n
    → ((Storage.del_by_user_key t key).1 ≡ Storage.ok)
      × (Storage.size (Storage.del_by_user_key t key).0 + 1 ≡ Storage.size t)
unfolding Storage.del_by_user_key Storage.get_by_user_key Storage.get_by_id
del_by_user_key_size t key n v found = elim (Option-cases (lookup key t.by_user_key)) [
  | inl absent ↦ absurd (ground arith)
  | inr (id, e) ↦
      let at : lookup id t.by_id ≡ some n = ground arith in
      ground (
        arith,
        length-erase id t.by_id v.ids_unique,
        contains_of_lookup id t.by_id n at,
        lookup_pos id t.by_id (λ k. cc),
      )
]

module _ {I : Type 0} (u : Usearch I) (s : VNodeIndex I) (v : InStep s) where
  -- `Del` of a key that finds a node reports success, leaves one node less, and finds the key no
  -- more.
  pub del_size :
      (key : Bytes) (n : VNode)
      → key ≢ []
      → Storage.get_by_user_key s.storage key ≡ some n
      → ((del u s key).1 ≡ ok) × (Storage.size (del u s key).0.storage + 1 ≡ Storage.size s.storage)
  unfolding del
  del_size key n named found =
      ground (arith, named, found, del_by_user_key_size s.storage key n v.storage_valid found)

-- A `Put` adds a node only for a new key.
put_size :
    (t : Storage) (node : VNode)
    → Storage.Laws.IsValid t
    → Storage.size (Storage.put t node).0
      ≤ (if contains node.user_key t.by_user_key then Storage.size t else Storage.size t + 1)
unfolding Storage.put contains
put_size t node v = elim (Option-cases (lookup node.user_key t.by_user_key)) [
  | inl new ↦ ground (arith, length-assign t.next_id (record node { id = t.next_id }) t.by_id)
  | inr (id, e) ↦
      let (n, at, key) = v.stored node.user_key id e in
      ground (
        arith,
        length-assign id (record node { id = id }) t.by_id,
        contains_of_lookup id t.by_id n at,
      )
]

del_by_user_key_size-le :
    (t : Storage) (key : Bytes) → Storage.size (Storage.del_by_user_key t key).0 ≤ Storage.size t
unfolding Storage.del_by_user_key
del_by_user_key_size-le t key = elim (Option-cases (lookup key t.by_user_key)) [
  | inl absent ↦ ground arith
  | inr (id, e) ↦ ground (arith, length-erase-le id t.by_id)
]

module _ {I : Type 0} (u : Usearch I) where
  add_vector_size :
      (s : VNodeIndex I) (e : Embed I) (id : ℕ) (blob key : Bytes) (dim : ℕ)
      → Storage.size (add_vector u s e id blob key dim).0.storage ≤ Storage.size s.storage
  unfolding add_vector
  add_vector_size s e id blob key dim = ground (arith, del_by_user_key_size-le s.storage key)

  put_node_size :
      (s : VNodeIndex I) (e : Embed I) (blob : Bytes) (node : VNode) (dim : ℕ)
      → Storage.size (put_node u s e blob node dim).0.storage
        ≤ Storage.size (Storage.put s.storage node).0
  unfolding put_node
  put_node_size s e blob node dim = split (Storage.put s.storage node) refl
    where
      split :
          (p : Storage × Storage.Status × Option ℕ)
          → Storage.put s.storage node ≡ p
          → Storage.size (put_node u s e blob node dim).0.storage
            ≤ Storage.size (Storage.put s.storage node).0
      split (t, st, none) k = rw (k, put_node) (ground arith)
      split (t, st, some id) k =
          rw (k, put_node)
            (ground (arith, add_vector_size (record s { storage = t }) e id blob node.user_key dim))

  -- `Set` stops before the index is there, or once it is, or goes on to the node.
  set_cases :
      (s : VNodeIndex I) (blob key question answer : Bytes)
      → ((set u s blob key question answer).0 ≡ s)
        ⊎ (((dim : ℕ) × ((set u s blob key question answer).0 ≡ (ensure_index u s dim).0))
            ⊎ ((dim : ℕ) × (e : Embed I) × (set u s blob key question answer
                  ≡ put_node u
                      (ensure_index u s dim).0
                      e
                      blob
                      (record { id = 0; user_key = key; question = question; answer = answer })
                      dim)))
  unfolding set
  set_cases s blob key question answer = elim (Bool-cases (is_empty key)) [
    | inl nameless ↦ inl (rw (nameless, set))
    | inr named ↦ elim (Option-cases (parse_float_blob blob)) [
      | inl bad ↦ inl (rw (named, bad, set))
      | inr (dim, e) ↦ inr (ensured dim named e (ensure_index u s dim).1 refl)
    ]
  ]
    where
      ensured :
          (dim : ℕ)
          → is_empty key ≡ false
          → parse_float_blob blob ≡ some dim
          → (st : Status) → (ensure_index u s dim).1 ≡ st
          → ((d : ℕ) × ((set u s blob key question answer).0 ≡ (ensure_index u s d).0))
            ⊎ ((d : ℕ) × (e : Embed I) × (set u s blob key question answer
                  ≡ put_node u
                      (ensure_index u s d).0
                      e
                      blob
                      (record { id = 0; user_key = key; question = question; answer = answer })
                      d))
      ensured dim named e ok k = elim (Option-cases (ensure_index u s dim).0.index) [
        | inl missing ↦ inl (dim, rw (named, e, k, missing, set))
        | inr (index, there) ↦ inr (dim, index, rw (named, e, k, there, set))
      ]
      ensured dim named e _ k = inl (dim, rw (named, e, k, set))

  -- `Set` adds a node only for a new key, whatever it reports.
  pub set_size :
      (s : VNodeIndex I) (blob key question answer : Bytes)
      → Storage.Laws.IsValid s.storage
      → Storage.size (set u s blob key question answer).0.storage ≤ (
          if contains key s.storage.by_user_key
          then Storage.size s.storage
          else Storage.size s.storage + 1)
  set_size s blob key question answer v =
      let node : VNode = record { id = 0; user_key = key; question = question; answer = answer } in
      elim (set_cases s blob key question answer) [
        | inl same ↦ rw same (ground arith)
        | inr (inl (dim, same)) ↦ rw (same, (ensure_index_same u s dim).0) (ground arith)
        | inr (inr (dim, e, same)) ↦ rw same (
            ground (
              arith,
              put_node_size (ensure_index u s dim).0 e blob node dim,
              (ensure_index_same u s dim).0,
              put_size s.storage node v,
            ))
      ]

  -- No operation changes the limit.
  pub set_limit :
      (s : VNodeIndex I) (blob key question answer : Bytes)
      → (set u s blob key question answer).0.max_entries ≡ s.max_entries
  unfolding put_node add_vector ensure_index
  set_limit s blob key question answer = elim (set_cases s blob key question answer) [
    | inl same ↦ rw same
    | inr (inl (dim, same)) ↦ rw same (ground arith)
    | inr (inr (dim, e, same)) ↦ rw same (ground arith)
  ]

  pub del_limit : (s : VNodeIndex I) (key : Bytes) → (del u s key).0.max_entries ≡ s.max_entries
  unfolding del
  del_limit s key = ground arith

  pub del_size-le :
      (s : VNodeIndex I) (key : Bytes)
      → Storage.size (del u s key).0.storage ≤ Storage.size s.storage
  unfolding del
  del_size-le s key = ground (arith, del_by_user_key_size-le s.storage key)

  -- A `Set` where there is room keeps the storage within the limit.
  pub set_within :
      (s : VNodeIndex I) (blob key question answer : Bytes)
      → Storage.Laws.IsValid s.storage
      → needs_room_for s key ≡ false
      → s.max_entries ≢ 0
      → Storage.size s.storage ≤ s.max_entries
      → Storage.size (set u s blob key question answer).0.storage ≤ s.max_entries
  unfolding needs_room_for Storage.get_by_user_key contains
  set_within s blob key question answer v room limited fits = elim (Bool-cases (is_empty key)) [
    | inl nameless ↦ unfold set in rw (nameless, set) fits
    | inr named ↦
        let bound = set_size s blob key question answer v in
        elim (Option-cases (lookup key s.storage.by_user_key)) [
          | inl new ↦ ground (arith, bound)
          | inr (id, e) ↦ ground (arith, bound)
        ]
  ]
