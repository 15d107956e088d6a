-- ===== src/Index/Eviction.antt =====
-- The victim of an eviction, and the room that its deletion makes.
use vemory.Prelude.{
  ℕ, suc, ◌<◌, ◌≡◌, ◌≢◌, refl, Bytes, bytes_eq, nat_eq, [], ◌∷◌, true, ==_refl, some, arith, List,
  length, Option-cases, inl, inr,
}
use vemory.Map.{Map, lookup, contains}
use vemory.Storage
use vemory.Storage.{VNode, Storage}
use vemory.Lru
use vemory.Lru.{Lru}
use vemory.Lru.View.{ids, ids_of, mem}
use vemory.Index.{VNodeIndex, ok, needs_room_for, peek_loop, peek_lru_user_key}
use vemory.Index.Invariant.{InStep}

peek_lru-ids : (l : Lru) (id : ℕ) (rest : List ℕ) → ids l ≡ id ∷ rest → Lru.peek_lru l ≡ some id
unfolding Lru.peek_lru
peek_lru-ids l id rest e = split l.order e
  where
    split : (m : Map ℕ ℕ) → ids_of m ≡ id ∷ rest → Lru.front m ≡ some id
    split [] k = cc k
    split ((it, j) ∷ m) k = cc k

module _ {I : Type 0} (s : VNodeIndex I) (v : InStep s) where
  -- The id at the front of the order is the id of a node.
  front_node :
      (id : ℕ) (rest : List ℕ)
      → ids s.lru ≡ id ∷ rest
      → (n : VNode) × (Storage.get_by_id s.storage id ≡ some n)
  unfolding Storage.get_by_id mem contains
  front_node id rest e = elim (Option-cases (lookup id s.storage.by_id)) [
    | inr found ↦ found
    | inl absent ↦ absurd (ground (arith, v.same_ids id, ==_refl id))
  ]

  peek_loop-front :
      (left id : ℕ) (rest : List ℕ)
      → ids s.lru ≡ id ∷ rest
      → (n : VNode) × (Storage.get_by_id s.storage id ≡ some n)
        × (peek_loop (suc left) s ≡ (s, ok, n.user_key))
  unfolding peek_loop
  peek_loop-front left id rest e =
      let (n, found) = front_node id rest e in
      (n, found, rw (peek_lru-ids s.lru id rest e, found, peek_loop))

  -- Where the nodes and the order agree, the peek changes nothing and gives the key of the node
  -- that was used least recently.
  pub peek_lru_user_key-front :
      (id : ℕ) (rest : List ℕ)
      → ids s.lru ≡ id ∷ rest
      → (n : VNode) × (Storage.get_by_id s.storage id ≡ some n)
        × (peek_lru_user_key s ≡ (s, ok, n.user_key))
  unfolding peek_lru_user_key
  peek_lru_user_key-front id rest e = peek_loop-front 65534 id rest e

  -- A storage that is not empty has an id at the front of the order.
  pub ids-cons : 0 < Storage.size s.storage → (id : ℕ) × (rest : List ℕ) × (ids s.lru ≡ id ∷ rest)
  unfolding mem contains lookup
  ids-cons pos = split s.storage.by_id refl pos (ids s.lru) refl
    where
      split :
          (m : Map ℕ VNode)
          → s.storage.by_id ≡ m
          → 0 < length m
          → (xs : List ℕ) → ids s.lru ≡ xs
          → (id : ℕ) × (rest : List ℕ) × (ids s.lru ≡ id ∷ rest)
      split [] k p xs e = absurd (omega arith)
      split (n ∷ m) k p (id ∷ rest) e = (id, rest, e)
      split ((j, n) ∷ m) k p [] e = absurd (ground (arith, v.same_ids j, ==_refl j))

  -- The key of a node finds that node.
  key_of_node :
      (id : ℕ) (n : VNode)
      → Storage.get_by_id s.storage id ≡ some n
      → (n.user_key ≢ []) × (Storage.get_by_user_key s.storage n.user_key ≡ some n)
  unfolding Storage.get_by_user_key Storage.get_by_id
  key_of_node id n found =
      let (own, named, by_key, pos, range) = v.storage_valid.indexed id n found in
      (named, rw (by_key, Storage.get_by_user_key) found)

  -- Where there is no room for a key there is a victim: its key is not empty and finds a node.
  pub victim :
      (key : Bytes)
      → needs_room_for s key ≡ true
      → (n : VNode) × (peek_lru_user_key s ≡ (s, ok, n.user_key))
        × (n.user_key ≢ [])
        × (Storage.get_by_user_key s.storage n.user_key ≡ some n)
  unfolding needs_room_for
  victim key full =
      let (id, rest, e) = ids-cons (ground arith) in
      let (n, found, peeked) = peek_lru_user_key-front id rest e in
      let (named, by_key) = key_of_node id n found in (n, peeked, named, by_key)
