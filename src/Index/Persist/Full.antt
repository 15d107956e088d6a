-- ===== src/Index/Persist/Full.antt =====
-- What a load makes of a storage that has given out its last id.
use vemory.Prelude.{
  ℕ, ◌≡◌, ◌≢◌, ◌<◌, ◌≤◌, ◌^◌, ap, ◌∙◌, [], Bytes, bytes_eq, nat_eq, bytes_eqb_iff, Bool, some, none,
  arith, Option-cases, inl, inr, length,
}
use vemory.Map.{lookup}
use vemory.Map.Laws.{lookup-assign, lookup-emplace}
use vemory.Stdio.{Sink}
use vemory.Codec
use vemory.Storage
use vemory.Storage.{VNode, Storage, put, get_by_user_key, get_by_id}
use vemory.Storage.Laws.{IsValid}
use vemory.Index
use vemory.Index.{VNodeIndex}
use vemory.Index.Persist.{dump_nodes, load_nodes, restored_next_id}
use vemory.Index.Persist.RoundTrip.{nodes_bytes, load_nodes-dump_nodes}
use vemory.Index.Persist.Safe.{load_nodes_safe}

-- The id of a key, from what the key finds.
key_id :
    (s : Storage) (v : IsValid s) (key : Bytes) (n : VNode)
    → get_by_user_key s key ≡ some n
    → lookup key s.by_user_key ≡ some n.id
unfolding get_by_user_key get_by_id
key_id s v key n h = elim (Option-cases (lookup key s.by_user_key)) [
  | inl missing ↦ absurd (ground arith)
  | inr (id, e) ↦ ground (arith, v.indexed id n)
]

key_missing :
    (s : Storage) (v : IsValid s) (key : Bytes)
    → get_by_user_key s key ≡ none
    → lookup key s.by_user_key ≡ none
unfolding get_by_user_key get_by_id
key_missing s v key h = elim (Option-cases (lookup key s.by_user_key)) [
  | inl missing ↦ missing
  | inr (id, e) ↦ let (n, at_id, has_key) = v.stored key id e in absurd (ground (arith, at_id))
]

-- A put of a new key where the next id is 1 and a key has the id 1.
put_over_first :
    (s : Storage) (v : IsValid s) (node old : VNode) (key : Bytes)
    → node.user_key ≢ []
    → s.next_id ≡ 1
    → get_by_user_key s node.user_key ≡ none
    → get_by_user_key s key ≡ some old
    → old.id ≡ 1
    → let (s', st, id) = put s node in
      (st ≡ Storage.ok) × (id ≡ some 1) × (get_by_user_key s' key ≡ some (record node { id = 1 }))
unfolding put get_by_user_key get_by_id
put_over_first s v node old key named next new found first =
    let missing = key_missing s v node.user_key new in
    let there : lookup key s.by_user_key ≡ some 1 =
      key_id s v key old found ∙ ap (λ (n : ℕ). some n) first in
    ground (
      arith,
      named,
      next,
      missing,
      there,
      lookup-emplace node.user_key key 1 s.by_user_key missing,
      lookup-assign 1 1 (record node { id = 1 }) s.by_id,
      bytes_eqb_iff node.user_key key,
    )

module _ {I : Type 0} where
  -- The nodes of a cache that has given out its last id are dumped, and loaded by the next start.
  -- If a key has the id 1, the next new key then takes that id too: the put reports success, and the
  -- old key finds the node of the new one. (The cache's two maps are in step, no encoding reaches
  -- `2 ^ 32` bytes, and `reserve` and the device have room.)
  pub put_after_full :
      (room : ℕ) (in_memory : Bool) (s old : VNodeIndex I) (f : Sink) (node first : VNode)
      (key : Bytes)
      → 4 ≤ room
      → IsValid s.storage
      → ((id : ℕ) (n : VNode)
          → lookup id s.storage.by_id ≡ some n
          → length (Codec.encode n) < 2 ^ 32)
      → f.written ≡ []
      → length (nodes_bytes s.storage.by_id) ≤ f.room
      → s.storage.next_id ≡ 0
      → node.user_key ≢ []
      → get_by_user_key s.storage node.user_key ≡ none
      → get_by_user_key s.storage key ≡ some first
      → first.id ≡ 1
      → let (f', dumped) = dump_nodes s f in
        let (s', loaded) =
          load_nodes room in_memory old f'.written (length s.storage.by_id) s.storage.next_id in
        let (t, st, id) = put s'.storage node in
        (loaded ≡ some Index.ok)
        × (st ≡ Storage.ok)
        × (id ≡ some 1)
        × (get_by_user_key t key ≡ some (record node { id = 1 }))
  put_after_full room in_memory s old f node first key fits valid small fresh space full named new
        found one =
      let (dumped, loaded, same, keys, next) =
        load_nodes-dump_nodes room in_memory s old f fits valid small fresh space in
      let (valid', lru) =
        load_nodes_safe room in_memory old (dump_nodes s f).0.written (length s.storage.by_id)
          s.storage.next_id in
      let (stored, id, hides) =
        put_over_first _ valid' node first key named (next ∙ ap restored_next_id full)
          (keys node.user_key ∙ new) (keys key ∙ found) one in
      (loaded, stored, id, hides)
