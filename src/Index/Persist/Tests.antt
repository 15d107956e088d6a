-- ===== src/Index/Persist/Tests.antt =====
-- The theorems on snapshots of the nodes at a cache of one entry.
use vemory.Prelude.{
  ℕ, ◌≡◌, ◌<◌, ◌^◌, refl, sym, arith, codes, some, none, [], ◌∷◌, Bytes, true, false, nat_eq,
  bytes_eq, length, append-nil, Bool-cases, inl, inr, ◌==◌,
}
use vemory.Map.{Map, emplace, lookup, contains, assign}
use vemory.Decimal.{decimal, decimal_ℤ}
use vemory.Encode.{append_array_header, append_bulk_string}
use vemory.Stdio.{Sink, to_le}
use vemory.Codec
use vemory.Storage
use vemory.Storage.{VNode, Storage, put, get_by_id, get_by_user_key}
use vemory.Storage.Laws
use vemory.Lru
use vemory.Lru.View
use vemory.Lru.View.{ids, mem}
use vemory.Embed
use vemory.Index.{VNodeIndex, ok, set, ensure_index, parse_float_blob, put_node, add_vector}
use vemory.Index.Tests.{one_entry, one_entry-InStep}
use vemory.Index.Invariant.{InStep}
use vemory.Index.Persist.{dump_nodes, load_nodes, restored_next_id}
use vemory.Index.Persist.RoundTrip.{nodes_bytes, load_nodes-dump_nodes}
use vemory.Index.Persist.Safe.{load_nodes_safe}
use vemory.Index.Persist.Full.{put_after_full}
use vemory.Index.Persist.Restored.{load_nodes-InStep}

abbrev disk : Sink
disk = record { written = []; room = 100 }

abbrev node_1 : VNode
node_1 = record { id = 1; user_key = codes "k"; question = codes "q"; answer = codes "a" }

pub one_entry_nodes : one_entry.storage.by_id ≡ (1, node_1) ∷ []
unfolding set ensure_index parse_float_blob put_node add_vector put Embed.search Embed.new_embed
    Embed.make_impl Embed.add Embed.usearch_add Embed.add_with_room lookup contains assign
one_entry_nodes = refl

encoded_node_1 : length (Codec.encode node_1) ≡ 32
unfolding Codec.encode append_array_header append_bulk_string decimal decimal_ℤ
encoded_node_1 = refl

pub one_entry_bytes : length (nodes_bytes one_entry.storage.by_id) ≡ 36
unfolding to_le
one_entry_bytes = rw (one_entry_nodes, append-nil) (omega (arith, encoded_node_1))

pub one_entry_next : one_entry.storage.next_id ≡ 2
unfolding set ensure_index parse_float_blob put_node add_vector put Embed.search Embed.new_embed
    Embed.make_impl Embed.add Embed.usearch_add Embed.add_with_room lookup contains assign
one_entry_next = refl

pub one_entry_small :
    (id : ℕ) (n : VNode)
    → lookup id one_entry.storage.by_id ≡ some n
    → length (Codec.encode n) < 2 ^ 32
unfolding lookup
one_entry_small id n e = elim (Bool-cases (id == 1)) [
  | inl first ↦
      let same : node_1 ≡ n = ground (arith, rw one_entry_nodes at e, first) in
      rw (sym same) (omega (arith, encoded_node_1))
  | inr other ↦ absurd (ground (arith, rw one_entry_nodes at e, other))
]

load_nodes-dump_nodes_example :
    let (f', dumped) = dump_nodes one_entry disk in
    let (s', loaded) =
      load_nodes 4 true one_entry f'.written
        (length one_entry.storage.by_id)
        one_entry.storage.next_id in
    (dumped ≡ ok)
    × (loaded ≡ some ok)
    × (s'.storage.by_id ≡ one_entry.storage.by_id)
    × ((key : Bytes) → get_by_user_key s'.storage key ≡ get_by_user_key one_entry.storage key)
    × (s'.storage.next_id ≡ restored_next_id one_entry.storage.next_id)
load_nodes-dump_nodes_example =
    load_nodes-dump_nodes 4 true one_entry one_entry disk (omega arith)
      one_entry-InStep.storage_valid one_entry_small refl (omega (arith, one_entry_bytes))

load_nodes-InStep_example :
    InStep
      (load_nodes 4 true one_entry
        (dump_nodes one_entry disk).0.written
        (length one_entry.storage.by_id)
        one_entry.storage.next_id).0
load_nodes-InStep_example =
    load_nodes-InStep 4 true one_entry one_entry disk (omega arith) one_entry-InStep
      (omega (arith, one_entry_next)) one_entry_small refl (omega (arith, one_entry_bytes))

load_nodes_safe_example :
    let (s', st) = load_nodes 4 false one_entry (codes "????????") 2 0 in
    Storage.Laws.IsValid s'.storage × Lru.View.IsValid s'.lru
load_nodes_safe_example = load_nodes_safe 4 false one_entry (codes "????????") 2 0

one_entry_loads :
    (load_nodes 4 true one_entry
      (dump_nodes one_entry disk).0.written
      (length one_entry.storage.by_id)
      one_entry.storage.next_id).1
    ≡ some ok
one_entry_loads =
    (load_nodes-dump_nodes 4 true one_entry one_entry disk (omega arith)
      one_entry-InStep.storage_valid one_entry_small refl (omega (arith, one_entry_bytes))).1

-- A cache that has given out every id, and still has the node 1.
abbrev full_cache : VNodeIndex (Map ℕ Bytes)
full_cache = record one_entry { storage = record one_entry.storage { next_id = 0 } }

full_cache-IsValid : Storage.Laws.IsValid full_cache.storage
full_cache-IsValid = record {
  ids_unique = one_entry-InStep.storage_valid.ids_unique;
  keys_unique = one_entry-InStep.storage_valid.keys_unique;
  indexed = one_entry-InStep.storage_valid.indexed;
  stored = one_entry-InStep.storage_valid.stored;
}

abbrev node_j : VNode
node_j = record node_1 { user_key = codes "j" }

one_entry_lookups :
    (get_by_user_key full_cache.storage (codes "j") ≡ none)
    × (get_by_user_key full_cache.storage (codes "k") ≡ some node_1)
unfolding set ensure_index parse_float_blob put_node add_vector put Embed.search Embed.new_embed
    Embed.make_impl Embed.add Embed.usearch_add Embed.add_with_room lookup contains assign
    get_by_user_key get_by_id emplace
one_entry_lookups = (refl, refl)

put_after_full_example :
    let (s', loaded) =
      load_nodes 4 true one_entry
        (dump_nodes full_cache disk).0.written
        (length full_cache.storage.by_id)
        0 in
    let (t, st, id) = put s'.storage node_j in
    (loaded ≡ some ok)
    × (st ≡ Storage.ok)
    × (id ≡ some 1)
    × (get_by_user_key t (codes "k") ≡ some (record node_j { id = 1 }))
put_after_full_example =
    put_after_full 4 true full_cache one_entry disk node_j node_1 (codes "k") (omega arith)
      full_cache-IsValid one_entry_small refl (omega (arith, one_entry_bytes)) refl (λ e. cc e)
      one_entry_lookups.0 one_entry_lookups.1 refl
