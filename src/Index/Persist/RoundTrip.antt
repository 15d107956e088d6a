-- ===== src/Index/Persist/RoundTrip.antt =====
-- The nodes that are dumped are the nodes that are loaded.
use vemory.Prelude.{
  ℕ, ◌^◌, ◌<◌, ◌≤◌, ◌≡◌, ◌≢◌, refl, ap, sym, ◌∙◌, Bytes, bytes_eq, nat_eq, ◌=?◌, [], ◌∷◌, ◌++◌,
  Bool, true, false, ◌==◌, some, none, arith, length, append_assoc, length-append,
  take_of_length-le, append-nil, Option-cases, Bool-cases, inl, inr, bytes_eqb_iff, bytes_eqb_refl,
}
use vemory.Map.{Map, IsMap, lookup}
use vemory.Map.Laws.{emplace_new, lookup_before, contains_of_lookup-none}
use vemory.Stdio.{Sink, to_le}
use vemory.Stdio.Laws.{
  length-to_le, Fits-4, read_exact-append, read_word-to_le, write_exact-room, after, after-after,
}
use vemory.KvStore.Dump.{string_bytes, length-string_bytes, u32_small}
use vemory.Codec
use vemory.Codec.{NodeRead, decode_node}
use vemory.Codec.RoundTrip.{decode_node-encode}
use vemory.Storage
use vemory.Storage.{VNode, Storage, restore}
use vemory.Storage.Laws
use vemory.Index.{VNodeIndex, ok, rebuild_lru}
use vemory.Index.Persist.{
  dump_node, dump_each, load_each, load_node, restore_node, end_load, dump_nodes, load_nodes,
  finish_load, emptied, restored_next_id,
}

-- The index from user keys that the loop of `LoadNodes` builds.
abbrev pub keys_of : Map ℕ VNode → Map Bytes ℕ
keys_of [] = []
keys_of ((id, n) ∷ m) = (n.user_key, id) ∷ keys_of m

-- The storage that holds just these nodes.
abbrev pub stored : Map ℕ VNode → Storage
stored m = record { next_id = 1; by_id = m; by_user_key = keys_of m }

abbrev pub nodes_bytes : Map ℕ VNode → Bytes
nodes_bytes [] = []
nodes_bytes ((id, n) ∷ m) = string_bytes (Codec.encode n) ++ nodes_bytes m

-- Nodes that a snapshot can hold: they carry their ids, of 16 bits and not 0, have keys, and their
-- encodings have lengths of 32 bits.
abbrev pub Dumpable : Map ℕ VNode → Type 0
Dumpable [] = Unit {0}
Dumpable ((id, n) ∷ m) =
    (n.id ≡ id)
    × (0 < id)
    × (id < 65536)
    × (n.user_key ≢ [])
    × (length (Codec.encode n) < 2 ^ 32)
    × Dumpable m

keys_of-append : (m n : Map ℕ VNode) → keys_of (m ++ n) ≡ keys_of m ++ keys_of n
keys_of-append [] n = refl
keys_of-append ((id, v) ∷ m) n = ap (◌∷◌ (v.user_key, id)) (keys_of-append m n)

-- A key in the index is the key of a node.
pub lookup-keys_of :
    (k : Bytes) (id : ℕ) (m : Map ℕ VNode)
    → IsMap m
    → lookup k (keys_of m) ≡ some id
    → (n : VNode) × (lookup id m ≡ some n) × (n.user_key ≡ k)
unfolding lookup
lookup-keys_of k id [] u e = cc
lookup-keys_of k id ((j, v) ∷ m) u e = elim (Bool-cases (v.user_key =? k)) [
  | inl hit ↦ (v, ground arith, (bytes_eqb_iff v.user_key k).0 hit)
  | inr miss ↦ let (n, at, key) = lookup-keys_of k id m u.1 (ground arith) in (n, ground arith, key)
]

restore_new :
    (before : Map ℕ VNode) (n : VNode)
    → 0 < n.id
    → n.user_key ≢ []
    → lookup n.id before ≡ none
    → lookup n.user_key (keys_of before) ≡ none
    → restore (stored before) n ≡ (stored (before ++ (n.id, n) ∷ []), Storage.ok)
unfolding restore
restore_new before n pos named new_id new_key = ground (
  arith,
  contains_of_lookup-none n.id before new_id,
  contains_of_lookup-none n.user_key (keys_of before) new_key,
  emplace_new n.id n before new_id,
  emplace_new n.user_key n.id (keys_of before) new_key,
  keys_of-append before ((n.id, n) ∷ []),
)

-- In a storage whose maps are in step, no two nodes have one key.
keys_of-IsMap :
    (m : Map ℕ VNode) (by_key : Map Bytes ℕ)
    → IsMap m
    → ((id : ℕ) (n : VNode) → lookup id m ≡ some n → lookup n.user_key by_key ≡ some id)
    → IsMap (keys_of m)
unfolding lookup
keys_of-IsMap [] by_key u own = tt
keys_of-IsMap ((id, n) ∷ m) by_key u own = (fresh, keys_of-IsMap m by_key u.1 later)
  where
    later : (j : ℕ) (v : VNode) → lookup j m ≡ some v → lookup v.user_key by_key ≡ some j
    later j v e = own j v (ground arith)

    fresh : lookup n.user_key (keys_of m) ≡ none
    fresh = elim (Option-cases (lookup n.user_key (keys_of m))) [
      | inl absent ↦ absent
      | inr (j, e) ↦
          let (v, at, key) = lookup-keys_of n.user_key j m u.1 e in
          absurd (ground (arith, later j v at, own id n (ground arith)))
    ]

-- The loop reads back what the dump holds, after the nodes that are there.
load_each-bytes :
    (room : ℕ) (m before : Map ℕ VNode) (rest : Bytes)
    → 4 ≤ room
    → Dumpable m
    → IsMap (before ++ m)
    → IsMap (keys_of before ++ keys_of m)
    → load_each room (length m) (nodes_bytes m ++ rest) (stored before)
      ≡ (some ok, stored (before ++ m), rest)
unfolding load_each load_node restore_node
load_each-bytes room [] before rest fits d u w = rw append-nil
load_each-bytes room ((id, n) ∷ m) before rest fits d u w =
    let own : n.id ≡ id = d.0 in
    let bs : Bytes = Codec.encode n in
    let new_id : lookup n.id before ≡ none = rw own (lookup_before before m id n u) in
    let new_key : lookup n.user_key (keys_of before) ≡ none =
      lookup_before (keys_of before) (keys_of m) n.user_key id w in
    ground (
      arith,
      append_assoc (string_bytes bs) (nodes_bytes m) rest,
      append_assoc (to_le 4 (length bs)) bs (nodes_bytes m ++ rest),
      read_word-to_le 4 (length bs) (bs ++ (nodes_bytes m ++ rest)) (Fits-4 (length bs) d.4),
      read_exact-append bs (nodes_bytes m ++ rest),
      decode_node-encode room n,
      restore_new before n (omega arith) d.3 new_id new_key,
      append_assoc before ((id, n) ∷ []) m,
      load_each-bytes room m (before ++ (id, n) ∷ []) rest fits d.5 (rw append_assoc u)
          (rw (keys_of-append, append_assoc) w),
    )

dump_node-bytes :
    (f : Sink) (n : VNode)
    → length (Codec.encode n) < 2 ^ 32
    → length (string_bytes (Codec.encode n)) ≤ f.room
    → dump_node f n ≡ (after f (string_bytes (Codec.encode n)), true)
unfolding dump_node
dump_node-bytes f n small space =
    let bs : Bytes = Codec.encode n in
    let a : Bytes = to_le 4 (length bs) in
    let size_a = length-to_le 4 (length bs) in
    let size = length-string_bytes bs in
    rw (
      u32_small (length bs) small,
      take_of_length-le (length bs) bs (omega arith),
      write_exact-room f a (omega arith),
      write_exact-room (after f a) bs (omega arith),
      after-after f a bs,
    )

pub dump_each-bytes :
    (m : Map ℕ VNode) (f : Sink)
    → Dumpable m
    → length (nodes_bytes m) ≤ f.room
    → dump_each m f ≡ (after f (nodes_bytes m), ok)
unfolding dump_each
dump_each-bytes [] f d space = ground (arith, append-nil f.written)
dump_each-bytes ((id, n) ∷ m) f d space =
    let size = length-append (string_bytes (Codec.encode n)) (nodes_bytes m) in
    let f' : Sink = after f (string_bytes (Codec.encode n)) in
    rw (
      dump_node-bytes f n d.4 (omega arith),
      dump_each-bytes m f' d.5 (omega arith),
      after-after f (string_bytes (Codec.encode n)) (nodes_bytes m),
    )

-- A node's key is in the index.
key_found :
    (id : ℕ) (n : VNode) (m : Map ℕ VNode)
    → lookup id m ≡ some n
    → lookup n.user_key (keys_of m) ≢ none
unfolding lookup
key_found id n [] e absent = cc
key_found id n ((j, v) ∷ m) e absent = elim (Bool-cases (j == id)) [
  | inl hit ↦
      let same : v ≡ n = ground arith in
      cc (ap (λ (x : VNode). x.user_key) same, bytes_eqb_refl n.user_key)
  | inr miss ↦ ground (arith, key_found id n m)
]

module _ {s : Storage} (valid : Storage.Laws.IsValid s) where
  -- The index that is built anew has the entries of the old one.
  pub lookup_rebuilt : (k : Bytes) → lookup k (keys_of s.by_id) ≡ lookup k s.by_user_key
  lookup_rebuilt k = elim (Option-cases (lookup k (keys_of s.by_id))) [
    | inr (j, e) ↦
        let (n, at, key) = lookup-keys_of k j s.by_id valid.ids_unique e in
        let (same, named, found, pos, range) = valid.indexed j n at in e ∙ sym (rw key at found)
    | inl none_new ↦ elim (Option-cases (lookup k s.by_user_key)) [
      | inl none_old ↦ cc
      | inr (id, e) ↦
          let (n, at, key) = valid.stored k id e in
          absurd (key_found id n s.by_id at (rw key none_new))
    ]
  ]

  keys_unique : IsMap (keys_of s.by_id)
  keys_unique =
      keys_of-IsMap s.by_id s.by_user_key valid.ids_unique (λ id n e. (valid.indexed id n e).2)

  pub sizes-Dumpable :
      (m : Map ℕ VNode)
      → IsMap m
      → ((id : ℕ) (n : VNode) → lookup id m ≡ some n → lookup id s.by_id ≡ some n)
      → ((id : ℕ) (n : VNode) → lookup id s.by_id ≡ some n → length (Codec.encode n) < 2 ^ 32)
      → Dumpable m
  unfolding lookup
  sizes-Dumpable [] u own small = tt
  sizes-Dumpable ((id, n) ∷ m) u own small =
      let at : lookup id s.by_id ≡ some n = own id n (ground arith) in
      let (same, named, found, pos, range) = valid.indexed id n at in
      (
        same,
        pos,
        range,
        named,
        small id n at,
        sizes-Dumpable m u.1 (λ j v e. own j v (ground arith)) small,
      )

-- The storage after a load: the nodes, and the index that the loop has built.
module _ {I : Type 0} where
  pub load_nodes-bytes :
      (room : ℕ) (in_memory : Bool) (old : VNodeIndex I) (m : Map ℕ VNode) (next_id : ℕ)
      → 4 ≤ room
      → Dumpable m
      → IsMap m
      → IsMap (keys_of m)
      → load_nodes room in_memory old (nodes_bytes m) (length m) next_id
        ≡ (finish_load (emptied old) (stored m) next_id, some ok)
  unfolding load_nodes end_load
  load_nodes-bytes room true old m next_id fits d u w =
      ground (arith, load_each-bytes room m [] [] fits d u w, append-nil (nodes_bytes m))
  load_nodes-bytes room false old m next_id fits d u w =
      ground (arith, load_each-bytes room m [] [] fits d u w, append-nil (nodes_bytes m))

  -- The nodes of a semantic cache whose two maps are in step are dumped to a device with room, and
  -- loaded into any cache, from a file or from memory: both report success, the nodes come back
  -- under their ids, every user key finds what it found, and the next id is the one that was saved,
  -- or 1 in place of 0. (No encoding reaches `2 ^ 32` bytes, and `reserve` has room for four strings.)
  pub load_nodes-dump_nodes :
      (room : ℕ) (in_memory : Bool) (s old : VNodeIndex I) (f : Sink)
      → 4 ≤ room
      → Storage.Laws.IsValid s.storage
      → ((id : ℕ) (n : VNode)
          → lookup id s.storage.by_id ≡ some n
          → length (Codec.encode n) < 2 ^ 32)
      → f.written ≡ []
      → length (nodes_bytes s.storage.by_id) ≤ f.room
      → let (f', dumped) = dump_nodes s f in
        let (s', loaded) =
          load_nodes room in_memory old f'.written (length s.storage.by_id) s.storage.next_id in
        (dumped ≡ ok)
        × (loaded ≡ some ok)
        × (s'.storage.by_id ≡ s.storage.by_id)
        × ((key : Bytes)
            → Storage.get_by_user_key s'.storage key ≡ Storage.get_by_user_key s.storage key)
        × (s'.storage.next_id ≡ restored_next_id s.storage.next_id)
  unfolding dump_nodes rebuild_lru Storage.get_by_user_key Storage.get_by_id
  load_nodes-dump_nodes room in_memory s old f fits valid small fresh space =
      let m : Map ℕ VNode = s.storage.by_id in
      let d : Dumpable m = sizes-Dumpable valid m valid.ids_unique (λ id n e. e) small in
      rw
        (
          dump_each-bytes m f d space,
          fresh,
          load_nodes-bytes room in_memory old m s.storage.next_id fits d valid.ids_unique
              (keys_unique valid),
        )
        (refl, refl, refl, (λ key. rw (lookup_rebuilt valid key, Storage.get_by_user_key)), refl)
