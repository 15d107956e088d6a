-- ===== src/Index/Persist/Safe.antt =====
-- Loading nodes from any bytes at all.
use vemory.Prelude.{
  ℕ, zero, suc, ◌≡◌, refl, Bytes, bytes_eq, nat_eq, ◌&&◌, not, [], ◌∷◌, Bool, true, if◌then◌else◌,
  Option, some, none, arith, List, Option-cases, Bool-cases, inl, inr, ◌<◌,
}
use vemory.Map.{Map, lookup, contains}
use vemory.Request.{is_empty}
use vemory.Stdio.{read_word, read_exact}
use vemory.Codec.{NodeRead, decode_node}
use vemory.Codec.RoundTrip.{decode_node_bound}
use vemory.Storage
use vemory.Storage.{VNode, Storage, restore, put, get_by_user_key, get_by_id, set_next_id}
use vemory.Storage.Laws
use vemory.Storage.Laws.{restore-IsValid, new_storage-IsValid}
use vemory.Storage.Ids.{has_id}
use vemory.Lru
use vemory.Lru.{Lru}
use vemory.Lru.View
use vemory.Lru.View.{ids, mem}
use vemory.Lru.Laws.{push-IsValid}
use vemory.Index.{VNodeIndex, Status, ok, push_all, rebuild_lru}
use vemory.Index.Invariant.{mem-push}
use vemory.Index.Persist.{
  Round, stop, next, restore_node, load_node, end_load, load_each, load_nodes, finish_load, emptied,
}

-- The storage that a round leaves.
abbrev storage_of : Round → Storage
storage_of (stop st s rest) = s
storage_of (next s rest) = s

restore_node-IsValid :
    (s : Storage) (n : VNode) (rest : Bytes)
    → Storage.Laws.IsValid s
    → n.id < 65536
    → Storage.Laws.IsValid (storage_of (restore_node s n rest))
unfolding restore_node
restore_node-IsValid s n rest v small = split (restore s n).1 refl
  where
    split :
        (st : Storage.Status)
        → (restore s n).1 ≡ st
        → Storage.Laws.IsValid (storage_of (restore_node s n rest))
    split Storage.Status.ok e = rw (e, restore_node) (restore-IsValid v n small)
    split _ e = rw (e, restore_node) (restore-IsValid v n small)

load_node-IsValid :
    (room : ℕ) (bs : Bytes) (s : Storage)
    → Storage.Laws.IsValid s
    → Storage.Laws.IsValid (storage_of (load_node room bs s))
unfolding load_node
load_node-IsValid room bs s v = elim (Option-cases (read_word 4 bs)) [
  | inl short ↦ rw (short, load_node) v
  | inr ((len, after_len), e) ↦ elim (Option-cases (read_exact len after_len)) [
    | inl cut ↦ rw (e, cut, load_node) v
    | inr ((bytes, rest), k) ↦ split len after_len bytes rest e k (decode_node room bytes) refl
  ]
]
  where
    split :
        (len : ℕ) (after_len bytes rest : Bytes)
        → read_word 4 bs ≡ some (len, after_len)
        → read_exact len after_len ≡ some (bytes, rest)
        → (r : NodeRead) → decode_node room bytes ≡ r
        → Storage.Laws.IsValid (storage_of (load_node room bs s))
    split len after_len bytes rest e k (NodeRead.node n) d =
        rw (e, k, d, load_node) (restore_node-IsValid s n rest v (decode_node_bound room bytes n d))
    split len after_len bytes rest e k _ d = rw (e, k, d, load_node) v

-- Whatever bytes it reads, the loop keeps the two maps of the storage in step.
load_each-IsValid :
    (room left : ℕ) (bs : Bytes) (s : Storage)
    → Storage.Laws.IsValid s
    → Storage.Laws.IsValid (load_each room left bs s).1
unfolding load_each
load_each-IsValid room zero bs s v = v
load_each-IsValid room (suc left) bs s v =
    split (load_node room bs s) refl (load_node-IsValid room bs s v) (load_each-IsValid room left)
  where
    split :
        (r : Round)
        → load_node room bs s ≡ r
        → Storage.Laws.IsValid (storage_of (load_node room bs s))
        → ((rest : Bytes) (t : Storage)
            → Storage.Laws.IsValid t
            → Storage.Laws.IsValid (load_each room left rest t).1)
        → Storage.Laws.IsValid (load_each room (suc left) bs s).1
    split (stop st t rest) e w later = rw (e, load_each) (rw e at w)
    split (next t rest) e w later = rw (e, load_each) (later rest t (rw e at w))

-- The order after the pushes of `RebuildLruFromStorage`.
push_all-IsValid :
    (l : Lru) (m : List (ℕ × VNode)) → Lru.View.IsValid l → Lru.View.IsValid (push_all l m)
unfolding push_all
push_all-IsValid l [] v = v
push_all-IsValid l ((id, n) ∷ m) v = push_all-IsValid (Lru.push l id) m (push-IsValid v id)

mem-push_all :
    (l : Lru) (m : Map ℕ VNode) (j : ℕ)
    → Lru.View.IsValid l
    → mem j (ids (push_all l m)) ≡ (if contains j m then true else mem j (ids l))
unfolding push_all contains lookup
mem-push_all l [] j v = refl
mem-push_all l ((id, n) ∷ m) j v =
    ground (arith, mem-push_all (Lru.push l id) m j (push-IsValid v id), mem-push v id j)

cleared-IsValid : (l : Lru) → Lru.View.IsValid (Lru.clear l)
unfolding lookup
cleared-IsValid l = record {
  nodes_unique = tt;
  ids_unique = tt;
  node_of = λ id it e. cc e;
  index_of = λ it id e. cc e;
  allocated = λ it id e. cc e;
}

module _ {I : Type 0} where
  -- What is true of a cache after `LoadNodes` has reported a status.
  abbrev Loaded : VNodeIndex I → Option Status → Type 0
  Loaded s st =
      Storage.Laws.IsValid s.storage
      × Lru.View.IsValid s.lru
      × (st ≡ some ok → (j : ℕ) → mem j (ids s.lru) ≡ has_id s.storage j)

  finish_load-Loaded :
      (s : VNodeIndex I) (storage : Storage) (next_id : ℕ) (st : Option Status)
      → Storage.Laws.IsValid storage
      → Loaded (finish_load s storage next_id) st
  unfolding rebuild_lru mem
  finish_load-Loaded s storage next_id st v = (
    record {
      ids_unique = v.ids_unique;
      keys_unique = v.keys_unique;
      indexed = v.indexed;
      stored = v.stored;
    },
    push_all-IsValid (Lru.clear s.lru) storage.by_id (cleared-IsValid s.lru),
    λ e j. ground (arith, mem-push_all (Lru.clear s.lru) storage.by_id j (cleared-IsValid s.lru)),
  )

  end_load-Loaded :
      (in_memory : Bool) (s : VNodeIndex I) (next_id : ℕ) (st : Option Status) (storage : Storage)
      (unread : Bytes)
      → Storage.Laws.IsValid storage
      → Lru.View.IsValid s.lru
      → let (s', st') = end_load in_memory s next_id st storage unread in Loaded s' st'
  unfolding end_load
  end_load-Loaded in_memory s next_id (some ok) storage unread v w =
      elim (Bool-cases (in_memory && not (is_empty unread))) [
        | inl left_over ↦ rw left_over (v, w, λ e. cc e)
        | inr whole ↦ rw whole (finish_load-Loaded s storage next_id (some ok) v)
      ]
  end_load-Loaded in_memory s next_id none storage unread v w = (v, w, λ e. cc e)
  end_load-Loaded in_memory s next_id (some _) storage unread v w = (v, w, λ e. cc e)

  load_nodes-Loaded :
      (room : ℕ) (in_memory : Bool) (s : VNodeIndex I) (bs : Bytes) (count next_id : ℕ)
      → let (s', st) = load_nodes room in_memory s bs count next_id in Loaded s' st
  unfolding load_nodes
  load_nodes-Loaded room in_memory s bs count next_id =
      let (st, storage, unread) = load_each room count bs (Storage.clear s.storage) in
      end_load-Loaded in_memory (emptied s) next_id st storage unread
        (load_each-IsValid room count bs (Storage.clear s.storage) new_storage-IsValid)
        (cleared-IsValid s.lru)

  -- A load of nodes from any bytes, from a file or from memory, leaves a storage whose two maps are
  -- in step and a valid access order, whatever it reports and whatever the cache was.
  pub load_nodes_safe :
      (room : ℕ) (in_memory : Bool) (s : VNodeIndex I) (bs : Bytes) (count next_id : ℕ)
      → let (s', st) = load_nodes room in_memory s bs count next_id in
        Storage.Laws.IsValid s'.storage × Lru.View.IsValid s'.lru
  load_nodes_safe room in_memory s bs count next_id =
      let (storage_valid, lru_valid, same) = load_nodes-Loaded room in_memory s bs count next_id in
      (storage_valid, lru_valid)

  -- Where a load of nodes reports success, the storage and the access order hold the same ids.
  pub load_nodes_same_ids :
      (room : ℕ) (in_memory : Bool) (s : VNodeIndex I) (bs : Bytes) (count next_id j : ℕ)
      → (load_nodes room in_memory s bs count next_id).1 ≡ some ok
      → let s' = (load_nodes room in_memory s bs count next_id).0 in
        mem j (ids s'.lru) ≡ has_id s'.storage j
  load_nodes_same_ids room in_memory s bs count next_id j loaded =
      (load_nodes-Loaded room in_memory s bs count next_id).2 loaded j
