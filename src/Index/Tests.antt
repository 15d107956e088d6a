-- ===== src/Index/Tests.antt =====
-- The theorems on the semantic cache at a cache of one entry, over a list in place of the usearch
-- library.
use vemory.Prelude.{ℕ, ◌≡◌, refl, codes, some, [], ◌∷◌, Bytes, true, nat_eq, bytes_eq, length, map}
use vemory.Map.{Map, lookup, contains, erase, assign}
use vemory.Storage
use vemory.Storage.{VNode, put, set_next_id, get_by_user_key}
use vemory.Storage.Laws.{new_storage-IsValid}
use vemory.Storage.Tests.{new_storage-IsFresh}
use vemory.Lru
use vemory.Lru.View.{ids, mem}
use vemory.Embed
use vemory.Embed.{Usearch}
use vemory.Index.{
  VNodeIndex, ok, new_index, set, peek_lru_user_key, ensure_index, parse_float_blob, put_node,
  add_vector,
}
use vemory.Index.Invariant.{InStep, set-InStep}
use vemory.Index.Eviction.{peek_lru_user_key-front}

-- A library that keeps the vectors in a list and finds the ones that were added first.
abbrev pub shelf : Usearch (Map ℕ Bytes)
shelf = record {
  make = λ dims. some [];
  try_reserve = λ i n. (i, true);
  contains = λ i k. contains k i;
  remove = λ i k. (erase k i, some 1);
  size = λ i. length i;
  capacity = λ i. 4;
  dimensions = λ i. 1;
  add = λ i k v. (assign k v i, true);
  search = λ i query n. some (map (λ e. (e.0, 0)) i);
  save_to_stream = λ i f. (f, true);
  load_from_stream = λ i bs. (i, some bs);
  load_mapped = λ i bs offset. (i, true);
  view_mapped = λ i bs offset. (i, true);
}

pub no_entries-InStep : InStep {I = Map ℕ Bytes} (new_index 4 1)
unfolding lookup mem contains
no_entries-InStep = record {
  storage_valid = new_storage-IsValid;
  storage_fresh = new_storage-IsFresh;
  lru_valid = record {
    nodes_unique = tt;
    ids_unique = tt;
    node_of = λ id it e. cc e;
    index_of = λ it id e. cc e;
    allocated = λ it id e. cc e;
  };
  same_ids = λ j. refl;
}

abbrev pub one_entry : VNodeIndex (Map ℕ Bytes)
one_entry = (set shelf (new_index 4 1) (codes "abcd") (codes "k") (codes "q") (codes "a")).0

pub one_entry-InStep : InStep one_entry
one_entry-InStep =
    set-InStep shelf (new_index 4 1) (codes "abcd") (codes "k") (codes "q") (codes "a")
      no_entries-InStep

set-InStep_example : InStep (set shelf one_entry (codes "efgh") (codes "j") [] []).0
set-InStep_example = set-InStep shelf one_entry (codes "efgh") (codes "j") [] [] one_entry-InStep

pub one_entry_ids : ids one_entry.lru ≡ 1 ∷ []
unfolding set ensure_index parse_float_blob put_node add_vector put Embed.search Embed.new_embed
    Embed.make_impl Embed.add Embed.usearch_add Embed.add_with_room Lru.push contains lookup
one_entry_ids = refl

pub one_entry_full : (Storage.size one_entry.storage ≡ 1) × (one_entry.max_entries ≡ 1)
unfolding set ensure_index parse_float_blob put_node add_vector put Embed.search Embed.new_embed
    Embed.make_impl Embed.add Embed.usearch_add Embed.add_with_room contains lookup assign
one_entry_full = (refl, refl)

peek_lru_user_key-front_example :
    (n : VNode) × (Storage.get_by_id one_entry.storage 1 ≡ some n)
    × (peek_lru_user_key one_entry ≡ (one_entry, ok, n.user_key))
peek_lru_user_key-front_example =
    peek_lru_user_key-front one_entry one_entry-InStep 1 [] one_entry_ids
