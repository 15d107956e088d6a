-- ===== src/Index/Persist/Restored.antt =====
-- A semantic cache that is dumped and loaded, as a whole.
use vemory.Prelude.{nat_eq, ℕ, ◌≡◌, ◌≢◌, ◌≤◌, ◌<◌, ◌^◌, Bytes, Bool, some, [], length, arith}
use vemory.Stdio.{Sink}
use vemory.Map.{lookup}
use vemory.Codec
use vemory.Storage.{VNode}
use vemory.Index.{VNodeIndex}
use vemory.Index.Invariant.{InStep}
use vemory.Index.Persist.{dump_nodes, load_nodes}
use vemory.Index.Persist.RoundTrip.{nodes_bytes, load_nodes-dump_nodes}
use vemory.Index.Persist.Safe.{load_nodes_safe, load_nodes_same_ids}

module _ {I : Type 0} where
  -- A semantic cache in step that has ids left, dumped to a device with room and loaded again, is in
  -- step: what holds of a running cache holds after a restart. (No encoding reaches `2 ^ 32` bytes,
  -- and `reserve` has room for four strings.)
  pub load_nodes-InStep :
      (room : ℕ) (in_memory : Bool) (s old : VNodeIndex I) (f : Sink)
      → 4 ≤ room
      → InStep s
      → s.storage.next_id ≢ 0
      → ((id : ℕ) (n : VNode)
          → lookup id s.storage.by_id ≡ some n
          → length (Codec.encode n) < 2 ^ 32)
      → f.written ≡ []
      → length (nodes_bytes s.storage.by_id) ≤ f.room
      → InStep
          (load_nodes room in_memory old
            (dump_nodes s f).0.written
            (length s.storage.by_id)
            s.storage.next_id).0
  load_nodes-InStep room in_memory s old f fits v left small fresh space =
      let bs : Bytes = (dump_nodes s f).0.written in
      let n : ℕ = length s.storage.by_id in
      let (dumped, loaded, nodes, keys, next) =
        load_nodes-dump_nodes room in_memory s old f fits v.storage_valid small fresh space in
      let (storage_valid, lru_valid) = load_nodes_safe room in_memory old bs n s.storage.next_id in
      let same_next : (load_nodes room in_memory old bs n s.storage.next_id).0.storage.next_id
          ≡ s.storage.next_id =
        ground (arith, next, left) in
      record {
        storage_valid = storage_valid;
        storage_fresh = record {
          in_range = rw same_next v.storage_fresh.in_range;
          above = λ id k later e. rw same_next (v.storage_fresh.above id k left (rw nodes at e));
        };
        lru_valid = lru_valid;
        same_ids = λ j. load_nodes_same_ids room in_memory old bs n s.storage.next_id j loaded;
      }
