-- ===== src/Mutation/Tests.antt =====
-- The theorems on mutations at a cache that is full, with a log and a replica that take every frame.
use vemory.Prelude.{
  ℕ, ◌≡◌, ◌≢◌, ◌≤◌, refl, arith, codes, some, none, [], ◌∷◌, ◌++◌, List, Bytes, true, false, ap,
  sym, ◌∙◌, append-nil, append_assoc, Option,
}
use vemory.Request.{RequestContext, new_context}
use vemory.Command.{vset, set}
use vemory.KvStore
use vemory.Encode.{encode_write_command, append_array_header, append_bulk_string}
use vemory.Map.{Map, contains, lookup, emplace, assign, erase}
use vemory.Storage
use vemory.Lru
use vemory.Embed
use vemory.Decimal.{decimal, decimal_ℤ}
use vemory.Index
use vemory.Index.{
  new_index, ensure_index, parse_float_blob, put_node, add_vector, needs_room_for,
  peek_lru_user_key, peek_loop,
}
use vemory.Index.Tests.{shelf, no_entries-InStep, one_entry, one_entry-InStep, one_entry_full}
use vemory.Index.Invariant.{InStep}
use vemory.Wal
use vemory.Wal.{AofWriter, append_frame, enqueue_frame}
use vemory.Mutation.{
  ReplFeed, Stores, client, aof_replay, apply_mutation, apply_set, apply_vset, apply_vdel,
  make_room, evict, evict_one, store_vector, publish, write_frame, append, done,
}
use vemory.Mutation.Replay.{replay, returns}
use vemory.Mutation.Logged.{KeepsFrames, memory, Adds, own_frame}
use vemory.Mutation.Recorded.{EvictedBy, evictions, apply_mutation-Recorded}
use vemory.Mutation.Recovery.{mutations, replay-mutations}
use vemory.Mutation.Capacity.{apply_mutation-InStep, apply_mutation_within}

abbrev pub tape : AofWriter (List Bytes)
tape = record {
  failed = λ w. false;
  enqueue = λ w frame. (w ++ (frame ∷ []), true);
  flush = λ w. (w, true);
  poll = λ w. w;
}

abbrev pub one_slave : ReplFeed (List Bytes)
one_slave = record { has_slaves = λ r. true; feed = λ r frame. r ++ (frame ∷ []) }

abbrev pub full_cache : Stores (Map ℕ Bytes) (List Bytes) (List Bytes)
full_cache = record {
  index = one_entry;
  kv = [];
  wal = some (record { enabled = true; writer = some [] });
  repl = some [];
}

abbrev pub vset_j : RequestContext
vset_j = record new_context { cmd = vset; user_key = codes "j"; vector_blob = codes "efgh" }

apply_mutation-InStep_example :
    let (s', r) = apply_mutation shelf tape one_slave aof_replay true true full_cache vset_j in
    (r ≢ none) × InStep s'.index
apply_mutation-InStep_example =
    apply_mutation-InStep shelf tape one_slave aof_replay true true full_cache vset_j
      one_entry-InStep

apply_mutation_within_example :
    Storage.size
      (apply_mutation shelf tape one_slave client true true full_cache vset_j).0.index.storage
    ≤ one_entry.max_entries
apply_mutation_within_example =
    apply_mutation_within shelf tape one_slave true true full_cache vset_j one_entry-InStep
      (omega (arith, one_entry_full.1)) (omega (arith, one_entry_full))

-- The frames on the tape, one after another.
abbrev tape_bytes : List Bytes → Bytes
tape_bytes [] = []
tape_bytes (frame ∷ frames) = frame ++ tape_bytes frames

tape_takes :
    (w : List Bytes) (frame : Bytes) → tape_bytes (w ++ (frame ∷ [])) ≡ tape_bytes w ++ frame
tape_takes [] frame = append-nil frame
tape_takes (f ∷ w) frame =
    ap (λ l. f ++ l) (tape_takes w frame) ∙ sym (append_assoc f (tape_bytes w) frame)

tape-KeepsFrames : KeepsFrames tape tape_bytes
tape-KeepsFrames = record { takes = λ w frame queued. tape_takes w frame }

abbrev pub empty_cache : Stores (Map ℕ Bytes) (List Bytes) (List Bytes)
empty_cache = record full_cache { index = new_index 4 1 }

abbrev vset_k : RequestContext
vset_k = record vset_j { user_key = codes "k" }

abbrev pub set_a : RequestContext
set_a = record new_context { cmd = set; key = codes "a"; element = codes "1" }

-- The second VSET evicts the entry of the first.
abbrev session : List RequestContext
session = vset_k ∷ set_a ∷ vset_j ∷ []

abbrev session_tape : List Bytes
session_tape =
    codes "*5\r\n$4\r\nVSET\r\n$4\r\nefgh\r\n$1\r\nk\r\n$0\r\n\r\n$0\r\n\r\n"
    ∷ codes "*3\r\n$3\r\nSET\r\n$1\r\na\r\n$1\r\n1\r\n"
    ∷ codes "*2\r\n$4\r\nVDEL\r\n$1\r\nk\r\n"
    ∷ codes "*5\r\n$4\r\nVSET\r\n$4\r\nefgh\r\n$1\r\nj\r\n$0\r\n\r\n$0\r\n\r\n"
    ∷ []

session_succeeds : (mutations shelf tape one_slave empty_cache session).1 ≡ true
unfolding mutations apply_mutation apply_set apply_vset apply_vdel make_room evict evict_one
    store_vector KvStore.set publish write_frame append append_frame enqueue_frame
    encode_write_command append_array_header append_bulk_string decimal decimal_ℤ Index.set
    Index.del ensure_index parse_float_blob put_node add_vector needs_room_for peek_lru_user_key
    peek_loop Storage.put Storage.get_by_user_key Storage.get_by_id Storage.del_by_user_key
    Embed.search Embed.new_embed Embed.make_impl Embed.add Embed.usearch_add Embed.add_with_room
    Embed.del Embed.usearch_del Lru.push Lru.peek_lru Lru.erase_id contains lookup emplace assign
    erase
session_succeeds = refl

session_logged :
    (mutations shelf tape one_slave empty_cache session).0.wal
    ≡ some (record { enabled = true; writer = some session_tape })
unfolding mutations apply_mutation apply_set apply_vset apply_vdel make_room evict evict_one
    store_vector KvStore.set publish write_frame append append_frame enqueue_frame
    encode_write_command append_array_header append_bulk_string decimal decimal_ℤ Index.set
    Index.del ensure_index parse_float_blob put_node add_vector needs_room_for peek_lru_user_key
    peek_loop Storage.put Storage.get_by_user_key Storage.get_by_id Storage.del_by_user_key
    Embed.search Embed.new_embed Embed.make_impl Embed.add Embed.usearch_add Embed.add_with_room
    Embed.del Embed.usearch_del Lru.push Lru.peek_lru Lru.erase_id contains lookup emplace assign
    erase
session_logged = refl

apply_mutation-Recorded_example :
    (keys : List Bytes) × EvictedBy set shelf empty_cache.index keys
    × Adds shelf tape one_slave tape_bytes tape-KeepsFrames empty_cache []
        (evictions keys ++ own_frame set empty_cache.index empty_cache.kv set_a)
        (apply_mutation shelf tape one_slave client true true empty_cache set_a).0
unfolding apply_mutation apply_set KvStore.set publish write_frame append append_frame enqueue_frame
    encode_write_command append_bulk_string append_array_header lookup
apply_mutation-Recorded_example =
    apply_mutation-Recorded shelf tape one_slave tape_bytes tape-KeepsFrames empty_cache [] set_a
      (done 0) no_entries-InStep ([], refl, refl) refl refl

abbrev pub no_float : Bytes → Option (ℕ × Bytes)
no_float s = none

replay-mutations_example :
    let s' = (mutations shelf tape one_slave empty_cache session).0 in
    replay shelf tape one_slave no_float 0 5
      (record { enabled = true; writer = some session_tape })
      true
      (memory empty_cache.index empty_cache.kv)
      (some (tape_bytes session_tape))
    ≡ (memory s'.index s'.kv, returns Wal.Status.ok)
replay-mutations_example =
    replay-mutations shelf tape one_slave tape_bytes tape-KeepsFrames no_float 0 5 empty_cache
      session [] session_tape (omega arith) no_entries-InStep refl refl session_succeeds
      session_logged (omega arith)
