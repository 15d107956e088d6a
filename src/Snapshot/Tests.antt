-- ===== src/Snapshot/Tests.antt =====
-- The theorems on snapshots at a store with one string and a cache without entries.
use vemory.Prelude.{
  ℕ, ◌≡◌, ◌≢◌, refl, codes, some, [], ◌∷◌, ◌++◌, Bytes, bytes_eq, nat_eq, length-append, ap, drop,
  Bool, ◌≤◌, true, false, arith, inl, length,
}
use vemory.Stdio.{Sink, read_exact, read_word, to_le, from_le, write_exact}
use vemory.Map.{Map, IsMap, lookup}
use vemory.KvStore.{KvStore}
use vemory.KvStore.Dump.{Storable}
use vemory.Index.{VNodeIndex, new_index}
use vemory.Index.Tests.{shelf, one_entry, one_entry-InStep}
use vemory.Snapshot.Format.{
  Header, ReadStatus, new_header, read_header, write_header, parse_header, read_fields, is_current,
  out_of_bounds,
}
use vemory.Snapshot.Layout.{
  IsStorable, header_then, Within, read_header-write_header, parse_header_lem,
}
use vemory.Snapshot
use vemory.Snapshot.{Disk, Files, Outcome, save_to_path, load_from_path}
use vemory.Index.Persist.RoundTrip.{nodes_bytes}
use vemory.Snapshot.Image.{body}
use vemory.Snapshot.Saved.{working}
use vemory.Snapshot.RoundTrip.{Restored, load_from_path-save_to_path}
use vemory.Stdio.Laws.{after, write_exact-room}
use vemory.Embed
use vemory.Embed.{Usearch}
use vemory.Index
use vemory.Index.Persist.{save_index, load_index_mapped}
use vemory.Index.Persist.Tests.{one_entry_small, one_entry_bytes, one_entry_next, one_entry_nodes}
use vemory.Snapshot.Atomic.{save_to_path_atomic}
use vemory.Snapshot.Background.{
  Watched, idle, ask, fire, ended, begins, asks, fires, IsAccounted, Reach-IsAccounted, ask_all,
  background_save_to_path,
}

abbrev small_header : Header
small_header = record new_header {
  kv_count = 1;
  kv = record { offset = 96; len = 3 };
  nodes = record { offset = 99; len = 0 };
}

abbrev small_file : Bytes
small_file = header_then small_header (codes "abc")

small_header-IsStorable : IsStorable small_header
small_header-IsStorable = record {
  version = omega arith;
  flags = omega arith;
  dim = omega arith;
  next_id = omega arith;
  pad = omega arith;
  kv_count = omega arith;
  node_count = omega arith;
  kv_offset = omega arith;
  kv_len = omega arith;
  nodes_offset = omega arith;
  nodes_len = omega arith;
  usearch_offset = omega arith;
  usearch_len = omega arith;
}

abbrev device : Sink
device = record { written = []; room = 1000 }

read_header-write_header_example :
    ((write_header device small_header).1 ≡ true)
    × (read_header ((write_header device small_header).0.written ++ codes "abc")
        ≡ (ReadStatus.ok, small_header))
read_header-write_header_example =
    read_header-write_header device small_header (codes "abc") refl (omega arith)
      small_header-IsStorable refl

small_file_parses : parse_header small_file ≡ (ReadStatus.ok, small_header)
unfolding parse_header read_fields read_exact read_word to_le from_le is_current out_of_bounds
small_file_parses = refl

parse_header_lem_example :
    (read_header small_file ≡ (ReadStatus.ok, small_header))
    × Within (length small_file) small_header.kv
    × Within (length small_file) small_header.nodes
    × Within (length small_file) small_header.usearch
parse_header_lem_example = parse_header_lem small_file small_header small_file_parses

abbrev works : Disk
works = record {
  makes_directories = true;
  opens = true;
  seeks = λ n. true;
  tells = λ n. true;
  syncs = true;
  renames = true;
  maps = true;
  room = 1000;
}

abbrev no_sync : Disk
no_sync = record works { syncs = false }

abbrev old_files : Files
old_files = (codes "data/dump.rdb", codes "old") ∷ (codes "notes", codes "x") ∷ []

abbrev strings : KvStore
strings = (codes "a", codes "1") ∷ []

strings-IsMap : IsMap strings
unfolding lookup
strings-IsMap = (refl, tt)

strings-Storable : Storable strings
strings-Storable = ((λ e. cc e), omega arith, omega arith, tt)

-- A file beside the snapshot, whatever comes of the save.
save_to_path_atomic_example :
    lookup
      (codes "notes")
      (save_to_path shelf no_sync (new_index 4 1) strings old_files (codes "data/dump.rdb")).0
    ≡ lookup (codes "notes") old_files
save_to_path_atomic_example =
    save_to_path_atomic shelf no_sync (new_index 4 1) strings old_files (codes "data/dump.rdb")
      (codes "notes") (λ e. cc) (inl (λ e. cc))

-- Two saves are asked for, of which the second is refused; the first ends with success.
abbrev history : Watched
history =
    fire (ended true) [] []
      (ask ((some 7, codes "a.rdb") ∷ (some 8, codes "b.rdb") ∷ []) (idle (codes "data")))

timer_set :
    (ask
      ((some 7, codes "a.rdb") ∷ (some 8, codes "b.rdb") ∷ [])
      (idle (codes "data"))).manager.timer
    ≡ true
unfolding ask_all background_save_to_path
timer_set = refl

Reach-IsAccounted_example : IsAccounted history
Reach-IsAccounted_example = Reach-IsAccounted (codes "data") history (
    fires (ended true) [] [] timer_set
      (asks ((some 7, codes "a.rdb") ∷ (some 8, codes "b.rdb") ∷ []) begins))

-- A library that writes one byte for its vectors.
abbrev writing_shelf : Usearch (Map ℕ Bytes)
writing_shelf = record shelf { save_to_stream = λ i f. write_exact f (1 ∷ []) }

abbrev cache : VNodeIndex (Map ℕ Bytes)
cache = record one_entry {
  dim = 1;
  index = some (record { impl = some []; dimensions = 1; capacity = 1; viewed = false });
}

shelf_writes :
    (f : Sink) → 1 ≤ f.room → save_index writing_shelf cache f ≡ (after f (1 ∷ []), Index.ok)
unfolding save_index Embed.save
shelf_writes f space =
    let written = write_exact-room f (1 ∷ []) space in
    let first = ap (λ (r : Sink × Bool). r.0) written in
    let second = ap (λ (r : Sink × Bool). r.1) written in rw (first, second) refl

shelf_loads :
    (t : VNodeIndex (Map ℕ Bytes)) (path file : Bytes) (offset : ℕ)
    → path ≢ []
    → drop offset file ≡ 1 ∷ []
    → (load_index_mapped writing_shelf t path file offset 1 true).1 ≡ Index.ok
unfolding load_index_mapped Embed.load_mapped Embed.impl_to_load Embed.new_embed Embed.make_impl
shelf_loads t [] file offset named e = absurd (named refl)
shelf_loads t (c ∷ cs) file offset named e = refl

sections_size : length (body cache strings (1 ∷ [])) ≡ 55
unfolding to_le
sections_size =
    let nodes_size = one_entry_bytes in
    omega (arith, length-append (nodes_bytes one_entry.storage.by_id) (1 ∷ []))

abbrev restored_cache : Outcome (Map ℕ Bytes)
restored_cache =
    load_from_path writing_shelf 10 4 (working 1000) true
      (save_to_path writing_shelf (working 1000) cache strings old_files (codes "data/dump.rdb")).0
      (codes "data/dump.rdb") (new_index 4 1, [])

load_from_path-save_to_path_example :
    ((save_to_path writing_shelf (working 1000) cache strings old_files (codes "data/dump.rdb")).1
      ≡ Snapshot.ok)
    × (restored_cache.1 ≡ some Snapshot.ok)
    × (restored_cache.0.1 ≡ strings)
    × Restored one_entry.storage restored_cache.0.0.storage
unfolding to_le
load_from_path-save_to_path_example =
    load_from_path-save_to_path writing_shelf 1000 cache strings (1 ∷ []) (λ e. cc e)
      (λ e. omega arith) shelf_writes 10 4 true shelf_loads old_files (codes "data/dump.rdb")
      (new_index 4 1) [] (λ e. cc e) strings-Storable strings-IsMap (omega arith) (omega arith)
      one_entry-InStep.storage_valid one_entry_small (omega arith) (omega (arith, one_entry_next))
      (omega arith) (rw one_entry_nodes (omega arith)) (omega (arith, sections_size))
      (omega (arith, sections_size))
