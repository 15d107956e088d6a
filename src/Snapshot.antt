-- ===== src/Snapshot.antt =====
-- src/persist/SnapshotManager.cc, include/vemory/persist/SnapshotManager.h: snapshots of both stores
-- in one file, written by a child process and loaded at a start. The stores' pointers are not null,
-- and the build maps files (VEMORY_RDB_MMAP). The file system is a map from paths to contents; which
-- of its calls fail, and how much a file may hold, is a parameter, Disk.
pub mod Format
pub mod Layout
pub mod Atomic
pub mod Image
pub mod Saved
pub mod RoundTrip
pub mod Background
mod Tests
use vemory.Prelude.{
  ℕ, ◌+◌, ◌-◌, ◌%◌, ◌^◌, Bool, true, false, not, ◌||◌, ◌&&◌, Option, none, some, List, [], ◌∷◌,
  ◌++◌, Bytes, bytes_eq, ◌=?◌, codes, length, take, drop, replicate, ltb, ◌==◌, if◌then◌else◌,
}
use vemory.Decimal.{int64_max}
use vemory.Request.{is_empty}
use vemory.Map.{Map, lookup, assign, emplace, erase, contains}
use vemory.Stdio.{Sink}
use vemory.KvStore
use vemory.KvStore.{KvStore}
use vemory.Storage
use vemory.Embed.{Usearch}
use vemory.Index
use vemory.Index.{VNodeIndex}
use vemory.Index.Persist.{dump_nodes, load_nodes, save_index, load_index, load_index_mapped}
use Format.{
  TocEntry, Header, ReadStatus, new_header, no_section, current_version, header_bytes, write_header,
  read_header, parse_header,
}

pub data Status : Type 0 where
  ok bad_value not_configured in_progress io_error error : Status

abbrev pub Files : Type 0
Files = Map Bytes Bytes

-- Which calls succeed, and the bytes that a file may have past its header.
pub record Disk : Type 0 where
  pub makes_directories : Bool
  pub opens : Bool
  -- the calls of `fseek`, and those of `ftell`, counted from 0
  pub seeks : ℕ → Bool
  pub tells : ℕ → Bool
  pub syncs : Bool
  pub renames : Bool
  pub maps : Bool
  pub room : ℕ

abbrev pub rdb_name : Bytes
rdb_name = codes "dump.rdb"

abbrev pub flag_has_usearch : ℕ
flag_has_usearch = 1

-- `has_parent_path`
unfoldable pub has_slash : Bytes → Bool
has_slash [] = false
has_slash (c ∷ cs) = c == b'/' || has_slash cs

-- A file written, and one renamed over another.
abbrev pub write_file : Bytes → Bytes → Files → Files
write_file path b fs = assign path b fs

unfoldable pub rename : Bytes → Bytes → Files → Files
rename from to fs = elim (lookup from fs) [ none ↦ fs | some b ↦ write_file to b (erase from fs) ]

-- The parts of a snapshot as `SaveToPath` writes them: what is behind the header, and the header,
-- or `none` where a call has failed.
abbrev pub Parts : Type 0
Parts = Sink × Option Header

-- The entry of a section that was written from `start` on. The file's header is in front of `f`.
abbrev pub section_from : ℕ → Sink → TocEntry
section_from start f = record { offset = header_bytes + start; len = length f.written - start }

-- What the file holds when the header has not been written: the bytes that were skipped are 0.
abbrev pub headless : Bytes → Bytes
headless body = if is_empty body then [] else replicate header_bytes 0 ++ body

abbrev pub tmp_path : Bytes → Bytes
tmp_path path = path ++ codes ".tmp"

-- `top` written over the start of a file.
abbrev pub over : Bytes → Bytes → Bytes
over top file = top ++ drop (length top) file

module _ {I : Type 0} (u : Usearch I) (d : Disk) where
  -- The third section, and the flag.
  unfoldable pub save_vectors : VNodeIndex I → Sink → Header → Parts
  save_vectors s f h =
      if h.dim == 0
      then (f, some h)
      else if not (d.tells 4)
      then (f, none)
      else (let (f', st) = save_index u s f in
          let e = section_from (length f.written) f' in
          elim st [
            | Index.Status.ok ↦ if not (d.tells 5) then (f', none) else (
              f',
              some (record h {
                usearch = e;
                flags = if e.len == 0 then h.flags else flag_has_usearch;
              }),
            )
            | _ ↦ (f', none)
          ])

  -- The second section.
  unfoldable pub save_nodes : VNodeIndex I → Sink → Header → Parts
  save_nodes s f h =
      if not (d.tells 2)
      then (f, none)
      else (let (f', st) = dump_nodes s f in
          elim st [
            | Index.Status.ok ↦
                if d.tells 3
                then save_vectors s f' (record h { nodes = section_from (length f.written) f' })
                else (f', none)
            | _ ↦ (f', none)
          ])

  -- The first section.
  unfoldable pub save_kv : VNodeIndex I → KvStore → Sink → Header → Parts
  save_kv s m f h =
      if not (d.tells 0)
      then (f, none)
      else (let (f', st) = KvStore.dump m f in
          elim st [
            | KvStore.Status.ok ↦
                if d.tells 1
                then save_nodes s f' (record h { kv = section_from (length f.written) f' })
                else (f', none)
            | _ ↦ (f', none)
          ])

  -- The header before the sections are known.
  abbrev pub counts : VNodeIndex I → KvStore → Header
  counts s m = record new_header {
    version = current_version;
    dim = s.dim;
    next_id = s.storage.next_id;
    kv_count = length m;
    node_count = Storage.size s.storage;
  }

  abbrev pub empty_file : Sink
  empty_file = record { written = []; room = d.room }

  abbrev pub save_parts : VNodeIndex I → KvStore → Parts
  save_parts s m =
      if not (d.seeks 0) then (empty_file, none) else save_kv s m empty_file (counts s m)

  -- `WriteHeader`, `FsyncFile` and `AtomicRename`.
  unfoldable pub seal : Files → Bytes → Sink → Header → Files × Status
  seal fs path f h =
      let (top, wrote) = write_header (record { written = []; room = f.room }) h in
      let fs' = write_file (tmp_path path) (over top.written (headless f.written)) fs in
      if not (d.seeks 1)
      then (write_file (tmp_path path) (headless f.written) fs, io_error)
      else if not wrote || not d.syncs || not d.renames
      then (fs', io_error)
      else (rename (tmp_path path) path fs', ok)

  -- `SaveToPath`
  unfoldable pub save_to_path : VNodeIndex I → KvStore → Files → Bytes → Files × Status
  save_to_path s m fs path =
      if is_empty path
      then (fs, bad_value)
      else if has_slash path && not d.makes_directories
      then (fs, io_error)
      else if not d.opens
      then (fs, io_error)
      else (let (f, header) = save_parts s m in
          elim header [
            | none ↦ (write_file (tmp_path path) (headless f.written) fs, io_error)
            | some h ↦ seal fs path f h
          ])

-- Both stores.
abbrev pub Loaded : Type 0 → Type 0
Loaded I = VNodeIndex I × KvStore

-- The outcome of a load: `none` is the exception of a `reserve` for more than `room` entries.
abbrev pub Outcome : Type 0 → Type 0
Outcome I = Loaded I × Option Status

-- `fseek` to an offset that is cast to `long`: what can be read from there.
unfoldable pub seek : Bytes → ℕ → Option Bytes
seek file offset = if ltb int64_max offset then none else some (drop offset file)

-- A section in memory.
abbrev pub slice : Bytes → TocEntry → Bytes
slice file e = take e.len (drop e.offset file)

-- The next id of the header, cast to 16 bits.
abbrev pub id16 : Header → ℕ
id16 h = h.next_id % 2 ^ 16

-- Whether a load is over: with success, or with an exception.
abbrev pub is_over : Option Status → Bool
is_over none = true
is_over (some ok) = true
is_over (some st) = false

-- `Path`, for a directory without a trailing slash.
abbrev pub path_in : Bytes → Bytes → Bytes
path_in dir name = if is_empty dir then name else dir ++ b'/' ∷ name

module _ {I : Type 0} (u : Usearch I) (kv_room node_room : ℕ) where
  -- The end of `LoadFromFile`.
  unfoldable pub load_vectors : Bytes → Header → Loaded I → Outcome I
  load_vectors file h (s, m) =
      if h.dim == 0
      then ((s, m), some ok)
      else if h.usearch.len == 0
      then ((s, m), some error)
      else elim (seek file h.usearch.offset) [
        | none ↦ ((s, m), some io_error)
        | some bs ↦
            let (s', st) = load_index u s bs h.dim in
            ((s', m), some (elim st [ Index.Status.ok ↦ ok | _ ↦ io_error ]))
      ]

  -- What follows the load of the nodes in both routines: their status and the test of the count.
  unfoldable pub nodes_loaded :
      Option Index.Status → ℕ → Loaded I → (Loaded I → Outcome I) → Outcome I
  nodes_loaded none count l next = (l, none)
  nodes_loaded (some Index.Status.ok) count l next =
      if not (Storage.size l.0.storage == count) then (l, some error) else next l
  nodes_loaded (some st) count l next = (l, some io_error)

  -- What follows the load of the strings.
  unfoldable pub kv_loaded :
      Option KvStore.Status → ℕ → Loaded I → (Loaded I → Outcome I) → Outcome I
  kv_loaded none count l next = (l, none)
  kv_loaded (some KvStore.Status.ok) count l next =
      if not (length l.1 == count) then (l, some error) else next l
  kv_loaded (some st) count l next = (l, some io_error)

  -- The nodes in `LoadFromFile`.
  unfoldable pub file_nodes : Bytes → Header → Loaded I → Outcome I
  file_nodes file h (s, m) = elim (seek file h.nodes.offset) [
    | none ↦ ((s, m), some io_error)
    | some bs ↦
        let (s', st) = load_nodes node_room false (Index.clear s) bs h.node_count (id16 h) in
        nodes_loaded st h.node_count (s', m) (load_vectors file h)
  ]

  -- `LoadFromFile`, on the contents of the file.
  unfoldable pub load_from_file : Bytes → Loaded I → Outcome I
  load_from_file file (s, m) =
      let (read, h) = read_header file in
      elim read [
        | ReadStatus.ok ↦ elim (seek file h.kv.offset) [
          | none ↦ ((s, m), some io_error)
          | some bs ↦
              let (st, m') = KvStore.load kv_room [] bs in
              kv_loaded st h.kv_count (s, m') (file_nodes file h)
        ]
        | ReadStatus.bad_value ↦ ((s, m), some bad_value)
        | ReadStatus.io_error ↦ ((s, m), some io_error)
        | ReadStatus.error ↦ ((s, m), some error)
      ]

  -- The end of `LoadFromMapped`. `view` is `usearch_mmap_view_`.
  unfoldable pub map_vectors : Bool → Bytes → Bytes → Header → Loaded I → Outcome I
  map_vectors view path file h (s, m) =
      if h.dim == 0
      then ((s, m), some ok)
      else if h.usearch.len == 0
      then ((s, m), some error)
      else (let (s', st) = load_index_mapped u s path file h.usearch.offset h.dim view in
          ((s', m), some (elim st [ Index.Status.ok ↦ ok | _ ↦ io_error ])))

  unfoldable pub map_nodes : Bool → Bytes → Bytes → Header → Loaded I → Outcome I
  map_nodes view path file h (s, m) =
      let (s', st) =
        load_nodes node_room true (Index.clear s) (slice file h.nodes) h.node_count (id16 h) in
      nodes_loaded st h.node_count (s', m) (map_vectors view path file h)

  -- `LoadFromMapped`
  unfoldable pub load_from_mapped : Disk → Bool → Files → Bytes → Loaded I → Outcome I
  load_from_mapped d view fs path (s, m) =
      if is_empty path then ((s, m), some bad_value) else elim (lookup path fs) [
        | none ↦ ((s, m), some io_error)
        | some file ↦
            let (read, h) = parse_header file in
            if not d.maps && not (is_empty file) then ((s, m), some io_error) else elim read [
              | ReadStatus.io_error ↦ ((s, m), some io_error)
              | ReadStatus.ok ↦
                  let (st, m') = KvStore.load_from kv_room [] (slice file h.kv) in
                  kv_loaded st h.kv_count (s, m') (map_nodes view path file h)
              | _ ↦ ((s, m), some error)
            ]
      ]

  -- `LoadFromPath`: the mapped file, and if that fails in any way the file through a stream.
  unfoldable pub load_from_path : Disk → Bool → Files → Bytes → Loaded I → Outcome I
  load_from_path d view fs path l =
      if is_empty path
      then (l, some bad_value)
      else (let (l', st) = load_from_mapped d view fs path l in
          if is_over st then (l', st) else elim (lookup path fs) [
            | none ↦ (l', some io_error)
            | some file ↦ if d.opens then load_from_file file l' else (l', some io_error)
          ])

  -- `Load`
  unfoldable pub load : Disk → Bool → Files → Bytes → Loaded I → Outcome I
  load d view fs dir l =
      if is_empty dir
      then (l, some not_configured)
      else load_from_path d view fs (path_in dir rdb_name) l
