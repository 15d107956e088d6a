-- ===== src/KvStore.antt =====
-- src/storage/KvStore.cc, include/vemory/storage/KvStore.h: the string store. Pointers to results,
-- files and memory are never null here.
pub mod Laws
pub mod Dump
mod Tests
use vemory.Prelude.{
  ℕ, zero, suc, ◌%◌, ◌^◌, Bool, true, false, Option, none, some, [], ◌∷◌, Bytes, bytes_eq, ltb,
  if◌then◌else◌, length, take,
}
use vemory.Map.{Map, lookup, assign, emplace, erase, contains}
use vemory.Request.{is_empty}
use vemory.Stdio.{Sink, write_exact, read_exact, read_word, to_le}

pub data Status : Type 0 where
  ok not_found bad_value io_error : Status

abbrev pub KvStore : Type 0
KvStore = Map Bytes Bytes

-- `Set`
unfoldable pub set : KvStore → Bytes → Bytes → KvStore × Status
set m key value = if is_empty key then (m, bad_value) else elim (lookup key m) [
  | some old ↦ (assign key value m, ok)
  | none ↦ (emplace key value m, ok)
]

-- `Get`: the value beside `ok`.
unfoldable pub get : KvStore → Bytes → Status × Option Bytes
get m key =
    if is_empty key
    then (bad_value, none)
    else elim (lookup key m) [ none ↦ (not_found, none) | some v ↦ (ok, some v) ]

-- `Del`
unfoldable pub del : KvStore → Bytes → KvStore × Status
del m key =
    if is_empty key
    then (m, bad_value)
    else if contains key m
    then (erase key m, ok)
    else (m, not_found)

-- A `size_t` stored in a `uint32_t`.
abbrev pub u32 : ℕ → ℕ
u32 n = n % 2 ^ 32

-- One round of the loop of `Dump`: the four writes, of which each waits for the one before.
unfoldable pub dump_entry : Sink → Bytes → Bytes → Sink × Bool
dump_entry f key value =
    let (f₁, ok₁) = write_exact f (to_le 4 (u32 (length key))) in
    if ok₁
    then (let (f₂, ok₂) = write_exact f₁ (take (u32 (length key)) key) in
        if ok₂
        then (let (f₃, ok₃) = write_exact f₂ (to_le 4 (u32 (length value))) in
            if ok₃ then write_exact f₃ (take (u32 (length value)) value) else (f₃, false))
        else (f₂, false))
    else (f₁, false)

unfoldable pub dump_entries : Sink → KvStore → Sink × Status
dump_entries f [] = (f, ok)
dump_entries f ((k, v) ∷ m) =
    let (f', done) = dump_entry f k v in
    let rest = dump_entries f' m in if done then rest else (f', io_error)

-- `Dump`
unfoldable pub dump : KvStore → Sink → Sink × Status
dump m f =
    let (f', done) = write_exact f (to_le 8 (length m)) in
    if done then dump_entries f' m else (f', io_error)

-- The reads of one entry: a length and its bytes, twice.
unfoldable pub read_string : Bytes → Option (Bytes × Bytes)
read_string bs = elim (read_word 4 bs) [ none ↦ none | some (n, rest) ↦ read_exact n rest ]

-- The loop of `Load` and `LoadFrom` over the entries that are left: the status, the entries that
-- are in the map when it ends, and the unread bytes.
unfoldable pub load_entries : ℕ → Bytes → KvStore → Status × KvStore × Bytes
load_entries zero bs m = (ok, m, bs)
load_entries (suc left) bs m = elim (read_string bs) [
  | none ↦ (io_error, m, bs)
  | some (key, after_key) ↦ elim (read_string after_key) [
    | none ↦ (io_error, m, after_key)
    | some (value, rest) ↦ elim (is_empty key) [
      | true ↦ (bad_value, m, rest)
      | false ↦ load_entries left rest (emplace key value m)
    ]
  ]
]

-- `Load`: the status and the store after it. `none` is the exception that `reserve` throws for
-- more entries than `room`, the map already cleared. A file too short for the count changes nothing.
unfoldable pub load : ℕ → KvStore → Bytes → Option Status × KvStore
load room m bs = elim (read_word 8 bs) [
  | none ↦ (some io_error, m)
  | some (count, rest) ↦
      if ltb room count
      then (none, [])
      else (let (st, m', unread) = load_entries count rest [] in (some st, m'))
]

-- The test `p != end` after the loop of `LoadFrom`.
unfoldable pub at_end : Status × KvStore × Bytes → Status × KvStore
at_end (ok, m, unread) = (if is_empty unread then ok else io_error, m)
at_end (st, m, unread) = (st, m)

-- `LoadFrom`: the same from memory, where bytes left over are an error.
unfoldable pub load_from : ℕ → KvStore → Bytes → Option Status × KvStore
load_from room m bs = elim (read_word 8 bs) [
  | none ↦ (some io_error, m)
  | some (count, rest) ↦
      if ltb room count
      then (none, [])
      else (let (st, m') = at_end (load_entries count rest []) in (some st, m'))
]
