-- ===== src/KvStore/Dump.antt =====
-- What `Dump` writes, `Load` and `LoadFrom` read back.
use vemory.Prelude.{
  ℕ, ◌+◌, ◌^◌, ◌<◌, ◌≤◌, ◌≡◌, ◌≢◌, Bytes, bytes_eq, [], ◌∷◌, ◌++◌, some, true, arith, length,
  append_assoc, length-append, take_of_length-le, append-nil,
}
use vemory.Map.{IsMap}
use vemory.Map.Laws.{emplace_new, lookup_before}
use vemory.Stdio.{Sink, read_word, to_le}
use vemory.Stdio.Laws.{
  length-to_le, Fits-4, Fits-8, read_exact-append, read_word-to_le, write_exact-room, after,
  after-after,
}
use vemory.KvStore.{
  KvStore, ok, dump_entry, dump_entries, dump, read_string, load_entries, load, at_end, load_from,
  u32,
}

-- Keys and values that `Dump` can hold: no empty key, and no length past 32 bits.
abbrev pub Storable : KvStore → Type 0
Storable [] = Unit {0}
Storable ((k, v) ∷ m) = (k ≢ []) × (length k < 2 ^ 32) × (length v < 2 ^ 32) × Storable m

-- A string with its length before it.
abbrev pub string_bytes : Bytes → Bytes
string_bytes s = to_le 4 (length s) ++ s

abbrev pub entries_bytes : KvStore → Bytes
entries_bytes [] = []
entries_bytes ((k, v) ∷ m) = string_bytes k ++ (string_bytes v ++ entries_bytes m)

-- The layout of a dump.
abbrev pub dump_bytes : KvStore → Bytes
dump_bytes m = to_le 8 (length m) ++ entries_bytes m

read_string-bytes :
    (s rest : Bytes) → length s < 2 ^ 32 → read_string (string_bytes s ++ rest) ≡ some (s, rest)
unfolding read_string
read_string-bytes s rest h = rw append_assoc (
    ground (
      arith,
      read_word-to_le 4 (length s) (s ++ rest) (Fits-4 (length s) h),
      read_exact-append s rest,
    ))

load_entries-bytes :
    (m before : KvStore) (rest : Bytes)
    → Storable m
    → IsMap (before ++ m)
    → load_entries (length m) (entries_bytes m ++ rest) before ≡ (ok, before ++ m, rest)
unfolding load_entries
load_entries-bytes [] before rest h u = rw append-nil
load_entries-bytes ((k, v) ∷ m) before rest h u = ground (
  arith,
  append_assoc (string_bytes k) (string_bytes v ++ entries_bytes m) rest,
  append_assoc (string_bytes v) (entries_bytes m) rest,
  read_string-bytes k (string_bytes v ++ (entries_bytes m ++ rest)) h.1,
  read_string-bytes v (entries_bytes m ++ rest) h.2,
  h.0,
  emplace_new k v before (lookup_before before m k v u),
  load_entries-bytes m (before ++ (k, v) ∷ []) rest h.3 (rw append_assoc u),
  append_assoc before ((k, v) ∷ []) m,
)

pub u32_small : (n : ℕ) → n < 2 ^ 32 → u32 n ≡ n
u32_small n h = omega arith

pub length-string_bytes : (s : Bytes) → length (string_bytes s) ≡ 4 + length s
length-string_bytes s =
    omega (arith, length-append (to_le 4 (length s)) s, length-to_le 4 (length s))

dump_entry-bytes :
    (f : Sink) (k v : Bytes)
    → length k < 2 ^ 32
    → length v < 2 ^ 32
    → length (string_bytes k) + length (string_bytes v) ≤ f.room
    → dump_entry f k v ≡ (after (after f (string_bytes k)) (string_bytes v), true)
unfolding dump_entry
dump_entry-bytes f k v hk hv fits =
    let a : Bytes = to_le 4 (length k) in
    let b : Bytes = to_le 4 (length v) in
    let size_k = length-to_le 4 (length k) in
    let size_v = length-to_le 4 (length v) in
    let all_k = length-string_bytes k in
    let all_v = length-string_bytes v in
    rw
      (
        u32_small (length k) hk,
        u32_small (length v) hv,
        take_of_length-le (length k) k (omega arith),
        take_of_length-le (length v) v (omega arith),
        write_exact-room f a (omega arith),
        write_exact-room (after f a) k (omega arith),
        write_exact-room (after (after f a) k) b (omega arith),
        write_exact-room (after (after (after f a) k) b) v (omega arith),
      )
      (cc (after-after f a k, after-after (after (after f a) k) b v))

dump_entries-bytes :
    (m : KvStore) (f : Sink)
    → Storable m
    → length (entries_bytes m) ≤ f.room
    → dump_entries f m ≡ (after f (entries_bytes m), ok)
unfolding dump_entries
dump_entries-bytes [] f h fits = ground (arith, append-nil f.written)
dump_entries-bytes ((k, v) ∷ m) f h fits =
    let size_rest = length-append (string_bytes v) (entries_bytes m) in
    let size = length-append (string_bytes k) (string_bytes v ++ entries_bytes m) in
    let f' : Sink = after (after f (string_bytes k)) (string_bytes v) in
    rw (
      dump_entry-bytes f k v h.1 h.2 (omega arith),
      dump_entries-bytes m f' h.3 (omega arith),
      after-after (after f (string_bytes k)) (string_bytes v) (entries_bytes m),
      after-after f (string_bytes k) (string_bytes v ++ entries_bytes m),
    )

-- A device with room for it holds exactly the layout after `Dump`, which reports success.
pub dump-bytes :
    (m : KvStore) (f : Sink)
    → Storable m
    → length (dump_bytes m) ≤ f.room
    → dump m f ≡ (after f (dump_bytes m), ok)
unfolding dump
dump-bytes m f h fits =
    let size = length-append (to_le 8 (length m)) (entries_bytes m) in
    rw (
      write_exact-room f (to_le 8 (length m)) (omega arith),
      dump_entries-bytes m (after f (to_le 8 (length m))) h (omega arith),
      after-after f (to_le 8 (length m)) (entries_bytes m),
    )

load_dump_bytes :
    (room : ℕ) (m : KvStore) (rest : Bytes)
    → Storable m
    → IsMap m
    → length m < 2 ^ 64
    → (read_word 8 (dump_bytes m ++ rest) ≡ some (length m, entries_bytes m ++ rest))
      × (load_entries (length m) (entries_bytes m ++ rest) [] ≡ (ok, m, rest))
load_dump_bytes room m rest h u few = (
  rw append_assoc (read_word-to_le 8 (length m) (entries_bytes m ++ rest) (Fits-8 (length m) few)),
  load_entries-bytes m [] rest h u,
)

-- A store that is dumped to a device with room and loaded again, over any store and with anything
-- behind the dump, is the same store: for keys that are unique and not empty, and sizes that the
-- format holds.
pub load-dump :
    (room : ℕ) (m old : KvStore) (f : Sink) (rest : Bytes)
    → Storable m
    → IsMap m
    → length m < 2 ^ 64
    → length m ≤ room
    → f.written ≡ []
    → length (dump_bytes m) ≤ f.room
    → ((dump m f).1 ≡ ok) × (load room old ((dump m f).0.written ++ rest) ≡ (some ok, m))
unfolding load
load-dump room m old f rest h u few fits fresh space =
    let (count, entries) = load_dump_bytes room m rest h u few in
    ground (arith, dump-bytes m f h space, count, entries)

-- From memory the same holds when the dump is all there is.
pub load_from-dump :
    (room : ℕ) (m old : KvStore) (f : Sink)
    → Storable m
    → IsMap m
    → length m < 2 ^ 64
    → length m ≤ room
    → f.written ≡ []
    → length (dump_bytes m) ≤ f.room
    → load_from room old (dump m f).0.written ≡ (some ok, m)
unfolding load_from at_end
load_from-dump room m old f h u few fits fresh space =
    let (count, entries) = load_dump_bytes room m [] h u few in
    ground (
      arith,
      dump-bytes m f h space,
      append-nil (dump_bytes m),
      append-nil (entries_bytes m),
      count,
      entries,
    )
