-- ===== src/Snapshot/Image.antt =====
-- src/persist/SnapshotManager.cc: the bytes of the file that a save leaves, and what a load finds
-- in them.
use vemory.Prelude.{
  ℕ, ◌+◌, ◌^◌, ◌<◌, ◌≤◌, ◌≡◌, refl, sym, ap, subst, ◌∙◌, true, false, some, Bytes, bytes_eq, nat_eq,
  [], ◌∷◌, ◌++◌, drop, length, length-append, drop-append, take-append, append_assoc, arith, ltb,
}
use vemory.KvStore.{KvStore}
use vemory.KvStore.Dump.{dump_bytes}
use vemory.Storage
use vemory.Storage.{VNode, Storage}
use vemory.Index.{VNodeIndex}
use vemory.Index.Persist.RoundTrip.{nodes_bytes}
use vemory.Snapshot.Format.{
  TocEntry, Header, new_header, magic, parse_header, out_of_bounds, read_fields, is_current,
  ReadStatus,
}
use vemory.Snapshot.Layout.{
  IsStorable, header_then, header_then-append, length-header_then, read_fields-header,
}
use vemory.Snapshot.{slice}

slice-append :
    (a b c : Bytes) → slice (a ++ (b ++ c)) (record { offset = length a; len = length b }) ≡ b
slice-append a b c = rw (drop-append a (b ++ c)) (take-append b c)

slice_at :
    (file a b c : Bytes) (n : ℕ)
    → file ≡ a ++ (b ++ c)
    → length a ≡ n
    → slice file (record { offset = n; len = length b }) ≡ b
slice_at file a b c n e l =
    subst (λ (k : ℕ). slice file (record { offset = k; len = length b }) ≡ b) l
      (ap (λ (x : Bytes). slice x (record { offset = length a; len = length b })) e
        ∙ slice-append a b c)

inside : (size : ℕ) (e : TocEntry) → e.offset + e.len ≤ size → out_of_bounds size e ≡ false
unfolding out_of_bounds
inside size e h = ground (arith, h)

parse_header-read :
    (file m : Bytes) (h : Header)
    → 96 ≤ length file
    → read_fields file ≡ some (m, h)
    → is_current m h ≡ true
    → h.kv.offset + h.kv.len ≤ length file
    → h.nodes.offset + h.nodes.len ≤ length file
    → h.usearch.offset + h.usearch.len ≤ length file
    → parse_header file ≡ (ReadStatus.ok, h)
unfolding parse_header
parse_header-read [] m h long e c a₀ a₁ a₂ = absurd (omega arith)
parse_header-read (b ∷ bs) m h long e c a₀ a₁ a₂ =
    let size : (ltb (length (b ∷ bs)) 96) ≡ false = ground (arith, long) in
    let k = inside (length (b ∷ bs)) h.kv a₀ in
    let n = inside (length (b ∷ bs)) h.nodes a₁ in
    let v = inside (length (b ∷ bs)) h.usearch a₂ in rw (size, e, c, k, n, v, parse_header) refl

-- The header of a snapshot whose sections are so long.
abbrev pub saved_header : {I : Type 0} → VNodeIndex I → KvStore → ℕ → ℕ → ℕ → Header
saved_header s m k n v = record new_header {
  flags = 1;
  dim = s.dim;
  next_id = s.storage.next_id;
  kv_count = length m;
  node_count = Storage.size s.storage;
  kv = record { offset = 96; len = k };
  nodes = record { offset = 96 + k; len = n };
  usearch = record { offset = 96 + (k + n); len = v };
}

abbrev pub strings : KvStore → Bytes
strings m = dump_bytes m

abbrev pub nodes : {I : Type 0} → VNodeIndex I → Bytes
nodes s = nodes_bytes s.storage.by_id

-- The sections of a snapshot, where the library writes `vectors`.
abbrev pub body : {I : Type 0} → VNodeIndex I → KvStore → Bytes → Bytes
body s m vectors = strings m ++ (nodes s ++ vectors)

abbrev pub header : {I : Type 0} → VNodeIndex I → KvStore → Bytes → Header
header s m vectors = saved_header s m (length (strings m)) (length (nodes s)) (length vectors)

abbrev pub image : {I : Type 0} → VNodeIndex I → KvStore → Bytes → Bytes
image s m vectors = header_then (header s m vectors) (body s m vectors)

module _ {I : Type 0} (s : VNodeIndex I) (m : KvStore) (vectors : Bytes) where
  top : Bytes
  top = header_then (header s m vectors) []

  length-top : length top ≡ 96
  unfolding top
  length-top = length-header_then (header s m vectors) []

  image_of_sections : (image s m vectors) ≡ top ++ ((strings m) ++ ((nodes s) ++ vectors))
  unfolding top
  image_of_sections = sym (header_then-append (header s m vectors) (body s m vectors))

  length-image :
      length (image s m vectors) ≡ 96 + (length (strings m) + (length (nodes s) + length vectors))
  length-image = omega (
    arith,
    length-header_then (header s m vectors) (body s m vectors),
    length-append (strings m) ((nodes s) ++ vectors),
    length-append (nodes s) vectors,
  )

  pub image_parses :
      IsStorable (header s m vectors)
      → parse_header (image s m vectors) ≡ (ReadStatus.ok, (header s m vectors))
  unfolding is_current
  image_parses storable =
      let size = length-image in
      parse_header-read (image s m vectors) magic (header s m vectors) (omega arith)
        (read_fields-header (header s m vectors) (body s m vectors) storable) refl (omega arith)
        (omega arith) (omega arith)

  pub image-strings : slice (image s m vectors) (header s m vectors).kv ≡ (strings m)
  image-strings =
      slice_at (image s m vectors) top (strings m) ((nodes s) ++ vectors) 96 image_of_sections
        length-top

  pub image-nodes : slice (image s m vectors) (header s m vectors).nodes ≡ (nodes s)
  image-nodes =
      slice_at (image s m vectors) (top ++ (strings m)) (nodes s) vectors (96 + length (strings m))
        (image_of_sections ∙ sym (append_assoc top (strings m) ((nodes s) ++ vectors)))
        (omega (arith, length-append top (strings m), length-top))

  pub image_vectors :
      drop (96 + (length (strings m) + length (nodes s))) (image s m vectors) ≡ vectors
  image_vectors =
      let size : length (top ++ (strings m) ++ (nodes s))
          ≡ 96 + (length (strings m) + length (nodes s)) =
        omega (
          arith,
          length-append top (strings m),
          length-append (top ++ (strings m)) (nodes s),
          length-top,
        ) in
      subst (λ (n : ℕ). drop n (image s m vectors) ≡ vectors) size
        (rw
          (
            image_of_sections,
            ← append_assoc top (strings m) ((nodes s) ++ vectors),
            ← append_assoc (top ++ (strings m)) (nodes s) vectors,
          )
          (drop-append (top ++ (strings m) ++ (nodes s)) vectors))

  pub header-IsStorable :
      s.dim < 2 ^ 64
      → s.storage.next_id < 65536
      → length m < 2 ^ 64
      → length s.storage.by_id < 2 ^ 64
      → 96 + length (body s m vectors) < 2 ^ 64
      → IsStorable (header s m vectors)
  header-IsStorable dim id strings_fit nodes_fit fits =
      let size = length-append (strings m) ((nodes s) ++ vectors) in
      let size' = length-append (nodes s) vectors in
      record {
        version = omega arith;
        flags = omega arith;
        dim = dim;
        next_id = omega arith;
        pad = omega arith;
        kv_count = strings_fit;
        node_count = nodes_fit;
        kv_offset = omega arith;
        kv_len = omega arith;
        nodes_offset = omega arith;
        nodes_len = omega arith;
        usearch_offset = omega arith;
        usearch_len = omega arith;
      }
