-- ===== src/Snapshot/Layout.antt =====
-- What holds of the header of a snapshot.
use vemory.Prelude.{
  ℕ, ◌+◌, ◌^◌, ◌<◌, ◌≤◌, ◌≡◌, refl, ap, ◌∙◌, true, false, Option, none, some, List, [], ◌∷◌, ◌++◌,
  Bytes, bytes_eq, length, length-append, append_assoc, append-nil, arith, Bool-cases, inl, inr,
  ◌==◌, ◌⊎◌,
}
use vemory.Stdio.{Sink, read_word, to_le}
use vemory.Stdio.Laws.{
  Fits-4, Fits-8, read_exact-append, read_word-to_le, write_exact-room, after, after-after,
}
use vemory.Snapshot.Format.{
  TocEntry, Header, magic, write_all, header_fields, write_header, read_fields, ReadStatus,
  is_current, read_header, out_of_bounds, parse_header,
}

-- Every field in its width.
pub record IsStorable (h : Header) : Type 0 where
  pub version : h.version < 2 ^ 32
  pub flags : h.flags < 2 ^ 32
  pub dim : h.dim < 2 ^ 64
  pub next_id : h.next_id < 2 ^ 32
  pub pad : h.pad < 2 ^ 32
  pub kv_count : h.kv_count < 2 ^ 64
  pub node_count : h.node_count < 2 ^ 64
  pub kv_offset : h.kv.offset < 2 ^ 64
  pub kv_len : h.kv.len < 2 ^ 64
  pub nodes_offset : h.nodes.offset < 2 ^ 64
  pub nodes_len : h.nodes.len < 2 ^ 64
  pub usearch_offset : h.usearch.offset < 2 ^ 64
  pub usearch_len : h.usearch.len < 2 ^ 64

-- The header on the disk, before `rest`.
abbrev pub header_then : Header → Bytes → Bytes
header_then h rest =
    magic
    ++ (to_le 4 h.version
        ++ (to_le 4 h.flags
            ++ (to_le 8 h.dim
                ++ (to_le 4 h.next_id
                    ++ (to_le 4 h.pad
                        ++ (to_le 8 h.kv_count
                            ++ (to_le 8 h.node_count
                                ++ (to_le 8 h.kv.offset
                                    ++ (to_le 8 h.kv.len
                                        ++ (to_le 8 h.nodes.offset
                                            ++ (to_le 8 h.nodes.len
                                                ++ (to_le 8 h.usearch.offset
                                                    ++ (to_le 8 h.usearch.len ++ rest)))))))))))))

word4 : (n : ℕ) (rest : Bytes) → n < 2 ^ 32 → read_word 4 (to_le 4 n ++ rest) ≡ some (n, rest)
word4 n rest h = read_word-to_le 4 n rest (Fits-4 n h)

word8 : (n : ℕ) (rest : Bytes) → n < 2 ^ 64 → read_word 8 (to_le 8 n ++ rest) ≡ some (n, rest)
word8 n rest h = read_word-to_le 8 n rest (Fits-8 n h)

pub read_fields-header :
    (h : Header) (rest : Bytes) → IsStorable h → read_fields (header_then h rest) ≡ some (magic, h)
unfolding read_fields
read_fields-header h rest s = rw (
  read_exact-append magic _,
  word4 h.version _ s.version,
  word4 h.flags _ s.flags,
  word8 h.dim _ s.dim,
  word4 h.next_id _ s.next_id,
  word4 h.pad _ s.pad,
  word8 h.kv_count _ s.kv_count,
  word8 h.node_count _ s.node_count,
  word8 h.kv.offset _ s.kv_offset,
  word8 h.kv.len _ s.kv_len,
  word8 h.nodes.offset _ s.nodes_offset,
  word8 h.nodes.len _ s.nodes_len,
  word8 h.usearch.offset _ s.usearch_offset,
  word8 h.usearch.len rest s.usearch_len,
)

abbrev flatten : List Bytes → Bytes
flatten [] = []
flatten (b ∷ bs) = b ++ flatten bs

write_all-room :
    (f : Sink) (bs : List Bytes)
    → length (flatten bs) ≤ f.room
    → write_all f bs ≡ (after f (flatten bs), true)
unfolding write_all
write_all-room f [] h = ground (arith, append-nil f.written)
write_all-room f (b ∷ bs) h =
    let size = length-append b (flatten bs) in
    rw
      (
        write_exact-room f b (omega arith),
        write_all-room (after f b) bs (omega arith),
        after-after f b (flatten bs),
      )
      refl

flatten-header : (h : Header) → flatten (header_fields h) ≡ header_then h []
flatten-header h = simp (append_assoc, append-nil)

pub length-header_then :
    (h : Header) (rest : Bytes) → length (header_then h rest) ≡ 96 + length rest
unfolding to_le
length-header_then h rest = omega arith

pub write_header-bytes :
    (f : Sink) (h : Header) → 96 ≤ f.room → write_header f h ≡ (after f (header_then h []), true)
unfolding write_header
write_header-bytes f h space =
    let size = length-header_then h [] in
    let same = flatten-header h in
    write_all-room f (header_fields h) (omega (arith, ap (λ (b : Bytes). length b) same))
    ∙ ap (λ (b : Bytes). (after f b, true)) same

read_header_of :
    (file m : Bytes) (h : Header)
    → read_fields file ≡ some (m, h)
    → is_current m h ≡ true
    → read_header file ≡ (ReadStatus.ok, h)
unfolding read_header
read_header_of file m h e c = rw (e, c, read_header) refl

pub read_header-bytes :
    (h : Header) (rest : Bytes)
    → IsStorable h
    → h.version ≡ 3
    → read_header (header_then h rest) ≡ (ReadStatus.ok, h)
unfolding is_current
read_header-bytes h rest s v =
    let current : is_current magic h ≡ true = ground (arith, v) in
    read_header_of (header_then h rest) magic h (read_fields-header h rest s) current

pub header_then-append : (h : Header) (rest : Bytes) → header_then h [] ++ rest ≡ header_then h rest
header_then-append h rest = simp append_assoc

-- A header of this version that `WriteHeader` has written to a device with room, `ReadHeader` reads
-- back, whatever follows it, if every field fits its width.
pub read_header-write_header :
    (f : Sink) (h : Header) (rest : Bytes)
    → f.written ≡ []
    → 96 ≤ f.room
    → IsStorable h
    → h.version ≡ 3
    → let (f', wrote) = write_header f h in
      (wrote ≡ true) × (read_header (f'.written ++ rest) ≡ (ReadStatus.ok, h))
read_header-write_header f h rest fresh space s v =
    rw (write_header-bytes f h space, fresh)
      (refl, ap read_header (header_then-append h rest) ∙ read_header-bytes h rest s v)

-- A section that is empty, or inside a file of `size` bytes.
abbrev pub Within : ℕ → TocEntry → Type 0
Within size e = (e.len ≡ 0) ⊎ (e.offset + e.len ≤ size)

in_bounds-Within : (size : ℕ) (e : TocEntry) → out_of_bounds size e ≡ false → Within size e
unfolding out_of_bounds
in_bounds-Within size e h = elim (Bool-cases (e.len == 0)) [
  | inl none_ ↦ inl (ground arith)
  | inr some_ ↦ inr (ground arith)
]

-- A header that `ParseHeader` accepts, from a file in memory, is the one that `ReadHeader` accepts from
-- the same file on disk, and each of its sections is empty or lies inside the file, also where the
-- sum of offset and length would not fit 64 bits.
pub parse_header_lem :
    (file : Bytes) (h : Header)
    → parse_header file ≡ (ReadStatus.ok, h)
    → (read_header file ≡ (ReadStatus.ok, h))
      × Within (length file) h.kv
      × Within (length file) h.nodes
      × Within (length file) h.usearch
unfolding parse_header read_header
parse_header_lem [] h e = absurd (cc e)
parse_header_lem (b ∷ bs) h e = go (read_fields (b ∷ bs)) refl
  where
    size : ℕ
    size = length (b ∷ bs)

    go :
        (o : Option (Bytes × Header))
        → read_fields (b ∷ bs) ≡ o
        → (read_header (b ∷ bs) ≡ (ReadStatus.ok, h))
          × Within size h.kv
          × Within size h.nodes
          × Within size h.usearch
    go none q = absurd (ground (arith, q, e))
    go (some (m, k)) q =
        let current : is_current m k ≡ true = ground (arith, q, e) in
        let same : k ≡ h = ground (arith, q, e) in
        let kv : out_of_bounds size k.kv ≡ false = ground (arith, q, e) in
        let nodes : out_of_bounds size k.nodes ≡ false = ground (arith, q, e) in
        let usearch : out_of_bounds size k.usearch ≡ false = ground (arith, q, e) in
        rw (← same) (
          read_header_of (b ∷ bs) m k q current,
          in_bounds-Within size k.kv kv,
          in_bounds-Within size k.nodes nodes,
          in_bounds-Within size k.usearch usearch,
        )
