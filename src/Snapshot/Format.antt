-- ===== src/Snapshot/Format.antt =====
-- The header of a snapshot: include/vemory/persist/RdbFormat.h, and `WriteHeader` and `ReadHeader` of
-- src/persist/SnapshotManager.cc. Pointers are not null.
use vemory.Prelude.{
  ℕ, ◌-◌, Bool, true, false, not, ◌||◌, ◌&&◌, Option, none, some, List, [], ◌∷◌, ◌++◌, Bytes,
  bytes_eq, ◌=?◌, codes, length, ltb, ◌==◌, if◌then◌else◌,
}
use vemory.Stdio.{Sink, write_exact, read_exact, read_word, to_le}

pub record TocEntry : Type 0 where
  pub offset : ℕ
  pub len : ℕ

-- The three entries of `toc` are fields of their own.
pub record Header : Type 0 where
  pub version : ℕ
  pub flags : ℕ
  pub dim : ℕ
  pub next_id : ℕ
  pub pad : ℕ
  pub kv_count : ℕ
  pub node_count : ℕ
  pub kv : TocEntry
  pub nodes : TocEntry
  pub usearch : TocEntry

abbrev pub no_section : TocEntry
no_section = record { offset = 0; len = 0 }

-- The members' initial values.
abbrev pub new_header : Header
new_header = record {
  version = 3;
  flags = 0;
  dim = 0;
  next_id = 1;
  pad = 0;
  kv_count = 0;
  node_count = 0;
  kv = no_section;
  nodes = no_section;
  usearch = no_section;
}

abbrev pub magic : Bytes
magic = codes "VEMORYDB"

abbrev pub current_version : ℕ
current_version = 3

abbrev pub header_bytes : ℕ
header_bytes = 96

-- Writes joined by `&&`: none follows one that fails.
unfoldable pub write_all : Sink → List Bytes → Sink × Bool
write_all f [] = (f, true)
write_all f (b ∷ bs) =
    let (f', wrote) = write_exact f b in
    let rest = write_all f' bs in if wrote then rest else (f', false)

-- What each `WriteExact` of `WriteHeader` gets; the last one writes `toc` whole.
abbrev pub header_fields : Header → List Bytes
header_fields h =
    magic
    ∷ to_le 4 h.version
    ∷ to_le 4 h.flags
    ∷ to_le 8 h.dim
    ∷ to_le 4 h.next_id
    ∷ to_le 4 h.pad
    ∷ to_le 8 h.kv_count
    ∷ to_le 8 h.node_count
    ∷ (to_le 8 h.kv.offset
        ++ (to_le 8 h.kv.len
            ++ (to_le 8 h.nodes.offset
                ++ (to_le 8 h.nodes.len ++ (to_le 8 h.usearch.offset ++ to_le 8 h.usearch.len)))))
    ∷ []

-- `WriteHeader`, at the start of the file.
unfoldable pub write_header : Sink → Header → Sink × Bool
write_header f h = write_all f (header_fields h)

infixl 5 ◌>>=◌
abbrev pub ◌>>=◌ {ℓ} : {A B : Type ℓ} → Option A → (A → Option B) → Option B
none >>= f = none
some a >>= f = f a

-- The fields one after another, as `ReadHeader` reads them and `ParseHeader` copies them: the magic
-- bytes and the header, if there are as many bytes.
unfoldable pub read_fields : Bytes → Option (Bytes × Header)
read_fields b₀ = do
  (m, b₁) ← read_exact 8 b₀
  (version, b₂) ← read_word 4 b₁
  (flags, b₃) ← read_word 4 b₂
  (dim, b₄) ← read_word 8 b₃
  (next_id, b₅) ← read_word 4 b₄
  (pad, b₆) ← read_word 4 b₅
  (kv_count, b₇) ← read_word 8 b₆
  (node_count, b₈) ← read_word 8 b₇
  (o₀, b₉) ← read_word 8 b₈
  (l₀, b₁₀) ← read_word 8 b₉
  (o₁, b₁₁) ← read_word 8 b₁₀
  (l₁, b₁₂) ← read_word 8 b₁₁
  (o₂, b₁₃) ← read_word 8 b₁₂
  (l₂, b₁₄) ← read_word 8 b₁₃
  some (
    m,
    record {
      version = version;
      flags = flags;
      dim = dim;
      next_id = next_id;
      pad = pad;
      kv_count = kv_count;
      node_count = node_count;
      kv = record { offset = o₀; len = l₀ };
      nodes = record { offset = o₁; len = l₁ };
      usearch = record { offset = o₂; len = l₂ };
    },
  )

-- The statuses of `ReadHeader` and `ParseHeader`; the header beside `ok`.
pub data ReadStatus : Type 0 where
  ok bad_value io_error error : ReadStatus

-- `memcmp` with the magic, and the test of the version.
unfoldable pub is_current : Bytes → Header → Bool
is_current m h = (m =? magic) && h.version == current_version

-- `ReadHeader`
unfoldable pub read_header : Bytes → ReadStatus × Header
read_header file = elim (read_fields file) [
  | none ↦ (io_error, new_header)
  | some (m, h) ↦ if is_current m h then (ok, h) else (error, new_header)
]

-- Whether a section is out of the file; empty ones are not looked at.
unfoldable pub out_of_bounds : ℕ → TocEntry → Bool
out_of_bounds size e =
    if e.len == 0 then false else ltb size e.offset || ltb (size - e.offset) e.len

-- `ParseHeader`. A mapped file without bytes has no memory: its pointer is null.
unfoldable pub parse_header : Bytes → ReadStatus × Header
parse_header [] = (bad_value, new_header)
parse_header (b ∷ bs) =
    if ltb (length (b ∷ bs)) header_bytes
    then (io_error, new_header)
    else elim (read_fields (b ∷ bs)) [
      | none ↦ (io_error, new_header)
      | some (m, h) ↦
          if not (is_current m h)
          then (error, new_header)
          else if out_of_bounds (length (b ∷ bs)) h.kv
              || (out_of_bounds (length (b ∷ bs)) h.nodes
                  || out_of_bounds (length (b ∷ bs)) h.usearch)
          then (error, new_header)
          else (ok, h)
    ]
