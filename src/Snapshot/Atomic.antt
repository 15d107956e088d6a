-- ===== src/Snapshot/Atomic.antt =====
-- A save that fails does not touch the last snapshot.
use vemory.Prelude.{
  ◌≡◌, ◌≢◌, refl, sym, ap, ◌∙◌, Bool, true, false, Option, none, some, Bytes, bytes_eq, ◌=?◌, [],
  codes, length, length-append, arith, Bool-cases, Option-cases, inl, inr, if◌then◌else◌, ◌⊎◌,
  bytes_eqb_iff,
}
use vemory.Map.{lookup, erase}
use vemory.Map.Laws.{lookup-assign, lookup-erase}
use vemory.Stdio.{Sink}
use vemory.KvStore.{KvStore}
use vemory.Embed.{Usearch}
use vemory.Index.{VNodeIndex}
use vemory.Snapshot.Format.{Header, write_header}
use vemory.Snapshot.{
  Status, ok, bad_value, io_error, Files, Disk, write_file, rename, tmp_path, seal, save_to_path,
  save_parts, headless, over,
}

-- The temporary file is another file.
pub tmp_path_ne : (path : Bytes) → tmp_path path ≢ path
tmp_path_ne path e =
    omega (arith, ap (λ (b : Bytes). length b) e, length-append path (codes ".tmp"))

pub bytes_ne : (p q : Bytes) → q ≢ p → (p =? q) ≡ false
bytes_ne p q ne = elim (Bool-cases (p =? q)) [
  | inl same ↦ absurd (ne (sym ((bytes_eqb_iff p q).0 same)))
  | inr other ↦ other
]

lookup-write_file_ne :
    (q path b : Bytes) (fs : Files) → q ≢ path → lookup q (write_file path b fs) ≡ lookup q fs
lookup-write_file_ne q path b fs ne = lookup-assign path q b fs ∙ rw (bytes_ne path q ne) refl

lookup-rename_ne :
    (q from to : Bytes) (fs : Files)
    → q ≢ from
    → q ≢ to
    → lookup q (rename from to fs) ≡ lookup q fs
unfolding rename
lookup-rename_ne q from to fs n₁ n₂ = elim (Option-cases (lookup from fs)) [
  | inl missing ↦ rw (missing, rename) refl
  | inr (b, found) ↦
      rw (found, rename)
        (lookup-write_file_ne q to b (erase from fs) n₂
          ∙ lookup-erase from q fs
          ∙ rw (bytes_ne from q n₁) refl)
]

module _ {I : Type 0} (u : Usearch I) (d : Disk) where
  -- What is at a path that is not the temporary one, if it is not the target or the save fails.
  abbrev Kept : Bytes → Bytes → Files → Files × Status → Type 0
  Kept q path fs (fs', st) = (q ≢ path) ⊎ (st ≢ ok) → lookup q fs' ≡ lookup q fs

  tmp-Kept :
      (q path b : Bytes) (fs : Files) (st : Status)
      → q ≢ tmp_path path
      → Kept q path fs (write_file (tmp_path path) b fs, st)
  tmp-Kept q path b fs st ne why = lookup-write_file_ne q (tmp_path path) b fs ne

  renamed-Kept :
      (q path b : Bytes) (fs : Files)
      → q ≢ tmp_path path
      → Kept q path fs (rename (tmp_path path) path (write_file (tmp_path path) b fs), ok)
  renamed-Kept q path b fs ne (inl other) =
      lookup-rename_ne q (tmp_path path) path (write_file (tmp_path path) b fs) ne other
      ∙ lookup-write_file_ne q (tmp_path path) b fs ne
  renamed-Kept q path b fs ne (inr fails) = absurd (fails refl)

  if-Kept :
      (q path : Bytes) (fs : Files) (b : Bool) (x y : Files × Status)
      → Kept q path fs x
      → Kept q path fs y
      → Kept q path fs (if b then x else y)
  if-Kept q path fs true x y hx hy = hx
  if-Kept q path fs false x y hx hy = hy

  same-Kept : (q path : Bytes) (fs : Files) (st : Status) → Kept q path fs (fs, st)
  same-Kept q path fs st why = refl

  seal-Kept :
      (q path : Bytes) (fs : Files) (f : Sink) (h : Header)
      → q ≢ tmp_path path
      → Kept q path fs (seal u d fs path f h)
  unfolding seal
  seal-Kept q path fs f h ne =
      let top = (write_header (record { written = []; room = f.room }) h).0 in
      let file = over top.written (headless f.written) in
      if-Kept q path fs _ _ _ (tmp-Kept q path (headless f.written) fs io_error ne) (
        if-Kept q path fs _ _ _ (tmp-Kept q path file fs io_error ne)
          (renamed-Kept q path file fs ne))

  written-Kept :
      (q path : Bytes) (fs : Files) (f : Sink) (header : Option Header)
      → q ≢ tmp_path path
      → Kept q path fs (elim header as (λ x. Files × Status) [
        | none ↦ (write_file (tmp_path path) (headless f.written) fs, io_error)
        | some h ↦ seal u d fs path f h
      ])
  written-Kept q path fs f none ne = tmp-Kept q path (headless f.written) fs io_error ne
  written-Kept q path fs f (some h) ne = seal-Kept q path fs f h ne

  -- A save changes no file but its temporary one and, if it succeeds, the one that it is for: when
  -- it fails at any step, the last snapshot is still there.
  pub save_to_path_atomic :
      (s : VNodeIndex I) (m : KvStore) (fs : Files) (path q : Bytes)
      → q ≢ tmp_path path
      → (q ≢ path) ⊎ ((save_to_path u d s m fs path).1 ≢ ok)
      → lookup q (save_to_path u d s m fs path).0 ≡ lookup q fs
  unfolding save_to_path
  save_to_path_atomic s m fs path q ne =
      let (f, header) = save_parts u d s m in
      if-Kept q path fs _ _ _ (same-Kept q path fs bad_value) (
        if-Kept q path fs _ _ _ (same-Kept q path fs io_error) (
          if-Kept q path fs _ _ _ (same-Kept q path fs io_error)
            (written-Kept q path fs f header ne)))
