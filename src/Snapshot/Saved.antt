-- ===== src/Snapshot/Saved.antt =====
-- src/persist/SnapshotManager.cc: a save for which every call succeeds.
use vemory.Prelude.{
  ℕ, ◌+◌, ◌-◌, ◌≤◌, ◌≡◌, ◌≢◌, refl, ap, ◌∙◌, Bool, true, false, Option, some, Bytes, bytes_eq,
  nat_eq, [], ◌∷◌, ◌++◌, drop, length, length-append, arith, ◌==◌, ◌&&◌, =?_refl,
}
use vemory.Map.{lookup, erase}
use vemory.Map.Laws.{lookup-assign}
use vemory.Stdio.{Sink}
use vemory.Stdio.Laws.{after, after-after}
use vemory.KvStore
use vemory.KvStore.{KvStore}
use vemory.KvStore.Dump.{Storable, dump-bytes}
use vemory.Embed.{Usearch}
use vemory.Index
use vemory.Index.{VNodeIndex}
use vemory.Index.Persist.{dump_nodes, save_index}
use vemory.Index.Persist.RoundTrip.{Dumpable, dump_each-bytes}
use vemory.Snapshot.Format.{Header}
use vemory.Snapshot.Layout.{header_then, header_then-append, length-header_then, write_header-bytes}
use vemory.Snapshot.{
  ok, Files, Disk, section_from, save_vectors, save_nodes, save_kv, counts, seal, save_to_path,
  has_slash, tmp_path, over, headless, rename, write_file,
}
use vemory.Snapshot.Image.{strings, nodes, body, header, image}

-- A disk on which every call succeeds, with so much room.
abbrev pub working : ℕ → Disk
working room = record {
  makes_directories = true;
  opens = true;
  seeks = λ n. true;
  tells = λ n. true;
  syncs = true;
  renames = true;
  maps = true;
  room = room;
}

pub renamed_found :
    (from to b : Bytes) (fs : Files) → lookup to (rename from to (write_file from b fs)) ≡ some b
unfolding rename
renamed_found from to b fs =
    let written : lookup from (write_file from b fs) ≡ some b =
      lookup-assign from from b fs ∙ rw (=?_refl from) refl in
    rw (written, rename)
      (lookup-assign to to b (erase from (write_file from b fs)) ∙ rw (=?_refl to) refl)

section_of :
    (f : Sink) (b : Bytes)
    → section_from (length f.written) (after f b)
      ≡ record { offset = 96 + length f.written; len = length b }
section_of f b =
    ap (λ (n : ℕ). record { offset = 96 + length f.written; len = n })
      (omega (arith, length-append f.written b))

drop-headless : (b : Bytes) → drop 96 (headless b) ≡ b
drop-headless [] = refl
drop-headless (c ∷ cs) = refl

over-headless : (h : Header) (b : Bytes) → over (header_then h []) (headless b) ≡ header_then h b
over-headless h b =
    let size : length (header_then h []) ≡ 96 = length-header_then h [] in
    rw (size, drop-headless b) (header_then-append h b)

and_false : (b : Bool) → (b && false) ≡ false
and_false true = refl
and_false false = refl

module _ {I : Type 0} (u : Usearch I) (room : ℕ) (s : VNodeIndex I) (m : KvStore) (vectors : Bytes)
    (some_vectors : vectors ≢ []) (has_dim : s.dim ≢ 0)
    -- the library's answer to `save_to_stream`, through the wrapper
    (saves : (f : Sink)
      → length vectors ≤ f.room
      → save_index u s f ≡ (after f vectors, Index.ok)) where
  save_vectors-bytes :
      (f : Sink) (h : Header)
      → h.dim ≡ s.dim
      → length vectors ≤ f.room
      → save_vectors u (working room) s f h ≡ (
        after f vectors,
        some (record h {
          usearch = record { offset = 96 + length f.written; len = length vectors };
          flags = 1;
        }),
      )
  unfolding save_vectors
  save_vectors-bytes f h e space =
      let dim : (h.dim == 0) ≡ false = ground (arith, e, has_dim) in
      let one : (length (f.written ++ vectors) - length f.written == 0) ≡ false =
        ground (arith, some_vectors, length-append f.written vectors) in
      let first = ap (λ (r : Sink × Index.Status). r.0) (saves f space) in
      let second = ap (λ (r : Sink × Index.Status). r.1) (saves f space) in
      rw (dim, second, first, one, section_of f vectors, save_vectors) refl

  save_nodes-bytes :
      (f : Sink) (h : Header)
      → h.dim ≡ s.dim
      → Dumpable s.storage.by_id
      → length ((nodes s) ++ vectors) ≤ f.room
      → save_nodes u (working room) s f h ≡ (
        after f ((nodes s) ++ vectors),
        some (record h {
          nodes = record { offset = 96 + length f.written; len = length (nodes s) };
          usearch = record {
            offset = 96 + (length f.written + length (nodes s));
            len = length vectors;
          };
          flags = 1;
        }),
      )
  unfolding save_nodes dump_nodes
  save_nodes-bytes f h e d space =
      let size = length-append (nodes s) vectors in
      let at : length (f.written ++ (nodes s)) ≡ length f.written + length (nodes s) =
        length-append f.written (nodes s) in
      let h' : Header = record h {
        nodes = record { offset = 96 + length f.written; len = length (nodes s) };
      } in
      let dumped = dump_each-bytes s.storage.by_id f d (omega arith) in
      let first = ap (λ (r : Sink × Index.Status). r.0) dumped in
      let second = ap (λ (r : Sink × Index.Status). r.1) dumped in
      rw (second, first, section_of f (nodes s), save_nodes)
        (save_vectors-bytes (after f (nodes s)) h' e (omega arith)
          ∙ rw (after-after f (nodes s) vectors, at) refl)

  save_kv-bytes :
      Storable m
      → Dumpable s.storage.by_id
      → length (body s m vectors) ≤ room
      → save_kv u
          (working room)
          s
          m
          (record { written = []; room = room })
          (counts u (working room) s m)
        ≡ (
          after (record { written = []; room = room }) (body s m vectors),
          some (header s m vectors),
        )
  unfolding save_kv
  save_kv-bytes storable d space =
      let f : Sink = record { written = []; room = room } in
      let size = length-append (strings m) ((nodes s) ++ vectors) in
      let h' : Header = record (counts u (working room) s m) {
        kv = record { offset = 96; len = length (strings m) };
      } in
      let dumped = dump-bytes m f storable (omega arith) in
      let first = ap (λ (r : Sink × KvStore.Status). r.0) dumped in
      let second = ap (λ (r : Sink × KvStore.Status). r.1) dumped in
      rw (second, first, section_of f (strings m), save_kv)
        (save_nodes-bytes (after f (strings m)) h' refl d (omega arith)
          ∙ rw (after-after f (strings m) ((nodes s) ++ vectors)) refl)

  sealed :
      (fs : Files) (path : Bytes) (f : Sink)
      → f.written ≡ (body s m vectors)
      → 96 ≤ f.room
      → seal u (working room) fs path f (header s m vectors)
        ≡ (rename (tmp_path path) path (write_file (tmp_path path) (image s m vectors) fs), ok)
  unfolding seal
  sealed fs path f e space =
      let top =
        write_header-bytes (record { written = []; room = f.room }) (header s m vectors) space in
      let first = ap (λ (r : Sink × Bool). r.0.written) top in
      let second = ap (λ (r : Sink × Bool). r.1) top in
      let whole = over-headless (header s m vectors) (body s m vectors) in
      rw (first, second, e, whole, seal) refl

  pub saved_file :
      (fs : Files) (path : Bytes)
      → path ≢ []
      → Storable m
      → Dumpable s.storage.by_id
      → 96 + length (body s m vectors) ≤ room
      → save_to_path u (working room) s m fs path
        ≡ (rename (tmp_path path) path (write_file (tmp_path path) (image s m vectors) fs), ok)
  unfolding save_to_path
  saved_file fs [] named storable d space = absurd (named refl)
  saved_file fs (c ∷ cs) named storable d space =
      let parts = save_kv-bytes storable d (omega arith) in
      let first = ap (λ (r : Sink × Option Header). r.0) parts in
      let second = ap (λ (r : Sink × Option Header). r.1) parts in
      rw (and_false (has_slash (c ∷ cs)), second, first)
        (sealed fs (c ∷ cs) (after (record { written = []; room = room }) (body s m vectors)) refl
          (omega arith))
