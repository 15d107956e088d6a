-- ===== src/Snapshot/RoundTrip.antt =====
-- src/persist/SnapshotManager.cc: what a save has written, a load brings back.
use vemory.Prelude.{
  ℕ, ◌+◌, ◌%◌, ◌^◌, ◌<◌, ◌≤◌, ◌≡◌, ◌≢◌, refl, sym, ap, subst, ◌∙◌, Bool, true, false, Option, some,
  Bytes, bytes_eq, nat_eq, [], ◌∷◌, drop, length, arith, ◌==◌, ◌||◌, Bool-cases, inl, inr, =?_refl,
}
use vemory.Request.{is_empty}
use vemory.Map.{IsMap, lookup}
use vemory.Stdio.{Sink}
use vemory.Stdio.Laws.{after}
use vemory.KvStore
use vemory.KvStore.{KvStore}
use vemory.KvStore.Dump.{Storable, dump-bytes, load_from-dump}
use vemory.Storage
use vemory.Storage.{VNode, Storage}
use vemory.Embed
use vemory.Embed.{Usearch, Embed}
use vemory.Codec
use vemory.Storage.Laws
use vemory.Index
use vemory.Index.{VNodeIndex}
use vemory.Index.Persist.{
  adopt, load_nodes, restored_next_id, dump_nodes, save_index, load_index_mapped,
}
use vemory.Index.Persist.RoundTrip.{
  Dumpable, sizes-Dumpable, load_nodes-dump_nodes, dump_each-bytes,
}
use vemory.Snapshot.Format.{Header, ReadStatus}
use vemory.Snapshot.Layout.{IsStorable}
use vemory.Snapshot.{
  map_vectors, map_nodes, nodes_loaded, kv_loaded, load_from_mapped, load_from_path, Loaded,
  Outcome, ok, Files, Disk, save_to_path, tmp_path, rename, write_file,
}
use vemory.Snapshot.Image.{
  strings, nodes, body, header, image, image_parses, image-strings, image-nodes, image_vectors,
  header-IsStorable,
}
use vemory.Snapshot.Saved.{working, saved_file, renamed_found}

adopt_storage :
    {I : Type 0} (u : Usearch I) (s : VNodeIndex I) (dim : ℕ) (e : Embed I) (st : Embed.Status)
    → (adopt u s dim e st).0.storage ≡ s.storage
adopt_storage u s dim e Embed.Status.ok = elim (Bool-cases (e.dimensions == dim)) [
  | inl h ↦ rw h refl
  | inr h ↦ rw h refl
]
adopt_storage u s dim e Embed.Status.not_found = refl
adopt_storage u s dim e Embed.Status.bad_value = refl
adopt_storage u s dim e Embed.Status.error = refl

load_index_mapped_storage :
    {I : Type 0} (u : Usearch I) (s : VNodeIndex I) (path file : Bytes) (offset dim : ℕ)
    (view : Bool)
    → (load_index_mapped u s path file offset dim view).0.storage ≡ s.storage
unfolding load_index_mapped
load_index_mapped_storage u s path file offset dim view =
    let kept =
      let (e, st) =
        Embed.load_mapped u view (Embed.new_embed u dim s.default_capacity) path file offset in
      adopt_storage u s dim e st in
    elim (Bool-cases (is_empty path || dim == 0)) [ inl h ↦ rw h refl | inr h ↦ rw h kept ]

load_strings :
    (kv_room : ℕ) (m : KvStore)
    → Storable m
    → IsMap m
    → length m < 2 ^ 64
    → length m ≤ kv_room
    → KvStore.load_from kv_room [] (strings m) ≡ (some KvStore.ok, m)
load_strings kv_room m storable u few fits =
    let f : Sink = record { written = []; room = length (strings m) } in
    let dumped = dump-bytes m f storable (omega arith) in
    subst (λ (b : Bytes). KvStore.load_from kv_room [] b ≡ (some KvStore.ok, m))
      (ap (λ (r : Sink × KvStore.Status). r.0.written) dumped)
      (load_from-dump kv_room m [] f storable u few fits refl (omega arith))

-- What the load leaves of a storage `saved`.
abbrev pub Restored : Storage → Storage → Type 0
Restored saved t =
    (t.by_id ≡ saved.by_id)
    × ((key : Bytes) → Storage.get_by_user_key t key ≡ Storage.get_by_user_key saved key)
    × (t.next_id ≡ restored_next_id saved.next_id)

load_saved_nodes :
    {I : Type 0} (node_room : ℕ) (s old : VNodeIndex I)
    → 4 ≤ node_room
    → Storage.Laws.IsValid s.storage
    → ((id : ℕ) (n : VNode) → lookup id s.storage.by_id ≡ some n → length (Codec.encode n) < 2 ^ 32)
    → let (t, st) =
        load_nodes node_room true old (nodes s) (length s.storage.by_id) s.storage.next_id in
      (st ≡ some Index.ok) × Restored s.storage t.storage
unfolding dump_nodes
load_saved_nodes node_room s old fits valid small =
    let f : Sink = record { written = []; room = length (nodes s) } in
    let d : Dumpable s.storage.by_id =
      sizes-Dumpable valid s.storage.by_id valid.ids_unique (λ id n e. e) small in
    let (dumped, loaded, same, keys, next) =
      load_nodes-dump_nodes node_room true s old f fits valid small refl (omega arith) in
    subst
      (λ (b : Bytes).
        let (t, st) = load_nodes node_room true old b (length s.storage.by_id) s.storage.next_id in
        (st ≡ some Index.ok) × Restored s.storage t.storage)
      (ap (λ (r : Sink × Index.Status). r.0.written)
        (dump_each-bytes s.storage.by_id f d (omega arith)))
      (loaded, (same, keys, next))

module _ {I : Type 0} (u : Usearch I) (room : ℕ) (s : VNodeIndex I) (m : KvStore) (vectors : Bytes)
    (some_vectors : vectors ≢ []) (has_dim : s.dim ≢ 0)
    -- the library's answer to `save_to_stream`, through the wrapper
    (saves : (f : Sink) → length vectors ≤ f.room → save_index u s f ≡ (after f vectors, Index.ok))
    (kv_room node_room : ℕ) (view : Bool)
    -- the library's answer to `view` or `load` at those bytes, through the wrapper
    (loads : (t : VNodeIndex I) (path file : Bytes) (offset : ℕ)
      → path ≢ []
      → drop offset file ≡ vectors
      → (load_index_mapped u t path file offset s.dim view).1 ≡ Index.ok) where
  abbrev mapped : Bytes → VNodeIndex I → VNodeIndex I
  mapped path t =
      (load_index_mapped u t path (image s m vectors) (header s m vectors).usearch.offset s.dim
        view).0

  map_saved_vectors :
      (path : Bytes) (t : VNodeIndex I)
      → path ≢ []
      → map_vectors u kv_room node_room view path (image s m vectors) (header s m vectors) (t, m)
        ≡ ((mapped path t, m), some ok)
  unfolding map_vectors
  map_saved_vectors path t named =
      let dim : (s.dim == 0) ≡ false = ground (arith, has_dim) in
      let some_bytes : (length vectors == 0) ≡ false = ground (arith, some_vectors) in
      let answer =
        loads t path (image s m vectors) (header s m vectors).usearch.offset named
          (image_vectors s m vectors) in
      rw (dim, some_bytes, answer) refl

  map_saved_nodes :
      (path : Bytes) (old : VNodeIndex I)
      → path ≢ []
      → s.storage.next_id < 65536
      → (let (t, st) =
            load_nodes node_room true
              (Index.clear old)
              (nodes s)
              (length s.storage.by_id)
              s.storage.next_id in
          (st ≡ some Index.ok) × Restored s.storage t.storage)
      → (t : VNodeIndex I) × (map_nodes u kv_room node_room view path
            (image s m vectors)
            (header s m vectors)
            (old, m)
          ≡ ((t, m), some ok))
        × Restored s.storage t.storage
  unfolding map_nodes nodes_loaded
  map_saved_nodes path old named small (loaded, kept) =
      let t : VNodeIndex I =
        (load_nodes node_room true (Index.clear old) (nodes s) (length s.storage.by_id)
          s.storage.next_id).0 in
      let same_id : s.storage.next_id % 2 ^ 16 ≡ s.storage.next_id = omega arith in
      let size : (length t.storage.by_id == length s.storage.by_id) ≡ true =
        rw kept.0 (=?_refl (length s.storage.by_id)) in
      let storage =
        load_index_mapped_storage u t path (image s m vectors) (header s m vectors).usearch.offset
          s.dim view in
      (
        mapped path t,
        rw (image-nodes s m vectors, same_id, loaded, size, map_nodes, nodes_loaded)
            (map_saved_vectors path t named),
        subst (λ (x : Storage). Restored s.storage x) (sym storage) kept,
      )

  map_saved :
      (d : Disk) (fs : Files) (path : Bytes) (old : VNodeIndex I) (strings_before : KvStore)
      → d.maps ≡ true
      → path ≢ []
      → lookup path fs ≡ some (image s m vectors)
      → IsStorable (header s m vectors)
      → KvStore.load_from kv_room [] (strings m) ≡ (some KvStore.ok, m)
      → load_from_mapped u kv_room node_room d view fs path (old, strings_before)
        ≡ map_nodes u kv_room node_room view path (image s m vectors) (header s m vectors) (old, m)
  unfolding load_from_mapped kv_loaded
  map_saved d fs [] old strings_before maps named found storable loaded = absurd (named refl)
  map_saved d fs (c ∷ cs) old strings_before maps named found storable loaded =
      let parses = image_parses s m vectors storable in
      let read = ap (λ (r : ReadStatus × Header). r.0) parses in
      let head = ap (λ (r : ReadStatus × Header). r.1) parses in
      let st = ap (λ (r : Option KvStore.Status × KvStore). r.0) loaded in
      let all = ap (λ (r : Option KvStore.Status × KvStore). r.1) loaded in
      let size : (length m == length m) ≡ true = =?_refl (length m) in
      rw
        (
          found,
          maps,
          read,
          head,
          image-strings s m vectors,
          st,
          all,
          size,
          load_from_mapped,
          kv_loaded,
        )
        refl

  load_from_path-mapped :
      (d : Disk) (fs : Files) (path : Bytes) (before after : Loaded I)
      → path ≢ []
      → load_from_mapped u kv_room node_room d view fs path before ≡ (after, some ok)
      → load_from_path u kv_room node_room d view fs path before ≡ (after, some ok)
  unfolding load_from_path
  load_from_path-mapped d fs [] before after named loaded = absurd (named refl)
  load_from_path-mapped d fs (c ∷ cs) before after named loaded =
      let left = ap (λ (r : Outcome I). r.0) loaded in
      let st = ap (λ (r : Outcome I). r.1) loaded in rw (left, st, load_from_path) refl

  -- A save of both stores to a path, on a disk on which every call succeeds and with room for the
  -- file, and a load from that path into any stores: both report success, the strings come back,
  -- the nodes come back under their ids, every user key finds what it found, and the
  -- next id is the one that was saved, or 1 in place of 0. (The cache has an index with vectors, its
  -- two maps are in step, no key is empty and no key comes twice, every size fits its field,
  -- `reserve` has room, and the library writes `vectors` and accepts them.)
  pub load_from_path-save_to_path :
      (fs : Files) (path : Bytes) (old : VNodeIndex I) (strings_before : KvStore)
      → path ≢ []
      → Storable m
      → IsMap m
      → length m ≤ kv_room
      → 4 ≤ node_room
      → Storage.Laws.IsValid s.storage
      → ((id : ℕ) (n : VNode)
          → lookup id s.storage.by_id ≡ some n
          → length (Codec.encode n) < 2 ^ 32)
      → s.dim < 2 ^ 64
      → s.storage.next_id < 65536
      → length m < 2 ^ 64
      → length s.storage.by_id < 2 ^ 64
      → 96 + length (body s m vectors) < 2 ^ 64
      → 96 + length (body s m vectors) ≤ room
      → let (fs', st) = save_to_path u (working room) s m fs path in
        let ((t, m'), done) =
          load_from_path u kv_room node_room (working room) view fs' path (old, strings_before) in
        (st ≡ ok) × (done ≡ some ok) × (m' ≡ m) × Restored s.storage t.storage
  load_from_path-save_to_path fs path old strings_before named storable unique strings_fit nodes_fit
        valid small dim id few_strings few_nodes fits space =
      let d : Dumpable s.storage.by_id =
        sizes-Dumpable valid s.storage.by_id valid.ids_unique (λ i n e. e) small in
      let saved =
        saved_file u room s m vectors some_vectors has_dim saves fs path named storable d space in
      let fs' : Files =
        rename (tmp_path path) path (write_file (tmp_path path) (image s m vectors) fs) in
      let found = renamed_found (tmp_path path) path (image s m vectors) fs in
      let (t, maps, kept) =
        map_saved_nodes path old named id
          (load_saved_nodes node_room s (Index.clear old) nodes_fit valid small) in
      let whole =
        map_saved (working room) fs' path old strings_before refl named found
          (header-IsStorable s m vectors dim id few_strings few_nodes fits)
          (load_strings kv_room m storable unique few_strings strings_fit)
        ∙ maps in
      let loaded =
        load_from_path-mapped (working room) fs' path (old, strings_before) (t, m) named whole in
      rw (saved, loaded) (refl, refl, refl, kept)
