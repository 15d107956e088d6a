-- ===== src/Embed.antt =====
-- src/index/USearchEmbedIndex.cc, include/vemory/index/USearchEmbedIndex.h: the vector index over
-- the usearch library, which is a parameter. A vector is its bytes, four to a float, and a score is
-- the bits of a float. Pointers to vectors and results are never null here.
use vemory.Prelude.{
  ℕ, ◌*◌, ◌%◌, Bool, true, false, not, ◌||◌, Option, none, some, List, [], Bytes, leb, ◌==◌, map,
  if◌then◌else◌,
}
use vemory.Request.{is_empty}
use vemory.Stdio.{Sink}

pub record Hit : Type 0 where
  pub id : ℕ
  pub score : ℕ

-- What the source uses of `index_dense_t`. A call that may fail also says what it left behind.
pub record Usearch (I : Type 0) : Type 0 where
  -- `make` with the cosine metric over so many floats
  pub make : ℕ → Option I
  pub try_reserve : I → ℕ → I × Bool
  pub contains : I → ℕ → Bool
  -- the number of vectors removed, or `none` for an error
  pub remove : I → ℕ → I × Option ℕ
  pub size : I → ℕ
  pub capacity : I → ℕ
  pub dimensions : I → ℕ
  pub add : I → ℕ → Bytes → I × Bool
  -- keys with distances, best first, or `none` for an error
  pub search : I → Bytes → ℕ → Option (List (ℕ × ℕ))
  pub save_to_stream : I → Sink → Sink × Bool
  -- the index after the read, and the unread bytes unless it failed
  pub load_from_stream : I → Bytes → I × Option Bytes
  -- from the bytes of a mapped file, at an offset
  pub load_mapped : I → Bytes → ℕ → I × Bool
  pub view_mapped : I → Bytes → ℕ → I × Bool

pub data Status : Type 0 where
  ok not_found bad_value error : Status

pub record Embed (I : Type 0) : Type 0 where
  pub impl : Option I
  pub dimensions : ℕ
  pub capacity : ℕ
  pub viewed : Bool

abbrev pub at_least_one : ℕ → ℕ
at_least_one n = if n == 0 then 1 else n

module _ {I : Type 0} (u : Usearch I) where
  -- The constructor's `make` and `try_reserve`.
  unfoldable pub make_impl : ℕ → ℕ → Option I
  make_impl dims room = if dims == 0 then none else elim (u.make dims) [
    | none ↦ none
    | some i ↦ let (i', reserved) = u.try_reserve i room in if reserved then some i' else none
  ]

  unfoldable pub new_embed : ℕ → ℕ → Embed I
  new_embed dims room = record {
    impl = make_impl dims (at_least_one room);
    dimensions = dims;
    capacity = at_least_one room;
    viewed = false;
  }

  -- `usearchAdd`, after the removal of a vector that is there.
  unfoldable pub add_with_room : ℕ → I → ℕ → Bytes → I × Status
  add_with_room first i id vector =
      let next = if u.capacity i == 0 then first else u.capacity i * 2 in
      let (i', reserved) =
        if leb (u.capacity i) (u.size i) then u.try_reserve i next else (i, true) in
      if reserved
      then (let (i'', added) = u.add i' id vector in (i'', if added then ok else error))
      else (i', error)

  unfoldable pub usearch_add : ℕ → I → ℕ → Bytes → I × Status
  usearch_add first i id vector =
      if u.contains i id
      then (let (i', removed) = u.remove i id in
          elim removed [ none ↦ (i', error) | some n ↦ add_with_room first i' id vector ])
      else add_with_room first i id vector

  -- `Add`: `dim` floats under an id.
  unfoldable pub add : Embed I → ℕ → Bytes → ℕ → Embed I × Status
  add e id vector dim = elim e.impl [
    | none ↦ (e, error)
    | some i ↦
        if e.dimensions == 0
        then (e, error)
        else if not (dim == e.dimensions)
        then (e, bad_value)
        else (let (i', st) = usearch_add e.capacity i id vector in
            (record e { impl = some i' }, st))
  ]

  abbrev pub hit_of : ℕ × ℕ → Hit
  hit_of (key, distance) = record { id = key % 65536; score = distance }

  abbrev usearch_search : I → Bytes → ℕ → Status × List Hit
  usearch_search i query k = elim (u.search i query k) [
    | none ↦ (error, [])
    | some results ↦ (ok, map hit_of results)
  ]

  -- `Search`: the hits beside `ok`.
  unfoldable pub search : Embed I → Bytes → ℕ → ℕ → Status × List Hit
  search e query dim k = elim e.impl [
    | none ↦ (error, [])
    | some i ↦
        if e.dimensions == 0
        then (error, [])
        else if not (dim == e.dimensions) || k == 0
        then (bad_value, [])
        else usearch_search i query k
  ]

  -- `Del`
  unfoldable pub usearch_del : I → ℕ → I × Status
  usearch_del i id =
      if u.contains i id
      then (let (i', removed) = u.remove i id in
          (i', elim removed [ none ↦ error | some n ↦ if n == 0 then not_found else ok ]))
      else (i, not_found)

  unfoldable pub del : Embed I → ℕ → Embed I × Status
  del e id = elim e.impl [
    | none ↦ (e, error)
    | some i ↦
        if e.dimensions == 0
        then (e, error)
        else (let (i', st) = usearch_del i id in (record e { impl = some i' }, st))
  ]

  -- `Save`
  unfoldable pub save : Embed I → Sink → Sink × Status
  save e f = elim e.impl [
    | none ↦ (f, bad_value)
    | some i ↦ let (f', saved) = u.save_to_stream i f in (f', if saved then ok else error)
  ]

  -- The index that a load works on: the one that is there, or a new one.
  unfoldable pub impl_to_load : Embed I → Option I
  impl_to_load e = elim e.impl [ none ↦ u.make e.dimensions | some i ↦ some i ]

  -- What a load that succeeds leaves.
  abbrev pub loaded : I → Bool → Embed I
  loaded i seen = record {
    impl = some i;
    dimensions = u.dimensions i;
    capacity = at_least_one (u.capacity i);
    viewed = seen;
  }

  -- `Load`
  unfoldable pub load : Embed I → Bytes → Embed I × Status × Bytes
  load e bytes = if e.dimensions == 0 then (e, bad_value, bytes) else elim (impl_to_load e) [
    | none ↦ (e, error, bytes)
    | some i ↦
        let (i', read) = u.load_from_stream i bytes in
        elim read [
          | none ↦ (record e { impl = some i' }, error, bytes)
          | some rest ↦ (loaded i' false, ok, rest)
        ]
  ]

  -- `LoadMapped` and `ViewMapped`, which differ in the call of the library and in `viewed_`.
  unfoldable pub load_mapped : Bool → Embed I → Bytes → Bytes → ℕ → Embed I × Status
  load_mapped seen e path file offset =
      if is_empty path || e.dimensions == 0 then (e, bad_value) else elim (impl_to_load e) [
        | none ↦ (e, error)
        | some i ↦
            let (i', read) =
              if seen then u.view_mapped i file offset else u.load_mapped i file offset in
            if read then (loaded i' seen, ok) else (record e { impl = some i' }, error)
      ]
