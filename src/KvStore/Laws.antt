-- ===== src/KvStore/Laws.antt =====
-- The store as a function from keys to values.
use vemory.Prelude.{
  ◌≡◌, ◌≢◌, Bytes, bytes_eq, bytes_eqb_iff, ◌=?◌, [], none, some, if◌then◌else◌, arith, Bool-cases,
  Option-cases, inl, inr,
}
use vemory.Map.{lookup, contains, IsMap}
use vemory.Map.Laws.{
  lookup-assign, lookup-emplace, lookup-erase, assign-IsMap, emplace-IsMap, erase-IsMap,
}
use vemory.Request.{is_empty}
use vemory.KvStore.{KvStore, ok, not_found, set, get, del}

-- Each key stands once, and none is empty.
pub record IsValid (m : KvStore) : Type 0 where
  pub unique : IsMap m
  pub no_empty_key : lookup [] m ≡ none

-- After a `Set` of a key that is not empty, that key has the value and every other key what it had.
pub get-set :
    (m : KvStore) (k j v : Bytes)
    → k ≢ []
    → ((set m k v).1 ≡ ok) × (get (set m k v).0 j ≡ (if k =? j then (ok, some v) else get m j))
unfolding set get
get-set m k j v h = elim (Option-cases (lookup k m)) [
  | inl new ↦ ground (arith, lookup-emplace k j v m new, bytes_eqb_iff k j, bytes_eqb_iff k [])
  | inr (old, e) ↦ ground (arith, lookup-assign k j v m, bytes_eqb_iff k j, bytes_eqb_iff k [])
]

-- `Del` reports whether the key was there; afterwards it is not, and no other key has changed.
pub get-del :
    (m : KvStore) (k j : Bytes)
    → k ≢ []
    → ((del m k).1 ≡ (if contains k m then ok else not_found))
      × (get (del m k).0 j ≡ (if k =? j then (not_found, none) else get m j))
unfolding del get contains
get-del m k j h = ground (arith, lookup-erase k j m, bytes_eqb_iff k j, bytes_eqb_iff k [])

-- A `Set` of any key, also of the empty one, keeps the keys unique and none of them empty.
pub set-IsValid : (m : KvStore) (k v : Bytes) → IsValid m → IsValid (set m k v).0
unfolding set
set-IsValid m k v h = elim (Bool-cases (is_empty k)) [
  | inl nameless ↦ rw nameless h
  | inr named ↦ elim (Option-cases (lookup k m)) [
    | inl new ↦
        rw (named, new)
          (record {
            unique = emplace-IsMap k v m new h.unique;
            no_empty_key = ground (arith, lookup-emplace k [] v m new, bytes_eqb_iff k []);
          })
    | inr (old, e) ↦
        rw (named, e)
          (record {
            unique = assign-IsMap k v m h.unique;
            no_empty_key = ground (arith, lookup-assign k [] v m, bytes_eqb_iff k []);
          })
  ]
]

-- So does a `Del`.
pub del-IsValid : (m : KvStore) (k : Bytes) → IsValid m → IsValid (del m k).0
unfolding del
del-IsValid m k h = elim (Bool-cases (is_empty k)) [
  | inl nameless ↦ rw nameless h
  | inr named ↦ elim (Bool-cases (contains k m)) [
    | inl there ↦
        rw (named, there)
          (record {
            unique = erase-IsMap k m h.unique;
            no_empty_key = ground (arith, lookup-erase k [] m, bytes_eqb_iff k []);
          })
    | inr missing ↦ rw (named, missing) h
  ]
]
