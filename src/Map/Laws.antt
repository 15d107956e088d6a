-- ===== src/Map/Laws.antt =====
-- The laws of maps: lookups after each operation, the invariant, and sizes.
use vemory.Prelude.{
  ◌≤◌, suc, ◌-◌, true, false, none, some, [], ◌∷◌, ◌++◌, ◌<◌, Eq, ◌=?◌, if◌then◌else◌, ◌≡◌, ◌≢◌,
  length, arith, Bool-cases, inl, inr, refl,
}
use vemory.Map.{Map, lookup, assign, emplace, erase, contains, IsMap}

module _ {ℓ} {K V : Type ℓ} ⦃e : Eq K⦄ where
  pub lookup-assign :
      (k j : K) (v : V) (m : Map K V)
      → lookup j (assign k v m) ≡ (if k =? j then some v else lookup j m)
  unfolding lookup assign
  lookup-assign k j v [] = refl
  lookup-assign k j v ((i, w) ∷ m) =
      ground (arith, e.eqb_iff i k, e.eqb_iff i j, e.eqb_iff k j, lookup-assign k j v m)

  pub lookup-emplace :
      (k j : K) (v : V) (m : Map K V)
      → lookup k m ≡ none
      → lookup j (emplace k v m) ≡ (if k =? j then some v else lookup j m)
  unfolding lookup emplace
  lookup-emplace k j v [] h = refl
  lookup-emplace k j v ((i, w) ∷ m) h =
      ground (arith, e.eqb_iff i k, e.eqb_iff i j, e.eqb_iff k j, lookup-emplace k j v m)

  pub lookup-erase :
      (k j : K) (m : Map K V) → lookup j (erase k m) ≡ (if k =? j then none else lookup j m)
  unfolding lookup erase
  lookup-erase k j [] = ground arith
  lookup-erase k j ((i, w) ∷ m) =
      ground (arith, e.eqb_iff i k, e.eqb_iff i j, e.eqb_iff k j, lookup-erase k j m)

  pub assign-IsMap : (k : K) (v : V) (m : Map K V) → IsMap m → IsMap (assign k v m)
  unfolding assign lookup
  assign-IsMap k v [] h = (refl, tt)
  assign-IsMap k v ((j, w) ∷ m) h = elim (Bool-cases (j =? k)) [
    | inl same ↦ rw same (h.0, h.1)
    | inr other ↦ rw other (
      ground (arith, lookup-assign k j v m, e.eqb_iff j k, e.eqb_iff k j, h),
      assign-IsMap k v m h.1,
    )
  ]

  pub emplace-IsMap :
      (k : K) (v : V) (m : Map K V) → lookup k m ≡ none → IsMap m → IsMap (emplace k v m)
  unfolding emplace lookup
  emplace-IsMap k v [] n h = (refl, tt)
  emplace-IsMap k v ((j, w) ∷ m) n h = elim (Bool-cases (j =? k)) [
    | inl same ↦ absurd (ground arith)
    | inr other ↦ rw other (
      ground (arith, lookup-emplace k j v m, e.eqb_iff j k, e.eqb_iff k j, h),
      emplace-IsMap k v m (ground arith) h.1,
    )
  ]

  pub erase-IsMap : (k : K) (m : Map K V) → IsMap m → IsMap (erase k m)
  unfolding erase
  erase-IsMap k [] h = tt
  erase-IsMap k ((j, w) ∷ m) h = elim (Bool-cases (j =? k)) [
    | inl same ↦ rw same (erase-IsMap k m h.1)
    | inr other ↦ rw other (ground (arith, lookup-erase k j m, h), erase-IsMap k m h.1)
  ]

  pub length-assign :
      (k : K) (v : V) (m : Map K V)
      → length (assign k v m) ≡ (if contains k m then length m else suc (length m))
  unfolding assign contains lookup
  length-assign k v [] = refl
  length-assign k v ((j, w) ∷ m) = ground (arith, length-assign k v m)

  pub length-emplace :
      (k : K) (v : V) (m : Map K V)
      → length (emplace k v m) ≡ (if contains k m then length m else suc (length m))
  unfolding emplace contains lookup
  length-emplace k v [] = refl
  length-emplace k v ((j, w) ∷ m) = ground (arith, length-emplace k v m)

  pub erase_absent : (k : K) (m : Map K V) → lookup k m ≡ none → erase k m ≡ m
  unfolding erase lookup
  erase_absent k [] h = refl
  erase_absent k ((j, w) ∷ m) h = ground (arith, erase_absent k m)

  pub lookup_pos : (k : K) (m : Map K V) → lookup k m ≢ none → 0 < length m
  unfolding lookup
  lookup_pos k [] h = absurd (h refl)
  lookup_pos k ((j, w) ∷ m) h = omega arith

  pub length-erase :
      (k : K) (m : Map K V)
      → IsMap m
      → length (erase k m) ≡ (if contains k m then length m - 1 else length m)
  unfolding erase contains lookup
  length-erase k [] h = refl
  length-erase k ((j, w) ∷ m) h = elim (Bool-cases (j =? k)) [
    | inl same ↦ rw (same) (ground (arith, (e.eqb_iff j k).0 same, erase_absent k m, h))
    | inr other ↦ ground (arith, length-erase k m h.1, lookup_pos k m)
  ]

  -- A new entry goes to the end.
  pub emplace_new :
      (k : K) (v : V) (m : Map K V) → lookup k m ≡ none → emplace k v m ≡ m ++ (k, v) ∷ []
  unfolding emplace lookup
  emplace_new k v [] h = refl
  emplace_new k v ((j, w) ∷ m) h = ground (arith, emplace_new k v m)

  pub lookup-append :
      (k : K) (m n : Map K V)
      → lookup k (m ++ n) ≡ elim (lookup k m) [ none ↦ lookup k n | some v ↦ some v ]
  unfolding lookup
  lookup-append k [] n = refl
  lookup-append k ((j, w) ∷ m) n = ground (arith, lookup-append k m n)

  pub append-IsMap_left : (m n : Map K V) → IsMap (m ++ n) → IsMap m
  append-IsMap_left [] n h = tt
  append-IsMap_left ((j, w) ∷ m) n h =
      (ground (arith, lookup-append j m n, h), append-IsMap_left m n h.1)

  -- The key in the middle of a map is new to what stands before it.
  pub lookup_before : (m n : Map K V) (k : K) (v : V) → IsMap (m ++ (k, v) ∷ n) → lookup k m ≡ none
  unfolding lookup
  lookup_before [] n k v h = refl
  lookup_before ((j, w) ∷ m) n k v h = ground (
    arith,
    lookup-append j m ((k, v) ∷ n),
    h,
    e.eqb_iff j k,
    e.eqb_iff k j,
    lookup_before m n k v h.1,
  )

  -- A new key at the end.
  pub append_new-IsMap :
      (m : Map K V) (k : K) (v : V) → lookup k m ≡ none → IsMap m → IsMap (m ++ (k, v) ∷ [])
  append_new-IsMap m k v n h = rw emplace_new at (emplace-IsMap k v m n h)

  pub lookup_of_not_contains : (k : K) (m : Map K V) → contains k m ≡ false → lookup k m ≡ none
  unfolding contains
  lookup_of_not_contains k m h = ground arith

  pub contains_of_lookup : (k : K) (m : Map K V) (v : V) → lookup k m ≡ some v → contains k m ≡ true
  unfolding contains
  contains_of_lookup k m v h = ground arith

  pub contains_of_lookup-none : (k : K) (m : Map K V) → lookup k m ≡ none → contains k m ≡ false
  unfolding contains
  contains_of_lookup-none k m h = ground arith

  pub length-erase-le : (k : K) (m : Map K V) → length (erase k m) ≤ length m
  unfolding erase
  length-erase-le k [] = omega arith
  length-erase-le k ((j, v) ∷ m) = ground (arith, length-erase-le k m)
