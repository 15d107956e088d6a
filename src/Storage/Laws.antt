-- ===== src/Storage/Laws.antt =====
-- The two maps of the storage describe each other, and each operation keeps them so.
use vemory.Prelude.{
  ℕ, ◌+◌, ◌%◌, ◌<◌, Option, ◌≡◌, ◌≢◌, false, ◌||◌, none, some, [], Bytes, nat_eq, bytes_eq,
  bytes_eqb_iff, ◌==◌, if◌then◌else◌, arith, Bool-cases, Option-cases, inl, inr, ◌=?◌,
}
use vemory.Map.{lookup, assign, emplace, contains, IsMap}
use vemory.Map.Laws.{
  lookup-assign, lookup-emplace, lookup-erase, assign-IsMap, emplace-IsMap, erase-IsMap,
  lookup_of_not_contains,
}
use vemory.Request.{is_empty}
use vemory.Storage.{
  VNode, Storage, ok, new_storage, put, restore, get_by_id, get_by_user_key, del_by_user_key,
}

pub record IsValid (s : Storage) : Type 0 where
  pub ids_unique : IsMap s.by_id
  pub keys_unique : IsMap s.by_user_key
  -- a node carries its id, has a key, and is found by it
  pub indexed :
      (id : ℕ) (n : VNode)
      → lookup id s.by_id ≡ some n
      → (n.id ≡ id)
        × (n.user_key ≢ [])
        × (lookup n.user_key s.by_user_key ≡ some id)
        × (0 < id)
        × (id < 65536)
  -- a key leads to a node that has it
  pub stored :
      (key : Bytes) (id : ℕ)
      → lookup key s.by_user_key ≡ some id
      → (n : VNode) × (lookup id s.by_id ≡ some n) × (n.user_key ≡ key)

-- The ids that `Put` gives out next are not in use.
pub record IsFresh (s : Storage) : Type 0 where
  pub in_range : s.next_id < 65536
  pub above : (id : ℕ) (n : VNode) → s.next_id ≢ 0 → lookup id s.by_id ≡ some n → id < s.next_id

-- What the id of a put is, for the id that its key had.
abbrev pub GivesId : Storage → Option ℕ → ℕ → Type 0
GivesId s none id = get_by_id s id ≡ none
GivesId s (some old) id = id ≡ old

module _ {s : Storage} (v : IsValid s) (f : IsFresh s) (node : VNode) where
  next_unused : s.next_id ≢ 0 → lookup s.next_id s.by_id ≡ none
  next_unused h = elim (Option-cases (lookup s.next_id s.by_id)) [
    | inl free ↦ free
    | inr (n, e) ↦ absurd (omega (arith, f.above s.next_id n h e))
  ]

  -- A node put under a key that has an id.
  replace-IsValid :
      (id : ℕ)
      → is_empty node.user_key ≡ false
      → lookup node.user_key s.by_user_key ≡ some id
      → IsValid (record s { by_id = assign id (record node { id = id }) s.by_id })
  replace-IsValid id named e =
      let (old, at_id, key) = v.stored node.user_key id e in
      let node' : VNode = record node { id = id } in
      record {
        ids_unique = assign-IsMap id node' s.by_id v.ids_unique;
        keys_unique = v.keys_unique;
        indexed = λ j n p.
            ground (arith, lookup-assign id j node' s.by_id, v.indexed j n, v.indexed id old at_id);
        stored = λ k j p.
            let (n, at_j, key') = v.stored k j p in
            elim (Bool-cases (id == j)) [
              | inl same ↦ (node', ground (arith, lookup-assign id j node' s.by_id), ground arith)
              | inr other ↦ (n, ground (arith, lookup-assign id j node' s.by_id), key')
            ];
      }

  -- A node put under a new key.
  insert-IsValid :
      is_empty node.user_key ≡ false
      → lookup node.user_key s.by_user_key ≡ none
      → s.next_id ≢ 0
      → IsValid (record {
        next_id = (s.next_id + 1) % 65536;
        by_id = assign s.next_id (record node { id = s.next_id }) s.by_id;
        by_user_key = emplace node.user_key s.next_id s.by_user_key;
      })
  insert-IsValid named new left =
      let node' : VNode = record node { id = s.next_id } in
      let key : Bytes = node.user_key in
      record {
        ids_unique = assign-IsMap s.next_id node' s.by_id v.ids_unique;
        keys_unique = emplace-IsMap key s.next_id s.by_user_key new v.keys_unique;
        indexed = λ j n p. ground (
          arith,
          lookup-assign s.next_id j node' s.by_id,
          lookup-emplace key n.user_key s.next_id s.by_user_key new,
          bytes_eqb_iff key n.user_key,
          v.indexed j n,
          f.in_range,
        );
        stored = λ k j p. elim (Bool-cases (key =? k)) [
          | inl same ↦ (
            node',
            ground (
              arith,
              lookup-assign s.next_id j node' s.by_id,
              lookup-emplace key k s.next_id s.by_user_key new,
            ),
            (bytes_eqb_iff key k).0 same,
          )
          | inr other ↦
              let there : lookup k s.by_user_key ≡ some j =
                ground (arith, lookup-emplace key k s.next_id s.by_user_key new) in
              let (n, at_j, key') = v.stored k j there in
              (n, ground (arith, lookup-assign s.next_id j node' s.by_id, next_unused left), key')
        ];
      }

  pub put-IsValid : IsValid (put s node).0
  unfolding put
  put-IsValid = elim (Bool-cases (is_empty node.user_key)) [
    | inl nameless ↦ rw (nameless, put) v
    | inr named ↦ elim (Option-cases (lookup node.user_key s.by_user_key)) [
      | inr (id, e) ↦ rw (named, e, put) (replace-IsValid id named e)
      | inl new ↦ elim (Bool-cases (s.next_id == 0)) [
        | inl none_left ↦ rw (named, new, none_left, put) v
        | inr left ↦ rw (named, new, left, put) (insert-IsValid named new (ground arith))
      ]
    ]
  ]

  -- The next id is not in use either, not even after the last one.
  pub put-IsFresh : IsFresh (put s node).0
  unfolding put
  put-IsFresh = record {
    in_range = ground (arith, f.in_range);
    above = λ id n h e. elim (Option-cases (lookup node.user_key s.by_user_key)) [
      | inl new ↦ ground (
        arith,
        lookup-assign s.next_id id (record node { id = s.next_id }) s.by_id,
        f.above id n,
        f.in_range,
      )
      | inr (id', k) ↦
          let (old, at_id, key) = v.stored node.user_key id' k in
          ground (
            arith,
            lookup-assign id' id (record node { id = id' }) s.by_id,
            f.above id n,
            f.above id' old,
          )
    ];
  }

  pub key-put :
      (id : ℕ) (key : Bytes)
      → (put s node).1 ≡ ok
      → (put s node).2 ≡ some id
      → get_by_user_key (put s node).0 key
        ≡ (if node.user_key =? key then some (record node { id = id }) else get_by_user_key s key)
  unfolding put get_by_user_key get_by_id
  key-put id key o i = elim (Option-cases (lookup node.user_key s.by_user_key)) [
    | inr (j, e) ↦ elim (Option-cases (lookup key s.by_user_key)) [
      | inl missing ↦ ground (arith, bytes_eqb_iff node.user_key key)
      | inr (l, there) ↦
          let (n, at_l, has_key) = v.stored key l there in
          let (old, at_j, had_key) = v.stored node.user_key j e in
          ground (
            arith,
            lookup-assign j l (record node { id = j }) s.by_id,
            bytes_eqb_iff node.user_key key,
          )
    ]
    | inl new ↦ elim (Option-cases (lookup key s.by_user_key)) [
      | inl missing ↦ ground (
        arith,
        lookup-emplace node.user_key key s.next_id s.by_user_key new,
        lookup-assign s.next_id s.next_id (record node { id = s.next_id }) s.by_id,
        bytes_eqb_iff node.user_key key,
      )
      | inr (l, there) ↦
          let (n, at_l, has_key) = v.stored key l there in
          ground (
            arith,
            lookup-emplace node.user_key key s.next_id s.by_user_key new,
            lookup-assign s.next_id l (record node { id = s.next_id }) s.by_id,
            next_unused,
            bytes_eqb_iff node.user_key key,
          )
    ]
  ]

module _ {s : Storage} (v : IsValid s) where
  -- The node that a key finds carries the key, and its id finds it too.
  pub get_by_user_key-indexed :
      (key : Bytes) (n : VNode)
      → get_by_user_key s key ≡ some n
      → (n.user_key ≡ key) × (get_by_id s n.id ≡ some n)
  unfolding get_by_user_key get_by_id
  get_by_user_key-indexed key n h = elim (Option-cases (lookup key s.by_user_key)) [
    | inl missing ↦ absurd (ground arith)
    | inr (id, e) ↦
        let (m, at_id, has_key) = v.stored key id e in ground (arith, v.indexed id m at_id)
  ]

  restored-IsValid :
      (node : VNode)
      → (is_empty node.user_key || node.id == 0) ≡ false
      → node.id < 65536
      → lookup node.id s.by_id ≡ none
      → lookup node.user_key s.by_user_key ≡ none
      → IsValid (record s {
        by_id = emplace node.id node s.by_id;
        by_user_key = emplace node.user_key node.id s.by_user_key;
      })
  restored-IsValid node good range free_id free_key = record {
    ids_unique = emplace-IsMap node.id node s.by_id free_id v.ids_unique;
    keys_unique = emplace-IsMap node.user_key node.id s.by_user_key free_key v.keys_unique;
    indexed = λ j n p. ground (
      arith,
      lookup-emplace node.id j node s.by_id free_id,
      lookup-emplace node.user_key n.user_key node.id s.by_user_key free_key,
      bytes_eqb_iff node.user_key n.user_key,
      v.indexed j n,
    );
    stored = λ k j p. elim (Bool-cases (node.user_key =? k)) [
      | inl same ↦ (
        node,
        ground (
          arith,
          lookup-emplace node.id j node s.by_id free_id,
          lookup-emplace node.user_key k node.id s.by_user_key free_key,
        ),
        (bytes_eqb_iff node.user_key k).0 same,
      )
      | inr other ↦
          let there : lookup k s.by_user_key ≡ some j =
            ground (arith, lookup-emplace node.user_key k node.id s.by_user_key free_key) in
          let (n, at_j, has_key) = v.stored k j there in
          (n, ground (arith, lookup-emplace node.id j node s.by_id free_id), has_key)
    ];
  }

  -- `Restore` keeps the two maps in step, whether it takes the node or refuses it.
  pub restore-IsValid : (node : VNode) → node.id < 65536 → IsValid (restore s node).0
  unfolding restore
  restore-IsValid node range = elim (Bool-cases (is_empty node.user_key || node.id == 0)) [
    | inl bad ↦ rw (bad, restore) v
    | inr good ↦
        elim (Bool-cases (contains node.id s.by_id || contains node.user_key s.by_user_key)) [
          | inl used ↦ rw (good, used, restore) v
          | inr unused ↦
              rw (good, unused, restore)
                (restored-IsValid node good range
                  (lookup_of_not_contains node.id s.by_id (ground arith))
                  (lookup_of_not_contains node.user_key s.by_user_key (ground arith)))
        ]
  ]

  -- So does `DelByUserKey`.
  pub del-IsValid : (key : Bytes) → IsValid (del_by_user_key s key).0
  unfolding del_by_user_key
  del-IsValid key = elim (Option-cases (lookup key s.by_user_key)) [
    | inl missing ↦ rw (missing, del_by_user_key) v
    | inr (id, e) ↦
        let (old, at_id, had_key) = v.stored key id e in
        rw (e, del_by_user_key)
          (record {
            ids_unique = erase-IsMap id s.by_id v.ids_unique;
            keys_unique = erase-IsMap key s.by_user_key v.keys_unique;
            indexed = λ j n p. ground (
              arith,
              lookup-erase id j s.by_id,
              lookup-erase key n.user_key s.by_user_key,
              bytes_eqb_iff key n.user_key,
              v.indexed j n,
            );
            stored = λ k j p.
                let there : lookup k s.by_user_key ≡ some j =
                  ground (arith, lookup-erase key k s.by_user_key) in
                let (n, at_j, has_key) = v.stored k j there in
                (
                  n,
                  ground (
                    arith,
                    lookup-erase id j s.by_id,
                    lookup-erase key k s.by_user_key,
                    bytes_eqb_iff key k,
                  ),
                  has_key,
                );
          })
  ]

  -- After `DelByUserKey` the key finds nothing, and every other key what it found before.
  pub get_by_user_key-del :
      (key k : Bytes)
      → get_by_user_key (del_by_user_key s key).0 k
        ≡ (if key =? k then none else get_by_user_key s k)
  unfolding get_by_user_key get_by_id del_by_user_key
  get_by_user_key-del key k = elim (Option-cases (lookup key s.by_user_key)) [
    | inl missing ↦ ground (arith, bytes_eqb_iff key k)
    | inr (id, e) ↦ elim (Option-cases (lookup k s.by_user_key)) [
      | inl none_there ↦ ground (arith, lookup-erase key k s.by_user_key)
      | inr (j, there) ↦
          let (old, at_id, had_key) = v.stored key id e in
          let (n, at_j, has_key) = v.stored k j there in
          ground (
            arith,
            lookup-erase key k s.by_user_key,
            lookup-erase id j s.by_id,
            bytes_eqb_iff key k,
          )
    ]
  ]

pub new_storage-IsValid : IsValid new_storage
unfolding lookup
new_storage-IsValid = record {
  ids_unique = tt;
  keys_unique = tt;
  indexed = λ id n e. cc;
  stored = λ k id e. cc;
}
