-- ===== src/Lru/Laws.antt =====
-- Each operation on the tracker against the list of ids.
use vemory.Prelude.{
  ℕ, ◌≡◌, true, false, none, some, List, [], ◌∷◌, ◌++◌, nat_eq, ◌==◌, if◌then◌else◌, ap, refl,
  subst, ◌∙◌, arith, Bool-cases, Option-cases, inl, inr,
}
use vemory.Map.{Map, lookup, erase, IsMap}
use vemory.Map.Laws.{
  lookup-assign, lookup-emplace, lookup-erase, lookup-append, assign-IsMap, emplace-IsMap,
  erase-IsMap, erase_absent, append_new-IsMap,
}
use vemory.Lru.{Lru, new_lru, move_to_back, touch, push, erase_id, peek_lru, pop_lru}
use vemory.Lru.View.{
  ids, ids_of, ids_of-append, ids_of-erase, without, mem, IsValid, mem-lookup, lookup_of_mem,
}

pub without_absent : (a : ℕ) (xs : List ℕ) → mem a xs ≡ false → without a xs ≡ xs
unfolding without mem
without_absent a [] h = refl
without_absent a (x ∷ xs) h = ground (arith, without_absent a xs)

module _ {s : Lru} (v : IsValid s) where
  mem_of_index : (id it : ℕ) → lookup id s.index ≡ some it → mem id (ids s) ≡ true
  mem_of_index id it e = mem-lookup id it s.order (v.node_of id it e)

  not_mem_of_index : (id : ℕ) → lookup id s.index ≡ none → mem id (ids s) ≡ false
  not_mem_of_index id e = elim (Bool-cases (mem id (ids s))) [
    | inl there ↦
        let (it, n) = lookup_of_mem id s.order v.nodes_unique there in
        absurd (ground (arith, v.index_of it id n))
    | inr missing ↦ missing
  ]

  -- Only the node of an id holds it.
  own_node :
      (id it : ℕ)
      → lookup id s.index ≡ some it
      → (j w : ℕ) → lookup j s.order ≡ some w
      → (j == it) ≡ (w == id)
  own_node id it e j w n = ground (arith, v.node_of id it e, v.index_of j w n)

  ids-erase :
      (id it : ℕ) → lookup id s.index ≡ some it → ids_of (erase it s.order) ≡ without id (ids s)
  ids-erase id it e = ids_of-erase it id s.order v.nodes_unique (own_node id it e)

  ids-move_to_back :
      (id it : ℕ)
      → lookup id s.index ≡ some it
      → ids (move_to_back s id it) ≡ without id (ids s) ++ id ∷ []
  unfolding move_to_back
  ids-move_to_back id it e =
      ids_of-append (erase it s.order) ((s.fresh, id) ∷ [])
      ∙ ap (λ (l : List ℕ). l ++ id ∷ []) (ids-erase id it e)

  -- `Touch` moves an id that is tracked to the back and keeps the order of the others. An id that
  -- is not tracked changes nothing.
  pub ids-touch :
      (id : ℕ)
      → ids (touch s id) ≡ (if mem id (ids s) then without id (ids s) ++ id ∷ [] else ids s)
  unfolding touch
  ids-touch id = elim (Option-cases (lookup id s.index)) [
    | inl missing ↦ ground (arith, not_mem_of_index id missing)
    | inr (it, e) ↦ ground (arith, mem_of_index id it e, ids-move_to_back id it e)
  ]

  -- `Push` puts an id at the back, new or not, and keeps the order of the others.
  pub ids-push : (id : ℕ) → ids (push s id) ≡ without id (ids s) ++ id ∷ []
  unfolding push
  ids-push id = elim (Option-cases (lookup id s.index)) [
    | inl missing ↦ ground (
      arith,
      without_absent id (ids s) (not_mem_of_index id missing),
      ids_of-append s.order ((s.fresh, id) ∷ []),
    )
    | inr (it, e) ↦ ground (arith, ids-move_to_back id it e)
  ]

  -- `Erase` takes the id out, keeps the order of the others, and reports whether it was there.
  pub ids-erase_id :
      (id : ℕ) → (ids (erase_id s id).0 ≡ without id (ids s)) × ((erase_id s id).1 ≡ mem id (ids s))
  unfolding erase_id
  ids-erase_id id = elim (Option-cases (lookup id s.index)) [
    | inl missing ↦ ground (
      arith,
      not_mem_of_index id missing,
      without_absent id (ids s) (not_mem_of_index id missing),
    )
    | inr (it, e) ↦ ground (arith, mem_of_index id it e, ids-erase id it e)
  ]

  fresh_node : lookup s.fresh s.order ≡ none
  fresh_node = elim (Option-cases (lookup s.fresh s.order)) [
    | inl free ↦ free
    | inr (id, e) ↦ absurd (omega (arith, v.allocated s.fresh id e))
  ]

  fresh_after : (it : ℕ) → lookup s.fresh (erase it s.order) ≡ none
  fresh_after it = ground (arith, lookup-erase it s.fresh s.order, fresh_node)

  move_to_back-IsValid : (id it : ℕ) → lookup id s.index ≡ some it → IsValid (move_to_back s id it)
  unfolding move_to_back lookup
  move_to_back-IsValid id it e = record {
    nodes_unique =
        append_new-IsMap (erase it s.order) s.fresh id (fresh_after it)
          (erase-IsMap it s.order v.nodes_unique);
    ids_unique = assign-IsMap id s.fresh s.index v.ids_unique;
    node_of = λ j n p. ground (
      arith,
      lookup-assign id j s.fresh s.index,
      lookup-append n (erase it s.order) ((s.fresh, id) ∷ []),
      lookup-erase it n s.order,
      fresh_node,
      v.node_of j n,
      v.node_of id it,
      v.index_of n j,
    );
    index_of = λ n j p. ground (
      arith,
      lookup-assign id j s.fresh s.index,
      lookup-append n (erase it s.order) ((s.fresh, id) ∷ []),
      lookup-erase it n s.order,
      v.index_of n j,
      v.node_of id it,
    );
    allocated = λ n j p. ground (
      arith,
      lookup-append n (erase it s.order) ((s.fresh, id) ∷ []),
      lookup-erase it n s.order,
      v.allocated n j,
    );
  }

  pub touch-IsValid : (id : ℕ) → IsValid (touch s id)
  unfolding touch
  touch-IsValid id = elim (Option-cases (lookup id s.index)) [
    | inl missing ↦ rw (missing, touch) v
    | inr (it, e) ↦ rw (e, touch) (move_to_back-IsValid id it e)
  ]

  pub push-IsValid : (id : ℕ) → IsValid (push s id)
  unfolding push lookup
  push-IsValid id = elim (Option-cases (lookup id s.index)) [
    | inr (it, e) ↦ rw (e, push) (move_to_back-IsValid id it e)
    | inl missing ↦
        rw (missing, push)
          (record {
            nodes_unique = append_new-IsMap s.order s.fresh id fresh_node v.nodes_unique;
            ids_unique = emplace-IsMap id s.fresh s.index missing v.ids_unique;
            node_of = λ j n p. ground (
              arith,
              lookup-emplace id j s.fresh s.index missing,
              lookup-append n s.order ((s.fresh, id) ∷ []),
              fresh_node,
              v.node_of j n,
            );
            index_of = λ n j p. ground (
              arith,
              lookup-emplace id j s.fresh s.index missing,
              lookup-append n s.order ((s.fresh, id) ∷ []),
              v.index_of n j,
            );
            allocated = λ n j p.
                ground (arith, lookup-append n s.order ((s.fresh, id) ∷ []), v.allocated n j);
          })
  ]

  pub erase_id-IsValid : (id : ℕ) → IsValid (erase_id s id).0
  unfolding erase_id
  erase_id-IsValid id = elim (Option-cases (lookup id s.index)) [
    | inl missing ↦ rw (missing, erase_id) v
    | inr (it, e) ↦
        rw (e, erase_id)
          (record {
            nodes_unique = erase-IsMap it s.order v.nodes_unique;
            ids_unique = erase-IsMap id s.index v.ids_unique;
            node_of = λ j n p. ground (
              arith,
              lookup-erase id j s.index,
              lookup-erase it n s.order,
              v.node_of j n,
              v.node_of id it,
            );
            index_of = λ n j p. ground (
              arith,
              lookup-erase id j s.index,
              lookup-erase it n s.order,
              v.index_of n j,
              v.index_of it id,
              v.node_of id it,
            );
            allocated = λ n j p. ground (arith, lookup-erase it n s.order, v.allocated n j);
          })
  ]

  -- `PopLru` erases the id that `PeekLru` shows, if there is one.
  pub pop_lru-eq :
      pop_lru s ≡ elim (peek_lru s) [ none ↦ (s, none) | some id ↦ ((erase_id s id).0, some id) ]
  unfolding pop_lru peek_lru erase_id lookup erase
  pop_lru-eq = split s.order refl
    where
      split :
          (o : Map ℕ ℕ)
          → s.order ≡ o
          → pop_lru s
            ≡ elim (peek_lru s) [ none ↦ (s, none) | some id ↦ ((erase_id s id).0, some id) ]
      split [] e = ground arith
      split ((it, id) ∷ r) e =
          let u : IsMap ((it, id) ∷ r) = subst (λ o. IsMap o) e v.nodes_unique in
          let at_front : lookup it s.order ≡ some id = ground arith in
          ground (arith, v.index_of it id at_front, erase_absent it r u.0)

  -- The id that `PeekLru` shows is the first of the order, and `PopLru` leaves the others.
  pub pop_lru-ids :
      (id : ℕ) (rest : List ℕ)
      → ids s ≡ id ∷ rest
      → (peek_lru s ≡ some id) × ((pop_lru s).1 ≡ some id) × (ids (pop_lru s).0 ≡ rest)
  unfolding peek_lru pop_lru
  pop_lru-ids id rest e = split s.order refl
    where
      split :
          (o : Map ℕ ℕ)
          → s.order ≡ o
          → (peek_lru s ≡ some id) × ((pop_lru s).1 ≡ some id) × (ids (pop_lru s).0 ≡ rest)
      split [] k = absurd (ground arith)
      split ((it, w) ∷ r) k = ground arith

  pub pop_lru-IsValid : IsValid (pop_lru s).0
  pop_lru-IsValid = elim (Option-cases (peek_lru s)) [
    | inl empty ↦ rw (pop_lru-eq, empty) v
    | inr (id, e) ↦ rw (pop_lru-eq, e) (erase_id-IsValid id)
  ]

pub new_lru-IsValid : IsValid new_lru
unfolding lookup
new_lru-IsValid = record {
  nodes_unique = tt;
  ids_unique = tt;
  node_of = λ id it e. cc;
  index_of = λ it id e. cc;
  allocated = λ it id e. cc;
}
