-- ===== src/Index/Invariant.antt =====
-- The nodes and the access order hold the same ids, whatever the usearch library answers.
use vemory.Prelude.{
  ℕ, ◌≡◌, ◌⊎◌, not, ◌||◌, Bool, true, false, some, List, [], ◌∷◌, Bytes, bytes_eq, ◌=?◌, =?_refl,
  ◌==◌, if◌then◌else◌, arith, Bool-cases, Option-cases, inl, inr, refl, ◌∙◌,
}
use vemory.Request.{is_empty}
use vemory.Storage
use vemory.Storage.{VNode, Storage}
use vemory.Storage.Laws
use vemory.Storage.Ids.{has_id, put-ids, put_failed, put-some, del-ids, del-IsFresh}
use vemory.Lru
use vemory.Lru.{Lru}
use vemory.Lru.View
use vemory.Lru.View.{ids, mem, without, mem-append, mem-without, mem_singleton}
use vemory.Lru.Laws.{
  ids-push, ids-touch, ids-erase_id, push-IsValid, touch-IsValid, erase_id-IsValid,
}
use vemory.Embed
use vemory.Embed.{Usearch, Embed, Hit}
use vemory.Index.{
  VNodeIndex, Status, ok, add_vector, put_node, set, ensure_index, answer_hit, get, del,
  parse_float_blob, copy_floats,
}

pub record Agree (storage : Storage) (lru : Lru) : Type 0 where
  pub storage_valid : Storage.Laws.IsValid storage
  pub storage_fresh : Storage.Laws.IsFresh storage
  pub lru_valid : Lru.View.IsValid lru
  pub same_ids : (j : ℕ) → mem j (ids lru) ≡ has_id storage j

abbrev pub InStep : {I : Type 0} → VNodeIndex I → Type 0
InStep s = Agree s.storage s.lru

-- The ids after a push, a touch and an erasure.
module _ {l : Lru} (v : Lru.View.IsValid l) where
  pub mem-push :
      (id j : ℕ) → mem j (ids (Lru.push l id)) ≡ (if id == j then true else mem j (ids l))
  mem-push id j = rw (ids-push v id) (
      ground (
        arith,
        mem-append j (without id (ids l)) (id ∷ []),
        mem-without id j (ids l),
        mem_singleton id j,
      ))

  pub mem-touch : (id j : ℕ) → mem j (ids (Lru.touch l id)) ≡ mem j (ids l)
  mem-touch id j = rw (ids-touch v id) (
      ground (
        arith,
        mem-append j (without id (ids l)) (id ∷ []),
        mem-without id j (ids l),
        mem_singleton id j,
      ))

  pub mem-erase_id :
      (id j : ℕ) → mem j (ids (Lru.erase_id l id).0) ≡ (if id == j then false else mem j (ids l))
  mem-erase_id id j = rw ((ids-erase_id v id).0) (mem-without id j (ids l))

-- The storage and the order after `Put` and `Push` of the id that it gave.
put-push-Agree :
    {storage : Storage} {lru : Lru}
    → Agree storage lru
    → (node : VNode) (id : ℕ) → (Storage.put storage node).1 ≡ Storage.ok
    → (Storage.put storage node).2 ≡ some id
    → Agree (Storage.put storage node).0 (Lru.push lru id)
put-push-Agree {storage} {lru} a node id o i = record {
  storage_valid = Storage.Laws.put-IsValid a.storage_valid a.storage_fresh node;
  storage_fresh = Storage.Laws.put-IsFresh a.storage_valid a.storage_fresh node;
  lru_valid = push-IsValid a.lru_valid id;
  same_ids =
      λ j. ground (arith, mem-push a.lru_valid id j, put-ids storage node id j o i, a.same_ids j);
}

-- `Put` undone: the key is deleted and its id erased.
put-undo-Agree :
    {storage : Storage} {lru : Lru}
    → Agree storage lru
    → (node : VNode) (id : ℕ) → (Storage.put storage node).1 ≡ Storage.ok
    → (Storage.put storage node).2 ≡ some id
    → Agree
        (Storage.del_by_user_key (Storage.put storage node).0 node.user_key).0
        (Lru.erase_id lru id).0
put-undo-Agree {storage} {lru} a node id o i =
    let put_valid = Storage.Laws.put-IsValid a.storage_valid a.storage_fresh node in
    let put_fresh = Storage.Laws.put-IsFresh a.storage_valid a.storage_fresh node in
    let same_key : (if node.user_key =? node.user_key
          then some (record node { id = id })
          else Storage.get_by_user_key storage node.user_key)
        ≡ some (record node { id = id }) =
      rw (=?_refl node.user_key) in
    let found = Storage.Laws.key-put a.storage_valid a.storage_fresh node id node.user_key o i in
    record {
      storage_valid = Storage.Laws.del-IsValid put_valid node.user_key;
      storage_fresh = del-IsFresh put_valid put_fresh node.user_key;
      lru_valid = erase_id-IsValid a.lru_valid id;
      same_ids = λ j. ground (
        arith,
        mem-erase_id a.lru_valid id j,
        put-ids storage node id j o i,
        a.same_ids j,
        del-ids put_valid node.user_key (record node { id = id }) j (found ∙ same_key),
      );
    }

module _ {I : Type 0} (u : Usearch I) where
  add_vector-InStep :
      (s : VNodeIndex I) (e : Embed I) (node : VNode) (id : ℕ) (blob : Bytes) (dim : ℕ)
      → InStep s
      → (Storage.put s.storage node).1 ≡ Storage.ok
      → (Storage.put s.storage node).2 ≡ some id
      → InStep
          (add_vector u
            (record s { storage = (Storage.put s.storage node).0 })
            e
            id
            blob
            node.user_key
            dim).0
  unfolding add_vector
  add_vector-InStep s e node id blob dim v o i =
      added (Embed.add u e id (copy_floats blob dim) dim).1 refl
    where
      added :
          (st : Embed.Status)
          → (Embed.add u e id (copy_floats blob dim) dim).1 ≡ st
          → InStep
              (add_vector u
                (record s { storage = (Storage.put s.storage node).0 })
                e
                id
                blob
                node.user_key
                dim).0
      added Embed.Status.ok k = rw (k, add_vector) (put-push-Agree v node id o i)
      added _ k = rw (k, add_vector) (put-undo-Agree v node id o i)

  put_node-InStep :
      (s : VNodeIndex I) (e : Embed I) (node : VNode) (blob : Bytes) (dim : ℕ)
      → InStep s
      → InStep (put_node u s e blob node dim).0
  unfolding put_node
  put_node-InStep s e node blob dim v = report (Storage.put s.storage node).1 refl
    where
      report :
          (st : Storage.Status)
          → (Storage.put s.storage node).1 ≡ st
          → InStep (put_node u s e blob node dim).0
      report Storage.Status.ok k =
          let (id, i) = put-some s.storage node k in
          rw (k, i, put_node) (add_vector-InStep s e node id blob dim v k i)
      report _ k =
          let same = put_failed s.storage node (λ o. ground arith) in rw (k, same, put_node) v

  -- `EnsureIndex` does not touch the nodes or the access order.
  pub ensure_index_same :
      (s : VNodeIndex I) (dim : ℕ)
      → ((ensure_index u s dim).0.storage ≡ s.storage) × ((ensure_index u s dim).0.lru ≡ s.lru)
  unfolding ensure_index
  ensure_index_same s dim = ground arith

  ensure_index-InStep : (s : VNodeIndex I) (dim : ℕ) → InStep s → InStep (ensure_index u s dim).0
  ensure_index-InStep s dim v = rw ((ensure_index_same s dim).0, (ensure_index_same s dim).1) v

  -- `Set` keeps the nodes and the access order in step, on success and on every failure, whatever
  -- the usearch library answers.
  pub set-InStep :
      (s : VNodeIndex I) (blob user_key question answer : Bytes)
      → InStep s
      → InStep (set u s blob user_key question answer).0
  unfolding set
  set-InStep s blob user_key question answer v = elim (Bool-cases (is_empty user_key)) [
    | inl nameless ↦ rw (nameless, set) v
    | inr named ↦ elim (Option-cases (parse_float_blob blob)) [
      | inl bad ↦ rw (named, bad, set) v
      | inr (dim, e) ↦ ensured dim named e (ensure_index u s dim).1 refl
    ]
  ]
    where
      ensured :
          (dim : ℕ)
          → is_empty user_key ≡ false
          → parse_float_blob blob ≡ some dim
          → (st : Status) → (ensure_index u s dim).1 ≡ st
          → InStep (set u s blob user_key question answer).0
      ensured dim named e ok k = elim (Option-cases (ensure_index u s dim).0.index) [
        | inl missing ↦ rw (named, e, k, missing, set) (ensure_index-InStep s dim v)
        | inr (index, there) ↦
            rw (named, e, k, there, set)
              (put_node-InStep (ensure_index u s dim).0 index
                (record { id = 0; user_key = user_key; question = question; answer = answer }) blob
                dim (ensure_index-InStep s dim v))
      ]
      ensured dim named e _ k = rw (named, e, k, set) (ensure_index-InStep s dim v)

  answer_hit-InStep :
      (float_gt : ℕ → ℕ → Bool) (s : VNodeIndex I) (threshold : ℕ) (hits : List Hit)
      → InStep s
      → InStep (answer_hit u float_gt s threshold hits).0
  unfolding answer_hit
  answer_hit-InStep float_gt s threshold [] v = v
  answer_hit-InStep float_gt s threshold (h ∷ hs) v =
      elim (Bool-cases (float_gt h.score threshold)) [
        | inl far ↦ rw (far, answer_hit) v
        | inr near ↦ elim (Option-cases (Storage.get_by_id s.storage h.id)) [
          | inl missing ↦ rw (near, missing, answer_hit) v
          | inr (n, e) ↦
              rw (near, e, answer_hit)
                (record {
                  storage_valid = v.storage_valid;
                  storage_fresh = v.storage_fresh;
                  lru_valid = touch-IsValid v.lru_valid h.id;
                  same_ids = λ j. mem-touch v.lru_valid h.id j ∙ v.same_ids j;
                })
        ]
      ]

  -- `Get` either changes nothing, or answers a hit.
  get_cases :
      (float_gt : ℕ → ℕ → Bool) (s : VNodeIndex I) (blob : Bytes) (threshold : ℕ)
      → ((get u float_gt s blob threshold).0 ≡ s)
        ⊎ ((hits : List Hit) × (get u float_gt s blob threshold
              ≡ answer_hit u float_gt s threshold hits))
  unfolding get
  get_cases float_gt s blob threshold = elim (Option-cases s.index) [
    | inl no_index ↦ inl (ground arith)
    | inr (e, there) ↦ elim (Option-cases (parse_float_blob blob)) [
      | inl bad ↦ inl (ground arith)
      | inr (dim, floats) ↦ elim (Bool-cases (s.dim == 0 || not (dim == s.dim))) [
        | inl mismatch ↦ inl (ground arith)
        | inr match ↦
            found e dim there floats match (Embed.search u e (copy_floats blob dim) dim 1).0 refl
      ]
    ]
  ]
    where
      found :
          (e : Embed I) (dim : ℕ)
          → s.index ≡ some e
          → parse_float_blob blob ≡ some dim
          → (s.dim == 0 || not (dim == s.dim)) ≡ false
          → (st : Embed.Status) → (Embed.search u e (copy_floats blob dim) dim 1).0 ≡ st
          → ((get u float_gt s blob threshold).0 ≡ s)
            ⊎ ((hits : List Hit) × (get u float_gt s blob threshold
                  ≡ answer_hit u float_gt s threshold hits))
      found e dim there floats match Embed.Status.ok k =
          inr ((Embed.search u e (copy_floats blob dim) dim 1).1, ground arith)
      found e dim there floats match _ k = inl (ground arith)

  -- `Get` keeps the nodes and the access order in step.
  pub get-InStep :
      (float_gt : ℕ → ℕ → Bool) (s : VNodeIndex I) (blob : Bytes) (threshold : ℕ)
      → InStep s
      → InStep (get u float_gt s blob threshold).0
  get-InStep float_gt s blob threshold v = elim (get_cases float_gt s blob threshold) [
    | inl same ↦ rw same v
    | inr (hits, e) ↦ rw e (answer_hit-InStep float_gt s threshold hits v)
  ]

  -- `Del` keeps them in step.
  pub del-InStep : (s : VNodeIndex I) (user_key : Bytes) → InStep s → InStep (del u s user_key).0
  unfolding del
  del-InStep s user_key v = elim (Bool-cases (is_empty user_key)) [
    | inl nameless ↦ rw (nameless, del) v
    | inr named ↦ elim (Option-cases (Storage.get_by_user_key s.storage user_key)) [
      | inl missing ↦ rw (named, missing, del) v
      | inr (n, e) ↦
          rw (named, e, del)
            (record {
              storage_valid = Storage.Laws.del-IsValid v.storage_valid user_key;
              storage_fresh = del-IsFresh v.storage_valid v.storage_fresh user_key;
              lru_valid = erase_id-IsValid v.lru_valid n.id;
              same_ids = λ j. ground (
                arith,
                mem-erase_id v.lru_valid n.id j,
                (del-ids v.storage_valid user_key n j e).1,
                v.same_ids j,
              );
            })
    ]
  ]
