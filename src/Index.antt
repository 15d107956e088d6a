-- ===== src/Index.antt =====
-- src/storage/VNodeIndex.cc, include/vemory/storage/VNodeIndex.h: the semantic cache, which keeps
-- the nodes, the vector index and the access order together. `float_gt` is the comparison of two
-- floats by their bits. Pointers to results are never null here.
pub mod Invariant
pub mod Persist
pub mod Tests
pub mod Eviction
pub mod Size
use vemory.Prelude.{
  ℕ, zero, suc, ◌+◌, ◌*◌, ◌/◌, ◌%◌, Bool, true, false, not, ◌||◌, Option, none, some, List, [], ◌∷◌,
  Bytes, leb, ◌==◌, if◌then◌else◌, length, replicate, take,
}
use vemory.Request.{is_empty}
use vemory.Storage
use vemory.Storage.{VNode, Storage}
use vemory.Lru
use vemory.Lru.{Lru}
use vemory.Embed
use vemory.Embed.{Usearch, Embed, Hit}

pub data Status : Type 0 where
  ok not_found bad_value bad_vector_size dim_mismatch index_init_failed io_error error : Status

pub record VNodeIndex (I : Type 0) : Type 0 where
  pub default_capacity : ℕ
  -- 0 for no limit
  pub max_entries : ℕ
  pub dim : ℕ
  pub storage : Storage
  pub lru : Lru
  pub index : Option (Embed I)

-- The constructor.
abbrev pub new_index : {I : Type 0} → ℕ → ℕ → VNodeIndex I
new_index capacity most = record {
  default_capacity = if capacity == 0 then 1024 else capacity;
  max_entries = most;
  dim = 0;
  storage = Storage.new_storage;
  lru = Lru.new_lru;
  index = none;
}

-- `ParseFloatBlob`: the number of floats.
unfoldable pub parse_float_blob : Bytes → Option ℕ
parse_float_blob blob =
    if is_empty blob || not (length blob % 4 == 0)
    then none
    else if length blob / 4 == 0
    then none
    else some (length blob / 4)

-- `CopyFloats`
abbrev pub copy_floats : Bytes → ℕ → Bytes
copy_floats blob dim = take (dim * 4) blob

-- `RebuildLruFromStorage`: a push for each node that `ForEach` visits.
unfoldable pub push_all : Lru → List (ℕ × VNode) → Lru
push_all l [] = l
push_all l ((id, n) ∷ m) = push_all (Lru.push l id) m

module _ {I : Type 0} where
  unfoldable pub rebuild_lru : VNodeIndex I → VNodeIndex I
  rebuild_lru s = record s { lru = push_all (Lru.clear s.lru) s.storage.by_id }

  -- `NeedsRoomFor`
  unfoldable pub needs_room_for : VNodeIndex I → Bytes → Bool
  needs_room_for s key =
      if s.max_entries == 0 || is_empty key
      then false
      else elim (Storage.get_by_user_key s.storage key) [
        | some n ↦ false
        | none ↦ leb s.max_entries (Storage.size s.storage)
      ]

  -- The loop of `PeekLruUserKey`, with the rounds that are left: ids of no node are dropped.
  unfoldable pub peek_loop : ℕ → VNodeIndex I → VNodeIndex I × Status × Bytes
  peek_loop zero s = (s, not_found, [])
  peek_loop (suc left) s = elim (Lru.peek_lru s.lru) [
    | none ↦ (s, not_found, [])
    | some id ↦ elim (Storage.get_by_id s.storage id) [
      | some n ↦ (s, ok, n.user_key)
      | none ↦
          let (l, dropped) = Lru.pop_lru s.lru in
          let rest = peek_loop left (record s { lru = l }) in
          elim dropped [
            | none ↦ (record s { lru = l }, error, [])
            | some d ↦ if d == id then rest else (record s { lru = l }, error, [])
          ]
    ]
  ]

  -- `PeekLruUserKey`
  unfoldable pub peek_lru_user_key : VNodeIndex I → VNodeIndex I × Status × Bytes
  peek_lru_user_key s = peek_loop 65535 s

  -- `Clear`
  abbrev pub clear : VNodeIndex I → VNodeIndex I
  clear s = record s {
    storage = Storage.clear s.storage;
    lru = Lru.clear s.lru;
    index = none;
    dim = 0;
  }

module _ {I : Type 0} (u : Usearch I) where
  -- `EnsureIndex`
  unfoldable pub ensure_index : VNodeIndex I → ℕ → VNodeIndex I × Status
  ensure_index s dim = elim s.index [
    | some e ↦ (s, if dim == s.dim then ok else dim_mismatch)
    | none ↦
        let e = Embed.new_embed u dim s.default_capacity in
        elim (Embed.search u e (replicate (dim * 4) 0) dim 1).0 [
          | Embed.Status.error ↦ (s, index_init_failed)
          | _ ↦ (record s { dim = dim; index = some e }, ok)
        ]
  ]

  -- `Set` after `Put` has given an id: the vector is added, or the node is taken out again.
  unfoldable pub add_vector : VNodeIndex I → Embed I → ℕ → Bytes → Bytes → ℕ → VNodeIndex I × Status
  add_vector s e id blob user_key dim =
      let (e', st) = Embed.add u e id (copy_floats blob dim) dim in
      elim st [
        | Embed.Status.ok ↦ (record s { index = some e'; lru = Lru.push s.lru id }, ok)
        | _ ↦ (
          record s {
            index = some e';
            storage = (Storage.del_by_user_key s.storage user_key).0;
            lru = (Lru.erase_id s.lru id).0;
          },
          error,
        )
      ]

  -- `Set` once the index `e` is there.
  unfoldable pub put_node : VNodeIndex I → Embed I → Bytes → VNode → ℕ → VNodeIndex I × Status
  put_node s e blob node dim =
      let (storage, st, id) = Storage.put s.storage node in
      elim st [
        | Storage.Status.full ↦ (record s { storage = storage }, error)
        | Storage.Status.ok ↦ elim id [
          | none ↦ (record s { storage = storage }, bad_value)
          | some i ↦ add_vector (record s { storage = storage }) e i blob node.user_key dim
        ]
        | _ ↦ (record s { storage = storage }, bad_value)
      ]

  -- `Set`. `EnsureIndex` leaves an index wherever it reports success.
  unfoldable pub set : VNodeIndex I → Bytes → Bytes → Bytes → Bytes → VNodeIndex I × Status
  set s blob user_key question answer =
      if is_empty user_key then (s, bad_value) else elim (parse_float_blob blob) [
        | none ↦ (s, bad_vector_size)
        | some dim ↦
            let (s', st) = ensure_index s dim in
            let node : VNode = record {
              id = 0;
              user_key = user_key;
              question = question;
              answer = answer;
            } in
            elim st [
              | ok ↦ elim s'.index [ none ↦ (s', error) | some e ↦ put_node s' e blob node dim ]
              | failed ↦ (s', failed)
            ]
      ]

  -- The hit of a query: its node is looked up and becomes the most recently used.
  unfoldable pub answer_hit :
      (ℕ → ℕ → Bool) → VNodeIndex I → ℕ → List Hit → VNodeIndex I × Status × Bytes
  answer_hit float_gt s threshold [] = (s, not_found, [])
  answer_hit float_gt s threshold (h ∷ hs) =
      if float_gt h.score threshold
      then (s, not_found, [])
      else elim (Storage.get_by_id s.storage h.id) [
        | none ↦ (s, not_found, [])
        | some n ↦ (record s { lru = Lru.touch s.lru h.id }, ok, n.answer)
      ]

  -- `Get`
  unfoldable pub get : (ℕ → ℕ → Bool) → VNodeIndex I → Bytes → ℕ → VNodeIndex I × Status × Bytes
  get float_gt s blob threshold = elim s.index [
    | none ↦ (s, not_found, [])
    | some e ↦ if s.dim == 0 then (s, not_found, []) else elim (parse_float_blob blob) [
      | none ↦ (s, bad_vector_size, [])
      | some dim ↦
          if not (dim == s.dim)
          then (s, dim_mismatch, [])
          else (let (st, hits) = Embed.search u e (copy_floats blob dim) dim 1 in
              elim st [
                | Embed.Status.ok ↦ answer_hit float_gt s threshold hits
                | _ ↦ (s, not_found, [])
              ])
    ]
  ]

  -- `(void)index_->Del(id)`
  abbrev pub drop_vector : Option (Embed I) → ℕ → Option (Embed I)
  drop_vector none id = none
  drop_vector (some e) id = some (Embed.del u e id).0

  -- `Del`
  unfoldable pub del : VNodeIndex I → Bytes → VNodeIndex I × Status
  del s user_key =
      if is_empty user_key
      then (s, bad_value)
      else elim (Storage.get_by_user_key s.storage user_key) [
        | none ↦ (s, not_found)
        | some n ↦
            let (storage, st) = Storage.del_by_user_key s.storage user_key in
            (
              record s {
                lru = (Lru.erase_id s.lru n.id).0;
                index = drop_vector s.index n.id;
                storage = storage;
              },
              elim st [ Storage.Status.ok ↦ ok | _ ↦ not_found ],
            )
      ]
