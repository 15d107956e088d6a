-- ===== src/Index/Persist.antt =====
-- src/storage/VNodeIndex.cc, from `DumpNodes` on: the nodes and the vector index in a snapshot.
-- `room` is the largest count that `reserve` takes without throwing, in the decoder of a node.
pub mod RoundTrip
pub mod Safe
pub mod Full
pub mod Restored
pub mod Tests
use vemory.Prelude.{
  ℕ, zero, suc, Bool, true, false, Option, none, some, List, [], ◌∷◌, Bytes, ◌==◌, ◌||◌, ◌&&◌, not,
  if◌then◌else◌, length, take,
}
use vemory.Request.{is_empty}
use vemory.Stdio.{Sink, write_exact, read_exact, read_word, to_le}
use vemory.Map.{Map}
use vemory.KvStore.{u32}
use vemory.Codec
use vemory.Codec.{NodeRead, decode_node}
use vemory.Storage
use vemory.Storage.{VNode, Storage}
use vemory.Lru
use vemory.Embed
use vemory.Embed.{Usearch, Embed}
use vemory.Index.{VNodeIndex, Status, ok, bad_value, io_error, dim_mismatch, error, rebuild_lru}

-- What `ForEach` does with each node in `DumpNodes`: its length and its bytes.
unfoldable pub dump_node : Sink → VNode → Sink × Bool
dump_node f n =
    let bytes = Codec.encode n in
    let (f', wrote) = write_exact f (to_le 4 (u32 (length bytes))) in
    if wrote then write_exact f' (take (u32 (length bytes)) bytes) else (f', false)

unfoldable pub dump_each : Map ℕ VNode → Sink → Sink × Status
dump_each [] f = (f, ok)
dump_each ((id, n) ∷ m) f =
    let (f', wrote) = dump_node f n in
    let rest = dump_each m f' in if wrote then rest else (f', io_error)

-- One round of the loop of `LoadNodes` and `LoadNodesFrom`. It stops with a status, or with `none`
-- for an exception of the decoder, or it has restored a node.
pub data Round : Type 0 where
  stop : Option Status → Storage → Bytes → Round
  next : Storage → Bytes → Round

unfoldable pub restore_node : Storage → VNode → Bytes → Round
restore_node s n rest =
    let (s', st) = Storage.restore s n in
    elim st [ Storage.Status.ok ↦ next s' rest | _ ↦ stop (some error) s' rest ]

unfoldable pub load_node : ℕ → Bytes → Storage → Round
load_node room bs s = elim (read_word 4 bs) [
  | none ↦ stop (some io_error) s bs
  | some (len, after_len) ↦ elim (read_exact len after_len) [
    | none ↦ stop (some io_error) s after_len
    | some (bytes, rest) ↦ elim (decode_node room bytes) [
      | NodeRead.error ↦ stop (some error) s rest
      | NodeRead.aborts ↦ stop none s rest
      | NodeRead.node n ↦ restore_node s n rest
    ]
  ]
]

-- The loop over the nodes that are left: the status, the storage when it ends, and the unread bytes.
unfoldable pub load_each : ℕ → ℕ → Bytes → Storage → Option Status × Storage × Bytes
load_each room zero bs s = (some ok, s, bs)
load_each room (suc left) bs s = elim (load_node room bs s) [
  | stop st s' rest ↦ (st, s', rest)
  | next s' rest ↦ load_each room left rest s'
]

-- `next_id == 0 ? 1 : next_id`
abbrev pub restored_next_id : ℕ → ℕ
restored_next_id next_id = if next_id == 0 then 1 else next_id

module _ {I : Type 0} where
  -- `DumpNodes`
  unfoldable pub dump_nodes : VNodeIndex I → Sink → Sink × Status
  dump_nodes s f = dump_each s.storage.by_id f

  -- The storage and the order before the loop.
  abbrev pub emptied : VNodeIndex I → VNodeIndex I
  emptied s = record s { storage = Storage.clear s.storage; lru = Lru.clear s.lru }

  -- What follows a loop that has read every node.
  abbrev pub finish_load : VNodeIndex I → Storage → ℕ → VNodeIndex I
  finish_load s storage next_id =
      rebuild_lru (record s { storage = Storage.set_next_id storage (restored_next_id next_id) })

  -- What follows the loop. In memory, bytes left over are an error.
  unfoldable pub end_load :
      Bool → VNodeIndex I → ℕ → Option Status → Storage → Bytes → VNodeIndex I × Option Status
  end_load in_memory s next_id (some ok) storage unread =
      if in_memory && not (is_empty unread)
      then (record s { storage = storage }, some io_error)
      else (finish_load s storage next_id, some ok)
  end_load in_memory s next_id st storage unread = (record s { storage = storage }, st)

  -- `LoadNodes`, and `LoadNodesFrom` where `in_memory`.
  unfoldable pub load_nodes : ℕ → Bool → VNodeIndex I → Bytes → ℕ → ℕ → VNodeIndex I × Option Status
  load_nodes room in_memory s bs node_count next_id =
      let (st, storage, unread) = load_each room node_count bs (Storage.clear s.storage) in
      end_load in_memory (emptied s) next_id st storage unread

module _ {I : Type 0} (u : Usearch I) where
  -- `SaveIndex`
  unfoldable pub save_index : VNodeIndex I → Sink → Sink × Status
  save_index s f = elim s.index [
    | none ↦ (f, ok)
    | some e ↦
        if s.dim == 0
        then (f, ok)
        else (let (f', st) = Embed.save u e f in
            (f', elim st [ Embed.Status.ok ↦ ok | _ ↦ io_error ]))
  ]

  -- What a load of the vector index leaves: the new index replaces the old one only if it has
  -- `dim` dimensions.
  abbrev pub adopt : VNodeIndex I → ℕ → Embed I → Embed.Status → VNodeIndex I × Status
  adopt s dim e Embed.Status.ok =
      if not (e.dimensions == dim)
      then (s, dim_mismatch)
      else (record s { dim = dim; index = some e }, ok)
  adopt s dim e _ = (s, io_error)

  -- `LoadIndex`
  unfoldable pub load_index : VNodeIndex I → Bytes → ℕ → VNodeIndex I × Status
  load_index s bs dim =
      if dim == 0
      then (s, bad_value)
      else (let (e, st, rest) = Embed.load u (Embed.new_embed u dim s.default_capacity) bs in
          adopt s dim e st)

  -- `LoadIndexMapped`
  unfoldable pub load_index_mapped :
      VNodeIndex I → Bytes → Bytes → ℕ → ℕ → Bool → VNodeIndex I × Status
  load_index_mapped s path file offset dim view =
      if is_empty path || dim == 0
      then (s, bad_value)
      else (let (e, st) =
            Embed.load_mapped u view (Embed.new_embed u dim s.default_capacity) path file offset in
          adopt s dim e st)
