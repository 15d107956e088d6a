-- ===== src/Dispatch.antt =====
-- src/protocol/dispatcher/*.cc, include/vemory/protocol/dispatcher/*.h: a request is given to the
-- dispatcher that is registered for its command, and gets a reply. Pointers to replies are never null.
pub mod Laws
mod Tests
use vemory.Prelude.{
  ℕ, Bool, true, false, not, ◌&&◌, ◌||◌, Option, none, some, Bytes, [], ◌∷◌, ◌++◌, codes,
  if◌then◌else◌,
}
use vemory.Decimal.{ℤ, pos}
use vemory.Command.{CommandType, vset, vget, vdel, set, get, del, ping, echo, save, psync, unknown}
use vemory.Request.{RequestContext, is_empty}
use vemory.Encode.{
  append_error, append_ok, append_integer, append_bulk_string, append_null_bulk,
  append_simple_string,
}
use vemory.KvStore
use vemory.Embed.{Usearch}
use vemory.Index
use vemory.Wal.{AofWriter}
use vemory.Mutation.{ReplFeed, Stores, ApplyResult, client, apply_mutation}

-- `SnapshotManager::Status`
pub data SaveStatus : Type 0 where
  ok bad_value not_configured in_progress io_error error : SaveStatus

-- What the dispatchers ask of the snapshots and of the replication master.
pub record Managers (S R : Type 0) : Type 0 where
  pub background_save : S → S × SaveStatus
  pub on_psync : R → ℤ → Bytes → ℤ → R × Bytes

-- The objects behind `CommandHandler`. The flags say that the pointers to the stores are not null.
pub record Server (I W R S : Type 0) : Type 0 where
  pub stores : Stores I W R
  pub has_index : Bool
  pub has_kv : Bool
  pub snapshot : Option S
  pub replica_readonly : Bool

abbrev pub is_replica_write_command : CommandType → Bool
is_replica_write_command set = true
is_replica_write_command del = true
is_replica_write_command vset = true
is_replica_write_command vdel = true
is_replica_write_command save = true
is_replica_write_command _ = false

abbrev pub unknown_command : Bytes
unknown_command = append_error [] (codes "ERR unknown command")

-- `AssistDispatcher`
unfoldable pub assist_dispatcher : RequestContext → Bytes
assist_dispatcher ctx = elim ctx.cmd [
  | ping ↦
      if is_empty ctx.element
      then append_simple_string [] (codes "PONG")
      else append_bulk_string [] ctx.element
  | echo ↦ append_bulk_string [] ctx.element
  | _ ↦ unknown_command
]

-- The replies to a mutation: to one that replies OK, and to one that replies a number.
abbrev pub reply_ok : ApplyResult → Bytes
reply_ok r = if not r.ok then append_error [] (codes "ERR " ++ r.err) else append_ok []

abbrev pub reply_integer : ApplyResult → Bytes
reply_integer r =
    if not r.ok
    then append_error [] (codes "ERR " ++ r.err)
    else append_integer [] (pos r.integer_reply)

abbrev pub reply_get : KvStore.Status × Option Bytes → Bytes
reply_get (KvStore.ok, some value) = append_bulk_string [] value
reply_get (KvStore.ok, none) = append_bulk_string [] []
reply_get (KvStore.not_found, value) = append_null_bulk []
reply_get (_, value) = append_error [] (codes "ERR get failed")

-- `PersistDispatcher` on SAVE
abbrev pub reply_save : SaveStatus → Bytes
reply_save ok = append_ok []
reply_save not_configured = append_error [] (codes "ERR persistence dir not set")
reply_save in_progress = append_error [] (codes "ERR Background save already in progress")
reply_save _ = append_error [] (codes "ERR save failed")

module _ {I W R S : Type 0} (u : Usearch I) (a : AofWriter W) (feeds : ReplFeed R)
    (managers : Managers S R) (float_gt : ℕ → ℕ → Bool) where
  -- A mutation by a dispatcher, with the reply; `none` would be one that does not end.
  unfoldable pub mutate :
      Bool
      → Bool
      → (ApplyResult → Bytes)
      → Server I W R S
      → RequestContext
      → Server I W R S × Option Bytes
  mutate has_index has_kv reply s ctx =
      let (stores', applied) = apply_mutation u a feeds client has_index has_kv s.stores ctx in
      (record s { stores = stores' }, elim applied [ none ↦ none | some r ↦ some (reply r) ])

  -- `KvsDispatcher`
  unfoldable pub kvs_dispatcher : Server I W R S → RequestContext → Server I W R S × Option Bytes
  kvs_dispatcher s ctx = elim ctx.cmd [
    | set ↦ mutate false true reply_ok s ctx
    | get ↦ (s, some (reply_get (KvStore.get s.stores.kv ctx.key)))
    | del ↦ mutate false true reply_integer s ctx
    | _ ↦ (s, some unknown_command)
  ]

  -- `VNodeDispatcher`
  unfoldable pub vnode_dispatcher : Server I W R S → RequestContext → Server I W R S × Option Bytes
  vnode_dispatcher s ctx = elim ctx.cmd [
    | vset ↦ mutate true false reply_ok s ctx
    | vget ↦
        let (index', st, answer) =
          Index.get u float_gt s.stores.index ctx.vector_blob ctx.threshold in
        (
          record s { stores = record s.stores { index = index' } },
          some (elim st [
            | Index.Status.ok ↦ append_bulk_string [] answer
            | _ ↦ append_null_bulk []
          ]),
        )
    | vdel ↦ mutate true false reply_integer s ctx
    | _ ↦ (s, some unknown_command)
  ]

  -- `PersistDispatcher` and `ReplicationDispatcher`, where they are registered.
  unfoldable pub persist_dispatcher : Server I W R S → Server I W R S × Option Bytes
  persist_dispatcher s = elim s.snapshot [
    | none ↦ (s, some unknown_command)
    | some snap ↦
        let (snap', st) = managers.background_save snap in
        (record s { snapshot = some snap' }, some (reply_save st))
  ]

  -- A full resynchronisation leaves the reply empty: then nothing is sent, and the master sends its
  -- answer later.
  unfoldable pub replication_dispatcher :
      Server I W R S → RequestContext → Server I W R S × Option Bytes
  replication_dispatcher s ctx = elim s.stores.repl [
    | none ↦ (s, some unknown_command)
    | some master ↦
        let (master', reply) =
          managers.on_psync master ctx.client_fd ctx.psync_replid ctx.psync_offset in
        (record s { stores = record s.stores { repl = some master' } }, some reply)
  ]

  -- `HandlerRegister::Dispatch` over what the constructor of `CommandHandler` registers.
  unfoldable pub registered : Server I W R S → RequestContext → Server I W R S × Option Bytes
  registered s ctx = elim ctx.cmd [
    | ping ↦ (s, some (assist_dispatcher ctx))
    | echo ↦ (s, some (assist_dispatcher ctx))
    | vset ↦ if s.has_index then vnode_dispatcher s ctx else (s, some unknown_command)
    | vget ↦ if s.has_index then vnode_dispatcher s ctx else (s, some unknown_command)
    | vdel ↦ if s.has_index then vnode_dispatcher s ctx else (s, some unknown_command)
    | set ↦ if s.has_kv then kvs_dispatcher s ctx else (s, some unknown_command)
    | del ↦ if s.has_kv then kvs_dispatcher s ctx else (s, some unknown_command)
    | get ↦ if s.has_kv then kvs_dispatcher s ctx else (s, some unknown_command)
    | save ↦ persist_dispatcher s
    | psync ↦ replication_dispatcher s ctx
    | unknown ↦ (s, some unknown_command)
  ]

  -- `CommandHandler::Dispatch`
  unfoldable pub dispatch : Server I W R S → RequestContext → Server I W R S × Option Bytes
  dispatch s ctx =
      if s.replica_readonly && is_replica_write_command ctx.cmd
      then (
        s,
        some (append_error [] (codes "READONLY You can't write against a read only replica.")),
      )
      else registered s ctx
