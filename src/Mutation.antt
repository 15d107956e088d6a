-- ===== src/Mutation.antt =====
-- src/mutate/MutationApply.cc, include/vemory/mutate/MutationApply.h: a write command is applied to
-- the stores, and a client's write is then logged and fed to the replicas.
pub mod Capacity
pub mod Replay
pub mod Logged
pub mod Recorded
pub mod Recovery
pub mod Tests
use vemory.Prelude.{
  ℕ, zero, suc, Bool, true, false, not, ◌||◌, ◌&&◌, Option, none, some, Bytes, [], ◌∷◌, codes,
  if◌then◌else◌,
}
use vemory.Command.{CommandType, vset, vdel, set, del}
use vemory.Request.{RequestContext, new_context, is_empty}
use vemory.Encode.{encode_write_command}
use vemory.KvStore
use vemory.KvStore.{KvStore}
use vemory.Storage
use vemory.Embed.{Usearch}
use vemory.Index
use vemory.Index.{VNodeIndex, needs_room_for, peek_lru_user_key}
use vemory.Wal
use vemory.Wal.{Wal, AofWriter, append_frame}

pub data MutateSource : Type 0 where
  client aof_replay : MutateSource

pub record ApplyResult : Type 0 where
  pub ok : Bool
  pub err : Bytes
  pub integer_reply : ℕ

-- What `ApplyMutation` asks of the replication master.
pub record ReplFeed (R : Type 0) : Type 0 where
  pub has_slaves : R → Bool
  pub feed : R → Bytes → R

-- The objects that the arguments of `ApplyMutation` point to. The log and the master may be null.
pub record Stores (I W R : Type 0) : Type 0 where
  pub index : VNodeIndex I
  pub kv : KvStore
  pub wal : Option (Wal W)
  pub repl : Option R

-- `out` with a message; `integer_reply` stays what it was.
abbrev pub failed : Bytes → ℕ → ApplyResult
failed message n = record { ok = false; err = message; integer_reply = n }

abbrev pub done : ℕ → ApplyResult
done n = record { ok = true; err = []; integer_reply = n }

-- The message for a status of `VNodeIndex::Set`.
abbrev pub vset_error : Index.Status → Bytes
vset_error Index.Status.bad_value = codes "invalid VSET arguments"
vset_error Index.Status.bad_vector_size = codes "invalid vector byte size"
vset_error Index.Status.dim_mismatch = codes "vector dimension mismatch"
vset_error Index.Status.index_init_failed = codes "usearch init failed"
vset_error _ = codes "vset failed"

-- The context of an eviction's VDEL.
abbrev pub eviction : Bytes → RequestContext
eviction victim = record new_context { cmd = vdel; user_key = victim }

module _ {I W R : Type 0} (u : Usearch I) (a : AofWriter W) (feeds : ReplFeed R) where
  abbrev pub wal_on : Stores I W R → Bool
  wal_on s = elim s.wal [ none ↦ false | some l ↦ l.enabled ]

  abbrev pub repl_on : Stores I W R → Bool
  repl_on s = elim s.repl [ none ↦ false | some r ↦ feeds.has_slaves r ]

  abbrev pub feed_frame : Stores I W R → Bytes → Stores I W R
  feed_frame s frame = elim s.repl [
    | none ↦ s
    | some r ↦ if feeds.has_slaves r then record s { repl = some (feeds.feed r frame) } else s
  ]

  -- `wal->AppendFrame(frame)`, where the log is on.
  unfoldable pub append : Stores I W R → Bytes → Stores I W R × Bool
  append s frame = elim s.wal [
    | none ↦ (s, true)
    | some l ↦
        if l.enabled
        then (let (l', st) = append_frame a l frame in
            (record s { wal = some l' }, elim st [ Wal.Status.ok ↦ true | _ ↦ false ]))
        else (s, true)
  ]

  unfoldable pub write_frame : Stores I W R → Bytes → ℕ → Stores I W R × ApplyResult
  write_frame s frame n =
      let (s', appended) = append s frame in
      if appended then (feed_frame s' frame, done n) else (s', failed (codes "aof append failed") n)

  -- What follows the `switch`: a client's write is encoded, logged and fed.
  unfoldable pub publish :
      MutateSource → Stores I W R → RequestContext → ℕ → Stores I W R × ApplyResult
  publish aof_replay s ctx n = (s, done n)
  publish client s ctx n =
      if wal_on s || repl_on s
      then (elim (encode_write_command ctx) [
        | none ↦ (s, failed (codes "encode write command failed") n)
        | some frame ↦ write_frame s frame n
      ])
      else (s, done n)

  -- The cases of the `switch`. `has_kv` and `has_index` say that the pointers are not null.
  unfoldable pub apply_set :
      MutateSource → Bool → Stores I W R → RequestContext → Stores I W R × ApplyResult
  apply_set src has_kv s ctx =
      if not has_kv
      then (s, failed (codes "kv not available") 0)
      else if is_empty ctx.key
      then (s, failed (codes "empty key") 0)
      else (let (m, st) = KvStore.set s.kv ctx.key ctx.element in
          elim st [
            | KvStore.Status.ok ↦ publish src (record s { kv = m }) ctx 0
            | _ ↦ (record s { kv = m }, failed (codes "set failed") 0)
          ])

  unfoldable pub apply_del :
      MutateSource → Bool → Stores I W R → RequestContext → Stores I W R × ApplyResult
  apply_del src has_kv s ctx =
      if not has_kv
      then (s, failed (codes "kv not available") 0)
      else if is_empty ctx.key
      then (s, failed (codes "empty key") 0)
      else (let (m, st) = KvStore.del s.kv ctx.key in
          elim st [
            | KvStore.Status.not_found ↦ (record s { kv = m }, done 0)
            | KvStore.Status.ok ↦ publish src (record s { kv = m }) ctx 1
            | _ ↦ (record s { kv = m }, failed (codes "del failed") 0)
          ])

  unfoldable pub apply_vdel :
      MutateSource → Bool → Stores I W R → RequestContext → Stores I W R × ApplyResult
  apply_vdel src has_index s ctx =
      if not has_index
      then (s, failed (codes "index not available") 0)
      else (let (v, st) = Index.del u s.index ctx.user_key in
          elim st [
            | Index.Status.not_found ↦ (record s { index = v }, done 0)
            | Index.Status.ok ↦ publish src (record s { index = v }) ctx 1
            | _ ↦ (record s { index = v }, failed (codes "vdel failed") 0)
          ])

  -- The body of the eviction loop: the entry that was used least recently is deleted as a client
  -- would delete it.
  unfoldable pub evict_one : Stores I W R → Stores I W R × ApplyResult
  evict_one s =
      let (v, st, victim) = peek_lru_user_key s.index in
      elim st [
        | Index.Status.ok ↦
            if is_empty victim
            then (record s { index = v }, failed (codes "eviction failed") 0)
            else apply_vdel client true (record s { index = v }) (eviction victim)
        | _ ↦ (record s { index = v }, failed (codes "eviction failed") 0)
      ]

  -- The loop, with the rounds that it may take: `none` says that they were too few. Otherwise the
  -- result is `some` of the failure that ends the command, or there is room.
  unfoldable pub evict : ℕ → Stores I W R → Bytes → Stores I W R × Option (Option ApplyResult)
  evict zero s key = if needs_room_for s.index key then (s, none) else (s, some none)
  evict (suc rounds) s key = elim (needs_room_for s.index key) [
    | false ↦ (s, some none)
    | true ↦
        let (s', r) = evict_one s in
        let rest = evict rounds s' key in if r.ok then rest else (s', some (some r))
  ]

  -- VSET once there is room.
  unfoldable pub store_vector :
      MutateSource → Stores I W R → RequestContext → Stores I W R × ApplyResult
  store_vector src s ctx =
      let (v, st) = Index.set u s.index ctx.vector_blob ctx.user_key ctx.question ctx.answer in
      elim st [
        | Index.Status.ok ↦ publish src (record s { index = v }) ctx 0
        | failure ↦ (record s { index = v }, failed (vset_error failure) 0)
      ]

  -- A round for each node, and one more.
  abbrev pub eviction_rounds : Stores I W R → ℕ
  eviction_rounds s = suc (Storage.size s.index.storage)

  unfoldable pub make_room :
      MutateSource → Stores I W R → Bytes → Stores I W R × Option (Option ApplyResult)
  make_room aof_replay s key = (s, some none)
  make_room client s key = evict (eviction_rounds s) s key

  unfoldable pub apply_vset :
      MutateSource → Bool → Stores I W R → RequestContext → Stores I W R × Option ApplyResult
  apply_vset src has_index s ctx =
      if not has_index
      then (s, some (failed (codes "index not available") 0))
      else (let (s', room) = make_room src s ctx.user_key in
          elim room [
            | none ↦ (s', none)
            | some stopped ↦ elim stopped [
              | some r ↦ (s', some r)
              | none ↦ let (s'', r) = store_vector src s' ctx in (s'', some r)
            ]
          ])

  abbrev pub returned : Stores I W R × ApplyResult → Stores I W R × Option ApplyResult
  returned (s, r) = (s, some r)

  -- `ApplyMutation`. `none` would be an eviction loop that does not end.
  unfoldable pub apply_mutation :
      MutateSource → Bool → Bool → Stores I W R → RequestContext → Stores I W R × Option ApplyResult
  apply_mutation src has_index has_kv s ctx = elim ctx.cmd [
    | set ↦ returned (apply_set src has_kv s ctx)
    | del ↦ returned (apply_del src has_kv s ctx)
    | vset ↦ apply_vset src has_index s ctx
    | vdel ↦ returned (apply_vdel src has_index s ctx)
    | _ ↦ (s, some (failed (codes "unknown write command") 0))
  ]
