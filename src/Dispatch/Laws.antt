-- ===== src/Dispatch/Laws.antt =====
-- What a replica that is read-only leaves of the stores after a request.
use vemory.Prelude.{
  ℕ, ◌≡◌, refl, arith, Bool, true, false, Option, Bytes, ◌&&◌, Bool-cases, Option-cases, inl, inr,
}
use vemory.Command.{CommandType, vget, get, ping, echo, psync, unknown}
use vemory.Request.{RequestContext}
use vemory.Embed.{Usearch}
use vemory.Index
use vemory.Wal.{AofWriter}
use vemory.Mutation.{ReplFeed}
use vemory.Dispatch.{
  Managers, Server, kvs_dispatcher, vnode_dispatcher, replication_dispatcher, registered, dispatch,
  is_replica_write_command,
}

module _ {I W R S : Type 0} (u : Usearch I) (a : AofWriter W) (feeds : ReplFeed R)
    (managers : Managers S R) (float_gt : ℕ → ℕ → Bool) where
  get_same_storage :
      (i : Index.VNodeIndex I) (blob : Bytes) (threshold : ℕ)
      → (Index.get u float_gt i blob threshold).0.storage ≡ i.storage
  unfolding Index.get Index.answer_hit
  get_same_storage i blob threshold = ground arith

  abbrev Same : Server I W R S → Server I W R S × Option Bytes → Type 0
  Same s (s', r) = (s'.stores.kv ≡ s.stores.kv) × (s'.stores.index.storage ≡ s.stores.index.storage)

  -- The requests that are no writes.
  registered-Same :
      (s : Server I W R S) (ctx : RequestContext)
      → is_replica_write_command ctx.cmd ≡ false
      → Same s (registered u a feeds managers float_gt s ctx)
  unfolding registered kvs_dispatcher vnode_dispatcher replication_dispatcher
  registered-Same s ctx no_write = split ctx.cmd refl
    where
      split :
          (c : CommandType) → ctx.cmd ≡ c → Same s (registered u a feeds managers float_gt s ctx)
      split vget e = elim (Bool-cases s.has_index) [
        | inl given ↦
            rw (e, given, registered)
              (rw (e, vnode_dispatcher)
                (refl, get_same_storage s.stores.index ctx.vector_blob ctx.threshold))
        | inr null ↦ rw (e, null, registered) (refl, refl)
      ]
      split get e = elim (Bool-cases s.has_kv) [
        | inl given ↦ rw (e, given, registered) (rw (e, kvs_dispatcher) (refl, refl))
        | inr null ↦ rw (e, null, registered) (refl, refl)
      ]
      split psync e = elim (Option-cases s.stores.repl) [
        | inl null ↦ rw (e, null, replication_dispatcher, registered) (refl, refl)
        | inr (master, at) ↦ rw (e, at, replication_dispatcher, registered) (refl, refl)
      ]
      split ping e = rw (e, registered) (refl, refl)
      split echo e = rw (e, registered) (refl, refl)
      split unknown e = rw (e, registered) (refl, refl)
      split _ e = absurd (ground (arith, e, no_write))

  -- On a read-only replica no request changes the string store or the nodes of the semantic cache.
  pub dispatch-readonly :
      (s : Server I W R S) (ctx : RequestContext)
      → s.replica_readonly ≡ true
      → let s' = (dispatch u a feeds managers float_gt s ctx).0 in
        (s'.stores.kv ≡ s.stores.kv) × (s'.stores.index.storage ≡ s.stores.index.storage)
  unfolding dispatch
  dispatch-readonly s ctx readonly = elim (Bool-cases (is_replica_write_command ctx.cmd)) [
    | inl write ↦
        let refused : (s.replica_readonly && is_replica_write_command ctx.cmd) ≡ true =
          ground (arith, readonly, write) in
        rw (refused, dispatch) (refl, refl)
    | inr other ↦
        let allowed : (s.replica_readonly && is_replica_write_command ctx.cmd) ≡ false =
          ground (arith, other) in
        rw (allowed, dispatch) (registered-Same s ctx other)
  ]
