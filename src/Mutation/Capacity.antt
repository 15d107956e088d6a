-- ===== src/Mutation/Capacity.antt =====
-- The semantic cache under mutations: the loop that evicts ends, the limit on entries holds, and
-- the nodes and the access order stay in step.
use vemory.Prelude.{
  ℕ, zero, suc, ◌+◌, ◌<◌, ◌≤◌, ◌≡◌, ◌≢◌, refl, ◌∙◌, Bytes, Bool, true, false, Option, some, none,
  arith, Option-cases, Bool-cases, inl, inr,
}
use vemory.Request.{RequestContext}
use vemory.KvStore
use vemory.Encode.{encode_write_command}
use vemory.Command.{CommandType, set, del, vset, vdel}
use vemory.Storage
use vemory.Storage.{VNode}
use vemory.Embed.{Usearch}
use vemory.Index
use vemory.Index.{VNodeIndex, needs_room_for, peek_lru_user_key}
use vemory.Index.Invariant.{InStep, set-InStep, del-InStep}
use vemory.Index.Eviction.{victim}
use vemory.Index.Size.{del_size, del_size-le, del_limit, set_within}
use vemory.Wal.{AofWriter}
use vemory.Mutation.{
  MutateSource, client, aof_replay, ApplyResult, ReplFeed, Stores, publish, write_frame, append,
  apply_set, apply_del, apply_vdel, evict_one, evict, store_vector, eviction_rounds, make_room,
  apply_vset, apply_mutation, eviction,
}

module _ {I W R : Type 0} (u : Usearch I) (a : AofWriter W) (feeds : ReplFeed R) where
  write_frame_stores :
      (s : Stores I W R) (frame : Bytes) (n : ℕ)
      → ((write_frame u a feeds s frame n).0.index ≡ s.index)
        × ((write_frame u a feeds s frame n).0.kv ≡ s.kv)
  unfolding write_frame append
  write_frame_stores s frame n = ground arith

  -- Logging and feeding do not touch the stores.
  pub publish_stores :
      (src : MutateSource) (s : Stores I W R) (ctx : RequestContext) (n : ℕ)
      → ((publish u a feeds src s ctx n).0.index ≡ s.index)
        × ((publish u a feeds src s ctx n).0.kv ≡ s.kv)
  unfolding publish
  publish_stores aof_replay s ctx n = (refl, refl)
  publish_stores client s ctx n = elim (Option-cases (encode_write_command ctx)) [
    | inl other ↦ ground arith
    | inr (frame, e) ↦ ground (arith, write_frame_stores s frame n)
  ]

  pub apply_vdel_index :
      (src : MutateSource) (s : Stores I W R) (ctx : RequestContext)
      → (apply_vdel u a feeds src true s ctx).0.index ≡ (Index.del u s.index ctx.user_key).0
  unfolding apply_vdel
  apply_vdel_index src s ctx =
      let v : VNodeIndex I = (Index.del u s.index ctx.user_key).0 in
      ground (arith, publish_stores src (record s { index = v }) ctx 1)

  -- A round of the eviction leaves one node less.
  pub evict_one_size :
      (s : Stores I W R) (key : Bytes)
      → InStep s.index
      → needs_room_for s.index key ≡ true
      → InStep (evict_one u a feeds s).0.index
        × ((evict_one u a feeds s).0.index.max_entries ≡ s.index.max_entries)
        × (Storage.size (evict_one u a feeds s).0.index.storage + 1 ≡ Storage.size s.index.storage)
  unfolding evict_one
  evict_one_size s key v full =
      let (n, peeked, named, found) = victim s.index v key full in
      let (done, smaller) = del_size u s.index v n.user_key n named found in
      let same = apply_vdel_index client s (eviction n.user_key) in
      let runs : (evict_one u a feeds s).0.index ≡ (Index.del u s.index n.user_key).0 =
        ground (arith, peeked, named, same) in
      rw runs (del-InStep u s.index n.user_key v, del_limit u s.index n.user_key, smaller)

  -- What is true after the loop: it has ended, with room for the key unless a round has failed.
  abbrev Evicted : Stores I W R → Bytes → Stores I W R × Option (Option ApplyResult) → Type 0
  Evicted s key (s', o) =
      (o ≢ none)
      × InStep s'.index
      × (s'.index.max_entries ≡ s.index.max_entries)
      × (Storage.size s'.index.storage ≤ Storage.size s.index.storage)
      × (o ≡ some none → needs_room_for s'.index key ≡ false)

  now-Evicted :
      (s : Stores I W R) (key : Bytes)
      → InStep s.index
      → needs_room_for s.index key ≡ false
      → Evicted s key (s, some none)
  now-Evicted s key v room = (λ e. cc e, v, refl, omega arith, λ e. room)

  -- With a round for each node and one more, the loop ends.
  evict_lem :
      (rounds : ℕ) (s : Stores I W R) (key : Bytes)
      → InStep s.index
      → Storage.size s.index.storage < rounds
      → Evicted s key (evict u a feeds rounds s key)
  unfolding evict
  evict_lem zero s key v few = absurd (omega arith)
  evict_lem (suc rounds) s key v few = elim (Bool-cases (needs_room_for s.index key)) [
    | inr room ↦ rw (room, evict) (now-Evicted s key v room)
    | inl full ↦
        let (v', limit, smaller) = evict_one_size s key v full in
        let later = evict_lem rounds (evict_one u a feeds s).0 key v' (omega arith) in
        elim (Bool-cases (evict_one u a feeds s).1.ok) [
          | inl good ↦
              rw (full, good, evict)
                (later.0, later.1, later.2 ∙ limit, omega (arith, later.3), later.4)
          | inr bad ↦ rw (full, bad, evict) (λ e. cc e, v', limit, omega arith, λ e. cc e)
        ]
  ]

  make_room_lem :
      (src : MutateSource) (s : Stores I W R) (key : Bytes)
      → InStep s.index
      → ((make_room u a feeds src s key).1 ≢ none)
        × InStep (make_room u a feeds src s key).0.index
        × (src ≡ client → Evicted s key (make_room u a feeds src s key))
  unfolding make_room
  make_room_lem aof_replay s key v = (λ e. cc e, v, λ e. cc e)
  make_room_lem client s key v =
      let e = evict_lem (eviction_rounds u a feeds s) s key v (omega arith) in (e.0, e.1, λ k. e)

  store_vector_index :
      (src : MutateSource) (s : Stores I W R) (ctx : RequestContext)
      → (store_vector u a feeds src s ctx).0.index
        ≡ (Index.set u s.index ctx.vector_blob ctx.user_key ctx.question ctx.answer).0
  unfolding store_vector
  store_vector_index src s ctx =
      let v : VNodeIndex I =
        (Index.set u s.index ctx.vector_blob ctx.user_key ctx.question ctx.answer).0 in
      ground (arith, publish_stores src (record s { index = v }) ctx 0)

  -- What `ApplyMutation` promises of the semantic cache.
  abbrev Kept : MutateSource → Stores I W R → Stores I W R × Option ApplyResult → Type 0
  Kept src s (s', o) =
      (o ≢ none)
      × InStep s'.index
      × (src ≡ client
          → s.index.max_entries ≢ 0
          → Storage.size s.index.storage ≤ s.index.max_entries
          → Storage.size s'.index.storage ≤ s.index.max_entries)

  -- A write that leaves the cache alone, or makes it smaller.
  smaller-Kept :
      (src : MutateSource) (s s' : Stores I W R) (r : ApplyResult)
      → InStep s'.index
      → Storage.size s'.index.storage ≤ Storage.size s.index.storage
      → Kept src s (s', some r)
  smaller-Kept src s s' r v fewer = (λ e. cc e, v, λ c limited fits. omega arith)

  apply_set_index :
      (src : MutateSource) (has_kv : Bool) (s : Stores I W R) (ctx : RequestContext)
      → (apply_set u a feeds src has_kv s ctx).0.index ≡ s.index
  unfolding apply_set
  apply_set_index src has_kv s ctx =
      let m = (KvStore.set s.kv ctx.key ctx.element).0 in
      ground (arith, publish_stores src (record s { kv = m }) ctx 0)

  apply_del_index :
      (src : MutateSource) (has_kv : Bool) (s : Stores I W R) (ctx : RequestContext)
      → (apply_del u a feeds src has_kv s ctx).0.index ≡ s.index
  unfolding apply_del
  apply_del_index src has_kv s ctx =
      let m = (KvStore.del s.kv ctx.key).0 in
      ground (arith, publish_stores src (record s { kv = m }) ctx 1)

  apply_vdel_smaller :
      (src : MutateSource) (has_index : Bool) (s : Stores I W R) (ctx : RequestContext)
      → InStep s.index
      → InStep (apply_vdel u a feeds src has_index s ctx).0.index
        × (Storage.size (apply_vdel u a feeds src has_index s ctx).0.index.storage
            ≤ Storage.size s.index.storage)
  apply_vdel_smaller src false s ctx v = unfold apply_vdel in (v, omega arith)
  apply_vdel_smaller src true s ctx v =
      rw (apply_vdel_index src s ctx)
        (del-InStep u s.index ctx.user_key v, del_size-le u s.index ctx.user_key)

  -- VSET once the loop has run.
  stored-Kept :
      (src : MutateSource) (s s' : Stores I W R) (ctx : RequestContext)
      → InStep s'.index
      → (src ≡ client → Evicted s ctx.user_key (s', some none))
      → let (s'', r) = store_vector u a feeds src s' ctx in Kept src s (s'', some r)
  stored-Kept src s s' ctx v evicted = rw (store_vector_index src s' ctx) (
    λ e. cc e,
    set-InStep u s'.index ctx.vector_blob ctx.user_key ctx.question ctx.answer v,
    λ c limited fits.
        let (ended, w, limit, fewer, room) = evicted c in
        let within =
          set_within u s'.index ctx.vector_blob ctx.user_key ctx.question ctx.answer v.storage_valid
            (room refl) (λ e. limited (ground (arith, limit))) (omega arith) in
        omega (arith, within, limit),
  )

  -- What VSET does with the outcome of the loop.
  outcome-Kept :
      (src : MutateSource) (s : Stores I W R) (ctx : RequestContext)
      (m : Stores I W R × Option (Option ApplyResult))
      → m.1 ≢ none
      → InStep m.0.index
      → (src ≡ client → Evicted s ctx.user_key m)
      → Kept src s (elim m.1 [
        | none ↦ (m.0, none)
        | some stopped ↦ elim stopped [
          | some r ↦ (m.0, some r)
          | none ↦ let (s'', r) = store_vector u a feeds src m.0 ctx in (s'', some r)
        ]
      ])
  outcome-Kept src s ctx (s', none) ended v evicted = absurd (ended refl)
  outcome-Kept src s ctx (s', some none) ended v evicted = stored-Kept src s s' ctx v evicted
  outcome-Kept src s ctx (s', some (some r)) ended v evicted =
      (λ e. cc e, v, λ c limited fits. let (w, x, y, fewer, z) = evicted c in omega (arith, fewer))

  apply_vset-Kept :
      (src : MutateSource) (has_index : Bool) (s : Stores I W R) (ctx : RequestContext)
      → InStep s.index
      → Kept src s (apply_vset u a feeds src has_index s ctx)
  unfolding apply_vset
  apply_vset-Kept src false s ctx v = smaller-Kept src s s _ v (omega arith)
  apply_vset-Kept src true s ctx v =
      let (ended, v', evicted) = make_room_lem src s ctx.user_key v in
      outcome-Kept src s ctx (make_room u a feeds src s ctx.user_key) ended v' evicted

  apply_mutation_lem :
      (src : MutateSource) (has_index has_kv : Bool) (s : Stores I W R) (ctx : RequestContext)
      → InStep s.index
      → Kept src s (apply_mutation u a feeds src has_index has_kv s ctx)
  unfolding apply_mutation
  apply_mutation_lem src has_index has_kv s ctx v = split ctx.cmd refl
    where
      split :
          (c : CommandType)
          → ctx.cmd ≡ c
          → Kept src s (apply_mutation u a feeds src has_index has_kv s ctx)
      split set e =
          rw (e, apply_mutation, apply_set_index src has_kv s ctx)
            (λ e. cc e, v, λ c limited fits. fits)
      split del e =
          rw (e, apply_mutation, apply_del_index src has_kv s ctx)
            (λ e. cc e, v, λ c limited fits. fits)
      split vset e = rw (e, apply_mutation) (apply_vset-Kept src has_index s ctx v)
      split vdel e =
          let (v', fewer) = apply_vdel_smaller src has_index s ctx v in
          rw (e, apply_mutation) (λ e. cc e, v', λ c limited fits. omega (arith, fewer))
      split _ e = rw (e, apply_mutation) (smaller-Kept src s s _ v (omega arith))

  -- From any source, with any context and any answers of the usearch library and of the log, a
  -- mutation comes to an end (the loop that evicts does), and it keeps the nodes, the index over their
  -- user keys and the access order in step.
  pub apply_mutation-InStep :
      (src : MutateSource) (has_index has_kv : Bool) (s : Stores I W R) (ctx : RequestContext)
      → InStep s.index
      → let (s', r) = apply_mutation u a feeds src has_index has_kv s ctx in
        (r ≢ none) × InStep s'.index
  apply_mutation-InStep src has_index has_kv s ctx v =
      let kept = apply_mutation_lem src has_index has_kv s ctx v in (kept.0, kept.1)

  -- A client's mutation never leaves more entries in the semantic cache than the limit, if there is a
  -- limit and it held before, whatever the command is and whether it succeeds.
  pub apply_mutation_within :
      (has_index has_kv : Bool) (s : Stores I W R) (ctx : RequestContext)
      → InStep s.index
      → s.index.max_entries ≢ 0
      → Storage.size s.index.storage ≤ s.index.max_entries
      → Storage.size (apply_mutation u a feeds client has_index has_kv s ctx).0.index.storage
        ≤ s.index.max_entries
  apply_mutation_within has_index has_kv s ctx v limited fits =
      (apply_mutation_lem client has_index has_kv s ctx v).2 refl limited fits
