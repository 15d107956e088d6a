-- ===== src/Mutation/Recorded.antt =====
-- A client's mutation that succeeds is recorded in the log: the frames that it adds, replayed, take
-- the stores where the mutation took them, evictions included.
use vemory.Prelude.{
  ℕ, zero, suc, ◌≡◌, refl, ap, codes, sym, subst, List, [], ◌∷◌, Bytes, ◌++◌, true, false, Option,
  some, none, arith, Bool-cases, inl, inr, append_assoc,
}
use vemory.Request.{RequestContext, is_empty}
use vemory.Command.{CommandType, set, del, vset, vdel}
use vemory.Embed.{Usearch}
use vemory.Storage.{VNode}
use vemory.Index
use vemory.Index.{VNodeIndex, needs_room_for, peek_lru_user_key, parse_float_blob}
use vemory.Index.Invariant.{InStep}
use vemory.Index.Eviction.{victim}
use vemory.Wal.{AofWriter}
use vemory.Mutation.Capacity.{evict_one_size, apply_vdel_index}
use vemory.Mutation.{
  client, ApplyResult, ReplFeed, Stores, publish, apply_vdel, evict_one, evict, store_vector,
  eviction_rounds, make_room, apply_vset, apply_mutation, apply_set, apply_del, eviction, returned,
  failed,
}
use vemory.Mutation.Logged.{
  KeepsFrames, Logged-append, Logging, Adds, frame_of, found_frame, own_frame, is_there, published,
  unchanged-Recorded, apply_set-Recorded, apply_del-Recorded, apply_vdel-Recorded,
}

-- The frames of the evictions of some keys.
abbrev pub evictions : List Bytes → Bytes
evictions [] = []
evictions (key ∷ keys) = frame_of (eviction key) ++ evictions keys

-- Keys of which each is the one used least recently once those before it have been deleted.
abbrev pub Victims : {I : Type 0} → Usearch I → VNodeIndex I → List Bytes → Type 0
Victims u i [] = Unit {0}
Victims u i (key ∷ keys) =
    (peek_lru_user_key i ≡ (i, Index.ok, key)) × Victims u (Index.del u i key).0 keys

-- Only a VSET evicts.
abbrev pub EvictedBy : {I : Type 0} → CommandType → Usearch I → VNodeIndex I → List Bytes → Type 0
EvictedBy vset u i keys = Victims u i keys
EvictedBy c u i keys = keys ≡ []

module _ {I W R : Type 0} (u : Usearch I) (a : AofWriter W) (feeds : ReplFeed R) (bytes : W → Bytes)
    (keeps : KeepsFrames a bytes) where
  -- One recorded mutation after another.
  pub Adds-append :
      (s s' s'' : Stores I W R) (log more more' : Bytes)
      → Adds u a feeds bytes keeps s log more s'
      → Adds u a feeds bytes keeps s' (log ++ more) more' s''
      → Adds u a feeds bytes keeps s log (more ++ more') s''
  Adds-append s s' s'' log more more' (on, logged) (on', logged') =
      (rw (← append_assoc log more more') on', Logged-append u a feeds logged logged')

  -- A round of the eviction is the VDEL of the victim.
  evict_one-Recorded :
      (s : Stores I W R) (log key : Bytes)
      → InStep s.index
      → needs_room_for s.index key ≡ true
      → Logging u a feeds bytes keeps s log
      → (evict_one u a feeds s).1.ok ≡ true
      → (k : Bytes) × (peek_lru_user_key s.index ≡ (s.index, Index.ok, k))
        × ((evict_one u a feeds s).0.index ≡ (Index.del u s.index k).0)
        × Adds u a feeds bytes keeps s log (frame_of (eviction k)) (evict_one u a feeds s).0
  unfolding evict_one
  evict_one-Recorded s log key v full on good =
      let (n, peeked, named, found) = victim s.index v key full in
      let status : (peek_lru_user_key s.index).1 ≡ Index.ok = rw peeked in
      let same : (peek_lru_user_key s.index).0 ≡ s.index = rw peeked in
      let key_of_victim : (peek_lru_user_key s.index).2 ≡ n.user_key = rw peeked in
      let named_victim : is_empty n.user_key ≡ false = ground (arith, named) in
      let runs : evict_one u a feeds s ≡ apply_vdel u a feeds client true s (eviction n.user_key) =
        rw (status, same, key_of_victim, named_victim, evict_one) in
      let added : Adds u a feeds bytes keeps s log (found_frame true (eviction n.user_key))
          (apply_vdel u a feeds client true s (eviction n.user_key)).0 =
        subst
          (λ (o : Option VNode).
            Adds u a feeds bytes keeps s log (found_frame (is_there o) (eviction n.user_key))
              (apply_vdel u a feeds client true s (eviction n.user_key)).0)
          found
          (apply_vdel-Recorded u a feeds bytes keeps s log (eviction n.user_key) on refl
            (rw runs at good)) in
      (
        n.user_key,
        peeked,
        rw runs (apply_vdel_index u a feeds client s (eviction n.user_key)),
        rw runs added,
      )

  evict-Recorded :
      (rounds : ℕ) (s : Stores I W R) (log key : Bytes)
      → InStep s.index
      → Logging u a feeds bytes keeps s log
      → (evict u a feeds rounds s key).1 ≡ some none
      → (keys : List Bytes) × Victims u s.index keys
        × Adds u a feeds bytes keeps s log (evictions keys) (evict u a feeds rounds s key).0
  unfolding evict
  evict-Recorded zero s log key v on room = elim (Bool-cases (needs_room_for s.index key)) [
    | inl full ↦ absurd (ground (arith, full, room))
    | inr enough ↦ rw (enough, evict) ([], tt, unchanged-Recorded u a feeds bytes keeps s log on)
  ]
  evict-Recorded (suc rounds) s log key v on room = elim (Bool-cases (needs_room_for s.index key)) [
    | inr enough ↦ rw (enough, evict) ([], tt, unchanged-Recorded u a feeds bytes keeps s log on)
    | inl full ↦ elim (Bool-cases (evict_one u a feeds s).1.ok) [
      | inr bad ↦ absurd (ground (arith, full, bad, room))
      | inl good ↦
          let (k, peeked, deleted, added) = evict_one-Recorded s log key v full on good in
          let v' = (evict_one_size u a feeds s key v full).0 in
          let rest : (evict u a feeds rounds (evict_one u a feeds s).0 key).1 ≡ some none =
            ground (arith, full, good, room) in
          let (keys, victims, more) =
            evict-Recorded rounds (evict_one u a feeds s).0 (log ++ frame_of (eviction k)) key v'
              added.0 rest in
          rw (full, good, evict)
            (
              k ∷ keys,
              (peeked, subst (λ (i : VNodeIndex I). Victims u i keys) deleted victims),
              Adds-append s (evict_one u a feeds s).0
                  (evict u a feeds rounds (evict_one u a feeds s).0 key).0 log
                  (frame_of (eviction k)) (evictions keys) added more,
            )
    ]
  ]

  -- `Set` succeeds only with a user key.
  set_named :
      (i : VNodeIndex I) (blob key q b : Bytes)
      → (Index.set u i blob key q b).1 ≡ Index.ok
      → is_empty key ≡ false
  unfolding Index.set
  set_named i blob key q b good = elim (Bool-cases (is_empty key)) [
    | inr named ↦ named
    | inl nameless ↦ absurd (ground (arith, nameless, good))
  ]

  store_vector-Recorded :
      (s : Stores I W R) (log : Bytes) (ctx : RequestContext)
      → ctx.cmd ≡ vset
      → Logging u a feeds bytes keeps s log
      → (store_vector u a feeds client s ctx).1.ok ≡ true
      → Adds u a feeds bytes keeps s log (frame_of ctx) (store_vector u a feeds client s ctx).0
  unfolding store_vector apply_mutation apply_vset make_room publish
  store_vector-Recorded s log ctx c on good =
      split (Index.set u s.index ctx.vector_blob ctx.user_key ctx.question ctx.answer).1 refl
    where
      split :
          (st : Index.Status)
          → (Index.set u s.index ctx.vector_blob ctx.user_key ctx.question ctx.answer).1 ≡ st
          → Adds u a feeds bytes keeps s log (frame_of ctx) (store_vector u a feeds client s ctx).0
      split Index.ok e =
          let i : VNodeIndex I =
            (Index.set u s.index ctx.vector_blob ctx.user_key ctx.question ctx.answer).0 in
          let named = set_named s.index ctx.vector_blob ctx.user_key ctx.question ctx.answer e in
          let runs : store_vector u a feeds client s ctx
              ≡ publish u a feeds client (record s { index = i }) ctx 0 =
            rw (e, store_vector) in
          rw runs (
            published u a feeds bytes keeps s i s.kv log ctx 0 on (λ k. ground (arith, c, k, named))
              (rw (c, e, store_vector, make_room, apply_vset, apply_mutation)) (rw runs at good))
      split _ e = absurd (ground (arith, e, good))

  -- A loop that stops the command has met a failure.
  evict_stopped :
      (rounds : ℕ) (s : Stores I W R) (key : Bytes) (r : ApplyResult)
      → (evict u a feeds rounds s key).1 ≡ some (some r)
      → r.ok ≡ false
  unfolding evict
  evict_stopped zero s key r stopped = absurd (ground (arith, stopped))
  evict_stopped (suc rounds) s key r stopped =
      let later = evict_stopped rounds (evict_one u a feeds s).0 key r in
      ground (arith, stopped, later)

  -- VSET from what the loop leaves.
  outcome-Recorded :
      (s : Stores I W R) (log : Bytes) (ctx : RequestContext) (r : ApplyResult)
      (m : Stores I W R × Option (Option ApplyResult))
      → ctx.cmd ≡ vset
      → (m.1 ≡ some none
          → (keys : List Bytes) × Victims u s.index keys
            × Adds u a feeds bytes keeps s log (evictions keys) m.0)
      → ((x : ApplyResult) → m.1 ≡ some (some x) → x.ok ≡ false)
      → r.ok ≡ true
      → let end : Stores I W R × Option ApplyResult = elim m.1 [
        | none ↦ (m.0, none)
        | some stopped ↦ elim stopped [
          | some x ↦ (m.0, some x)
          | none ↦ let (s'', x) = store_vector u a feeds client m.0 ctx in (s'', some x)
        ]
      ] in
        end.1 ≡ some r
        → (keys : List Bytes) × Victims u s.index keys
          × Adds u a feeds bytes keeps s log (evictions keys ++ frame_of ctx) end.0
  outcome-Recorded s log ctx r (s', none) c room stops good result = absurd (cc result)
  outcome-Recorded s log ctx r (s', some (some x)) c room stops good result =
      absurd (ground (arith, stops x refl, good, result))
  outcome-Recorded s log ctx r (s', some none) c room stops good result =
      let (keys, victims, made) = room refl in
      (
        keys,
        victims,
        Adds-append s s' (store_vector u a feeds client s' ctx).0 log (evictions keys)
            (frame_of ctx) made
            (store_vector-Recorded s' (log ++ evictions keys) ctx c made.0
              (ground (arith, result, good))),
      )

  apply_vset-Recorded :
      (s : Stores I W R) (log : Bytes) (ctx : RequestContext) (r : ApplyResult)
      → InStep s.index
      → ctx.cmd ≡ vset
      → Logging u a feeds bytes keeps s log
      → r.ok ≡ true
      → (apply_vset u a feeds client true s ctx).1 ≡ some r
      → (keys : List Bytes) × Victims u s.index keys
        × Adds u a feeds bytes keeps s log
            (evictions keys ++ frame_of ctx)
            (apply_vset u a feeds client true s ctx).0
  unfolding apply_vset make_room
  apply_vset-Recorded s log ctx r v c on good result =
      let rounds : ℕ = eviction_rounds u a feeds s in
      outcome-Recorded s log ctx r (evict u a feeds rounds s ctx.user_key) c
        (evict-Recorded rounds s log ctx.user_key v on) (evict_stopped rounds s ctx.user_key) good
        result

  -- A client's mutation that succeeds, with the log on, adds to the log just these frames: for a
  -- VSET the VDELs of the keys that are evicted, each of them the one used least recently once
  -- those before it are gone, and then the command's own frame; for a DEL or VDEL that finds
  -- nothing none; and else the command's own frame. Replayed, they take the stores from where
  -- they were to where they are. (The cache's structures are in step, and the writer puts each
  -- frame that it takes at the end.)
  pub apply_mutation-Recorded :
      (s : Stores I W R) (log : Bytes) (ctx : RequestContext) (r : ApplyResult)
      → InStep s.index
      → Logging u a feeds bytes keeps s log
      → (apply_mutation u a feeds client true true s ctx).1 ≡ some r
      → r.ok ≡ true
      → (keys : List Bytes) × EvictedBy ctx.cmd u s.index keys
        × Adds u a feeds bytes keeps s log
            (evictions keys ++ own_frame ctx.cmd s.index s.kv ctx)
            (apply_mutation u a feeds client true true s ctx).0
  unfolding apply_mutation
  apply_mutation-Recorded s log ctx r v on result good = split ctx.cmd refl
    where
      Outcome : CommandType → Type 0
      Outcome c =
          (keys : List Bytes) × EvictedBy c u s.index keys
          × Adds u a feeds bytes keeps s log (evictions keys ++ own_frame c s.index s.kv ctx)
              (apply_mutation u a feeds client true true s ctx).0

      -- The body of the `switch`.
      chosen : CommandType → Stores I W R × Option ApplyResult
      chosen set = returned u a feeds (apply_set u a feeds client true s ctx)
      chosen del = returned u a feeds (apply_del u a feeds client true s ctx)
      chosen vset = apply_vset u a feeds client true s ctx
      chosen vdel = returned u a feeds (apply_vdel u a feeds client true s ctx)
      chosen _ = (s, some (failed (codes "unknown write command") 0))

      runs :
          (c : CommandType) (keys : List Bytes)
          → ctx.cmd ≡ c
          → EvictedBy c u s.index keys
          → Adds u a feeds bytes keeps s log
              (evictions keys ++ own_frame c s.index s.kv ctx)
              (chosen c).0
          → Outcome c
      runs c keys e by added = (
        keys,
        by,
        subst
            (λ (x : Stores I W R).
              Adds u a feeds bytes keeps s log (evictions keys ++ own_frame c s.index s.kv ctx) x)
            (sym (ap (λ (d : CommandType). (chosen d).0) e)) added,
      )

      split : (c : CommandType) → ctx.cmd ≡ c → Outcome c
      split set e = runs set [] e refl (
          apply_set-Recorded u a feeds bytes keeps s log ctx on e (ground (arith, e, result, good)))
      split del e = runs del [] e refl (
          apply_del-Recorded u a feeds bytes keeps s log ctx on e (ground (arith, e, result, good)))
      split vset e =
          let (keys, victims, added) =
            apply_vset-Recorded s log ctx r v e on good (rw (e, apply_mutation) at result) in
          runs vset keys e victims added
      split vdel e = runs vdel [] e refl (
          apply_vdel-Recorded u a feeds bytes keeps s log ctx on e
            (ground (arith, e, result, good)))
      split _ e = absurd (ground (arith, e, result, good))
