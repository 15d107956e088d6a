-- ===== src/Mutation/Recovery.antt =====
-- After a crash: the replay of the log that the clients' mutations have left.
use vemory.Prelude.{
  ℕ, zero, suc, ◌+◌, ◌<◌, ◌≤◌, ◌≡◌, ◌≢◌, refl, sym, ap, ◌∙◌, Bytes, [], ◌∷◌, ◌++◌, Bool, true,
  false, ◌&&◌, Option, some, none, arith, Option-cases, inl, inr, ltb, List, length, drop,
  drop_past, length-drop, length-append,
}
use vemory.Decimal.{int64_max, negsuc}
use vemory.Decode.{decode}
use vemory.Request
use vemory.Request.{RequestContext, new_context, from_tokens}
use vemory.KvStore.{KvStore}
use vemory.Command.{CommandType, set, del, vset, vdel}
use vemory.Encode.{encode_write_command}
use vemory.Encode.WriteCommand.{encode_write_command-decode, write_at, key_at}
use vemory.Embed.{Usearch}
use vemory.Index.{VNodeIndex}
use vemory.Index.Invariant.{InStep}
use vemory.Wal
use vemory.Wal.{AofWriter, Wal}
use vemory.Mutation.Capacity.{apply_mutation-InStep}
use vemory.Mutation.{
  client, aof_replay, ApplyResult, ReplFeed, Stores, publish, apply_set, apply_del, apply_vdel,
  apply_vset, store_vector, make_room, apply_mutation,
}
use vemory.Mutation.Replay.{returns, replay_loop, replay}
use vemory.Mutation.Logged.{
  KeepsFrames, memory, Logged, nothing, write, Logging, own_frame, Recorded, unchanged-Recorded,
}
use vemory.Mutation.Recorded.{evictions, Adds-append, apply_mutation-Recorded}

module _ {I W R : Type 0} (u : Usearch I) (a : AofWriter W) (feeds : ReplFeed R) where
  -- Commands of clients one after another, and whether each has succeeded.
  unfoldable pub mutations : Stores I W R → List RequestContext → Stores I W R × Bool
  mutations s [] = (s, true)
  mutations s (ctx ∷ ctxs) =
      let (s', r) = apply_mutation u a feeds client true true s ctx in
      let (s'', others) = mutations s' ctxs in
      (s'', elim r [ none ↦ false | some x ↦ x.ok && others ])

  -- A replayed write acts only on what its frame carries.
  pub apply_mutation-write_at :
      (now : ℕ) (s : Stores I W R) (c : CommandType) (ctx : RequestContext) (frame : Bytes)
      → encode_write_command (record ctx { cmd = c }) ≡ some frame
      → apply_mutation u a feeds aof_replay true true s (write_at now (negsuc 0) c ctx)
        ≡ apply_mutation u a feeds aof_replay true true s (record ctx { cmd = c })
  unfolding apply_mutation apply_set apply_del apply_vdel apply_vset store_vector make_room publish
      encode_write_command
  apply_mutation-write_at now s set ctx frame e = refl
  apply_mutation-write_at now s del ctx frame e = refl
  apply_mutation-write_at now s vset ctx frame e = refl
  apply_mutation-write_at now s vdel ctx frame e = refl
  apply_mutation-write_at now s _ ctx frame e = absurd (cc e)

  module _ (strtof : Bytes → Option (ℕ × Bytes)) (now room : ℕ) (fits : 5 ≤ room) where
    pub frame_not_empty :
        (ctx : RequestContext) (frame : Bytes)
        → encode_write_command ctx ≡ some frame
        → key_at ctx.cmd ctx ≢ []
        → 0 < length frame
    unfolding decode
    frame_not_empty ctx [] e named =
        let (ts, read, from) =
          encode_write_command-decode strtof now (negsuc 0) ctx new_context room [] [] e named fits
            (omega arith) in
        absurd (cc read)
    frame_not_empty ctx (b ∷ bs) e named = omega arith

    replay-Logged :
        (left : ℕ) {i i' : VNodeIndex I} {m m' : KvStore} {log : Bytes} (buf : Bytes) (off : ℕ)
        → Logged u a feeds i m log i' m'
        → drop off buf ≡ log
        → length log ≤ left
        → length log < int64_max
        → replay_loop u a feeds strtof now room left (memory i m) buf off
          ≡ (memory i' m', returns Wal.Status.ok)
    unfolding replay_loop
    replay-Logged zero buf off (nothing i m) at few small =
        let over : ltb off (length buf) ≡ false =
          ground (arith, length-drop off buf, ap (λ (l : Bytes). length l) at) in
        rw over
    replay-Logged (suc left) buf off (nothing i m) at few small =
        let over : ltb off (length buf) ≡ false =
          ground (arith, length-drop off buf, ap (λ (l : Bytes). length l) at) in
        rw (over, replay_loop)
    replay-Logged zero buf off (write {log = log} ctx frame n e named runs rest) at few small =
        absurd (omega (arith, frame_not_empty ctx frame e named, length-append frame log))
    replay-Logged (suc left) buf off
          (write {i = i} {m = m} {log = log} ctx frame n e named runs rest) at few small =
        let some_bytes = frame_not_empty ctx frame e named in
        let whole : length (frame ++ log) ≡ length frame + length log = length-append frame log in
        let more : ltb off (length buf) ≡ true =
          ground (arith, length-drop off buf, ap (λ (l : Bytes). length l) at, whole, some_bytes) in
        let (ts, read, from) =
          encode_write_command-decode strtof now (negsuc 0) ctx new_context room frame log e named
            fits small in
        let parsed = ap (λ (p : Request.Status × RequestContext). p.0) from in
        let same = ap (λ (p : Request.Status × RequestContext). p.1) from in
        let acts = apply_mutation-write_at now (memory i m) ctx.cmd ctx frame e in
        let applied =
          ap (λ c. apply_mutation u a feeds aof_replay true true (memory i m) c) same
          ∙ acts
          ∙ runs in
        let stores = ap (λ (p : Stores I W R × Option ApplyResult). p.0) applied in
        let success = ap (λ (p : Stores I W R × Option ApplyResult). p.1) applied in
        let later =
          replay-Logged left buf (off + length frame) rest (drop_past off buf frame log at)
            (omega arith) (omega arith) in
        rw (more, at, read, parsed, success, stores, replay_loop) later

  module _ (bytes : W → Bytes) (keeps : KeepsFrames a bytes) where
    mutations-Recorded :
        (ctxs : List RequestContext) (s : Stores I W R) (log : Bytes)
        → InStep s.index
        → Logging u a feeds bytes keeps s log
        → (mutations s ctxs).1 ≡ true
        → Recorded u a feeds bytes keeps s log (mutations s ctxs).0
    unfolding mutations
    mutations-Recorded [] s log v on good = ([], unchanged-Recorded u a feeds bytes keeps s log on)
    mutations-Recorded (ctx ∷ ctxs) s log v on good =
        elim (Option-cases (apply_mutation u a feeds client true true s ctx).1) [
          | inl none_ ↦ absurd (ground (arith, none_, good))
          | inr (r, e) ↦
              let succeeded : r.ok ≡ true = ground (arith, e, good) in
              let others : (mutations (apply_mutation u a feeds client true true s ctx).0 ctxs).1
                  ≡ true =
                ground (arith, e, good) in
              let (keys, by, added) =
                apply_mutation-Recorded u a feeds bytes keeps s log ctx r v on e succeeded in
              let more : Bytes = evictions keys ++ own_frame ctx.cmd s.index s.kv ctx in
              let v' = (apply_mutation-InStep u a feeds client true true s ctx v).1 in
              let (later, rest) =
                mutations-Recorded ctxs (apply_mutation u a feeds client true true s ctx).0
                  (log ++ more) v' added.0 others in
              (
                more ++ later,
                Adds-append u a feeds bytes keeps s
                    (apply_mutation u a feeds client true true s ctx).0
                    (mutations (apply_mutation u a feeds client true true s ctx).0 ctxs).0 log more
                    later added rest,
              )
        ]

    -- Recovery: a log that starts empty, and is on while clients' mutations run one after another and
    -- succeed, is replayed to its end on the stores of the start, and gives the stores of the end,
    -- evictions included. (The writer puts each frame that it takes at the end, the file is shorter
    -- than `2 ^ 63 - 1`, and `reserve` has room for five words.)
    pub replay-mutations :
        (strtof : Bytes → Option (ℕ × Bytes)) (now room : ℕ) (s : Stores I W R)
        (ctxs : List RequestContext) (w w' : W)
        → 5 ≤ room
        → InStep s.index
        → s.wal ≡ some (record { enabled = true; writer = some w })
        → bytes w ≡ []
        → (mutations s ctxs).1 ≡ true
        → (mutations s ctxs).0.wal ≡ some (record { enabled = true; writer = some w' })
        → length (bytes w') < int64_max
        → let s' = (mutations s ctxs).0 in
          replay u a feeds strtof now room
            (record { enabled = true; writer = some w' })
            true
            (memory s.index s.kv)
            (some (bytes w'))
          ≡ (memory s'.index s'.kv, returns Wal.Status.ok)
    unfolding replay
    replay-mutations strtof now room s ctxs w w' fits v on fresh good at small =
        let (more, ((w'', at', holds), logged)) =
          mutations-Recorded ctxs s [] v (w, on, fresh) good in
        let writer_of : Option (Wal W) → W =
          λ o. elim o [ none ↦ w' | some l ↦ elim l.writer [ none ↦ w' | some x ↦ x ] ] in
        let same : w'' ≡ w' = ap writer_of (sym at' ∙ at) in
        let file : bytes w' ≡ more = ap bytes (sym same) ∙ holds in
        replay-Logged strtof now room fits (length (bytes w')) (bytes w') 0 logged file
          (omega (arith, ap (λ (l : Bytes). length l) file))
          (omega (arith, ap (λ (l : Bytes). length l) file))
