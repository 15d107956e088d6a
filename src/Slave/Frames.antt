-- ===== src/Slave/Frames.antt =====
-- src/replication/ReplicationSlave.cc, `ConsumeStreamFrames`: the frames of the replication stream
-- are applied to the replica's stores. The pointers are never null.
use vemory.Prelude.{
  ℕ, zero, suc, ◌+◌, ◌<◌, ◌≤◌, ◌≡◌, refl, ap, ◌∙◌, Bool-cases, inl, inr, append_assoc, true, false,
  not, Option, none, some, Bytes, ◌++◌, codes, drop, length, ltb, if◌then◌else◌, arith, drop_past,
  length-drop, length-append,
}
use vemory.Decimal.{negsuc, int64_max}
use vemory.Decode
use vemory.Decode.{decode}
use vemory.Request
use vemory.Request.{RequestContext, new_context, from_tokens}
use vemory.KvStore.{KvStore}
use vemory.Encode.WriteCommand.{encode_write_command-decode}
use vemory.Embed.{Usearch}
use vemory.Index.{VNodeIndex}
use vemory.Wal.{AofWriter}
use vemory.Mutation.{ApplyResult, ReplFeed, Stores, aof_replay, apply_mutation}
use vemory.Mutation.Logged.{memory, Logged, nothing, write}
use vemory.Mutation.Recovery.{apply_mutation-write_at, frame_not_empty}

-- How the function ends: the bytes that are left and the number of those that are consumed, or the
-- message of a refusal, beside the stores; or the decoder throws or is undefined, or a loop does not
-- end.
pub data Consumed (S : Type 0) : Type 0 where
  consumed : S → Bytes → ℕ → Consumed S
  refused : S → Bytes → Consumed S
  aborts undefined hangs : Consumed S

module _ {I W R : Type 0} (u : Usearch I) (a : AofWriter W) (feeds : ReplFeed R)
    (strtof : Bytes → Option (ℕ × Bytes)) (now room : ℕ) where
  -- The loop, with the rounds that are left.
  unfoldable pub frames_loop : ℕ → Stores I W R → Bytes → ℕ → Consumed (Stores I W R)
  frames_loop zero s bytes off =
      if ltb off (length bytes) then hangs else consumed s (drop off bytes) off
  frames_loop (suc left) s bytes off =
      if not (ltb off (length bytes))
      then consumed s (drop off bytes) off
      else elim (decode room (drop off bytes)) [
        | Decode.need_more ↦ consumed s (drop off bytes) off
        | Decode.error ↦ refused s (codes "bad RESP command frame")
        | Decode.throws ↦ aborts
        | Decode.undefined_behaviour ↦ undefined
        | Decode.ok tokens n ↦
            let (fs, ctx) = from_tokens strtof now (negsuc 0) tokens new_context in
            let (s', applied) = apply_mutation u a feeds aof_replay true true s ctx in
            let rest = frames_loop left s' bytes (off + n) in
            elim fs [
              | Request.Status.ok ↦ elim applied [
                | none ↦ hangs
                | some r ↦ if r.ok then rest else refused s' (codes "apply: " ++ r.err)
              ]
              | _ ↦ refused s (codes "bad command in stream")
            ]
      ]

  -- `ConsumeStreamFrames`: a round for each byte.
  unfoldable pub consume_stream_frames : Stores I W R → Bytes → Consumed (Stores I W R)
  consume_stream_frames s bytes = frames_loop (length bytes) s bytes 0

  module _ (fits : 5 ≤ room) where
    frames_loop-Logged :
        (left : ℕ) {i i' : VNodeIndex I} {m m' : KvStore} {log : Bytes} (bytes part : Bytes)
        (off : ℕ)
        → Logged u a feeds i m log i' m'
        → drop off bytes ≡ log ++ part
        → decode room part ≡ Decode.need_more
        → length (log ++ part) ≤ left
        → length (log ++ part) < int64_max
        → frames_loop left (memory i m) bytes off ≡ consumed (memory i' m') part (off + length log)
    unfolding frames_loop
    frames_loop-Logged zero bytes part off (nothing i m) at waits few small =
        let over : ltb off (length bytes) ≡ false =
          ground (arith, length-drop off bytes, ap (λ (l : Bytes). length l) at) in
        let here : off + 0 ≡ off = omega arith in rw (over, at, here) refl
    frames_loop-Logged (suc left) bytes part off (nothing i m) at waits few small =
        let here : off + 0 ≡ off = omega arith in
        elim (Bool-cases (ltb off (length bytes))) [
          | inl more ↦
              rw (more, at, here, waits, frames_loop) (ap (λ b. consumed (memory i m) b off) at)
          | inr over ↦ rw (over, here, frames_loop) (ap (λ b. consumed (memory i m) b off) at)
        ]
    frames_loop-Logged zero bytes part off
          (write {i = i} {m = m} {log = log} ctx frame n e named runs rest) at waits few small =
        absurd (
          omega (
            arith,
            frame_not_empty u a feeds strtof now room fits ctx frame e named,
            length-append frame log,
            length-append (frame ++ log) part,
          ))
    frames_loop-Logged (suc left) bytes part off
          (write {i = i} {m = m} {log = log} ctx frame n e named runs rest) at waits few small =
        let some_bytes = frame_not_empty u a feeds strtof now room fits ctx frame e named in
        let split = append_assoc frame log part in
        let at' = at ∙ split in
        let whole = length-append frame (log ++ part) in
        let same_length = ap (λ (l : Bytes). length l) split in
        let log_length = length-append frame log in
        let more : ltb off (length bytes) ≡ true =
          ground
            (arith, length-drop off bytes, ap (λ (l : Bytes). length l) at', whole, some_bytes) in
        let (ts, read, from) =
          encode_write_command-decode strtof now (negsuc 0) ctx new_context room frame (log ++ part)
            e named fits (omega arith) in
        let parsed = ap (λ (p : Request.Status × RequestContext). p.0) from in
        let same = ap (λ (p : Request.Status × RequestContext). p.1) from in
        let acts = apply_mutation-write_at u a feeds now (memory i m) ctx.cmd ctx frame e in
        let applied =
          ap (λ c. apply_mutation u a feeds aof_replay true true (memory i m) c) same
          ∙ acts
          ∙ runs in
        let stores = ap (λ (p : Stores I W R × Option ApplyResult). p.0) applied in
        let success = ap (λ (p : Stores I W R × Option ApplyResult). p.1) applied in
        let later =
          frames_loop-Logged left bytes part (off + length frame) rest
            (drop_past off bytes frame (log ++ part) at') waits (omega arith) (omega arith) in
        let ends : off + length (frame ++ log) ≡ off + length frame + length log = omega arith in
        rw (more, at', read, parsed, success, stores, ends, frames_loop) later

    -- A replica that gets the frames which a master's writes have left, and a frame that is not
    -- complete yet, takes over the master's stores: from those before the writes to those after
    -- them. It consumes exactly the complete frames, and keeps the rest for the next read. (The
    -- input is shorter than `2 ^ 63 - 1`, and `reserve` has room for five words.)
    pub consume_stream_frames-Logged :
        {i i' : VNodeIndex I} {m m' : KvStore} (log part : Bytes)
        → Logged u a feeds i m log i' m'
        → decode room part ≡ Decode.need_more
        → length (log ++ part) < int64_max
        → consume_stream_frames (memory i m) (log ++ part)
          ≡ consumed (memory i' m') part (length log)
    unfolding consume_stream_frames
    consume_stream_frames-Logged {i' = i'} {m' = m'} log part writes waits small =
        frames_loop-Logged (length (log ++ part)) (log ++ part) part 0 writes refl waits
          (omega arith) small
        ∙ ap (consumed (memory i' m') part) (omega arith)
