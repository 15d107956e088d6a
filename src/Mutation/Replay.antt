-- ===== src/Mutation/Replay.antt =====
-- src/persist/WalManager.cc, `Replay`: the commands of the append-only file are applied again.
use vemory.Prelude.{
  ℕ, zero, suc, ◌+◌, Bool, true, not, Option, none, some, Bytes, drop, length, ltb, if◌then◌else◌,
}
use vemory.Decimal.{negsuc}
use vemory.Decode
use vemory.Decode.{decode}
use vemory.Request
use vemory.Request.{new_context, from_tokens}
use vemory.Embed.{Usearch}
use vemory.Wal.{AofWriter}
use vemory.Wal
use vemory.Wal.{Wal}
use vemory.Mutation.{ReplFeed, Stores, aof_replay, apply_mutation}

-- How the loop ends: with the status that `Replay` returns, with an exception of the decoder or
-- signed overflow in it, or not at all: an eviction loop that does not end, or too few rounds.
pub data End : Type 0 where
  returns : Wal.Status → End
  aborts undefined hangs : End

module _ {I W R : Type 0} (u : Usearch I) (a : AofWriter W) (feeds : ReplFeed R) where
  -- The loop, with the rounds that are left. `strtof` and `now` are those of `FromTokens`, and
  -- `room` is that of the decoder. The log and the master are null.
  unfoldable pub replay_loop :
      (Bytes → Option (ℕ × Bytes)) → ℕ → ℕ → ℕ → Stores I W R → Bytes → ℕ → Stores I W R × End
  replay_loop strtof now room zero s buf off =
      (s, if ltb off (length buf) then hangs else returns Wal.Status.ok)
  replay_loop strtof now room (suc left) s buf off =
      if not (ltb off (length buf))
      then (s, returns Wal.Status.ok)
      else elim (decode room (drop off buf)) [
        | Decode.need_more ↦ (s, returns Wal.Status.ok)
        | Decode.error ↦ (s, returns Wal.Status.ok)
        | Decode.throws ↦ (s, aborts)
        | Decode.undefined_behaviour ↦ (s, undefined)
        | Decode.ok tokens consumed ↦
            let (fs, ctx) = from_tokens strtof now (negsuc 0) tokens new_context in
            let (s', applied) = apply_mutation u a feeds aof_replay true true s ctx in
            let rest = replay_loop strtof now room left s' buf (off + consumed) in
            elim fs [
              | Request.Status.ok ↦ elim applied [
                | none ↦ (s', hangs)
                | some r ↦ if r.ok then rest else (s', returns Wal.Status.error)
              ]
              | _ ↦ (s, returns Wal.Status.ok)
            ]
      ]

  -- `Replay`. `file` is what the file holds, if it can be opened, and `has_stores` says that neither
  -- store is null. There is a round for each byte.
  unfoldable pub replay :
      (Bytes → Option (ℕ × Bytes))
      → ℕ
      → ℕ
      → Wal W
      → Bool
      → Stores I W R
      → Option Bytes
      → Stores I W R × End
  replay strtof now room l has_stores s file =
      if not l.enabled
      then (s, returns Wal.Status.not_configured)
      else if not has_stores
      then (s, returns Wal.Status.error)
      else elim file [
        | none ↦ (s, returns Wal.Status.ok)
        | some buf ↦ replay_loop strtof now room (length buf) s buf 0
      ]
