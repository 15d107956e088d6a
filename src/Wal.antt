-- ===== src/Wal.antt =====
-- src/persist/WalManager.cc, include/vemory/persist/{WalManager,AofWriter}.h: the append-only file.
-- The writer behind it is an abstract class of the source, with a thread or io_uring below: an
-- interface here. The replay of the file is `Mutation.Replay`.
use vemory.Prelude.{Bool, true, false, not, ◌&&◌, Option, none, some, Bytes, if◌then◌else◌}
use vemory.Request.{is_empty}

-- `AofWriter`
pub record AofWriter (W : Type 0) : Type 0 where
  pub failed : W → Bool
  pub enqueue : W → Bytes → W × Bool
  pub flush : W → W × Bool
  pub poll : W → W

pub data Status : Type 0 where
  ok not_configured io_error error : Status

-- `writer` is the file, where it is open.
pub record Wal (W : Type 0) : Type 0 where
  pub enabled : Bool
  pub writer : Option W

-- The constructor, over the writer that `MakeAofWriter` opens.
abbrev pub new_wal : {W : Type 0} → Bytes → Bool → W → Wal W
new_wal dir enable writer =
    if enable && not (is_empty dir)
    then record { enabled = true; writer = some writer }
    else record { enabled = false; writer = none }

module _ {W : Type 0} (a : AofWriter W) where
  -- The writer's answer in `AppendFrame`.
  unfoldable pub enqueue_frame : Wal W → W → Bytes → Wal W × Status
  enqueue_frame l w frame =
      let (w', queued) = a.enqueue w frame in
      (
        record l { writer = some w' },
        if queued then ok else if a.failed w' then io_error else error,
      )

  -- `AppendFrame`
  unfoldable pub append_frame : Wal W → Bytes → Wal W × Status
  append_frame l frame = elim l.writer [
    | none ↦ (l, not_configured)
    | some w ↦
        if not l.enabled
        then (l, not_configured)
        else if a.failed w
        then (l, io_error)
        else if is_empty frame
        then (l, error)
        else enqueue_frame l w frame
  ]

  -- `Poll`
  unfoldable pub poll : Wal W → Wal W
  poll l = elim l.writer [ none ↦ l | some w ↦ record l { writer = some (a.poll w) } ]

  -- `Flush`
  unfoldable pub flush : Wal W → Wal W × Status
  flush l = elim l.writer [
    | none ↦ (l, ok)
    | some w ↦
        if not l.enabled
        then (l, ok)
        else (let (w', done) = a.flush w in
            (record l { writer = some w' }, if done then ok else io_error))
  ]
