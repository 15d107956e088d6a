-- ===== src/Slave.antt =====
-- src/replication/ReplicationSlave.cc, include/vemory/replication/ReplicationSlave.h: the replica's
-- side of replication. The event loop and the snapshot manager are not null, and the directory tmp/
-- exists. What `connect`, the file system and `LoadFromPath` do is a parameter, World.
pub mod Frames
pub mod Reply
pub mod Link
pub mod Rounds
pub mod Events
pub mod Psync
mod Tests
use vemory.Prelude.{
  ℕ, zero, suc, ◌+◌, ◌-◌, ◌*◌, ◌^◌, ◌%◌, min, Bool, true, false, not, ◌&&◌, ◌||◌, Option, none,
  some, Bytes, bytes_eq, ◌=?◌, [], ◌∷◌, ◌++◌, codes, drop, take, length, ltb, leb, ◌==◌,
  if◌then◌else◌,
}
use vemory.Decimal.{ℤ, pos, negsuc, decimal}
use vemory.Request.{is_empty, c_str, strtoll}
use vemory.Config.Text.{strtoull}
use vemory.Executor.{read_completed}
use vemory.Embed.{Usearch}
use vemory.Wal.{AofWriter}
use vemory.Mutation.{ReplFeed, Stores}
use Frames.{Consumed, consumed, refused, consume_stream_frames}
use Reply.{
  SimpleString, simple, error_line, not_simple, unfinished, simple_string, BulkHeader, header,
  bad_length, no_header, bulk_header, SyncReply, continue_, fullresync, bad_offset, bad_reply,
  unexpected, sync_reply,
}

pub data State : Type 0 where
  init wait_fullresync recv_rdb_header recv_rdb_body recv_backlog_header : State
  recv_backlog_body streaming error : State

-- A `TcpConn`: the unread input, what has been sent, and whether it is closed. `hooked` says that
-- the read and close callbacks are set.
pub record Conn : Type 0 where
  pub input : Bytes
  pub sent : Bytes
  pub closed : Bool
  pub hooked : Bool

-- Of `rdb_fp_` and the files under tmp/: whether the file is open, and what repl-in.rdb.tmp holds
-- with the part that is still buffered, if it is there.
pub record Slave (T : Type 0) : Type 0 where
  pub conn : Option Conn
  pub state : State
  pub rdb_remaining : ℤ
  pub backlog_remaining : ℤ
  pub rdb_open : Bool
  pub rdb_tmp : Option Bytes
  pub backlog_buf : Bytes
  pub stream_buf : Bytes
  pub master_host : Bytes
  pub master_port : ℕ
  -- the delay of the timer that is set
  pub reconnect_timer : Option ℕ
  pub backoff_ms : ℕ
  pub stopping : Bool
  pub master_replid : Bytes
  pub repl_offset : ℕ
  pub have_offset : Bool
  -- the objects behind `vnode_index_` and `kv_`
  pub stores : T

-- At the time of a call: whether `fopen`, `fwrite` of some bytes and `rename` succeed, and
-- `LoadFromPath` on the contents of the file: the stores after it, and whether it returns `kOk`.
pub record World (T : Type 0) : Type 0 where
  pub opens : Bool
  pub writes : Bytes → Bool
  pub renames : Bool
  pub load : T → Bytes → T × Bool
  -- the largest size that `backlog_buf_.reserve` takes
  pub capacity : ℕ

-- An attempt to connect: `TcpConnector::Connect` returns no socket, or the request cannot be sent, or
-- both succeed.
pub data Attempt : Type 0 where
  no_socket send_fails connects : Attempt

abbrev pub min_backoff_ms : ℕ
min_backoff_ms = 1000

abbrev pub max_backoff_ms : ℕ
max_backoff_ms = 60000

-- `NextBackoffMs`, in 64 bits
unfoldable pub next_backoff_ms : ℕ → ℕ
next_backoff_ms current =
    if leb max_backoff_ms current
    then max_backoff_ms
    else (let next = current * 2 % 2 ^ 64 in
        if ltb max_backoff_ms next then max_backoff_ms else next)

-- A `TcpConn` with its callbacks taken away and closed.
abbrev pub force_closed : Option Conn → Option Conn
force_closed none = none
force_closed (some c) = some (record c { closed = true; hooked = false })

-- An `int64_t` cast to `size_t`.
abbrev pub to_size : ℤ → ℕ
to_size (pos n) = n
to_size (negsuc n) = 2 ^ 64 - suc n

abbrev pub is_negative : ℤ → Bool
is_negative (pos n) = false
is_negative (negsuc n) = true

abbrev pub is_zero : ℤ → Bool
is_zero (pos n) = n == 0
is_zero (negsuc n) = false

-- `remaining -= take`, where `take` is at most it.
abbrev pub minus : ℤ → ℕ → ℤ
minus (pos n) k = pos (n - k)
minus (negsuc n) k = negsuc (n + k)

-- The bytes of a bulk string.
abbrev pub bulk_bytes : Bytes → Bytes
bulk_bytes s = codes "$" ++ (decimal (length s) ++ (codes "\r\n" ++ (s ++ codes "\r\n")))

module _ {T : Type 0} where
  -- `ResetLink`
  unfoldable pub reset_link : Slave T → Slave T
  reset_link t = record t {
    reconnect_timer = none;
    conn = none;
    rdb_open = false;
    backlog_buf = [];
    stream_buf = [];
    rdb_remaining = negsuc 0;
    backlog_remaining = negsuc 0;
    state = init;
  }

  -- `ScheduleReconnect`
  unfoldable pub schedule_reconnect : Slave T → Slave T
  schedule_reconnect t = if t.stopping then t else record t {
    backoff_ms = next_backoff_ms t.backoff_ms;
    state = error;
    reconnect_timer = some t.backoff_ms;
  }

  -- `Fail`
  unfoldable pub fail : Slave T → Slave T
  fail t = if t.stopping then t else elim t.state [
    | error ↦ t
    | _ ↦
        schedule_reconnect
          (record t { state = error; rdb_open = false; conn = force_closed t.conn })
  ]

  -- `AdvanceOffset`, in 64 bits
  unfoldable pub advance_offset : Slave T → ℕ → Slave T
  advance_offset t n =
      if n == 0
      then t
      else record t { repl_offset = (t.repl_offset + n) % 2 ^ 64; have_offset = true }

  -- The request that `TryConnect` sends.
  unfoldable pub psync_request : Slave T → Bytes
  psync_request t =
      if t.have_offset && not (is_empty t.master_replid)
      then codes "*3\r\n$5\r\nPSYNC\r\n"
        ++ (bulk_bytes t.master_replid ++ bulk_bytes (decimal t.repl_offset))
      else codes "*3\r\n$5\r\nPSYNC\r\n$1\r\n?\r\n$2\r\n-1\r\n"

  -- `TryConnect`. A `Send` that fails closes the connection before it has a close callback.
  unfoldable pub try_connect : Attempt → Slave T → Slave T
  try_connect attempt t =
      if t.stopping
      then t
      else (let t' = reset_link t in
          elim attempt [
            | no_socket ↦ schedule_reconnect t'
            | send_fails ↦ record t' {
              conn = some (record { input = []; sent = []; closed = true; hooked = true });
              state = wait_fullresync;
            }
            | connects ↦ record t' {
              conn =
                  some
                    (record { input = []; sent = psync_request t'; closed = false; hooked = true });
              state = wait_fullresync;
            }
          ])

  -- `EnterStreaming`
  unfoldable pub enter_streaming : Slave T → Slave T
  enter_streaming t = record t { state = streaming; backoff_ms = min_backoff_ms }

  -- `Start`
  unfoldable pub start : Attempt → Slave T → Bytes → ℕ → Slave T × Bool
  start attempt t host port = if is_empty host || port == 0 then (t, false) else (
    try_connect attempt
        (record t { master_host = host; master_port = port; backoff_ms = min_backoff_ms }),
    true,
  )

  -- The timer's callback.
  unfoldable pub timer_fires : Attempt → Slave T → Slave T
  timer_fires attempt t = try_connect attempt (record t { reconnect_timer = none })

  -- The close callback, on a connection that has one.
  unfoldable pub connection_closed : Slave T → Slave T
  connection_closed t = if t.stopping then t else fail t

  abbrev pub input : Slave T → Bytes
  input t = elim t.conn [ none ↦ [] | some c ↦ c.input ]

  -- `take`, of the bytes at hand
  abbrev pub wanted : Slave T → ℤ → ℕ
  wanted t remaining = min (length (input t)) (to_size remaining)

  -- `InputBuffer().ReadCompleted(n)`
  abbrev pub skip_input : ℕ → Slave T → Slave T
  skip_input n t = elim t.conn [
    | none ↦ t
    | some c ↦ record t { conn = some (record c { input = read_completed n c.input }) }
  ]

  -- `ConsumeSimpleString`: the string, where it returns true.
  unfoldable pub consume_simple_string : Slave T → Slave T × Option Bytes
  consume_simple_string t = elim (simple_string (input t)) [
    | unfinished ↦ (t, none)
    | error_line n ↦ (skip_input n (fail t), none)
    | not_simple ↦ (fail t, none)
    | simple s n ↦ (skip_input n t, some s)
  ]

  -- `TryConsumeBulkHeader`: the length, where it returns true.
  unfoldable pub try_consume_bulk_header : Slave T → Slave T × Option ℤ
  try_consume_bulk_header t = elim (bulk_header (input t)) [
    | no_header ↦ (t, none)
    | bad_length ↦ (fail t, none)
    | header len n ↦ (skip_input n t, some len)
  ]

  -- `HandleSyncReply`
  unfoldable pub handle_sync_reply : Slave T → Bytes → Slave T × Bool
  handle_sync_reply t reply = elim (sync_reply reply) [
    | continue_ ↦ (enter_streaming t, true)
    | unexpected ↦ (fail t, false)
    | bad_reply ↦ (fail t, false)
    | bad_offset id ↦ (fail (record t { master_replid = id }), false)
    | fullresync id cut ↦ (
      record t {
        master_replid = id;
        repl_offset = cut;
        have_offset = true;
        state = recv_rdb_header;
      },
      true,
    )
  ]

  -- `WriteRdbChunk`
  unfoldable pub write_rdb_chunk : World T → Slave T → Bytes → Slave T × Bool
  write_rdb_chunk w t chunk =
      if not t.rdb_open && not w.opens
      then (fail t, false)
      else (let t' = if t.rdb_open then t else record t { rdb_open = true; rdb_tmp = some [] } in
          if not (is_empty chunk) && not (w.writes chunk) then (fail t', false) else (
            record t' { rdb_tmp = elim t'.rdb_tmp [ none ↦ none | some b ↦ some (b ++ chunk) ] },
            true,
          ))

  -- `FinishRdbAndLoad`
  unfoldable pub finish_rdb_and_load : World T → Slave T → Slave T × Bool
  finish_rdb_and_load w t = elim t.rdb_tmp [
    | none ↦ (fail (record t { rdb_open = false }), false)
    | some b ↦
        if not w.renames
        then (fail (record t { rdb_open = false }), false)
        else (let (stores, loaded) = w.load t.stores b in
            let t' = record t { rdb_open = false; rdb_tmp = none; stores = stores } in
            if loaded then (t', true) else (fail t', false))
  ]

-- What a round of the loop of `OnReadable` does: it goes on, or returns, or stops the program, or
-- does not end. `starves` says that the rounds do not suffice.
pub data Round (T : Type 0) : Type 0 where
  continues returns : Slave T → Round T
  aborts undefined hangs starves : Round T

module _ {T : Type 0} (w : World T) (apply : T → Bytes → Consumed T) where
  -- `apply` is `ConsumeStreamFrames` on the stores, and the continuation gets the bytes left and the
  -- number of those consumed.
  unfoldable pub consume_frames : Slave T → Bytes → (Slave T → Bytes → ℕ → Round T) → Round T
  consume_frames t bytes next = elim (apply t.stores bytes) [
    | consumed stores left n ↦ next (record t { stores = stores }) left n
    | refused stores message ↦ returns (fail (record t { stores = stores }))
    | Consumed.aborts ↦ aborts
    | Consumed.undefined ↦ undefined
    | Consumed.hangs ↦ hangs
  ]

  -- `ApplyBacklog`, and what follows it.
  unfoldable pub apply_backlog : Slave T → Round T
  apply_backlog t = consume_frames t t.backlog_buf (λ t' left n.
      if is_empty left
      then continues (enter_streaming (record (advance_offset t' n) { backlog_buf = [] }))
      else returns (fail t'))

  -- `DrainStreaming`
  unfoldable pub drain_streaming : Slave T → Round T
  drain_streaming t =
      consume_frames (skip_input (length (input t)) t) (t.stream_buf ++ input t)
        (λ t' left n. returns (advance_offset (record t' { stream_buf = left }) n))

  -- `FinishRdbAndLoad` where the body has ended.
  unfoldable pub end_of_rdb : Slave T → Round T
  end_of_rdb t =
      let (t', loaded) = finish_rdb_and_load w t in
      if loaded then continues (record t' { state = recv_backlog_header }) else returns t'

  unfoldable pub on_wait : Slave T → Round T
  on_wait t =
      let (t', reply) = consume_simple_string t in
      elim reply [
        | none ↦ returns t'
        | some s ↦
            let (t'', ok) = handle_sync_reply t' s in if ok then continues t'' else returns t''
      ]

  unfoldable pub on_rdb_header : Slave T → Round T
  on_rdb_header t =
      let (t', len) = try_consume_bulk_header t in
      elim len [
        | none ↦ returns t'
        | some n ↦
            if is_negative n
            then returns (fail t')
            else (let t'' = record t' { rdb_remaining = n; state = recv_rdb_body } in
                if is_zero n then end_of_rdb t'' else continues t'')
      ]

  unfoldable pub on_rdb_body : Slave T → Round T
  on_rdb_body t =
      if is_empty (input t)
      then returns t
      else (let n = wanted t t.rdb_remaining in
          let (t', written) = write_rdb_chunk w t (take n (input t)) in
          let remaining = minus t.rdb_remaining n in
          let t'' = record (skip_input n t') { rdb_remaining = remaining } in
          if not written
          then returns t'
          else if is_zero remaining
          then end_of_rdb t''
          else continues t'')

  unfoldable pub on_backlog_header : Slave T → Round T
  on_backlog_header t =
      let (t', len) = try_consume_bulk_header t in
      elim len [
        | none ↦ returns t'
        | some n ↦
            if is_negative n
            then returns (fail t')
            else if ltb w.capacity (to_size n)
            then aborts
            else (let t'' = record t' {
              backlog_remaining = n;
              backlog_buf = [];
              state = recv_backlog_body;
            } in
                if is_zero n then continues (enter_streaming t'') else continues t'')
      ]

  unfoldable pub on_backlog_body : Slave T → Round T
  on_backlog_body t =
      if is_empty (input t)
      then returns t
      else (let n = wanted t t.backlog_remaining in
          let remaining = minus t.backlog_remaining n in
          let t' = record (skip_input n t) {
            backlog_buf = t.backlog_buf ++ take n (input t);
            backlog_remaining = remaining;
          } in
          if is_zero remaining then apply_backlog t' else continues t')

  -- The body of the loop.
  unfoldable pub round : Slave T → Round T
  round t = elim t.state [
    | wait_fullresync ↦ on_wait t
    | recv_rdb_header ↦ on_rdb_header t
    | recv_rdb_body ↦ on_rdb_body t
    | recv_backlog_header ↦ on_backlog_header t
    | recv_backlog_body ↦ on_backlog_body t
    | streaming ↦ drain_streaming t
    | _ ↦ returns t
  ]

  -- The loop, with the rounds that are left.
  unfoldable pub rounds : ℕ → Slave T → Round T
  rounds zero t = starves
  rounds (suc left) t = elim (round t) [
    | continues t' ↦ rounds left t'
    | returns t' ↦ returns t'
    | aborts ↦ aborts
    | undefined ↦ undefined
    | hangs ↦ hangs
    | starves ↦ starves
  ]

  -- `OnReadable`; thirteen rounds are enough.
  unfoldable pub on_readable : Slave T → Round T
  on_readable t = elim t.conn [
    | none ↦ returns t
    | some c ↦ elim t.state [ error ↦ returns t | _ ↦ rounds 13 t ]
  ]
