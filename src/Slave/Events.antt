-- ===== src/Slave/Events.antt =====
-- The link through any sequence of events.
use vemory.Prelude.{ℕ, ◌≡◌, true, false, none, some, Bytes, [], ◌++◌, arith, subst}
use vemory.Decimal.{negsuc}
use vemory.Slave.Frames.{Consumed}
use vemory.Slave.{
  init, Attempt, Conn, Slave, World, start, timer_fires, connection_closed, returns, on_readable,
  min_backoff_ms,
}
use vemory.Slave.Link.{IsSound, Keeps, fail-IsSound, try_connect-IsSound, timer_fires-IsSound}
use vemory.Slave.Rounds.{on_readable-Keeps}

-- The members' initial values.
abbrev pub new_slave : {T : Type 0} → T → Slave T
new_slave stores = record {
  conn = none;
  state = init;
  rdb_remaining = negsuc 0;
  backlog_remaining = negsuc 0;
  rdb_open = false;
  rdb_tmp = none;
  backlog_buf = [];
  stream_buf = [];
  master_host = [];
  master_port = 0;
  reconnect_timer = none;
  backoff_ms = min_backoff_ms;
  stopping = false;
  master_replid = [];
  repl_offset = 0;
  have_offset = false;
  stores = stores;
}

-- Bytes that have come in on a connection.
abbrev pub received : {T : Type 0} → Slave T → Conn → Bytes → Slave T
received t c bytes = record t { conn = some (record c { input = c.input ++ bytes }) }

module _ {T : Type 0} (apply : T → Bytes → Consumed T) where
  -- What the event loop does to the replica; the outside world may change in between. A callback
  -- that ends the program has no successor.
  pub data Step (t : Slave T) : Slave T → Type 0 where
    arrives :
        (w : World T) (c : Conn) (bytes : Bytes) {t' : Slave T}
        → t.conn ≡ some c
        → c.hooked ≡ true
        → c.closed ≡ false
        → on_readable w apply (received t c bytes) ≡ returns t'
        → Step t t'
    closes :
        (c : Conn)
        → t.conn ≡ some c
        → c.hooked ≡ true
        → c.closed ≡ false
        → Step t (connection_closed t)
    fires :
        (attempt : Attempt) (ms : ℕ) → t.reconnect_timer ≡ some ms → Step t (timer_fires attempt t)

  -- The states after `Start` with an address, on a new replica.
  pub data Reach (stores : T) : Slave T → Type 0 where
    starts :
        (attempt : Attempt) (host : Bytes) (port : ℕ)
        → (start attempt (new_slave stores) host port).1 ≡ true
        → Reach stores (start attempt (new_slave stores) host port).0
    next : {t t' : Slave T} → Reach stores t → Step t t' → Reach stores t'

  start-IsSound :
      (stores : T) (attempt : Attempt) (host : Bytes) (port : ℕ)
      → IsSound (start attempt (new_slave stores) host port).0
  unfolding start
  start-IsSound stores attempt host port = ground (
    arith,
    try_connect-IsSound attempt
        (record (new_slave stores) {
          master_host = host;
          master_port = port;
          backoff_ms = min_backoff_ms;
        })
        (omega arith, omega arith, tt),
  )

  connection_closed-IsSound : (t : Slave T) → IsSound t → IsSound (connection_closed t)
  unfolding connection_closed
  connection_closed-IsSound t h = ground (arith, h, fail-IsSound t h)

  Step-IsSound : {t t' : Slave T} → Step t t' → IsSound t → IsSound t'
  Step-IsSound {t} (arrives w c bytes on hooked open_ e) h =
      subst (Keeps 0) e (on_readable-Keeps w apply (received t c bytes) h)
  Step-IsSound {t} (closes c on hooked open_) h = connection_closed-IsSound t h
  Step-IsSound {t} (fires attempt ms due) h = timer_fires-IsSound attempt t h

  -- In every state that a started replica reaches, through any reads, closed connections and
  -- timers, a link that has failed (the state is `kError`) waits for a reconnect timer with a
  -- delay from 1 to 60 seconds (or the replica is being destroyed), the next delay is in the same
  -- bounds, and a body is read only with a length that is not negative.
  pub Reach-IsSound : (stores : T) (t : Slave T) → Reach stores t → IsSound t
  Reach-IsSound stores t (starts attempt host port ok) = start-IsSound stores attempt host port
  Reach-IsSound stores t (next {t = t₀} r st) = Step-IsSound st (Reach-IsSound stores t₀ r)
