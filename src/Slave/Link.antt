-- ===== src/Slave/Link.antt =====
-- The state of the link to the master, through every event.
use vemory.Prelude.{
  ℕ, ◌+◌, ◌*◌, ◌<◌, ◌≤◌, ◌≡◌, Bool, true, false, leb, ◌&&◌, ◌||◌, Option, none, some, Bytes, [],
  length, arith, if◌then◌else◌,
}
use vemory.Decimal.{ℤ, pos, negsuc}
use vemory.Request.{is_empty}
use vemory.Executor.{read_completed}
use vemory.Slave.{
  State, wait_fullresync, recv_rdb_header, recv_rdb_body, recv_backlog_header, recv_backlog_body,
  error, Attempt, Slave, World, next_backoff_ms, schedule_reconnect, fail, advance_offset,
  reset_link, try_connect, timer_fires, enter_streaming, input, skip_input, consume_simple_string,
  try_consume_bulk_header, handle_sync_reply, write_rdb_chunk, finish_rdb_and_load, Round,
  continues, returns, starves, is_negative, is_zero, minus, wanted,
}

-- A timer is set, for a delay from 1 to 60 seconds.
abbrev pub is_due : Option ℕ → Bool
is_due none = false
is_due (some n) = leb 1000 n && leb n 60000

abbrev pub rank : State → ℕ
rank wait_fullresync = 5
rank recv_rdb_header = 4
rank recv_rdb_body = 3
rank recv_backlog_header = 2
rank recv_backlog_body = 1
rank _ = 0

abbrev pub at_hand : Bytes → ℕ
at_hand b = if is_empty b then 0 else 1

abbrev pub StateOk : State → Bool → ℤ → ℤ → Type 0
StateOk error retries rdb backlog = retries ≡ true
StateOk recv_rdb_body retries rdb backlog = is_negative rdb ≡ false
StateOk recv_backlog_body retries rdb backlog = is_negative backlog ≡ false
StateOk _ retries rdb backlog = Unit {0}

pub next_backoff_ms_bounds :
    (n : ℕ) → 1000 ≤ n → n ≤ 60000 → (1000 ≤ next_backoff_ms n) × (next_backoff_ms n ≤ 60000)
unfolding next_backoff_ms
next_backoff_ms_bounds n lo hi = ground arith

pub at_hand-le : (b : Bytes) → at_hand b ≤ 1
at_hand-le b = ground arith

pub minus_known : (z : ℤ) (n : ℕ) → is_negative z ≡ false → is_negative (minus z n) ≡ false
minus_known z n known = ground arith

module _ {T : Type 0} where
  -- The delay has its bounds, a link that has failed waits for its timer, which has them too, and
  -- a body is read only with its length known.
  abbrev pub IsSound : Slave T → Type 0
  IsSound t =
      (1000 ≤ t.backoff_ms)
      × (t.backoff_ms ≤ 60000)
      × StateOk t.state (t.stopping || is_due t.reconnect_timer) t.rdb_remaining t.backlog_remaining

  -- What the rounds of the loop use up.
  abbrev pub measure : Slave T → ℕ
  measure t = 2 * rank t.state + at_hand (input t)

  abbrev pub Keeps : ℕ → Round T → Type 0
  Keeps n (continues t) = IsSound t × (measure t < n)
  Keeps n (returns t) = IsSound t
  Keeps n starves = ⊥
  Keeps n _ = Unit {0}

  pub schedule_reconnect-IsSound :
      (t : Slave T)
      → 1000 ≤ t.backoff_ms
      → t.backoff_ms ≤ 60000
      → t.stopping ≡ false
      → IsSound (schedule_reconnect t)
  unfolding schedule_reconnect
  schedule_reconnect-IsSound t lo hi stop =
      ground (arith, next_backoff_ms_bounds t.backoff_ms lo hi)

  pub fail-IsSound : (t : Slave T) → IsSound t → IsSound (fail t)
  unfolding fail schedule_reconnect
  fail-IsSound t h = ground (arith, next_backoff_ms_bounds t.backoff_ms h.0 h.1, h)

  pub try_connect-IsSound : (c : Attempt) (t : Slave T) → IsSound t → IsSound (try_connect c t)
  unfolding try_connect reset_link schedule_reconnect
  try_connect-IsSound c t h = ground (arith, next_backoff_ms_bounds t.backoff_ms h.0 h.1, h)

  pub timer_fires-IsSound : (c : Attempt) (t : Slave T) → IsSound t → IsSound (timer_fires c t)
  unfolding timer_fires try_connect reset_link schedule_reconnect
  timer_fires-IsSound c t h = ground (arith, next_backoff_ms_bounds t.backoff_ms h.0 h.1, h)

  pub skip_input-IsSound : (n : ℕ) (t : Slave T) → IsSound t → IsSound (skip_input n t)
  skip_input-IsSound n t h = ground (arith, h)

  pub skip_input-state : (n : ℕ) (t : Slave T) → (skip_input n t).state ≡ t.state
  skip_input-state n t = ground arith

  pub consume_simple_string-IsSound :
      (t : Slave T) → IsSound t → IsSound (consume_simple_string t).0
  unfolding consume_simple_string
  consume_simple_string-IsSound t h = grind (
    arith,
    h,
    fail-IsSound t h,
    λ (n : ℕ). skip_input-IsSound n t h,
    λ (n : ℕ). skip_input-IsSound n (fail t) (fail-IsSound t h),
  )

  pub handle_sync_reply-Keeps :
      (t : Slave T) (reply : Bytes)
      → IsSound t
      → let (t', ok) = handle_sync_reply t reply in
        Keeps 10 (if ok then continues t' else returns t')
  unfolding handle_sync_reply enter_streaming
  handle_sync_reply-Keeps t reply h = grind (
    arith,
    at_hand-le (input t),
    h,
    fail-IsSound t h,
    λ (id : Bytes). fail-IsSound (record t { master_replid = id }) h,
  )

  pub advance_offset-IsSound : (t : Slave T) (n : ℕ) → IsSound t → IsSound (advance_offset t n)
  unfolding advance_offset
  advance_offset-IsSound t n h = ground (arith, h)

  -- What a body leaves of the input: all that it wants, or nothing.
  pub skip_input-at_hand :
      (t : Slave T) (n : ℕ) → length (input t) ≤ n → at_hand (input (skip_input n t)) ≡ 0
  unfolding read_completed
  skip_input-at_hand t n h = ground (arith, h)

  pub try_consume_bulk_header-IsSound :
      (t : Slave T) → IsSound t → IsSound (try_consume_bulk_header t).0
  unfolding try_consume_bulk_header
  try_consume_bulk_header-IsSound t h =
      grind (arith, h, fail-IsSound t h, λ (n : ℕ). skip_input-IsSound n t h)

  pub write_rdb_chunk-IsSound :
      (w : World T) (t : Slave T) (b : Bytes) → IsSound t → IsSound (write_rdb_chunk w t b).0
  unfolding write_rdb_chunk
  write_rdb_chunk-IsSound w t b h =
      ground (
        arith,
        h,
        fail-IsSound t h,
        fail-IsSound (record t { rdb_open = true; rdb_tmp = some [] }) h,
      )

  pub finish_rdb_and_load-IsSound :
      (w : World T) (t : Slave T) → IsSound t → IsSound (finish_rdb_and_load w t).0
  unfolding finish_rdb_and_load
  finish_rdb_and_load-IsSound w t h = grind (
    arith,
    h,
    fail-IsSound (record t { rdb_open = false }) h,
    λ (b : Bytes).
        fail-IsSound (record t { rdb_open = false; rdb_tmp = none; stores = (w.load t.stores b).0 })
          h,
  )

  pub finish_rdb_and_load-stays :
      (w : World T) (t : Slave T)
      → (finish_rdb_and_load w t).1 ≡ true
      → input (finish_rdb_and_load w t).0 ≡ input t
  unfolding finish_rdb_and_load
  finish_rdb_and_load-stays w t h = ground (arith, h)

  pub write_rdb_chunk-stays :
      (w : World T) (t : Slave T) (b : Bytes)
      → (write_rdb_chunk w t b).1 ≡ true
      → ((write_rdb_chunk w t b).0.state ≡ t.state) × ((write_rdb_chunk w t b).0.conn ≡ t.conn)
  unfolding write_rdb_chunk
  write_rdb_chunk-stays w t b h = ground (arith, h)

  pub body_skipped :
      (n : ℕ) (t : Slave T) (remaining : ℤ)
      → IsSound t
      → (skip_input n t).state ≡ recv_rdb_body
      → is_negative remaining ≡ false
      → IsSound (record (skip_input n t) { rdb_remaining = remaining })
  body_skipped n t remaining h s known = ground (arith, h)

  pub same_input :
      (t' t : Slave T) (n : ℕ) → t'.conn ≡ t.conn → length (input t) ≤ n → length (input t') ≤ n
  same_input t' t n e le = ground (arith, e)

  pub body_measure :
      (n : ℕ) (t : Slave T) (remaining : ℤ)
      → (skip_input n t).state ≡ recv_rdb_body
      → length (input t) ≤ n
      → measure (record (skip_input n t) { rdb_remaining = remaining }) < 6 + 1
  body_measure n t remaining s le = ground (arith, skip_input-at_hand t n le)

  pub backlog_skipped :
      (n : ℕ) (t : Slave T) (remaining : ℤ) (b : Bytes)
      → IsSound t
      → (skip_input n t).state ≡ recv_backlog_body
      → is_negative remaining ≡ false
      → IsSound (record (skip_input n t) { backlog_buf = b; backlog_remaining = remaining })
  backlog_skipped n t remaining b h s known = ground (arith, h)

  pub backlog_measure :
      (n : ℕ) (t : Slave T) (remaining : ℤ) (b : Bytes)
      → (skip_input n t).state ≡ recv_backlog_body
      → length (input t) ≤ n
      → measure (record (skip_input n t) { backlog_buf = b; backlog_remaining = remaining }) < 2 + 1
  backlog_measure n t remaining b s le = ground (arith, skip_input-at_hand t n le)

  pub Keeps-le : (n m : ℕ) (r : Round T) → n ≤ m → Keeps n r → Keeps m r
  Keeps-le n m r le h = ground (arith, h)

  -- A body that is not complete has taken all the input.
  pub body_takes_all :
      (t : Slave T) (remaining : ℤ)
      → is_negative remaining ≡ false
      → is_zero (minus remaining (wanted t remaining)) ≡ false
      → length (input t) ≤ wanted t remaining
  body_takes_all t (pos n) known more = ground arith
  body_takes_all t (negsuc n) known more = absurd cc
