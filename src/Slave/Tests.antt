-- ===== src/Slave/Tests.antt =====
-- Runs of the replica, and its theorems at concrete states. Here the replica keeps what it loads and
-- what it applies as a list.
use vemory.Prelude.{
  ◌≡◌, ◌≢◌, refl, codes, some, none, List, [], ◌∷◌, ◌++◌, Bytes, true, false, length, arith, subst,
}
use vemory.Decimal.{pos, decimal, decimal_ℤ, decimal_at}
use vemory.Decode
use vemory.Decode.{
  decode, parse_integer_line, incomplete_or_error, read_number, signed_line, digit_loop,
  decode_bulks, read_bulk, find_crlf, find_crlf_at,
}
use vemory.Request
use vemory.Request.{new_context, from_tokens, clear_out, c_str, skip_spaces, read_digits}
use vemory.Command.{psync}
use vemory.KvStore
use vemory.Encode.{encode_write_command, append_bulk_string, append_array_header}
use vemory.Map.{lookup, emplace}
use vemory.Index.Tests.{shelf}
use vemory.Mutation.{apply_mutation, apply_set, publish}
use vemory.Mutation.Logged.{memory, nothing, write}
use vemory.Mutation.Tests.{tape, one_slave, no_float, empty_cache, set_a}
use vemory.Executor.{read_completed}
use vemory.Config.Text.{strtoull, wrapped_digits, wrapped}
use vemory.Slave.{
  Slave, World, Conn, connects, send_fails, start, try_connect, reset_link, timer_fires,
  connection_closed, fail, schedule_reconnect, next_backoff_ms, psync_request, on_readable, rounds,
  round, on_wait, on_rdb_header, consume_simple_string, try_consume_bulk_header, handle_sync_reply,
  returns, starves, wait_fullresync, recv_rdb_header,
}
use vemory.Slave.Frames.{Consumed, consumed, consume_stream_frames, consume_stream_frames-Logged}
use vemory.Slave.Reply.{
  simple_string, ended_string, find_byte, sync_reply, fullresync_args, sync_offset, bulk_header,
}
use vemory.Slave.Link.{IsSound}
use vemory.Slave.Rounds.{on_readable_ends}
use vemory.Slave.Events.{new_slave, received, Reach, starts, next, arrives, closes, Reach-IsSound}
use vemory.Slave.Psync.{psync_tokens, psync_request_lem}

abbrev keep : List Bytes → Bytes → Consumed (List Bytes)
keep s b = consumed (s ++ (b ∷ [])) [] (length b)

abbrev good_world : World (List Bytes)
good_world = record {
  opens = true;
  writes = λ b. true;
  renames = true;
  load = λ s b. (b ∷ [], true);
  capacity = 1000;
}

abbrev fresh_conn : Conn
fresh_conn = record {
  input = [];
  sent = codes "*3\r\n$5\r\nPSYNC\r\n$1\r\n?\r\n$2\r\n-1\r\n";
  closed = false;
  hooked = true;
}

-- After `Start`.
abbrev connected : Slave (List Bytes)
connected = record (new_slave {T = List Bytes} []) {
  conn = some fresh_conn;
  state = wait_fullresync;
  master_host = codes "m";
  master_port = 1;
}

started : (start connects (new_slave {T = List Bytes} []) (codes "m") 1).0 ≡ connected
unfolding start try_connect reset_link psync_request
started = refl

abbrev reply_bytes : Bytes
reply_bytes = codes "+FULLRESYNC abc 7\r\n"

-- After the reply, before the snapshot.
abbrev synchronising : Slave (List Bytes)
synchronising = record connected {
  conn = some fresh_conn;
  state = recv_rdb_header;
  master_replid = codes "abc";
  repl_offset = 7;
  have_offset = true;
}

reply_arrives :
    on_readable good_world keep (received connected fresh_conn reply_bytes) ≡ returns synchronising
unfolding on_readable rounds round on_wait on_rdb_header consume_simple_string
    try_consume_bulk_header handle_sync_reply simple_string ended_string find_byte sync_reply
    fullresync_args sync_offset bulk_header strtoull wrapped_digits wrapped c_str skip_spaces
    read_digits read_completed
reply_arrives = refl

-- The link breaks before the snapshot has come, and the replica asks to continue after it.
skips_the_snapshot :
    psync_request (timer_fires connects (connection_closed synchronising))
    ≡ codes "*3\r\n$5\r\nPSYNC\r\n$3\r\nabc\r\n$1\r\n7\r\n"
unfolding psync_request timer_fires connection_closed fail schedule_reconnect next_backoff_ms
    try_connect reset_link decimal decimal_at
skips_the_snapshot = refl

on_readable_ends_example :
    on_readable good_world keep (received connected fresh_conn reply_bytes) ≢ starves
on_readable_ends_example =
    on_readable_ends good_world keep (received connected fresh_conn reply_bytes)
      (omega arith, omega arith, tt)

-- A request that cannot be sent leaves a closed connection and no timer.
stuck : (try_connect send_fails (new_slave {T = List Bytes} [])).reconnect_timer ≡ none
unfolding try_connect reset_link
stuck = refl

start_succeeds : (start connects (new_slave {T = List Bytes} []) (codes "m") 1).1 ≡ true
unfolding start
start_succeeds = refl

reached : Reach keep [] (connection_closed synchronising)
reached =
    next
      (next (subst (Reach keep []) started (starts connects (codes "m") 1 start_succeeds))
        (arrives good_world fresh_conn reply_bytes refl refl refl reply_arrives))
      (closes fresh_conn refl refl refl)

Reach-IsSound_example : IsSound (connection_closed synchronising)
Reach-IsSound_example = Reach-IsSound keep [] (connection_closed synchronising) reached

psync_request_lem_example :
    (decode 1000 (psync_request synchronising)
      ≡ Decode.ok (psync_tokens synchronising) (length (psync_request synchronising)))
    × (from_tokens no_float 0 (pos 9) (psync_tokens synchronising) new_context ≡ (
      Request.ok,
      record (clear_out (pos 9) psync) {
        psync_replid = codes "abc";
        psync_offset = pos 7;
        recv_time = 0;
      },
    ))
unfolding psync_request decimal decimal_at
psync_request_lem_example =
    psync_request_lem synchronising refl (λ e. cc) no_float 0 1000 (pos 9) new_context (omega arith)
      (omega arith) (omega arith)

abbrev set_frame : Bytes
set_frame = codes "*3\r\n$3\r\nSET\r\n$1\r\na\r\n$1\r\n1\r\n"

-- A complete frame and the start of another.
consume_stream_frames-Logged_example :
    consume_stream_frames shelf tape one_slave no_float 0 5
      (memory empty_cache.index [])
      (set_frame ++ codes "*2\r\n")
    ≡ consumed
        (memory empty_cache.index ((codes "a", codes "1") ∷ []))
        (codes "*2\r\n")
        (length set_frame)
unfolding encode_write_command append_bulk_string append_array_header decimal decimal_at
    apply_mutation apply_set publish KvStore.set lookup decode parse_integer_line decimal_ℤ
    find_crlf find_crlf_at read_number signed_line digit_loop decode_bulks read_bulk emplace
consume_stream_frames-Logged_example =
    consume_stream_frames-Logged shelf tape one_slave no_float 0 5 (omega arith) set_frame
      (codes "*2\r\n") (write set_a set_frame 0 refl (λ e. cc) refl (nothing empty_cache.index _))
      refl (omega arith)
