-- ===== src/TcpConn.antt =====
-- src/net/TcpConnection.cc, include/vemory/net/TcpConnection.h: the output of a connection, with a file
-- between two buffers. What `send` and `sendfile` return is a list of answers; after the last of them
-- the kernel takes nothing more. The descriptor is valid, and a file has the size that `fstat` says.
pub mod Ends
pub mod Order
mod Tests
use vemory.Prelude.{
  ℕ, zero, suc, ◌+◌, ◌*◌, ◌^◌, min, Bool, true, false, not, ◌&&◌, ◌||◌, Option, none, some, List,
  [], ◌∷◌, ◌++◌, Bytes, length, take, drop, if◌then◌else◌,
}
use vemory.Request.{is_empty}

-- A call takes one more byte than the number says, or as many as there are; or it would block; or it
-- fails.
pub data Answer : Type 0 where
  took : ℕ → Answer
  again broken : Answer

pub record TcpConn : Type 0 where
  pub closed : Bool
  -- what the kernel has taken
  pub wire : Bytes
  pub output_buffer : Bytes
  -- what is left of the file of `sendfile_fd_`, if there is one
  pub sendfile : Option Bytes
  -- what `sendfile_done_` sends on this connection, for success and for failure
  pub sendfile_done : Bool → Bytes
  pub post_sendfile_buffer : Bytes
  -- whether the event loop watches for EPOLLOUT
  pub watched : Bool

abbrev pub unsent_file : Option Bytes → Bytes
unsent_file none = []
unsent_file (some file) = file

-- `OutputBufferedBytes`
unfoldable pub output_buffered_bytes : TcpConn → ℕ
output_buffered_bytes c =
    length c.output_buffer + length c.post_sendfile_buffer + length (unsent_file c.sendfile)

-- A connection beside the answers that are left.
abbrev pub Sent : Type 0
Sent = TcpConn × List Answer

-- `Close`. The callback of the file sends nothing on a connection that is closed.
unfoldable pub close : TcpConn → TcpConn
close c = if c.closed then c else record c {
  closed = true;
  sendfile = none;
  sendfile_done = λ done. [];
  post_sendfile_buffer = [];
}

-- `::send` for bytes that no buffer is in front of.
unfoldable pub send_now : TcpConn → List Answer → Bytes → Sent
send_now c [] bs = (record c { output_buffer = bs; watched = true }, [])
send_now c (again ∷ k) bs = (record c { output_buffer = bs; watched = true }, k)
send_now c (broken ∷ k) bs = (close c, k)
send_now c (took n ∷ k) bs =
    let left = drop (suc n) bs in
    (
      record c {
        wire = c.wire ++ take (suc n) bs;
        output_buffer = left;
        watched = not (is_empty left) || c.watched;
      },
      k,
    )

-- `Send`, without the number that it returns.
unfoldable pub send : TcpConn → List Answer → Bytes → Sent
send c k bs = if c.closed || is_empty bs then (c, k) else elim c.sendfile [
  | some file ↦ (record c { post_sendfile_buffer = c.post_sendfile_buffer ++ bs }, k)
  | none ↦
      if is_empty c.output_buffer
      then send_now c k bs
      else (record c { output_buffer = c.output_buffer ++ bs; watched = true }, k)
]

-- `ClearSendFile`, with the callback.
unfoldable pub clear_sendfile : TcpConn → List Answer → Bool → Sent
clear_sendfile c k done =
    let kept = if done then c.post_sendfile_buffer else [] in
    send
      (record c {
        output_buffer = c.output_buffer ++ kept;
        sendfile = none;
        sendfile_done = λ done. [];
        post_sendfile_buffer = [];
        watched = not (is_empty kept) || c.watched;
      })
      k (c.sendfile_done done)

-- `ClearSendFile(false)` and `Close`
abbrev pub give_up : TcpConn → List Answer → Sent
give_up c k = let (c', k') = clear_sendfile c k false in (close c', k')

-- What a round of `HandleWrite` comes to: the next one, or a return.
pub data Round : Type 0 where
  next returned : TcpConn → List Answer → Round

abbrev pub return_ : Sent → Round
return_ (c, k) = returned c k

-- `::send` of the buffer.
unfoldable pub write_buffer : TcpConn → List Answer → Round
write_buffer c [] = returned c []
write_buffer c (again ∷ k) = returned c k
write_buffer c (broken ∷ k) = return_ (give_up c k)
write_buffer c (took n ∷ k) =
    next
      (record c {
        wire = c.wire ++ take (suc n) c.output_buffer;
        output_buffer = drop (suc n) c.output_buffer;
      })
      k

-- The bytes that one `sendfile` asks for, and takes.
abbrev pub file_took : ℕ → ℕ
file_took n = min (suc n) (2 ^ 20)

-- `::sendfile` of a chunk.
unfoldable pub write_file : TcpConn → Bytes → List Answer → Round
write_file c file [] = returned c []
write_file c file (again ∷ k) = returned c k
write_file c file (broken ∷ k) = return_ (give_up c k)
write_file c file (took n ∷ k) =
    next
      (record c {
        wire = c.wire ++ take (file_took n) file;
        sendfile = some (drop (file_took n) file);
      })
      k

-- A round of `HandleWrite`: a call of the kernel, the end of the file, or nothing left.
unfoldable pub round : TcpConn → List Answer → Round
round c k = if not (is_empty c.output_buffer) then write_buffer c k else elim c.sendfile [
  | none ↦ returned (record c { watched = false }) k
  | some file ↦
      if is_empty file
      then (let (c', k') = clear_sendfile c k true in next c' k')
      else write_file c file k
]

-- `HandleWrite`, with the rounds that are left, and whether it has returned.
unfoldable pub rounds : ℕ → TcpConn → List Answer → Sent × Bool
rounds zero c k = ((c, k), false)
rounds (suc left) c k = elim (round c k) [
  | returned c' k' ↦ ((c', k'), true)
  | next c' k' ↦ rounds left c' k'
]

-- Each round uses up an answer, but for the end of the file and the last one.
abbrev pub handle_write : TcpConn → List Answer → Sent × Bool
handle_write c k = rounds (3 + length k) c k

-- `SendFile` for a file that can be opened; `done` is the callback.
unfoldable pub send_file : TcpConn → List Answer → Bytes → (Bool → Bytes) → Sent × Bool
send_file c k file done = if c.closed then ((c, k), false) else elim c.sendfile [
  | some f ↦ ((c, k), false)
  | none ↦
      let (sent, finished) =
        handle_write (record c { sendfile = some file; sendfile_done = done; watched = true }) k in
      (sent, true)
]
