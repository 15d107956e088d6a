-- ===== src/Executor.antt =====
-- src/protocol/ProtocolExecutor.cc, src/protocol/resp/RespProtocolHandler.cc and
-- include/vemory/net/MessageBuffer.h: the requests in a connection's input buffer are served. The
-- callbacks are set, and no output pointer is null. The dispatch callback is a parameter, as are the
-- clock and the `strtof` that `FromTokens` calls. `S` is the state of the server, clock included.
pub mod Split
mod Tests
use vemory.Prelude.{
  ℕ, zero, suc, ◌+◌, Bool, true, false, Option, none, some, List, [], ◌∷◌, ◌++◌, Bytes, length,
  drop, leb, if◌then◌else◌,
}
use vemory.Decimal.{ℤ}
use vemory.Decode
use vemory.Decode.{decode}
use vemory.Request.{RequestContext, new_context, from_tokens}

-- `MessageBuffer::ReadCompleted`
unfoldable pub read_completed : ℕ → Bytes → Bytes
read_completed n buf = if leb (length buf) n then [] else drop n buf

-- The result of `TryParse`; the last two are the exception and the undefined behaviour of the
-- decoder.
pub data Parse : Type 0 where
  parsed : RequestContext → ℕ → Parse
  need_more error throws undefined : Parse

pub record Service (S : Type 0) : Type 0 where
  -- the dispatch callback: the state after it, and the reply
  pub on_ok : S → RequestContext → S × Bytes
  pub now : S → ℕ
  pub strtof : Bytes → Option (ℕ × Bytes)
  -- the largest count that the decoder's `reserve` takes
  pub room : ℕ
  pub client_fd : ℤ

-- How `OnBufferReadable` ends: it waits with the bytes it leaves in the buffer, or reports a wire
-- error, or the decoder throws or is undefined, or the rounds do not suffice. `Bytes` at the end are
-- those that have been written: a call that throws has written none of its replies.
pub data Outcome (S : Type 0) : Type 0 where
  waits : S → Bytes → Bytes → Outcome S
  wire_error : S → Bytes → Outcome S
  aborts undefined : S → Bytes → Outcome S
  hangs : Outcome S

module _ {S : Type 0} (v : Service S) where
  -- `RespProtocolHandler::TryParse`
  unfoldable pub try_parse : S → Bytes → Parse
  try_parse s buf = elim (decode v.room buf) [
    | Decode.need_more ↦ need_more
    | Decode.error ↦ error
    | Decode.throws ↦ throws
    | Decode.undefined_behaviour ↦ undefined
    | Decode.ok tokens consumed ↦
        let (st, ctx) = from_tokens v.strtof (v.now s) v.client_fd tokens new_context in
        parsed ctx consumed
  ]

  -- The loop of `OnBufferReadable`, with the rounds that are left and the replies of this call.
  unfoldable pub serve : ℕ → S → Bytes → Bytes → Outcome S
  serve zero s buf batch = hangs
  serve (suc left) s buf batch = elim (try_parse s buf) [
    | need_more ↦ waits s buf batch
    | error ↦ wire_error s batch
    | throws ↦ aborts s []
    | undefined ↦ Outcome.undefined s []
    | parsed ctx consumed ↦
        let (s', reply) = v.on_ok s ctx in
        serve left s' (read_completed consumed buf) (batch ++ reply)
  ]

  -- `OnBufferReadable`: a round for each byte, and one that finds the buffer empty.
  unfoldable pub on_buffer_readable : S → Bytes → Outcome S
  on_buffer_readable s buf = serve (suc (length buf)) s buf []

  -- `Recv`s that each append to the buffer, and a call after each of them.
  unfoldable pub reads_from : S → Bytes → Bytes → List Bytes → Outcome S
  reads_from s buf out [] = waits s buf out
  reads_from s buf out (bytes ∷ later) = elim (on_buffer_readable s (buf ++ bytes)) [
    | waits s' buf' out' ↦ reads_from s' buf' (out ++ out') later
    | wire_error s' out' ↦ wire_error s' (out ++ out')
    | aborts s' out' ↦ aborts s' (out ++ out')
    | Outcome.undefined s' out' ↦ Outcome.undefined s' (out ++ out')
    | hangs ↦ hangs
  ]
