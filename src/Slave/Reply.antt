-- ===== src/Slave/Reply.antt =====
-- src/replication/ReplicationSlave.cc: what the replica reads of the master's replies.
use vemory.Prelude.{
  ℕ, suc, ◌+◌, ◌-◌, not, ◌||◌, Option, none, some, Bytes, bytes_eq, ◌=?◌, [], ◌∷◌, codes, drop,
  take, length, get_or, ltb, leb, ◌==◌, if◌then◌else◌,
}
use vemory.Decimal.{ℤ}
use vemory.Request.{is_empty, c_str, strtoll}
use vemory.Config.Text.{strtoull}

-- `memchr` and `find`: the index of the first such byte.
unfoldable pub find_byte : ℕ → Bytes → Option ℕ
find_byte c [] = none
find_byte c (x ∷ xs) =
    if x == c then some 0 else elim (find_byte c xs) [ none ↦ none | some i ↦ some (suc i) ]

-- The cases of `ConsumeSimpleString`, with the bytes that are read.
pub data SimpleString : Type 0 where
  simple : Bytes → ℕ → SimpleString
  error_line : ℕ → SimpleString
  not_simple unfinished : SimpleString

-- A simple string of which `\n` has the index `end`.
unfoldable pub ended_string : Bytes → ℕ → SimpleString
ended_string data_ end =
    if end == 0 || not (get_or data_ (end - 1) 0 == b'\r')
    then unfinished
    else simple (take (end - 2) (drop 1 data_)) (end + 1)

unfoldable pub simple_string : Bytes → SimpleString
simple_string data_ =
    if ltb (length data_) 3
    then unfinished
    else if get_or data_ 0 0 == b'-'
    then elim (find_byte b'\n' data_) [ none ↦ unfinished | some end ↦ error_line (end + 1) ]
    else if not (get_or data_ 0 0 == b'+')
    then not_simple
    else elim (find_byte b'\n' data_) [ none ↦ unfinished | some end ↦ ended_string data_ end ]

-- The cases of `TryConsumeBulkHeader`, with the bytes that are read.
pub data BulkHeader : Type 0 where
  header : ℤ → ℕ → BulkHeader
  bad_length no_header : BulkHeader

-- A header of which `\n` has the index `end`.
unfoldable pub ended_header : Bytes → ℕ → BulkHeader
ended_header data_ end =
    if end == 0 || not (get_or data_ (end - 1) 0 == b'\r')
    then no_header
    else elim (strtoll (c_str (drop 1 data_))) [
      | none ↦ bad_length
      | some (len, rest) ↦ header len (end + 1)
    ]

unfoldable pub bulk_header : Bytes → BulkHeader
bulk_header data_ =
    if ltb (length data_) 4 || not (get_or data_ 0 0 == b'$')
    then no_header
    else elim (find_byte b'\n' data_) [ none ↦ no_header | some end ↦ ended_header data_ end ]

-- The cases of `HandleSyncReply`.
pub data SyncReply : Type 0 where
  continue_ : SyncReply
  fullresync : Bytes → ℕ → SyncReply
  bad_offset : Bytes → SyncReply
  bad_reply unexpected : SyncReply

-- The number after the space at `sp`, which has to be all of the rest.
unfoldable pub sync_offset : Bytes → ℕ → SyncReply
sync_offset rest sp = elim (strtoull (c_str (drop (sp + 1) rest))) [
  | none ↦ bad_offset (take sp rest)
  | some (cut, end) ↦
      if is_empty end then fullresync (take sp rest) cut else bad_offset (take sp rest)
]

-- What stands after `FULLRESYNC `.
unfoldable pub fullresync_args : Bytes → SyncReply
fullresync_args rest = elim (find_byte b' ' rest) [
  | none ↦ bad_reply
  | some sp ↦ if sp == 0 || leb (length rest) (sp + 1) then bad_reply else sync_offset rest sp
]

unfoldable pub sync_reply : Bytes → SyncReply
sync_reply reply =
    if reply =? codes "CONTINUE"
    then continue_
    else if not (take 11 reply =? codes "FULLRESYNC ")
    then unexpected
    else fullresync_args (drop 11 reply)
