-- ===== src/Encode.antt =====
-- src/protocol/resp/RespEncode.cc: replies and write commands on the wire. Each function appends
-- to the output string that it is given. The `snprintf` buffers of 32 bytes hold the longest
-- line, a 64-bit number of twenty bytes.
pub mod WriteCommand
mod Tests
use vemory.Prelude.{Bytes, Option, none, some, List, [], ◌∷◌, ◌++◌, codes, length}
use vemory.Command.{vset, vdel, set, del}
use vemory.Request.{RequestContext}
use vemory.Decimal.{ℤ, pos, decimal, decimal_ℤ}

abbrev pub crlf : Bytes
crlf = b'\r' ∷ b'\n' ∷ []

abbrev pub append_crlf : Bytes → Bytes
append_crlf out = out ++ crlf

unfoldable pub append_simple_string : Bytes → Bytes → Bytes
append_simple_string out s = append_crlf ((out ++ b'+' ∷ []) ++ s)

unfoldable pub append_error : Bytes → Bytes → Bytes
append_error out s = append_crlf ((out ++ b'-' ∷ []) ++ s)

unfoldable pub append_integer : Bytes → ℤ → Bytes
append_integer out v = out ++ b':' ∷ decimal_ℤ v ++ crlf

unfoldable pub append_bulk_string : Bytes → Bytes → Bytes
append_bulk_string out s = append_crlf ((out ++ b'$' ∷ decimal (length s) ++ crlf) ++ s)

unfoldable pub append_null_bulk : Bytes → Bytes
append_null_bulk out = out ++ codes "$-1\r\n"

unfoldable pub append_array_header : Bytes → ℤ → Bytes
append_array_header out n = out ++ b'*' ∷ decimal_ℤ n ++ crlf

unfoldable pub append_ok : Bytes → Bytes
append_ok out = out ++ codes "+OK\r\n"

-- Bulk strings one after another, as the callers of `AppendBulkString` write them.
unfoldable pub append_bulks : Bytes → List Bytes → Bytes
append_bulks out [] = out
append_bulks out (t ∷ ts) = append_bulks (append_bulk_string out t) ts

-- An array header with the bulk strings that it announces.
unfoldable pub encode_array : List Bytes → Bytes
encode_array ts = append_bulks (append_array_header [] (pos (length ts))) ts

-- `EncodeWriteCommand`: the frame of a write, or `none` for any other command.
unfoldable pub encode_write_command : RequestContext → Option Bytes
encode_write_command ctx = elim ctx.cmd [
  | set ↦ some (
      append_bulk_string
        (append_bulk_string (append_bulk_string (append_array_header [] (pos 3)) (codes "SET"))
          ctx.key)
        ctx.element)
  | del ↦ some (
      append_bulk_string (append_bulk_string (append_array_header [] (pos 2)) (codes "DEL"))
        ctx.key)
  | vset ↦ some (
      append_bulk_string
        (append_bulk_string
          (append_bulk_string
            (append_bulk_string (append_bulk_string (append_array_header [] (pos 5)) (codes "VSET"))
              ctx.vector_blob)
            ctx.user_key)
          ctx.question)
        ctx.answer)
  | vdel ↦ some (
      append_bulk_string (append_bulk_string (append_array_header [] (pos 2)) (codes "VDEL"))
        ctx.user_key)
  | _ ↦ none
]
