-- ===== src/Encode/Tests.antt =====
-- A write command on the wire, and back.
use vemory.Prelude.{◌≡◌, refl, ◌++◌, arith, codes, Bytes, List, Option, none, some, length, ℕ, []}
use vemory.Decimal.{pos, negsuc, decimal, decimal_ℤ}
use vemory.Command.{vset}
use vemory.Request.{RequestContext, new_context, from_tokens, ok}
use vemory.Decode
use vemory.Decode.{decode}
use vemory.Encode.{
  encode_write_command, append_array_header, append_bulk_string, append_simple_string, append_error,
  append_integer, append_null_bulk, append_ok,
}
use vemory.Encode.WriteCommand.{encode_write_command-decode, same_write}

abbrev vset_k : RequestContext
vset_k = record new_context {
  cmd = vset;
  vector_blob = codes "12345678";
  user_key = codes "k";
  question = codes "q";
  answer = [];
}

abbrev vset_k_frame : Bytes
vset_k_frame = codes "*5\r\n$4\r\nVSET\r\n$8\r\n12345678\r\n$1\r\nk\r\n$1\r\nq\r\n$0\r\n\r\n"

frame_of_vset : encode_write_command vset_k ≡ some vset_k_frame
unfolding encode_write_command append_array_header append_bulk_string decimal decimal_ℤ
frame_of_vset = refl

replies :
    (append_simple_string [] (codes "PONG") ≡ codes "+PONG\r\n")
    × (append_error [] (codes "ERR x") ≡ codes "-ERR x\r\n")
    × (append_integer [] (negsuc 0) ≡ codes ":-1\r\n")
    × (append_null_bulk [] ≡ codes "$-1\r\n")
    × (append_ok [] ≡ codes "+OK\r\n")
unfolding append_simple_string append_error append_integer append_null_bulk append_ok decimal_ℤ
replies = (refl, refl, refl, refl, refl)

abbrev no_float : Bytes → Option (ℕ × Bytes)
no_float s = none

encode_write_command-decode_example :
    (ts : List Bytes) × (decode 5 (vset_k_frame ++ codes "*1") ≡ Decode.ok ts (length vset_k_frame))
    × (from_tokens no_float 7 (pos 3) ts new_context ≡ (ok, same_write 7 (pos 3) vset_k))
encode_write_command-decode_example =
    encode_write_command-decode no_float 7 (pos 3) vset_k new_context 5 vset_k_frame (codes "*1")
      frame_of_vset (λ e. cc e) (omega arith) (omega arith)
