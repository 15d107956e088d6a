-- ===== src/Codec/Tests.antt =====
-- The codec's theorems at a node.
use vemory.Prelude.{◌≡◌, refl, arith, codes, Bytes}
use vemory.Decimal.{decimal, decimal_ℤ}
use vemory.Encode.{append_array_header, append_bulk_string}
use vemory.Storage.{VNode}
use vemory.Codec.{node, encode, decode_node}
use vemory.Codec.RoundTrip.{decode_node-encode}

abbrev node_7 : VNode
node_7 = record { id = 7; user_key = codes "k"; question = codes "q"; answer = codes "a" }

abbrev node_7_bytes : Bytes
node_7_bytes = codes "*4\r\n$1\r\n7\r\n$1\r\nk\r\n$1\r\nq\r\n$1\r\na\r\n"

encoded_node_7 : encode node_7 ≡ node_7_bytes
unfolding encode append_array_header append_bulk_string decimal decimal_ℤ
encoded_node_7 = refl

decode_node-encode_example : decode_node 4 (encode node_7) ≡ node node_7
decode_node-encode_example =
    decode_node-encode 4 node_7 (omega arith) (omega arith) (rw encoded_node_7 (omega arith))
