-- ===== src/Codec.antt =====
-- src/storage/RespVNodeCodec.cc: a node as a RESP array of four strings. `snprintf` of an
-- `unsigned` never fails.
pub mod RoundTrip
mod Tests
use vemory.Prelude.{
  ℕ, ◌+◌, ◌-◌, ◌*◌, Option, none, some, List, [], ◌∷◌, Bytes, length, ltb, ◌==◌, not, if◌then◌else◌,
}
use vemory.Decimal.{pos, decimal}
use vemory.Decode.{Decoded, ok, throws, undefined_behaviour, decode, is_digit}
use vemory.Encode.{append_array_header, append_bulk_string}
use vemory.Storage.{VNode}

-- `Encode`
unfoldable pub encode : VNode → Bytes
encode node =
    append_bulk_string
      (append_bulk_string
        (append_bulk_string (append_bulk_string (append_array_header [] (pos 4)) (decimal node.id))
          node.user_key)
        node.question)
      node.answer

-- The loop over the digits of the id, which stops past 16 bits.
unfoldable pub read_id : ℕ → Bytes → Option ℕ
read_id id [] = some id
read_id id (c ∷ cs) =
    let next = id * 10 + (c - b'0') in
    let rest = read_id next cs in
    if not (is_digit c) then none else if ltb 65535 next then none else rest

-- What `Decode` comes to: the node, `kError`, or the exception or undefined behaviour of the array
-- decoder.
pub data NodeRead : Type 0 where
  node : VNode → NodeRead
  error : NodeRead
  aborts : NodeRead

unfoldable pub node_of_tokens : List Bytes → NodeRead
node_of_tokens (id ∷ k ∷ q ∷ a ∷ []) = elim (read_id 0 id) [
  | none ↦ error
  | some n ↦ node (record { id = n; user_key = k; question = q; answer = a })
]
node_of_tokens _ = error

-- The tests on the decoder's result.
unfoldable pub whole_node : Bytes → Decoded → NodeRead
whole_node bytes (ok tokens consumed) =
    if consumed == length bytes then node_of_tokens tokens else error
whole_node bytes throws = aborts
whole_node bytes undefined_behaviour = aborts
whole_node bytes _ = error

-- `Decode`
unfoldable pub decode_node : ℕ → Bytes → NodeRead
decode_node room bytes = whole_node bytes (decode room bytes)
