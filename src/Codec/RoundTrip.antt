-- ===== src/Codec/RoundTrip.antt =====
-- A node is decoded from what it is encoded to, and what is decoded has an id of 16 bits.
use vemory.Prelude.{
  ℕ, zero, suc, ◌+◌, ◌-◌, ◌*◌, ◌/◌, ◌%◌, ◌≤◌, ◌<◌, ◌≡◌, refl, Option, none, some, List, [], ◌∷◌,
  ◌++◌, Bytes, length, arith, ltb, Bool-cases, inl, inr, append-nil,
}
use vemory.Decimal.{int64_max, decimal_at, decimal}
use vemory.Decode
use vemory.Decode.{Decoded, decode}
use vemory.Decode.RoundTrip.{decode-encode_array}
use vemory.Encode.{encode_array, append_bulks}
use vemory.Storage.{VNode}
use vemory.Codec.{encode, read_id, node_of_tokens, whole_node, decode_node, node}

abbrev read_from : Option ℕ → Bytes → Option ℕ
read_from none cs = none
read_from (some v) cs = read_id v cs

read_id-append : (id : ℕ) (xs ys : Bytes) → read_id id (xs ++ ys) ≡ read_from (read_id id xs) ys
unfolding read_id
read_id-append id [] ys = refl
read_id-append id (x ∷ xs) ys = ground (arith, read_id-append (id * 10 + (x - b'0')) xs ys)

read_id_last :
    (v d : ℕ) → d < 10 → v * 10 + d ≤ 65535 → read_id v ((b'0' + d) ∷ []) ≡ some (v * 10 + d)
unfolding read_id
read_id_last v d h fits = ground arith

read_id-decimal_at : (f n : ℕ) → n < f → n ≤ 65535 → read_id 0 (decimal_at f n) ≡ some n
unfolding decimal_at read_id
read_id-decimal_at zero n h fits = absurd (omega arith)
read_id-decimal_at (suc f) n h fits = elim (Bool-cases (ltb n 10)) [
  | inl small ↦ rw small (ground arith)
  | inr large ↦
      rw
        (
          large,
          read_id-append 0 (decimal_at f (n / 10)) ((b'0' + n % 10) ∷ []),
          read_id-decimal_at f (n / 10) (ground arith) (omega arith),
          read_id_last (n / 10) (n % 10) (omega arith) (omega arith),
        )
        (ground arith)
]

read_id-decimal : (n : ℕ) → n ≤ 65535 → read_id 0 (decimal n) ≡ some n
unfolding decimal
read_id-decimal n h = read_id-decimal_at (suc n) n (omega arith) h

abbrev node_tokens : VNode → List Bytes
node_tokens n = decimal n.id ∷ n.user_key ∷ n.question ∷ n.answer ∷ []

pub encode-eq : (n : VNode) → encode n ≡ encode_array (node_tokens n)
unfolding encode encode_array append_bulks
encode-eq n = refl

-- A node with an id of 16 bits is decoded from its encoding. (`reserve` has room for four strings,
-- and the encoding is shorter than `2 ^ 63 - 1` bytes.)
pub decode_node-encode :
    (room : ℕ) (n : VNode)
    → 4 ≤ room
    → n.id < 65536
    → length (encode n) < int64_max
    → decode_node room (encode n) ≡ node n
unfolding decode_node whole_node node_of_tokens
decode_node-encode room n fits range small =
    let ts : List Bytes = node_tokens n in
    let wire : decode room (encode_array ts ++ []) ≡ Decode.ok ts (length (encode_array ts)) =
      decode-encode_array room ts [] fits (rw (append-nil, ← encode-eq n) small) in
    ground
      (arith, encode-eq n, append-nil (encode_array ts), wire, read_id-decimal n.id (omega arith))

read_id_bound : (id : ℕ) (cs : Bytes) (n : ℕ) → id < 65536 → read_id id cs ≡ some n → n < 65536
unfolding read_id
read_id_bound id [] n h e = ground arith
read_id_bound id (c ∷ cs) n h e = ground (arith, read_id_bound (id * 10 + (c - b'0')) cs n)

node_of_tokens_bound : (ts : List Bytes) (n : VNode) → node_of_tokens ts ≡ node n → n.id < 65536
unfolding node_of_tokens
node_of_tokens_bound (id ∷ k ∷ q ∷ a ∷ []) n e =
    ground (arith, read_id_bound 0 id n.id (omega arith))
node_of_tokens_bound _ n e = absurd (ground arith)

whole_node_bound :
    (bytes : Bytes) (d : Decoded) (n : VNode) → whole_node bytes d ≡ node n → n.id < 65536
unfolding whole_node
whole_node_bound bytes (Decode.ok ts c) n e = node_of_tokens_bound ts n (ground arith)
whole_node_bound bytes _ n e = absurd (ground arith)

-- Whatever bytes it is given, the codec returns no node with an id past 16 bits.
pub decode_node_bound :
    (room : ℕ) (bytes : Bytes) (n : VNode) → decode_node room bytes ≡ node n → n.id < 65536
unfolding decode_node
decode_node_bound room bytes n e = whole_node_bound bytes (decode room bytes) n e
