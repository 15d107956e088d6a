-- ===== src/Decode/RoundTrip.antt =====
-- What the encoder writes, the decoder reads back.
use vemory.Prelude.{
  ℕ, ◌+◌, ◌≤◌, ◌<◌, ◌≡◌, refl, Bytes, List, [], ◌∷◌, ◌++◌, length, drop, arith, take-append,
  length-append, ap, append_assoc, get_or_at, length_of_drop, length-drop, drop_past, sym, ◌∙◌,
  append-nil,
}
use vemory.Decimal.{pos, int64_max, decimal, decimal_ℤ}
use vemory.Decode.{read_body, read_bulk, bulk, decode_bulks, decode, ok, parse_integer_line, parsed}
use vemory.Decode.Number.{parse_integer_line-decimal}
use vemory.Encode.{append_bulk_string, append_bulks, append_array_header, encode_array}

-- A bulk string on the wire, before `rest`.
abbrev pub bulk_then : Bytes → Bytes → Bytes
bulk_then s rest = b'$' ∷ (decimal (length s) ++ (b'\r' ∷ b'\n' ∷ (s ++ (b'\r' ∷ b'\n' ∷ rest))))

abbrev pub bulk_size : Bytes → ℕ
bulk_size s = length (decimal (length s)) + length s + 5

body_read :
    (data_ s rest : Bytes) (at : ℕ)
    → length data_ < int64_max
    → drop at data_ ≡ s ++ b'\r' ∷ b'\n' ∷ rest
    → read_body data_ at (length s) ≡ bulk s (at + length s + 2)
unfolding read_body
body_read data_ s rest at fits e =
    let tail : drop (at + length s) data_ ≡ b'\r' ∷ b'\n' ∷ rest =
      drop_past at data_ s (b'\r' ∷ b'\n' ∷ rest) e in
    ground (
      arith,
      e,
      take-append s (b'\r' ∷ b'\n' ∷ rest),
      length_of_drop (at + length s) data_ (b'\r' ∷ b'\n' ∷ rest) tail,
      get_or_at (at + length s) 0 data_ (b'\r' ∷ b'\n' ∷ rest) 0 tail,
      get_or_at (at + length s) 1 data_ (b'\r' ∷ b'\n' ∷ rest) 0 tail,
    )

size_fits :
    (s rest data_ : Bytes) (at : ℕ)
    → length data_ < int64_max
    → drop at data_ ≡ s ++ (b'\r' ∷ b'\n' ∷ rest)
    → length s ≤ int64_max
size_fits s rest data_ at fits e = omega (
  arith,
  length-drop at data_,
  ap (λ (l : Bytes). length l) e,
  length-append s (b'\r' ∷ b'\n' ∷ rest),
)

pub read_bulk_then :
    (data_ s rest : Bytes) (at : ℕ)
    → length data_ < int64_max
    → drop at data_ ≡ bulk_then s rest
    → read_bulk data_ at ≡ bulk s (at + bulk_size s)
unfolding read_bulk
read_bulk_then data_ s rest at fits e =
    let numeral : Bytes = decimal (length s) in
    let line : drop (at + 1) data_ ≡ numeral ++ (b'\r' ∷ b'\n' ∷ (s ++ (b'\r' ∷ b'\n' ∷ rest))) =
      drop_past at data_ (b'$' ∷ []) (numeral ++ (b'\r' ∷ b'\n' ∷ (s ++ (b'\r' ∷ b'\n' ∷ rest))))
        e in
    let body : drop (at + 1 + length numeral + 2) data_ ≡ s ++ b'\r' ∷ b'\n' ∷ rest =
      drop_past (at + 1 + length numeral) data_ (b'\r' ∷ b'\n' ∷ []) (s ++ (b'\r' ∷ b'\n' ∷ rest))
        (drop_past (at + 1) data_ numeral (b'\r' ∷ b'\n' ∷ (s ++ (b'\r' ∷ b'\n' ∷ rest))) line) in
    ground (
      arith,
      length_of_drop at data_ (bulk_then s rest) e (omega arith),
      get_or_at at 0 data_ (bulk_then s rest) 0 e,
      parse_integer_line-decimal data_ (s ++ (b'\r' ∷ b'\n' ∷ rest)) (at + 1) (length s) line
          (size_fits s rest data_ _ fits body),
      body_read data_ s rest (at + 1 + length numeral + 2) fits body,
    )

abbrev pub bulks_then : List Bytes → Bytes → Bytes
bulks_then [] rest = rest
bulks_then (t ∷ ts) rest = bulk_then t (bulks_then ts rest)

abbrev pub bulks_size : List Bytes → ℕ
bulks_size [] = 0
bulks_size (t ∷ ts) = bulk_size t + bulks_size ts

-- An array on the wire, before `rest`.
abbrev pub array_then : List Bytes → Bytes → Bytes
array_then ts rest = b'*' ∷ (decimal (length ts) ++ (b'\r' ∷ b'\n' ∷ bulks_then ts rest))

drop_bulk :
    (data_ s rest : Bytes) (at : ℕ)
    → drop at data_ ≡ bulk_then s rest
    → drop (at + bulk_size s) data_ ≡ rest
drop_bulk data_ s rest at e =
    let frame : Bytes =
      b'$' ∷ (decimal (length s) ++ (b'\r' ∷ b'\n' ∷ (s ++ (b'\r' ∷ b'\n' ∷ [])))) in
    let size : length frame ≡ bulk_size s = omega (
      arith,
      length-append (decimal (length s)) (b'\r' ∷ b'\n' ∷ (s ++ (b'\r' ∷ b'\n' ∷ []))),
      length-append s (b'\r' ∷ b'\n' ∷ []),
    ) in
    rw (← size) (drop_past at data_ frame rest (e ∙ sym (simp append_assoc)))

decode_bulks_then :
    (ts : List Bytes) (data_ rest : Bytes) (at : ℕ) (acc : List Bytes)
    → length data_ < int64_max
    → drop at data_ ≡ bulks_then ts rest
    → decode_bulks (length ts) data_ at acc ≡ ok (acc ++ ts) (at + bulks_size ts)
unfolding decode_bulks
decode_bulks_then [] data_ rest at acc fits e = ground (arith, append-nil acc)
decode_bulks_then (t ∷ ts) data_ rest at acc fits e = ground (
  arith,
  read_bulk_then data_ t (bulks_then ts rest) at fits e,
  decode_bulks_then ts data_ rest (at + bulk_size t) (acc ++ t ∷ []) fits
      (drop_bulk data_ t (bulks_then ts rest) at e),
  append_assoc acc (t ∷ []) ts,
)

-- The header's line, whatever follows it.
header_line :
    (ts : List Bytes) (rest : Bytes)
    → length (array_then ts rest) < int64_max
    → length ts ≤ int64_max
    → parse_integer_line (array_then ts rest) 1
      ≡ parsed (pos (length ts)) (1 + length (decimal (length ts)) + 2)
header_line ts rest fits few =
    parse_integer_line-decimal (array_then ts rest) (bulks_then ts rest) 1 (length ts) refl few

length-le-bulks_then : (ts : List Bytes) (rest : Bytes) → length ts ≤ length (bulks_then ts rest)
length-le-bulks_then [] rest = omega arith
length-le-bulks_then (t ∷ ts) rest = omega (
  arith,
  length-append (decimal (length t)) (b'\r' ∷ b'\n' ∷ (t ++ (b'\r' ∷ b'\n' ∷ bulks_then ts rest))),
  length-append t (b'\r' ∷ b'\n' ∷ bulks_then ts rest),
  length-le-bulks_then ts rest,
)

pub decode-array_then :
    (room : ℕ) (ts : List Bytes) (rest : Bytes)
    → length ts ≤ room
    → length (array_then ts rest) < int64_max
    → decode room (array_then ts rest)
      ≡ ok ts (1 + length (decimal (length ts)) + 2 + bulks_size ts)
unfolding decode
decode-array_then room ts rest fits small =
    let whole : Bytes = array_then ts rest in
    let numeral : Bytes = decimal (length ts) in
    let few : length ts ≤ int64_max = omega (
      arith,
      length-append numeral (b'\r' ∷ b'\n' ∷ bulks_then ts rest),
      length-le-bulks_then ts rest,
    ) in
    let body : drop (1 + length numeral + 2) whole ≡ bulks_then ts rest =
      drop_past (1 + length numeral) whole (b'\r' ∷ b'\n' ∷ []) (bulks_then ts rest)
        (drop_past 1 whole numeral (b'\r' ∷ b'\n' ∷ bulks_then ts rest) refl) in
    ground (
      arith,
      header_line ts rest small few,
      decode_bulks_then ts whole rest (1 + length numeral + 2) [] small body,
    )

append_bulk_string-eq :
    (out s rest : Bytes) → append_bulk_string out s ++ rest ≡ out ++ bulk_then s rest
unfolding append_bulk_string
append_bulk_string-eq out s rest = simp append_assoc

append_bulks-eq :
    (ts : List Bytes) (out rest : Bytes) → append_bulks out ts ++ rest ≡ out ++ bulks_then ts rest
unfolding append_bulks
append_bulks-eq [] out rest = refl
append_bulks-eq (t ∷ ts) out rest =
    append_bulks-eq ts (append_bulk_string out t) rest
    ∙ append_bulk_string-eq out t (bulks_then ts rest)

pub encode_array-eq :
    (ts : List Bytes) (rest : Bytes) → encode_array ts ++ rest ≡ array_then ts rest
unfolding encode_array append_array_header decimal_ℤ
encode_array-eq ts rest =
    append_bulks-eq ts (b'*' ∷ decimal (length ts) ++ (b'\r' ∷ b'\n' ∷ [])) rest ∙ simp append_assoc

length-bulks_then :
    (ts : List Bytes) (rest : Bytes) → length (bulks_then ts rest) ≡ bulks_size ts + length rest
length-bulks_then [] rest = omega arith
length-bulks_then (t ∷ ts) rest = omega (
  arith,
  length-append (decimal (length t)) (b'\r' ∷ b'\n' ∷ (t ++ (b'\r' ∷ b'\n' ∷ bulks_then ts rest))),
  length-append t (b'\r' ∷ b'\n' ∷ bulks_then ts rest),
  length-bulks_then ts rest,
)

pub length-encode_array :
    (ts : List Bytes)
    → length (encode_array ts) ≡ 1 + length (decimal (length ts)) + 2 + bulks_size ts
length-encode_array ts = omega (
  arith,
  ap (λ (l : Bytes). length l) (sym (append-nil (encode_array ts)) ∙ encode_array-eq ts []),
  length-append (decimal (length ts)) (b'\r' ∷ b'\n' ∷ bulks_then ts []),
  length-bulks_then ts [],
)

-- An encoded array of bulk strings, with any bytes after it, is decoded to those strings, and
-- exactly its own bytes are consumed: provided that `reserve` has room for the strings and the
-- buffer is shorter than `2 ^ 63 - 1` bytes.
pub decode-encode_array :
    (room : ℕ) (ts : List Bytes) (rest : Bytes)
    → length ts ≤ room
    → length (encode_array ts ++ rest) < int64_max
    → decode room (encode_array ts ++ rest) ≡ ok ts (length (encode_array ts))
decode-encode_array room ts rest fits small =
    rw (encode_array-eq ts rest, length-encode_array ts)
      (decode-array_then room ts rest fits (rw encode_array-eq at small))
