-- ===== src/Decode.antt =====
-- src/protocol/resp/RespDecode.cc: the decoder of an array of bulk strings.
-- The output pointers are never null here. Of `tokens` and `*consumed` only the values beside
-- `kOk` are kept: no caller reads them after another status.
mod Tests
pub mod Number
pub mod Reserve
pub mod Stream
pub mod Bounds
pub mod RoundTrip
use vemory.Prelude.{
  ℕ, zero, suc, ◌+◌, ◌-◌, ◌*◌, ◌%◌, ◌^◌, Bool, true, false, ◌&&◌, ◌||◌, not, Option, none, some,
  List, [], ◌∷◌, ◌++◌, Bytes, length, get_or, take, drop, ltb, leb, ◌==◌, if◌then◌else◌,
}
use vemory.Decimal.{ℤ, pos, negsuc, neg_ℕ, int64_max}

-- The first `\r\n` of a suffix whose first byte has index `i`.
unfoldable pub find_crlf_at : ℕ → Bytes → Option ℕ
find_crlf_at i [] = none
find_crlf_at i (x ∷ []) = none
find_crlf_at i (x ∷ y ∷ r) =
    let later = find_crlf_at (suc i) (y ∷ r) in if x == b'\r' && y == b'\n' then some i else later

unfoldable pub find_crlf : Bytes → ℕ → Option ℕ
find_crlf data_ from = find_crlf_at from (drop from data_)

-- The digit loop. `overflowed` is the undefined behaviour of `value * 10 + digit` past `int64_t`.
pub data Digits : Type 0 where
  not_digits : Digits
  overflowed : Digits
  value : ℕ → Digits

abbrev pub is_digit : ℕ → Bool
is_digit c = leb b'0' c && leb c b'9'

unfoldable pub digit_loop : ℕ → Bytes → Digits
digit_loop acc [] = value acc
digit_loop acc (c ∷ cs) =
    let next = acc * 10 + (c - b'0') in
    let rest = digit_loop next cs in
    if not (is_digit c) then not_digits else if ltb int64_max next then overflowed else rest

-- `ParseIntegerLine`: the parsed value and the position past the line's `\r\n`.
pub data Line : Type 0 where
  malformed : Line
  undefined : Line
  parsed : ℤ → ℕ → Line

-- The loop's result with the sign put on.
unfoldable pub signed_line : Bool → ℕ → Digits → Line
signed_line neg next not_digits = malformed
signed_line neg next overflowed = undefined
signed_line neg next (value v) = parsed (if neg then neg_ℕ v else pos v) next

-- The bytes of the line up to its `\r\n`: an optional sign, then digits.
unfoldable pub read_number : Bytes → ℕ → Line
read_number [] next = malformed
read_number (c ∷ cs) next =
    if c == b'-'
    then (elim cs [ [] ↦ malformed | d ∷ ds ↦ signed_line true next (digit_loop 0 (d ∷ ds)) ])
    else signed_line false next (digit_loop 0 (c ∷ cs))

unfoldable pub parse_integer_line : Bytes → ℕ → Line
parse_integer_line data_ at = elim (find_crlf data_ at) [
  | none ↦ malformed
  | some crlf ↦
      if crlf == at then malformed else read_number (take (crlf - at) (drop at data_)) (crlf + 2)
]

-- The result of `DecodeArrayOfBulk`. `throws` is the `std::length_error` or `std::bad_alloc` of
-- `tokens->reserve`, which nothing in the program catches; `undefined` is signed overflow.
pub data Decoded : Type 0 where
  ok : List Bytes → ℕ → Decoded
  need_more : Decoded
  error : Decoded
  throws : Decoded
  undefined_behaviour : Decoded

-- One round of the loop: it stops the decoder, or reads a token and moves the position.
pub data Bulk : Type 0 where
  stop : Decoded → Bulk
  bulk : Bytes → ℕ → Bulk

-- `size_t` addition.
abbrev pub size_add : ℕ → ℕ → ℕ
size_add a b = (a + b) % 2 ^ 64

-- No `\r\n` yet means that more bytes may come.
unfoldable pub incomplete_or_error : Bytes → ℕ → Decoded
incomplete_or_error data_ at = elim (find_crlf data_ at) [ none ↦ need_more | some crlf ↦ error ]

unfoldable pub read_body : Bytes → ℕ → ℕ → Bulk
read_body data_ at len =
    if ltb (length data_) (size_add (size_add at len) 2)
    then stop need_more
    else if not (get_or data_ (at + len) 0 == b'\r') || not (get_or data_ (at + len + 1) 0 == b'\n')
    then stop error
    else bulk (take len (drop at data_)) (at + len + 2)

unfoldable pub read_bulk : Bytes → ℕ → Bulk
read_bulk data_ at =
    if leb (length data_) at
    then stop need_more
    else if not (get_or data_ at 0 == b'$')
    then stop error
    else elim (parse_integer_line data_ (at + 1)) [
      | malformed ↦ stop (incomplete_or_error data_ (at + 1))
      | undefined ↦ stop undefined_behaviour
      | parsed (negsuc k) next ↦ stop error
      | parsed (pos len) next ↦ read_body data_ next len
    ]

-- `for (i = 0; i < count; ++i)`, with the rounds that are left.
unfoldable pub decode_bulks : ℕ → Bytes → ℕ → List Bytes → Decoded
decode_bulks zero data_ at tokens = ok tokens at
decode_bulks (suc left) data_ at tokens = elim (read_bulk data_ at) [
  | stop d ↦ d
  | bulk t next ↦ decode_bulks left data_ next (tokens ++ t ∷ [])
]

-- `DecodeArrayOfBulk`. `room` is the largest count that `tokens->reserve` takes without throwing.
unfoldable pub decode : ℕ → Bytes → Decoded
decode room [] = need_more
decode room (c ∷ cs) = if not (c == b'*') then error else elim (parse_integer_line (c ∷ cs) 1) [
  | malformed ↦ incomplete_or_error (c ∷ cs) 1
  | undefined ↦ undefined_behaviour
  | parsed (negsuc k) at ↦ error
  | parsed (pos count) at ↦ if ltb room count then throws else decode_bulks count (c ∷ cs) at []
]
