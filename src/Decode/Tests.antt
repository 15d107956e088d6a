-- ===== src/Decode/Tests.antt =====
-- Runs of the decoder on inputs of tests/unit/test_resp.cc, and its theorems at such inputs.
use vemory.Prelude.{◌≡◌, ◌+◌, ◌*◌, ◌≤◌, refl, [], ◌∷◌, ◌++◌, arith, codes, Bytes, List, length}
use vemory.Decimal.{decimal, decimal_ℤ}
use vemory.Decode.{
  decode, decode_bulks, read_bulk, read_body, parse_integer_line, incomplete_or_error, find_crlf,
  find_crlf_at, read_number, signed_line, digit_loop, ok, need_more, error, throws,
  undefined_behaviour,
}
use vemory.Encode.{encode_array, append_bulks, append_array_header, append_bulk_string}
use vemory.Decode.RoundTrip.{decode-encode_array}
use vemory.Decode.Stream.{decode-append}
use vemory.Decode.Bounds.{decode_bounds}

abbrev get_a : Bytes
get_a = codes "*2\r\n$3\r\nGET\r\n$1\r\na\r\n"

abbrev get_a_words : List Bytes
get_a_words = codes "GET" ∷ codes "a" ∷ []

whole_command : decode 100 (get_a ++ codes "xx") ≡ ok get_a_words 20
unfolding decode decode_bulks read_bulk read_body parse_integer_line incomplete_or_error find_crlf
    find_crlf_at read_number signed_line digit_loop
whole_command = refl

cut_command : decode 100 (codes "*2\r\n$3\r\nGET\r\n$1\r\na") ≡ need_more
unfolding decode decode_bulks read_bulk read_body parse_integer_line incomplete_or_error find_crlf
    find_crlf_at read_number signed_line digit_loop
cut_command = refl

null_bulk : decode 100 (codes "*2\r\n$-1\r\n") ≡ error
unfolding decode decode_bulks read_bulk read_body parse_integer_line incomplete_or_error find_crlf
    find_crlf_at read_number signed_line digit_loop
null_bulk = refl

too_many : decode 100 (codes "*101\r\n") ≡ throws
unfolding decode decode_bulks read_bulk read_body parse_integer_line incomplete_or_error find_crlf
    find_crlf_at read_number signed_line digit_loop
too_many = refl

too_large : decode 100 (codes "*99999999999999999999\r\n") ≡ undefined_behaviour
unfolding decode decode_bulks read_bulk read_body parse_integer_line incomplete_or_error find_crlf
    find_crlf_at read_number signed_line digit_loop
too_large = refl

encoded_get_a : encode_array get_a_words ≡ get_a
unfolding encode_array append_bulks append_array_header append_bulk_string decimal decimal_ℤ
encoded_get_a = refl

decode-encode_array_example :
    decode 100 (encode_array get_a_words ++ codes "*1")
    ≡ ok get_a_words (length (encode_array get_a_words))
decode-encode_array_example =
    decode-encode_array 100 get_a_words (codes "*1") (omega arith) (rw encoded_get_a (omega arith))

decode-append_example : decode 100 (get_a ++ codes "*1") ≡ decode 100 get_a
unfolding decode decode_bulks read_bulk read_body parse_integer_line incomplete_or_error find_crlf
    find_crlf_at read_number signed_line digit_loop
decode-append_example = decode-append 100 get_a (codes "*1") (omega arith) (cc)

decode_bounds_example : (4 + 6 * 2 ≤ 20) × (20 ≤ length get_a) × (2 ≤ 100)
unfolding decode decode_bulks read_bulk read_body parse_integer_line incomplete_or_error find_crlf
    find_crlf_at read_number signed_line digit_loop
decode_bounds_example = decode_bounds 100 get_a get_a_words 20 (omega arith) refl
