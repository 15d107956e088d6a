-- ===== src/Decode/Number.antt =====
-- The number line: the digit loop reads back a printed numeral, and stops at its `\r\n`.
use vemory.Prelude.{
  ℕ, zero, suc, ◌+◌, ◌-◌, ◌*◌, ◌/◌, ◌%◌, ◌≤◌, ◌<◌, ◌≡◌, refl, Bytes, [], ◌∷◌, ◌++◌, length, take,
  drop, arith, ap, ltb, Bool-cases, inl, inr, some, take-append,
}
use vemory.Decimal.{int64_max, decimal_at, decimal, pos}
use vemory.Decimal.Laws.{IsNumeral, decimal-IsNumeral, decimal-cons}
use vemory.Decode.{
  find_crlf_at, find_crlf, Digits, digit_loop, value, not_digits, overflowed, parsed, signed_line,
  read_number, parse_integer_line,
}

-- The loop from a reached value.
abbrev loop_from : Digits → Bytes → Digits
loop_from not_digits cs = not_digits
loop_from overflowed cs = overflowed
loop_from (value v) cs = digit_loop v cs

digit_loop-append :
    (acc : ℕ) (xs ys : Bytes) → digit_loop acc (xs ++ ys) ≡ loop_from (digit_loop acc xs) ys
unfolding digit_loop
digit_loop-append acc [] ys = refl
digit_loop-append acc (x ∷ xs) ys = ground (arith, digit_loop-append (acc * 10 + (x - b'0')) xs ys)

digit_loop_last :
    (v d : ℕ)
    → d < 10
    → v * 10 + d ≤ int64_max
    → digit_loop v ((b'0' + d) ∷ []) ≡ value (v * 10 + d)
unfolding digit_loop
digit_loop_last v d h fits = ground arith

pub digit_loop-decimal_at :
    (f n : ℕ) → n < f → n ≤ int64_max → digit_loop 0 (decimal_at f n) ≡ value n
unfolding decimal_at digit_loop
digit_loop-decimal_at zero n h fits = absurd (omega arith)
digit_loop-decimal_at (suc f) n h fits = elim (Bool-cases (ltb n 10)) [
  | inl small ↦ rw small (ground arith)
  | inr large ↦
      rw
        (
          large,
          digit_loop-append 0 (decimal_at f (n / 10)) ((b'0' + n % 10) ∷ []),
          digit_loop-decimal_at f (n / 10) (ground arith) (omega arith),
          digit_loop_last (n / 10) (n % 10) (omega arith) (omega arith),
        )
        (ground arith)
]

pub digit_loop-decimal : (n : ℕ) → n ≤ int64_max → digit_loop 0 (decimal n) ≡ value n
unfolding decimal
digit_loop-decimal n fits = digit_loop-decimal_at (suc n) n (omega arith) fits

pub read_number-decimal :
    (n next : ℕ) → n ≤ int64_max → read_number (decimal n) next ≡ parsed (pos n) next
unfolding read_number signed_line
read_number-decimal n next fits =
    let (c, cs, e) = decimal-cons n in
    ground (arith, e, digit_loop-decimal n fits, decimal-IsNumeral n)

find_crlf_at_numeral :
    (i : ℕ) (ds rest : Bytes)
    → IsNumeral ds
    → find_crlf_at i (ds ++ b'\r' ∷ b'\n' ∷ rest) ≡ some (i + length ds)
unfolding find_crlf_at
find_crlf_at_numeral i [] rest h = ground arith
find_crlf_at_numeral i (d ∷ []) rest h = ground arith
find_crlf_at_numeral i (d ∷ e ∷ ds) rest h =
    ground (arith, find_crlf_at_numeral (suc i) (e ∷ ds) rest h.2)

line_taken : (at : ℕ) (ds rest : Bytes) → take (at + length ds - at) (ds ++ rest) ≡ ds
line_taken at ds rest =
    let e : at + length ds - at ≡ length ds = omega arith in rw e (take-append ds rest)

find_crlf-decimal :
    (data_ rest : Bytes) (at n : ℕ)
    → drop at data_ ≡ decimal n ++ b'\r' ∷ b'\n' ∷ rest
    → find_crlf data_ at ≡ some (at + length (decimal n))
unfolding find_crlf
find_crlf-decimal data_ rest at n e =
    rw e (find_crlf_at_numeral at (decimal n) rest (decimal-IsNumeral n))

-- A printed number and `\r\n` at `at` are read as that number, and the position moves past them.
pub parse_integer_line-decimal :
    (data_ rest : Bytes) (at n : ℕ)
    → drop at data_ ≡ decimal n ++ b'\r' ∷ b'\n' ∷ rest
    → n ≤ int64_max
    → parse_integer_line data_ at ≡ parsed (pos n) (at + length (decimal n) + 2)
unfolding parse_integer_line
parse_integer_line-decimal data_ rest at n e fits =
    let (c, cs, de) = decimal-cons n in
    ground (
      arith,
      find_crlf-decimal data_ rest at n e,
      ap (λ (l : Bytes). length l) de,
      e,
      line_taken at (decimal n) (b'\r' ∷ b'\n' ∷ rest),
      read_number-decimal n (at + length (decimal n) + 2) fits,
    )
