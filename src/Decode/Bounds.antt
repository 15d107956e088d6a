-- ===== src/Decode/Bounds.antt =====
-- The decoder reads inside the buffer: positions only grow, and none passes the end.
use vemory.Prelude.{
  ℕ, zero, suc, ◌+◌, ◌-◌, ◌*◌, ◌≤◌, ◌<◌, ◌≡◌, ◌≢◌, refl, subst, Bytes, List, [], ◌∷◌, ◌++◌, length,
  take, drop, arith, ◌==◌, Bool-cases, inl, inr, true, false, some, ap, Option-cases, length-drop,
  length-append, length-take, Bool,
}
use vemory.Decimal.{ℤ, pos, negsuc, neg_ℕ, int64_max}
use vemory.Decode.{
  find_crlf_at, find_crlf, Digits, digit_loop, value, not_digits, overflowed, Line, malformed,
  undefined, parsed, signed_line, read_number, parse_integer_line, incomplete_or_error, read_body,
  read_bulk, Bulk, bulk, stop, decode_bulks, decode, Decoded, ok,
}

-- A bound on the magnitude.
abbrev pub InRange : ℤ → Type 0
InRange (pos n) = n ≤ int64_max
InRange (negsuc n) = n < int64_max

find_crlf_at_bounds :
    (i : ℕ) (xs : Bytes) (j : ℕ) → find_crlf_at i xs ≡ some j → (i ≤ j) × (j + 2 ≤ i + length xs)
unfolding find_crlf_at
find_crlf_at_bounds i [] j h = cc
find_crlf_at_bounds i (x ∷ []) j h = cc
find_crlf_at_bounds i (x ∷ y ∷ r) j h = ground (arith, find_crlf_at_bounds (suc i) (y ∷ r) j)

pub find_crlf_bounds :
    (data_ : Bytes) (at j : ℕ) → find_crlf data_ at ≡ some j → (at ≤ j) × (j + 2 ≤ length data_)
unfolding find_crlf
find_crlf_bounds data_ at j h =
    let b = find_crlf_at_bounds at (drop at data_) j h in omega (arith, length-drop at data_)

digit_loop_bound :
    (acc : ℕ) (cs : Bytes) (v : ℕ) → acc ≤ int64_max → digit_loop acc cs ≡ value v → v ≤ int64_max
unfolding digit_loop
digit_loop_bound acc [] v fits h = ground arith
digit_loop_bound acc (c ∷ cs) v fits h =
    ground (arith, digit_loop_bound (acc * 10 + (c - b'0')) cs v)

neg_ℕ-InRange : (v : ℕ) → v ≤ int64_max → InRange (neg_ℕ v)
neg_ℕ-InRange zero h = omega arith
neg_ℕ-InRange (suc n) h = omega arith

signed_line_result :
    (neg : Bool) (next : ℕ) (d : Digits) (z : ℤ) (n : ℕ)
    → ((v : ℕ) → d ≡ value v → v ≤ int64_max)
    → signed_line neg next d ≡ parsed z n
    → (n ≡ next) × InRange z
unfolding signed_line
signed_line_result neg next not_digits z n b h = cc
signed_line_result neg next overflowed z n b h = cc
signed_line_result true next (value v) z n b h =
    let e : neg_ℕ v ≡ z = cc in (cc, subst InRange e (neg_ℕ-InRange v (b v refl)))
signed_line_result false next (value v) z n b h =
    let e : pos v ≡ z = cc in (cc, subst InRange e (b v refl))

read_number_result :
    (line : Bytes) (next : ℕ) (z : ℤ) (n : ℕ)
    → read_number line next ≡ parsed z n
    → (n ≡ next) × InRange z
unfolding read_number
read_number_result [] next z n h = cc
read_number_result (c ∷ cs) next z n h = elim (Bool-cases (c == b'-')) [
  | inl minus ↦ negative cs (rw minus at h)
  | inr plus ↦
      signed_line_result false next (digit_loop 0 (c ∷ cs)) z n
        (λ v e. digit_loop_bound 0 (c ∷ cs) v (omega arith) e) (rw plus at h)
]
  where
    negative :
        (ds : Bytes)
        → elim ds [ [] ↦ malformed | d ∷ r ↦ signed_line true next (digit_loop 0 (d ∷ r)) ]
          ≡ parsed z n
        → (n ≡ next) × InRange z
    negative [] k = cc
    negative (d ∷ r) k =
        signed_line_result true next (digit_loop 0 (d ∷ r)) z n
          (λ v e. digit_loop_bound 0 (d ∷ r) v (omega arith) e) k

pub parse_integer_line_bounds :
    (data_ : Bytes) (at : ℕ) (z : ℤ) (next : ℕ)
    → parse_integer_line data_ at ≡ parsed z next
    → (at + 3 ≤ next) × (next ≤ length data_) × InRange z
unfolding parse_integer_line
parse_integer_line_bounds data_ at z next h = elim (Option-cases (find_crlf data_ at)) [
  | inl no_line ↦ absurd (ground arith)
  | inr (j, e) ↦ elim (Bool-cases (j == at)) [
    | inl empty ↦ absurd (ground arith)
    | inr full ↦ result j e full (ground arith)
  ]
]
  where
    result :
        (j : ℕ)
        → find_crlf data_ at ≡ some j
        → (j == at) ≡ false
        → read_number (take (j - at) (drop at data_)) (j + 2) ≡ parsed z next
        → (at + 3 ≤ next) × (next ≤ length data_) × InRange z
    result j e full k =
        let b = find_crlf_bounds data_ at j e in
        let (r, range) = read_number_result (take (j - at) (drop at data_)) (j + 2) z next k in
        (ground arith, ground arith, range)

read_body_bounds :
    (data_ : Bytes) (at len : ℕ) (t : Bytes) (next : ℕ)
    → length data_ < int64_max
    → at ≤ length data_
    → len ≤ int64_max
    → read_body data_ at len ≡ bulk t next
    → (next ≡ at + len + 2) × (next ≤ length data_) × (t ≡ take len (drop at data_))
unfolding read_body
read_body_bounds data_ at len t next small inside fits h = ground arith

incomplete-ne-ok :
    (data_ : Bytes) (at : ℕ) (ts : List Bytes) (c : ℕ) → incomplete_or_error data_ at ≡ ok ts c → ⊥
unfolding incomplete_or_error
incomplete-ne-ok data_ at ts c h = ground arith

pub read_bulk_bounds :
    (data_ : Bytes) (at : ℕ) (t : Bytes) (next : ℕ)
    → length data_ < int64_max
    → read_bulk data_ at ≡ bulk t next
    → (at + length t + 6 ≤ next) × (next ≤ length data_)
unfolding read_bulk
read_bulk_bounds data_ at t next small h = header (parse_integer_line data_ (at + 1)) refl
  where
    header :
        (l : Line)
        → parse_integer_line data_ (at + 1) ≡ l
        → (at + length t + 6 ≤ next) × (next ≤ length data_)
    header malformed e = absurd (ground arith)
    header undefined e = absurd (ground arith)
    header (parsed (negsuc k) n) e = absurd (ground arith)
    header (parsed (pos len) n) e =
        let (after, inside, range) = parse_integer_line_bounds data_ (at + 1) (pos len) n e in
        let (sum, fits, slice) =
          read_body_bounds data_ n len t next small inside range (ground arith) in
        (
          omega (
            arith,
            ap (λ (l : Bytes). length l) slice,
            length-take len (drop n data_),
            length-drop n data_,
          ),
          fits,
        )

-- The loop's body never ends the decoder with success.
pub read_bulk-stop_ne_ok :
    (data_ : Bytes) (at : ℕ) (d : Decoded) (ts : List Bytes) (c : ℕ)
    → read_bulk data_ at ≡ stop d
    → d ≢ ok ts c
unfolding read_bulk read_body incomplete_or_error
read_bulk-stop_ne_ok data_ at d ts c h = ground arith

decode_bulks_bounds :
    (left : ℕ) (data_ : Bytes) (at : ℕ) (acc ts : List Bytes) (c : ℕ)
    → length data_ < int64_max
    → at ≤ length data_
    → decode_bulks left data_ at acc ≡ ok ts c
    → (at + 6 * left ≤ c) × (c ≤ length data_) × (length ts ≡ length acc + left)
unfolding decode_bulks
decode_bulks_bounds zero data_ at acc ts c small inside h = ground arith
decode_bulks_bounds (suc left) data_ at acc ts c small inside h =
    round (read_bulk data_ at) refl
      (λ acc' next. decode_bulks_bounds left data_ next acc' ts c small)
  where
    round :
        (b : Bulk)
        → read_bulk data_ at ≡ b
        → ((acc' : List Bytes) (next : ℕ)
            → next ≤ length data_
            → decode_bulks left data_ next acc' ≡ ok ts c
            → (next + 6 * left ≤ c) × (c ≤ length data_) × (length ts ≡ length acc' + left))
        → (at + 6 * suc left ≤ c) × (c ≤ length data_) × (length ts ≡ length acc + suc left)
    round (stop d) e ih = absurd (read_bulk-stop_ne_ok data_ at d ts c e (ground arith))
    round (bulk t next) e ih =
        let (after, fits) = read_bulk_bounds data_ at t next small e in
        let (more, inside', count) = ih (acc ++ t ∷ []) next fits (ground arith) in
        (omega arith, inside', omega (arith, length-append acc (t ∷ [])))

-- A successful decode consumes at least one byte and at most the buffer, six bytes or more for
-- each token, and never returns more tokens than `reserve` had room for.
pub decode_bounds :
    (room : ℕ) (data_ : Bytes) (ts : List Bytes) (c : ℕ)
    → length data_ < int64_max
    → decode room data_ ≡ ok ts c
    → (4 + 6 * length ts ≤ c) × (c ≤ length data_) × (length ts ≤ room)
unfolding decode
decode_bounds room [] ts c small h = cc
decode_bounds room (x ∷ xs) ts c small h = header (parse_integer_line (x ∷ xs) 1) refl
  where
    header :
        (l : Line)
        → parse_integer_line (x ∷ xs) 1 ≡ l
        → (4 + 6 * length ts ≤ c) × (c ≤ length (x ∷ xs)) × (length ts ≤ room)
    header malformed e = absurd (incomplete-ne-ok (x ∷ xs) 1 ts c (ground arith))
    header undefined e = absurd (ground arith)
    header (parsed (negsuc k) n) e = absurd (ground arith)
    header (parsed (pos count) n) e =
        let (after, inside, range) = parse_integer_line_bounds (x ∷ xs) 1 (pos count) n e in
        ground (arith, decode_bulks_bounds count (x ∷ xs) n [] ts c small inside)
