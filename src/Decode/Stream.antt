-- ===== src/Decode/Stream.antt =====
-- Bytes that arrive later do not change a decode that has settled.
use vemory.Prelude.{
  ◌⊎◌, ◌||◌, not, ℕ, zero, suc, ◌+◌, ◌-◌, ◌≤◌, ◌<◌, ◌≡◌, ◌≢◌, refl, Bytes, List, [], ◌∷◌, ◌++◌,
  length, take, drop, get_or, arith, ltb, leb, ◌==◌, Bool-cases, inl, inr, true, false, some, ap,
  Option-cases, length-drop, length-append, drop-append_le, take-append_le, get_or-append_lt, ◌∙◌,
}
use vemory.Decimal.{pos, int64_max}
use vemory.Decode.{
  find_crlf_at, find_crlf, Line, malformed, parsed, parse_integer_line, incomplete_or_error,
  read_body, read_bulk, Bulk, bulk, stop, decode_bulks, decode, need_more,
}
use vemory.Decode.Bounds.{find_crlf_bounds, parse_integer_line_bounds}

find_crlf_at-append :
    (i : ℕ) (xs r : Bytes) (j : ℕ) → find_crlf_at i xs ≡ some j → find_crlf_at i (xs ++ r) ≡ some j
unfolding find_crlf_at
find_crlf_at-append i [] r j h = cc
find_crlf_at-append i (x ∷ []) r j h = cc
find_crlf_at-append i (x ∷ y ∷ xs) r j h = ground (arith, find_crlf_at-append (suc i) (y ∷ xs) r j)

module _ (d r : Bytes) where
  find_crlf-append : (at j : ℕ) → find_crlf d at ≡ some j → find_crlf (d ++ r) at ≡ some j
  unfolding find_crlf
  find_crlf-append at j h =
      rw (drop-append_le at d r (omega (arith, find_crlf_bounds d at j h)))
        (find_crlf_at-append at (drop at d) r j h)

  line-append :
      (at j : ℕ)
      → find_crlf d at ≡ some j
      → parse_integer_line (d ++ r) at ≡ parse_integer_line d at
  unfolding parse_integer_line
  line-append at j h =
      let b = find_crlf_bounds d at j h in
      let same : take (j - at) (drop at (d ++ r)) ≡ take (j - at) (drop at d) =
        ap (take (j - at)) (drop-append_le at d r (omega arith))
        ∙ take-append_le (j - at) (drop at d) r (omega (arith, length-drop at d)) in
      ground (arith, h, find_crlf-append at j h, same)

  -- A number line that has come is read the same; one that has not makes the decoder wait.
  line_settled :
      (at : ℕ)
      → ((parse_integer_line (d ++ r) at ≡ parse_integer_line d at)
          × (incomplete_or_error (d ++ r) at ≡ incomplete_or_error d at))
        ⊎ ((parse_integer_line d at ≡ malformed) × (incomplete_or_error d at ≡ need_more))
  unfolding parse_integer_line incomplete_or_error
  line_settled at = elim (Option-cases (find_crlf d at)) [
    | inl no_line ↦ inr (ground arith, ground arith)
    | inr (j, e) ↦ inl (line-append at j e, ground (arith, e, find_crlf-append at j e))
  ]

  slice-append :
      (at len : ℕ) → at + len ≤ length d → take len (drop at (d ++ r)) ≡ take len (drop at d)
  slice-append at len h =
      ap (take len) (drop-append_le at d r (omega arith))
      ∙ take-append_le len (drop at d) r (omega (arith, length-drop at d))

  module _ (small : length (d ++ r) < int64_max) where
    body_settled :
        (at len : ℕ)
        → at ≤ length d
        → len ≤ int64_max
        → read_body d at len ≢ stop need_more
        → read_body (d ++ r) at len ≡ read_body d at len
    unfolding read_body
    body_settled at len inside range h = elim (Bool-cases (ltb (length d) (at + len + 2))) [
      | inl short ↦ absurd (h (ground (arith, length-append d r)))
      | inr there ↦ ground (
        arith,
        length-append d r,
        get_or-append_lt d r (at + len) 0 (ground arith),
        get_or-append_lt d r (at + len + 1) 0 (ground arith),
        slice-append at len (ground arith),
      )
    ]

    bulk_settled :
        (at : ℕ) → read_bulk d at ≢ stop need_more → read_bulk (d ++ r) at ≡ read_bulk d at
    unfolding read_bulk
    bulk_settled at h = elim (Bool-cases (leb (length d) at)) [
      | inl past ↦ absurd (h (ground arith))
      | inr inside ↦ elim (Bool-cases (get_or d at 0 == b'$')) [
        | inl dollar ↦ elim (line_settled (at + 1)) [
          | inl (line, again) ↦ header (parse_integer_line d (at + 1)) refl inside dollar line again
          | inr (unread, waits) ↦ absurd (h (ground arith))
        ]
        | inr other ↦ ground (arith, length-append d r, get_or-append_lt d r at 0 (ground arith))
      ]
    ]
      where
        header :
            (l : Line)
            → parse_integer_line d (at + 1) ≡ l
            → leb (length d) at ≡ false
            → (get_or d at 0 == b'$') ≡ true
            → parse_integer_line (d ++ r) (at + 1) ≡ parse_integer_line d (at + 1)
            → incomplete_or_error (d ++ r) (at + 1) ≡ incomplete_or_error d (at + 1)
            → read_bulk (d ++ r) at ≡ read_bulk d at
        header (parsed (pos len) n) e inside dollar line again =
            let b = parse_integer_line_bounds d (at + 1) (pos len) n e in
            ground (
              arith,
              length-append d r,
              get_or-append_lt d r at 0 (ground arith),
              body_settled n len b.1 b.2 (λ k. h (ground arith)),
            )
        header _ e inside dollar line again =
            ground (arith, length-append d r, get_or-append_lt d r at 0 (ground arith))

    bulks_settled :
        (left at : ℕ) (acc : List Bytes)
        → decode_bulks left d at acc ≢ need_more
        → decode_bulks left (d ++ r) at acc ≡ decode_bulks left d at acc
    unfolding decode_bulks
    bulks_settled zero at acc h = refl
    bulks_settled (suc left) at acc h =
        round (read_bulk d at) refl (λ next acc'. bulks_settled left next acc')
      where
        round :
            (b : Bulk)
            → read_bulk d at ≡ b
            → ((next : ℕ) (acc' : List Bytes)
                → decode_bulks left d next acc' ≢ need_more
                → decode_bulks left (d ++ r) next acc' ≡ decode_bulks left d next acc')
            → decode_bulks (suc left) (d ++ r) at acc ≡ decode_bulks (suc left) d at acc
        round (stop x) e ih = ground (arith, bulk_settled at (λ k. h (ground arith)))
        round (bulk t next) e ih = ground (
          arith,
          bulk_settled at (λ k. absurd (ground arith)),
          ih next (acc ++ t ∷ []) (λ k. h (ground arith)),
        )

-- Once the decoder does not ask for more bytes, its result is final: whatever bytes follow, the
-- result is the same. So the way a stream is cut into reads does not matter. (The buffer with the
-- later bytes is shorter than `2 ^ 63 - 1`.)
pub decode-append :
    (room : ℕ) (d r : Bytes)
    → length (d ++ r) < int64_max
    → decode room d ≢ need_more
    → decode room (d ++ r) ≡ decode room d
unfolding decode
decode-append room [] r small h = absurd (h refl)
decode-append room (x ∷ xs) r small h = elim (line_settled (x ∷ xs) r 1) [
  | inl (line, again) ↦ header (parse_integer_line (x ∷ xs) 1) refl line again
  | inr (unread, waits) ↦ first (Bool-cases (x == b'*')) unread waits
]
  where
    header :
        (l : Line)
        → parse_integer_line (x ∷ xs) 1 ≡ l
        → parse_integer_line (x ∷ xs ++ r) 1 ≡ parse_integer_line (x ∷ xs) 1
        → incomplete_or_error (x ∷ xs ++ r) 1 ≡ incomplete_or_error (x ∷ xs) 1
        → decode room (x ∷ xs ++ r) ≡ decode room (x ∷ xs)
    header (parsed (pos n) at) e line again = elim (Bool-cases (ltb room n || not (x == b'*'))) [
      | inl stopped ↦ ground arith
      | inr on ↦ ground (arith, bulks_settled (x ∷ xs) r small n at [] (λ k. h (ground arith)))
    ]
    header _ e line again = ground arith

    first :
        ((x == b'*') ≡ true) ⊎ ((x == b'*') ≡ false)
        → parse_integer_line (x ∷ xs) 1 ≡ malformed
        → incomplete_or_error (x ∷ xs) 1 ≡ need_more
        → decode room (x ∷ xs ++ r) ≡ decode room (x ∷ xs)
    first (inl star) unread waits = absurd (h (ground arith))
    first (inr other) unread waits = ground arith
