-- ===== src/Backlog/Write.antt =====
-- A write into the ring, at places that are counted round the end of the buffer.
use vemory.Prelude.{
  ℕ, ◌+◌, ◌-◌, ◌%◌, ◌<◌, ◌≤◌, ◌≡◌, ap, ◌∙◌, Bytes, length, take, drop, get_or, arith, min,
  length-drop, get_or-drop, ltb, Bool-cases, inl, inr, ◌⊎◌, length-take, take_of_length-le,
}
use native.Mathlib.Nat.{mod-eq_of_lt, mod-eq-sub-mod}
use vemory.Backlog.{memcpy, ring_write}
use vemory.Backlog.Stretch.{
  length-memcpy, get_or-memcpy_before, get_or-memcpy_inside, get_or-memcpy_after, get_or-take,
}

-- A place that is at most once round.
pub mod_past : (x c : ℕ) → c ≤ x → x < c + c → x % c ≡ x - c
mod_past x c above below =
    mod-eq-sub-mod {n = x} {m = c} above ∙ mod-eq_of_lt {n = x - c} {m = c} (omega arith)

module _ (buf bs : Bytes) (w : ℕ) (inside : w < length buf) (fits : length bs ≤ length buf) where
  -- The two outcomes of the test.
  ring_write_cases :
      ((length bs ≤ length buf - w) × (ring_write buf w bs ≡ memcpy buf w bs))
      ⊎ ((length buf - w < length bs)
          × (ring_write buf w bs
              ≡ memcpy (memcpy buf w (take (length buf - w) bs)) 0 (drop (length buf - w) bs)))
  unfolding ring_write
  ring_write_cases = elim (Bool-cases (ltb (length buf - w) (length bs))) [
    | inl long ↦
        let least : min (length bs) (length buf - w) ≡ length buf - w = ground (arith, long) in
        inr (ground (arith, long), rw (least, long))
    | inr short ↦
        let least : min (length bs) (length buf - w) ≡ length bs = ground (arith, short) in
        let all : take (length bs) bs ≡ bs = take_of_length-le (length bs) bs (omega arith) in
        inl (ground (arith, short), rw (least, all) (ground arith))
  ]

  first_fits : w + length (take (length buf - w) bs) ≤ length buf
  first_fits = omega (arith, length-take (length buf - w) bs)

  once_length : length (memcpy buf w (take (length buf - w) bs)) ≡ length buf
  once_length = length-memcpy buf (take (length buf - w) bs) w first_fits

  rest_fits :
      0 + length (drop (length buf - w) bs) ≤ length (memcpy buf w (take (length buf - w) bs))
  rest_fits = omega (arith, once_length, length-drop (length buf - w) bs)

  pub length-ring_write : length (ring_write buf w bs) ≡ length buf
  length-ring_write = elim ring_write_cases [
    | inl (short, e) ↦ rw e (length-memcpy buf bs w (omega arith))
    | inr (long, e) ↦ rw e (
        length-memcpy (memcpy buf w (take (length buf - w) bs)) (drop (length buf - w) bs) 0
          rest_fits
        ∙ once_length)
  ]

  -- The bytes that are written stand one after another from `w` on, round the end.
  pub get_or-ring_write_new :
      (j : ℕ)
      → j < length bs
      → get_or (ring_write buf w bs) ((w + j) % length buf) 0 ≡ get_or bs j 0
  get_or-ring_write_new j h =
      let a : ℕ = length buf - w in
      elim ring_write_cases [
        | inl (short, e) ↦
            rw (e, mod-eq_of_lt {n = w + j} {m = length buf} (omega arith))
              (get_or-memcpy_inside buf bs w j (omega arith) h)
        | inr (long, e) ↦ elim (Bool-cases (ltb (w + j) (length buf))) [
          | inl low ↦
              let at : w + j < length buf = ground (arith, low) in
              rw (e, mod-eq_of_lt {n = w + j} {m = length buf} at)
                (get_or-memcpy_after (memcpy buf w (take a bs)) (drop a bs) 0 (w + j) rest_fits
                    (omega (arith, length-drop a bs))
                  ∙ get_or-memcpy_inside buf (take a bs) w j first_fits
                      (omega (arith, length-take a bs))
                  ∙ get_or-take bs a j 0 (omega arith))
          | inr high ↦
              let at : length buf ≤ w + j = ground (arith, high) in
              rw (e, mod_past (w + j) (length buf) at (omega arith))
                (ap (λ p. get_or (memcpy (memcpy buf w (take a bs)) 0 (drop a bs)) p 0)
                    (omega arith)
                  ∙ get_or-memcpy_inside (memcpy buf w (take a bs)) (drop a bs) 0 (j - a) rest_fits
                      (omega (arith, length-drop a bs))
                  ∙ get_or-drop a (j - a) bs 0
                  ∙ ap (λ p. get_or bs p 0) (omega arith))
        ]
      ]

  -- The other places keep what they had.
  pub get_or-ring_write_old :
      (k : ℕ)
      → length bs ≤ k
      → k < length buf
      → get_or (ring_write buf w bs) ((w + k) % length buf) 0 ≡ get_or buf ((w + k) % length buf) 0
  get_or-ring_write_old k h below =
      let a : ℕ = length buf - w in
      elim ring_write_cases [
        | inl (short, e) ↦ elim (Bool-cases (ltb (w + k) (length buf))) [
          | inl low ↦
              let at : w + k < length buf = ground (arith, low) in
              rw (e, mod-eq_of_lt {n = w + k} {m = length buf} at)
                (get_or-memcpy_after buf bs w (w + k) (omega arith) (omega arith))
          | inr high ↦
              let at : length buf ≤ w + k = ground (arith, high) in
              rw (e, mod_past (w + k) (length buf) at (omega arith))
                (get_or-memcpy_before buf bs w (w + k - length buf) (omega arith) (omega arith))
        ]
        | inr (long, e) ↦
            rw (e, mod_past (w + k) (length buf) (omega arith) (omega arith))
              (get_or-memcpy_after (memcpy buf w (take a bs)) (drop a bs) 0 (w + k - length buf)
                  rest_fits (omega (arith, length-drop a bs))
                ∙ get_or-memcpy_before buf (take a bs) w (w + k - length buf) first_fits
                    (omega arith))
      ]
