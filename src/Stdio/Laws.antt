-- ===== src/Stdio/Laws.antt =====
-- Words and blocks are read back as they were written.
use vemory.Prelude.{
  ℕ, zero, suc, ◌-◌, ◌/◌, ◌^◌, ◌<◌, ◌≤◌, ◌≡◌, refl, sym, subst, some, ◌++◌, Bytes, length, ap,
  arith, take-append, drop-append, length-append, true, append_assoc,
}
use vemory.Stdio.{to_le, from_le, Sink, write_exact, read_exact, read_word}

pub length-to_le : (w n : ℕ) → length (to_le w n) ≡ w
unfolding to_le
length-to_le zero n = refl
length-to_le (suc w) n = ap suc (length-to_le w (n / 256))

-- A word that fits its width is read back.
abbrev pub Fits : ℕ → ℕ → Type 0
Fits zero n = n ≡ 0
Fits (suc w) n = Fits w (n / 256)

pub from_le-to_le : (w n : ℕ) → Fits w n → from_le (to_le w n) ≡ n
unfolding to_le from_le
from_le-to_le zero n h = sym h
from_le-to_le (suc w) n h = omega (arith, from_le-to_le w (n / 256) h)

pub Fits-4 : (n : ℕ) → n < 2 ^ 32 → Fits 4 n
Fits-4 n h = omega arith

pub Fits-8 : (n : ℕ) → n < 2 ^ 64 → Fits 8 n
Fits-8 n h = omega arith

pub read_exact-append : (bs rest : Bytes) → read_exact (length bs) (bs ++ rest) ≡ some (bs, rest)
unfolding read_exact
read_exact-append bs rest =
    ground (arith, length-append bs rest, take-append bs rest, drop-append bs rest)

pub read_word-to_le :
    (w n : ℕ) (rest : Bytes) → Fits w n → read_word w (to_le w n ++ rest) ≡ some (n, rest)
unfolding read_word
read_word-to_le w n rest h =
    let e : read_exact w (to_le w n ++ rest) ≡ some (to_le w n, rest) =
      subst (λ k. read_exact k (to_le w n ++ rest) ≡ some (to_le w n, rest)) (length-to_le w n)
        (read_exact-append (to_le w n) rest) in
    ground (arith, e, from_le-to_le w n h)

-- The stream after a write that fits.
abbrev pub after : Sink → Bytes → Sink
after f bs = record { written = f.written ++ bs; room = f.room - length bs }

pub after-after : (f : Sink) (a b : Bytes) → after (after f a) b ≡ after f (a ++ b)
after-after f a b = ground (arith, append_assoc f.written a b, length-append a b)

-- What fits on the device is written whole.
pub write_exact-room :
    (f : Sink) (bs : Bytes) → length bs ≤ f.room → write_exact f bs ≡ (after f bs, true)
unfolding write_exact
write_exact-room f bs h = ground arith
