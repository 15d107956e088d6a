-- ===== src/Stdio.antt =====
-- The parts of <cstdio> and <cstring> that the storage and persistence code calls, and the
-- little-endian words that `fwrite` and `memcpy` take from and put into memory.
pub mod Laws
use vemory.Prelude.{
  ℕ, zero, suc, ◌+◌, ◌-◌, ◌*◌, ◌/◌, ◌%◌, Bool, true, false, Option, none, some, [], ◌∷◌, ◌++◌,
  Bytes, length, take, drop, ltb, if◌then◌else◌,
}

-- The `w` bytes of a word, lowest first.
unfoldable pub to_le : ℕ → ℕ → Bytes
to_le zero n = []
to_le (suc w) n = (n % 256) ∷ to_le w (n / 256)

unfoldable pub from_le : Bytes → ℕ
from_le [] = 0
from_le (b ∷ bs) = b + 256 * from_le bs

-- A stream that is written: its bytes, and how many more the device takes.
pub record Sink : Type 0 where
  pub written : Bytes
  pub room : ℕ

-- `WriteExact`: whether `fwrite` has written all the bytes. It writes what fits.
unfoldable pub write_exact : Sink → Bytes → Sink × Bool
write_exact f bs =
    if ltb f.room (length bs)
    then (record { written = f.written ++ take f.room bs; room = 0 }, false)
    else (record { written = f.written ++ bs; room = f.room - length bs }, true)

-- `ReadExact`, and `need` with a copy out of memory: the next `n` bytes and those after them.
unfoldable pub read_exact : ℕ → Bytes → Option (Bytes × Bytes)
read_exact n bs = if ltb (length bs) n then none else some (take n bs, drop n bs)

-- A word of `w` bytes.
unfoldable pub read_word : ℕ → Bytes → Option (ℕ × Bytes)
read_word w bs = elim (read_exact w bs) [
  | none ↦ none
  | some (word, rest) ↦ some (from_le word, rest)
]
