-- ===== src/Decimal.antt =====
-- The number formats of the C library that the source calls: `snprintf` with `%zu`, `%lld` and
-- `%u`, whose output is the decimal numeral, and the 64-bit signed integer type.
pub mod Laws
use vemory.Prelude.{ℕ, zero, suc, ◌+◌, ◌/◌, ◌%◌, ◌^◌, ◌-◌, Bytes, [], ◌∷◌, ◌++◌, ltb, if◌then◌else◌}

-- `negsuc n` is -(n + 1).
pub data ℤ : Type 0 where
  pos : ℕ → ℤ
  negsuc : ℕ → ℤ

abbrev pub neg_ℕ : ℕ → ℤ
neg_ℕ zero = pos 0
neg_ℕ (suc n) = negsuc n

-- The largest `int64_t`.
abbrev pub int64_max : ℕ
int64_max = 2 ^ 63 - 1

-- The digits of `n`, most significant first, with fuel for one digit more than it has.
unfoldable pub decimal_at : ℕ → ℕ → Bytes
decimal_at zero n = []
decimal_at (suc f) n =
    let front = decimal_at f (n / 10) in
    if ltb n 10 then (b'0' + n) ∷ [] else front ++ (b'0' + n % 10) ∷ []

unfoldable pub decimal : ℕ → Bytes
unfolding decimal_at
decimal n = decimal_at (suc n) n

-- A signed number, as `%lld` prints it.
unfoldable pub decimal_ℤ : ℤ → Bytes
unfolding decimal
decimal_ℤ (pos n) = decimal n
decimal_ℤ (negsuc n) = b'-' ∷ decimal (suc n)
