-- ===== src/Decimal/Laws.antt =====
-- What a decimal numeral consists of.
use vemory.Prelude.{
  ℕ, zero, suc, ◌+◌, ◌/◌, ◌%◌, ◌≤◌, ◌<◌, ◌≡◌, refl, Bytes, [], ◌∷◌, ◌++◌, length, length-append,
  arith, ltb, Bool-cases, inl, inr,
}
use vemory.Decimal.{decimal_at, decimal}

-- Every byte is a digit.
abbrev pub IsNumeral : Bytes → Type 0
IsNumeral [] = Unit {0}
IsNumeral (c ∷ cs) = (b'0' ≤ c) × (c ≤ b'9') × IsNumeral cs

pub append-IsNumeral : (xs ys : Bytes) → IsNumeral xs → IsNumeral ys → IsNumeral (xs ++ ys)
append-IsNumeral [] ys h k = k
append-IsNumeral (x ∷ xs) ys h k = (h.0, h.1, append-IsNumeral xs ys h.2 k)

pub decimal_at-IsNumeral : (f n : ℕ) → IsNumeral (decimal_at f n)
unfolding decimal_at
decimal_at-IsNumeral zero n = tt
decimal_at-IsNumeral (suc f) n = elim (Bool-cases (ltb n 10)) [
  | inl small ↦ rw small (omega arith, ground arith, tt)
  | inr large ↦ rw large (
      append-IsNumeral (decimal_at f (n / 10)) ((b'0' + n % 10) ∷ [])
        (decimal_at-IsNumeral f (n / 10)) (omega arith, omega arith, tt))
]

pub decimal-IsNumeral : (n : ℕ) → IsNumeral (decimal n)
unfolding decimal
decimal-IsNumeral n = decimal_at-IsNumeral (suc n) n

pub decimal_at-pos : (f n : ℕ) → 0 < length (decimal_at (suc f) n)
unfolding decimal_at
decimal_at-pos f n = elim (Bool-cases (ltb n 10)) [
  | inl small ↦ rw small (omega arith)
  | inr large ↦
      rw large (omega (arith, length-append (decimal_at f (n / 10)) ((b'0' + n % 10) ∷ [])))
]

-- A numeral has a digit.
pub decimal-cons : (n : ℕ) → (c : ℕ) × (cs : Bytes) × (decimal n ≡ c ∷ cs)
unfolding decimal
decimal-cons n = split (decimal_at (suc n) n) refl (decimal_at-pos n n)
  where
    split :
        (xs : Bytes)
        → decimal_at (suc n) n ≡ xs
        → 0 < length (decimal_at (suc n) n)
        → (c : ℕ) × (cs : Bytes) × (decimal_at (suc n) n ≡ c ∷ cs)
    split [] e h = absurd (omega (arith, rw e at h))
    split (c ∷ cs) e h = (c, cs, e)
