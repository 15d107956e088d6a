-- ===== src/Config/Outcome.antt =====
-- Fallible loading: a value, or the message that `*error` gets.
use vemory.Prelude.{Bytes}

pub data Result {ℓ} (A : Type ℓ) : Type ℓ where
  ok : A → Result A
  err : Bytes → Result A

infixl 5 ◌>>=◌
abbrev pub ◌>>=◌ {ℓ} : {A B : Type ℓ} → Result A → (A → Result B) → Result B
ok a >>= f = f a
err e >>= f = err e
