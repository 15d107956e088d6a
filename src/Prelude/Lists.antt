-- ===== src/Prelude/Lists.antt =====
-- Lists measured and indexed by native numbers, under the library's names.
use Prim.Native.Nat.{ℕ, zero, suc, ◌+◌, ◌-◌, ◌<◌, ◌≤◌, min}
use Prim.Native.Nat.add
use mathlib.Core.Path.{◌≡◌, refl, ap}
use mathlib.Core.List.{List, [], ◌∷◌, ◌++◌}
use mathlib.Core.Option.{Option, none, some}
use native.Mathlib.Omega.{arith}

module _ {ℓ} {A : Type ℓ} where
  abbrev pub length : List A → ℕ
  length [] = 0
  length (x ∷ xs) = suc (length xs)

  abbrev pub get_elem? : List A → ℕ → Option A
  get_elem? [] i = none
  get_elem? (x ∷ xs) zero = some x
  get_elem? (x ∷ xs) (suc i) = get_elem? xs i

  abbrev pub get_or : List A → ℕ → A → A
  get_or [] i d = d
  get_or (x ∷ xs) zero d = x
  get_or (x ∷ xs) (suc i) d = get_or xs i d

  -- A write out of bounds changes nothing.
  abbrev pub set : List A → ℕ → A → List A
  set [] i v = []
  set (x ∷ xs) zero v = v ∷ xs
  set (x ∷ xs) (suc i) v = x ∷ set xs i v

  abbrev pub take : ℕ → List A → List A
  take zero xs = []
  take (suc n) [] = []
  take (suc n) (x ∷ xs) = x ∷ take n xs

  abbrev pub drop : ℕ → List A → List A
  drop zero xs = xs
  drop (suc n) [] = []
  drop (suc n) (x ∷ xs) = drop n xs

  abbrev pub replicate : ℕ → A → List A
  replicate zero a = []
  replicate (suc n) a = a ∷ replicate n a

module _ {ℓ} {A : Type ℓ} where
  pub length-append : (xs ys : List A) → length (xs ++ ys) ≡ length xs + length ys
  length-append [] ys = omega arith
  length-append (x ∷ xs) ys = omega (arith, length-append xs ys)

  pub length-take : (n : ℕ) (xs : List A) → length (take n xs) ≡ min n (length xs)
  length-take zero xs = omega arith
  length-take (suc n) [] = omega arith
  length-take (suc n) (x ∷ xs) = omega (arith, length-take n xs)

  pub length-drop : (n : ℕ) (xs : List A) → length (drop n xs) ≡ length xs - n
  length-drop zero xs = omega arith
  length-drop (suc n) [] = omega arith
  length-drop (suc n) (x ∷ xs) = omega (arith, length-drop n xs)

  pub length-set : (xs : List A) (i : ℕ) (v : A) → length (set xs i v) ≡ length xs
  length-set [] i v = refl
  length-set (x ∷ xs) zero v = refl
  length-set (x ∷ xs) (suc i) v = ap suc (length-set xs i v)

  pub length-replicate : (n : ℕ) (a : A) → length (replicate n a) ≡ n
  length-replicate zero a = refl
  length-replicate (suc n) a = ap suc (length-replicate n a)

  pub take-append : (xs ys : List A) → take (length xs) (xs ++ ys) ≡ xs
  take-append [] ys = refl
  take-append (x ∷ xs) ys = ap (◌∷◌ x) (take-append xs ys)

  pub drop-append : (xs ys : List A) → drop (length xs) (xs ++ ys) ≡ ys
  drop-append [] ys = refl
  drop-append (x ∷ xs) ys = drop-append xs ys

  pub drop-nil : (n : ℕ) → drop {A = A} n [] ≡ []
  drop-nil zero = refl
  drop-nil (suc n) = refl

  pub take-nil : (n : ℕ) → take {A = A} n [] ≡ []
  take-nil zero = refl
  take-nil (suc n) = refl

  pub drop-drop : (m n : ℕ) (xs : List A) → drop n (drop m xs) ≡ drop (m + n) xs
  drop-drop zero n xs = rw add.zero
  drop-drop (suc m) n [] = rw (add.suc, drop-nil)
  drop-drop (suc m) n (x ∷ xs) = rw add.suc (drop-drop m n xs)

  -- A suffix that is reached at `m` starts with `xs`: what follows `xs` is reached `length xs` on.
  pub drop_past :
      (m : ℕ) (whole xs ys : List A) → drop m whole ≡ xs ++ ys → drop (m + length xs) whole ≡ ys
  drop_past m whole xs ys h = rw (← drop-drop m (length xs) whole, h) (drop-append xs ys)

  pub length_of_drop :
      (m : ℕ) (whole xs : List A) → drop m whole ≡ xs → 0 < length xs → length whole ≡ m + length xs
  length_of_drop m whole xs h p =
      omega (arith, length-drop m whole, ap (λ (l : List A). length l) h)

  pub drop-length : (n : ℕ) (xs : List A) → length xs ≤ n → drop n xs ≡ []
  drop-length n [] h = drop-nil n
  drop-length zero (x ∷ xs) h = absurd (omega arith)
  drop-length (suc n) (x ∷ xs) h = drop-length n xs (omega arith)

  pub take_of_length-le : (n : ℕ) (xs : List A) → length xs ≤ n → take n xs ≡ xs
  take_of_length-le n [] h = take-nil n
  take_of_length-le zero (x ∷ xs) h = absurd (omega arith)
  take_of_length-le (suc n) (x ∷ xs) h = ap (◌∷◌ x) (take_of_length-le n xs (omega arith))

  pub take-append-drop : (n : ℕ) (xs : List A) → take n xs ++ drop n xs ≡ xs
  take-append-drop zero xs = refl
  take-append-drop (suc n) [] = refl
  take-append-drop (suc n) (x ∷ xs) = rw (take-append-drop n xs)

  pub get_elem?-drop : (m i : ℕ) (xs : List A) → get_elem? (drop m xs) i ≡ get_elem? xs (m + i)
  get_elem?-drop zero i xs = rw add.zero
  get_elem?-drop (suc m) i [] = refl
  get_elem?-drop (suc m) i (x ∷ xs) = rw add.suc (get_elem?-drop m i xs)

  pub get_or-drop : (m i : ℕ) (xs : List A) (d : A) → get_or (drop m xs) i d ≡ get_or xs (m + i) d
  get_or-drop zero i xs d = rw add.zero
  get_or-drop (suc m) i [] d = refl
  get_or-drop (suc m) i (x ∷ xs) d = rw add.suc (get_or-drop m i xs d)

  pub get_or-append_length :
      (xs ys : List A) (i : ℕ) (d : A) → get_or (xs ++ ys) (length xs + i) d ≡ get_or ys i d
  get_or-append_length [] ys i d = rw add.zero
  get_or-append_length (x ∷ xs) ys i d = rw add.suc (get_or-append_length xs ys i d)

  -- The element at an index that a suffix reaches.
  pub get_or_at :
      (m i : ℕ) (whole xs : List A) (d : A)
      → drop m whole ≡ xs
      → get_or whole (m + i) d ≡ get_or xs i d
  get_or_at m i whole xs d e = rw (← get_or-drop m i whole d, e)

  -- Below its end a list is not changed by what is appended.
  pub drop-append_le :
      (n : ℕ) (xs ys : List A) → n ≤ length xs → drop n (xs ++ ys) ≡ drop n xs ++ ys
  drop-append_le zero xs ys h = refl
  drop-append_le (suc n) [] ys h = absurd (omega arith)
  drop-append_le (suc n) (x ∷ xs) ys h = drop-append_le n xs ys (omega arith)

  pub take-append_le : (n : ℕ) (xs ys : List A) → n ≤ length xs → take n (xs ++ ys) ≡ take n xs
  take-append_le zero xs ys h = refl
  take-append_le (suc n) [] ys h = absurd (omega arith)
  take-append_le (suc n) (x ∷ xs) ys h = ap (◌∷◌ x) (take-append_le n xs ys (omega arith))

  pub get_or-append_lt :
      (xs ys : List A) (i : ℕ) (d : A) → i < length xs → get_or (xs ++ ys) i d ≡ get_or xs i d
  get_or-append_lt [] ys i d h = absurd (omega arith)
  get_or-append_lt (x ∷ xs) ys zero d h = refl
  get_or-append_lt (x ∷ xs) ys (suc i) d h = get_or-append_lt xs ys i d (omega arith)
