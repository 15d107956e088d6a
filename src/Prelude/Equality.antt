-- ===== src/Prelude/Equality.antt =====
-- Decidable equality of map keys as an instance: numbers, and byte strings.
use Prim.Native.Nat.{ℕ}
use mathlib.Core.Path.{◌≡◌, refl, subst}
use mathlib.Core.Logic.{◌↔◌}
use mathlib.Core.Bool.{Bool, true, false, ◌&&◌}
use mathlib.Core.List.{List, [], ◌∷◌}
use native.Mathlib.Omega.{arith}
use vemory.Prelude.Tests.{◌==◌, ==_iff}

-- A `std::string`, a `std::string_view` or a buffer: its bytes.
abbrev pub Bytes : Type 0
Bytes = List ℕ

pub record Eq {ℓ} (A : Type ℓ) : Type ℓ where
  pub eqb : A → A → Bool
  pub eqb_iff : (a b : A) → (eqb a b ≡ true) ↔ (a ≡ b)

infix 50 ◌=?◌
abbrev pub ◌=?◌ {ℓ} : {A : Type ℓ} ⦃e : Eq A⦄ → A → A → Bool
◌=?◌ ⦃e⦄ = e.eqb

abbrev pub bytes_eqb : Bytes → Bytes → Bool
bytes_eqb [] [] = true
bytes_eqb [] (y ∷ ys) = false
bytes_eqb (x ∷ xs) [] = false
bytes_eqb (x ∷ xs) (y ∷ ys) = x == y && bytes_eqb xs ys

bytes_eqb_sound : (xs ys : Bytes) → bytes_eqb xs ys ≡ true → xs ≡ ys
bytes_eqb_sound [] [] h = refl
bytes_eqb_sound [] (y ∷ ys) h = cc
bytes_eqb_sound (x ∷ xs) [] h = cc
bytes_eqb_sound (x ∷ xs) (y ∷ ys) h = ground (arith, bytes_eqb_sound xs ys)

pub bytes_eqb_refl : (xs : Bytes) → bytes_eqb xs xs ≡ true
bytes_eqb_refl [] = refl
bytes_eqb_refl (x ∷ xs) = ground (arith, bytes_eqb_refl xs)

pub bytes_eqb_iff : (xs ys : Bytes) → (bytes_eqb xs ys ≡ true) ↔ (xs ≡ ys)
bytes_eqb_iff xs ys =
    (bytes_eqb_sound xs ys, λ e. subst (λ z. bytes_eqb xs z ≡ true) e (bytes_eqb_refl xs))

instance abbrev pub nat_eq : Eq ℕ
nat_eq = record { eqb = ◌==◌; eqb_iff = ==_iff }

instance abbrev pub bytes_eq : Eq Bytes
bytes_eq = record { eqb = bytes_eqb; eqb_iff = bytes_eqb_iff }

pub =?_refl {ℓ} : {A : Type ℓ} ⦃e : Eq A⦄ (a : A) → (a =? a) ≡ true
=?_refl ⦃e⦄ a = (e.eqb_iff a a).1 refl
