-- ===== src/Command/Laws.antt =====
-- A command's name is read without regard to case.
use vemory.Prelude.{
  true, false, ◌==◌, ◌≡◌, refl, Bytes, [], ◌∷◌, map, length, arith, ap, codes, if◌then◌else◌,
  bytes_eqb, bytes_eqb_iff, ◌↔◌, ◌∙◌, sym,
}
use vemory.Command.{tolower, same_letters, equals_ignore_case, parse_command_type}

same_letters-eq :
    (a b : Bytes)
    → (if length a == length b then same_letters a b else false)
      ≡ bytes_eqb (map tolower a) (map tolower b)
unfolding same_letters
same_letters-eq [] [] = refl
same_letters-eq [] (y ∷ ys) = ground arith
same_letters-eq (x ∷ xs) [] = ground arith
same_letters-eq (x ∷ xs) (y ∷ ys) = ground (arith, same_letters-eq xs ys)

-- Two names compare equal exactly when their letters agree in lower case.
pub equals_ignore_case_iff :
    (a b : Bytes) → (equals_ignore_case a b ≡ true) ↔ (map tolower a ≡ map tolower b)
unfolding equals_ignore_case
equals_ignore_case_iff a b =
    rw (same_letters-eq a b) (bytes_eqb_iff (map tolower a) (map tolower b))

equals_ignore_case-congr :
    (a b x : Bytes)
    → map tolower a ≡ map tolower b
    → equals_ignore_case a x ≡ equals_ignore_case b x
unfolding equals_ignore_case
equals_ignore_case-congr a b x h =
    same_letters-eq a x
    ∙ ap (λ (l : Bytes). bytes_eqb l (map tolower x)) h
    ∙ sym (same_letters-eq b x)

-- Names that differ only in the case of letters are the same command, or no command both.
pub parse_command_type-congr :
    (a b : Bytes) → map tolower a ≡ map tolower b → parse_command_type a ≡ parse_command_type b
unfolding parse_command_type
parse_command_type-congr a b h = cc (
  equals_ignore_case-congr a b (codes "VSET") h,
  equals_ignore_case-congr a b (codes "VGET") h,
  equals_ignore_case-congr a b (codes "VDEL") h,
  equals_ignore_case-congr a b (codes "SET") h,
  equals_ignore_case-congr a b (codes "DEL") h,
  equals_ignore_case-congr a b (codes "GET") h,
  equals_ignore_case-congr a b (codes "PING") h,
  equals_ignore_case-congr a b (codes "ECHO") h,
  equals_ignore_case-congr a b (codes "SAVE") h,
  equals_ignore_case-congr a b (codes "PSYNC") h,
)
