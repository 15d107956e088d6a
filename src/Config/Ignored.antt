-- ===== src/Config/Ignored.antt =====
-- The lines of a settings file: those that are skipped, and the one that an error names.
use vemory.Prelude.{
  ℕ, suc, ◌+◌, ◌==◌, ◌||◌, ◌≡◌, refl, Bool, true, Option, none, some, List, [], ◌∷◌, ◌++◌, Bytes,
  if◌then◌else◌, codes, length, arith, ap,
}
use vemory.Decimal.{decimal}
use vemory.Config.{Loading, load_line, at_line, load_lines}
use vemory.Config.Outcome.{Result, ok, err, ◌>>=◌}
use vemory.Request.{is_space}

-- The first character of a line that is not a space.
abbrev pub first_mark : Bytes → Option ℕ
first_mark [] = none
first_mark (c ∷ cs) = if is_space c then first_mark cs else some c

-- A line without such a character, or where it is `#` or `;`.
abbrev pub is_comment : Option ℕ → Bool
is_comment none = true
is_comment (some c) = c == b'#' || c == b';'

-- The lines that are neither blank nor a comment.
abbrev pub significant : List Bytes → List Bytes
significant [] = []
significant (line ∷ lines) =
    if is_comment (first_mark line) then significant lines else line ∷ significant lines

-- A result without its message.
abbrev pub value {ℓ} : {A : Type ℓ} → Result A → Option A
value (ok a) = some a
value (err e) = none

-- The first line that is refused, after lines that are loaded.
pub record FirstBad (n : ℕ) (l : Loading) (lines : List Bytes) (e : Bytes) : Type 0 where
  pub before : List Bytes
  pub line : Bytes
  pub after : List Bytes
  pub loaded : Loading
  pub why : Bytes
  pub lines_eq : lines ≡ before ++ line ∷ after
  pub loads : load_lines n l before ≡ ok loaded
  pub refused : load_line loaded line ≡ err why
  pub message : e ≡ codes "line " ++ (decimal (n + length before) ++ (codes ": " ++ why))

FirstBad-later :
    (n : ℕ) (l : Loading) (line : Bytes) (lines : List Bytes) (e : Bytes) (r : Result Loading)
    → load_line l line ≡ r
    → ((l' : Loading) → load_lines (suc n) l' lines ≡ err e → FirstBad (suc n) l' lines e)
    → (at_line n r >>= λ l'. load_lines (suc n) l' lines) ≡ err e
    → FirstBad n l (line ∷ lines) e
unfolding load_lines
FirstBad-later n l line lines e (ok l') q later h =
    let b = later l' h in
    record {
      before = line ∷ b.before;
      line = b.line;
      after = b.after;
      loaded = b.loaded;
      why = b.why;
      lines_eq = ap (◌∷◌ line) b.lines_eq;
      loads = rw q b.loads;
      refused = b.refused;
      message =
          let same : suc n + length b.before ≡ n + suc (length b.before) = omega arith in
          rw (← same) b.message;
    }
FirstBad-later n l line lines e (err why) q later h = record {
  before = [];
  line = line;
  after = lines;
  loaded = l;
  why = why;
  lines_eq = refl;
  loads = refl;
  refused = q;
  message = let same : n + 0 ≡ n = omega arith in rw same cc;
}

-- When loading fails, its message has the number of the first line that is refused, counted from
-- `n`, and the reason of that line; all the lines before it are accepted.
pub load_lines-FirstBad :
    (n : ℕ) (l : Loading) (lines : List Bytes) (e : Bytes)
    → load_lines n l lines ≡ err e
    → FirstBad n l lines e
unfolding load_lines
load_lines-FirstBad n l [] e h = cc
load_lines-FirstBad n l (line ∷ lines) e h =
    FirstBad-later n l line lines e (load_line l line) refl
      (λ l' h'. load_lines-FirstBad (suc n) l' lines e h') h
