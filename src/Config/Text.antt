-- ===== src/Config/Text.antt =====
-- src/util/Config.cc: the text helpers, and the `strtoull` and `find` that the source calls.
use vemory.Prelude.{
  ℕ, ◌-◌, ◌^◌, Bool, true, false, not, ◌&&◌, ◌||◌, Option, none, some, [], ◌∷◌, Bytes, bytes_eq,
  ◌=?◌, ltb, ◌==◌, if◌then◌else◌, codes, map, take, drop, length,
}
use vemory.Command.{tolower}
use vemory.Request.{is_empty, is_space, skip_spaces, c_str, read_digits, starts_with_digit}

-- The second loop of `Trim`: the spaces at the end go.
unfoldable pub trim_end : Bytes → Bytes
trim_end [] = []
trim_end (c ∷ cs) = let rest = trim_end cs in if is_empty rest && is_space c then [] else c ∷ rest

-- `Trim`
unfoldable pub trim : Bytes → Bytes
trim s = trim_end (skip_spaces s)

-- `ToLower`
unfoldable pub to_lower : Bytes → Bytes
to_lower = map tolower

-- The largest `unsigned long long`.
abbrev pub uint64_max : ℕ
uint64_max = 2 ^ 64 - 1

-- A number out of range is clamped, and a negative one wraps around.
unfoldable pub wrapped : Bool → ℕ → ℕ
wrapped neg n =
    if ltb uint64_max n then uint64_max else if neg && not (n == 0) then 2 ^ 64 - n else n

unfoldable pub wrapped_digits : Bool → Bytes → Option (ℕ × Bytes)
wrapped_digits neg cs =
    if starts_with_digit cs
    then (let (n, rest) = read_digits 0 cs in some (wrapped neg n, rest))
    else none

-- `std::strtoull` in base ten: the number and what is left, or `none` where it converts nothing.
unfoldable pub strtoull : Bytes → Option (ℕ × Bytes)
strtoull s = elim (skip_spaces s) [
  | [] ↦ none
  | c ∷ cs ↦
      if c == b'-'
      then wrapped_digits true cs
      else if c == b'+'
      then wrapped_digits false cs
      else wrapped_digits false (c ∷ cs)
]

-- `ParseUint`
unfoldable pub parse_uint : Bytes → Option ℕ
parse_uint text = if is_empty text then none else elim (strtoull (c_str text)) [
  | none ↦ none
  | some (v, end) ↦ if is_empty end then some v else none
]

-- `ParseBool`
unfoldable pub parse_bool : Bytes → Option Bool
parse_bool text =
    let lower = to_lower text in
    if (lower =? codes "true")
      || (lower =? codes "1")
      || (lower =? codes "yes")
      || (lower =? codes "on")
    then some true
    else if (lower =? codes "false")
        || (lower =? codes "0")
        || (lower =? codes "no")
        || (lower =? codes "off")
    then some false
    else none

-- `IsValidLogLevel`
unfoldable pub is_valid_log_level : Bytes → Bool
is_valid_log_level level =
    (level =? codes "trace")
    || (level =? codes "debug")
    || (level =? codes "info")
    || (level =? codes "warn")
    || (level =? codes "error")
    || (level =? codes "critical")
    || (level =? codes "off")

-- `find('=')` with the two `substr`s: what stands before and after the first `=`.
unfoldable pub find_eq : Bytes → Option (Bytes × Bytes)
find_eq [] = none
find_eq (c ∷ cs) =
    let rest = find_eq cs in
    if c == b'='
    then some ([], cs)
    else elim rest [ none ↦ none | some (key, value) ↦ some (c ∷ key, value) ]

-- `back()`; 0 stands for that of an empty string, which the source does not ask for.
unfoldable pub last_byte : Bytes → ℕ
last_byte [] = 0
last_byte (c ∷ []) = c
last_byte (c ∷ d ∷ cs) = last_byte (d ∷ cs)

-- `substr(1, size() - 2)`
unfoldable pub unbracket : Bytes → Bytes
unbracket s = take (length s - 2) (drop 1 s)
