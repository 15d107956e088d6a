-- ===== src/Request.antt =====
-- src/protocol/RequestContext.cc, include/vemory/protocol/RequestContext.h: tokens to a request.
-- `strtof` is a parameter: from the bytes of a C string it gives the bits of the `float` and the
-- bytes that it leaves, or `none` where it converts nothing. `now` is the clock's reading.
-- `out` is never null here.
use vemory.Prelude.{
  ℕ, ◌+◌, ◌-◌, ◌*◌, ◌^◌, Bool, true, false, ◌&&◌, ◌||◌, Option, none, some, leb, ◌==◌,
  if◌then◌else◌, Bytes, List, [], ◌∷◌, min,
}
use vemory.Decimal.{ℤ, pos, negsuc, neg_ℕ, int64_max}
use vemory.Decode.{is_digit}
use vemory.Command.{
  CommandType, vset, vget, vdel, set, del, get, ping, echo, save, psync, unknown,
  parse_command_type,
}

pub record RequestContext : Type 0 where
  pub client_fd : ℤ
  pub cmd : CommandType
  pub vector_blob : Bytes
  pub user_key : Bytes
  pub question : Bytes
  pub answer : Bytes
  -- the bits of the `float`
  pub threshold : ℕ
  pub key : Bytes
  pub element : Bytes
  pub psync_replid : Bytes
  pub psync_offset : ℤ
  pub recv_time : ℕ

pub data Status : Type 0 where
  ok empty unknown_command wrong_arity bad_value : Status

-- The members' initial values; the bits of `0.f` are 0.
abbrev pub new_context : RequestContext
new_context = record {
  client_fd = negsuc 0;
  cmd = unknown;
  vector_blob = [];
  user_key = [];
  question = [];
  answer = [];
  threshold = 0;
  key = [];
  element = [];
  psync_replid = [];
  psync_offset = negsuc 0;
  recv_time = 0;
}

-- `ClearOut`
abbrev pub clear_out : ℤ → CommandType → RequestContext
clear_out fd c = record new_context { client_fd = fd; cmd = c }

-- What a C string function reads of a token: the bytes before the first NUL.
unfoldable pub c_str : Bytes → Bytes
c_str [] = []
c_str (c ∷ cs) = if c == 0 then [] else c ∷ c_str cs

-- `std::isspace` in the C locale.
abbrev pub is_space : ℕ → Bool
is_space c = c == 32 || leb 9 c && leb c 13

unfoldable pub skip_spaces : Bytes → Bytes
skip_spaces [] = []
skip_spaces (c ∷ cs) = if is_space c then skip_spaces cs else c ∷ cs

abbrev pub is_empty : Bytes → Bool
is_empty [] = true
is_empty (c ∷ cs) = false

-- `ParseFloat`
unfoldable pub parse_float : (Bytes → Option (ℕ × Bytes)) → Bytes → Option ℕ
parse_float strtof s =
    if is_empty (skip_spaces s) then none else elim (strtof (c_str (skip_spaces s))) [
      | none ↦ none
      | some (v, end) ↦ if is_empty (skip_spaces end) then some v else none
    ]

unfoldable pub read_digits : ℕ → Bytes → ℕ × Bytes
read_digits acc [] = (acc, [])
read_digits acc (c ∷ cs) =
    let rest = read_digits (acc * 10 + (c - b'0')) cs in if is_digit c then rest else (acc, c ∷ cs)

abbrev pub starts_with_digit : Bytes → Bool
starts_with_digit [] = false
starts_with_digit (c ∷ cs) = is_digit c

-- A number out of range is clamped.
unfoldable pub clamped : Bool → ℕ → ℤ
clamped neg n = if neg then neg_ℕ (min n (2 ^ 63)) else pos (min n int64_max)

unfoldable pub signed_digits : Bool → Bytes → Option (ℤ × Bytes)
signed_digits neg cs =
    if starts_with_digit cs
    then (let (n, rest) = read_digits 0 cs in some (clamped neg n, rest))
    else none

-- `std::strtoll` in base ten: the number and what is left, or `none` where it converts nothing.
unfoldable pub strtoll : Bytes → Option (ℤ × Bytes)
strtoll s = elim (skip_spaces s) [
  | [] ↦ none
  | c ∷ cs ↦
      if c == b'-'
      then signed_digits true cs
      else if c == b'+'
      then signed_digits false cs
      else signed_digits false (c ∷ cs)
]

-- The offset of PSYNC: all of the C string has to be read.
unfoldable pub parse_offset : Bytes → Option ℤ
parse_offset s = elim (strtoll (c_str s)) [
  | none ↦ none
  | some (v, end) ↦ if is_empty end then some v else none
]

-- The cases of `FromTokens` over the tokens after the command's name. A refused request is
-- cleared, and keeps its command.
module _ (now : ℕ) (fd : ℤ) where
  abbrev pub fail : CommandType → Status → Status × RequestContext
  fail c st = (st, clear_out fd c)

  unfoldable pub from_vset : List Bytes → Status × RequestContext
  from_vset (blob ∷ user ∷ q ∷ a ∷ []) = if is_empty user then fail vset bad_value else (
    ok,
    record (clear_out fd vset) {
      vector_blob = blob;
      user_key = user;
      question = q;
      answer = a;
      recv_time = now;
    },
  )
  from_vset _ = fail vset wrong_arity

  unfoldable pub from_vget : (Bytes → Option (ℕ × Bytes)) → List Bytes → Status × RequestContext
  from_vget strtof (blob ∷ thr ∷ []) = elim (parse_float strtof thr) [
    | none ↦ fail vget bad_value
    | some v ↦
        (ok, record (clear_out fd vget) { vector_blob = blob; threshold = v; recv_time = now })
  ]
  from_vget strtof _ = fail vget wrong_arity

  unfoldable pub from_vdel : List Bytes → Status × RequestContext
  from_vdel (user ∷ []) =
      if is_empty user
      then fail vdel bad_value
      else (ok, record (clear_out fd vdel) { user_key = user; recv_time = now })
  from_vdel _ = fail vdel wrong_arity

  unfoldable pub from_set : List Bytes → Status × RequestContext
  from_set (k ∷ v ∷ []) =
      if is_empty k
      then fail set bad_value
      else (ok, record (clear_out fd set) { key = k; element = v; recv_time = now })
  from_set _ = fail set wrong_arity

  -- GET and DEL
  unfoldable pub from_key : CommandType → List Bytes → Status × RequestContext
  from_key c (k ∷ []) =
      if is_empty k
      then fail c bad_value
      else (ok, record (clear_out fd c) { key = k; recv_time = now })
  from_key c _ = fail c wrong_arity

  unfoldable pub from_ping : List Bytes → Status × RequestContext
  from_ping [] = (ok, record (clear_out fd ping) { recv_time = now })
  from_ping (m ∷ []) = (ok, record (clear_out fd ping) { element = m; recv_time = now })
  from_ping _ = fail ping wrong_arity

  unfoldable pub from_echo : List Bytes → Status × RequestContext
  from_echo (m ∷ []) = (ok, record (clear_out fd echo) { element = m; recv_time = now })
  from_echo _ = fail echo wrong_arity

  unfoldable pub from_save : List Bytes → Status × RequestContext
  from_save [] = (ok, record (clear_out fd save) { recv_time = now })
  from_save _ = fail save wrong_arity

  unfoldable pub from_psync : List Bytes → Status × RequestContext
  from_psync [] = (ok, record (clear_out fd psync) { recv_time = now })
  from_psync (id ∷ off ∷ []) =
      if is_empty id || is_empty off then fail psync bad_value else elim (parse_offset off) [
        | none ↦ fail psync bad_value
        | some v ↦ (
          ok,
          record (clear_out fd psync) { psync_replid = id; psync_offset = v; recv_time = now },
        )
      ]
  from_psync _ = fail psync wrong_arity

  -- The `switch`.
  unfoldable pub from_command :
      (Bytes → Option (ℕ × Bytes)) → CommandType → List Bytes → Status × RequestContext
  from_command strtof vset args = from_vset args
  from_command strtof vget args = from_vget strtof args
  from_command strtof vdel args = from_vdel args
  from_command strtof set args = from_set args
  from_command strtof get args = from_key get args
  from_command strtof del args = from_key del args
  from_command strtof ping args = from_ping args
  from_command strtof echo args = from_echo args
  from_command strtof save args = from_save args
  from_command strtof psync args = from_psync args
  from_command strtof unknown args = fail unknown unknown_command

-- `FromTokens`: no token leaves `out` as it was.
unfoldable pub from_tokens :
    (Bytes → Option (ℕ × Bytes)) → ℕ → ℤ → List Bytes → RequestContext → Status × RequestContext
from_tokens strtof now fd [] out = (empty, out)
from_tokens strtof now fd (name ∷ args) out =
    from_command now fd strtof (parse_command_type name) args
