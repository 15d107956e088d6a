-- ===== src/Encode/WriteCommand.antt =====
-- The frame of a write command, which is also its record in the append-only file and in the
-- replication stream, is decoded and mapped back to the same write.
use vemory.Prelude.{
  ℕ, ◌≤◌, ◌<◌, ◌≡◌, ◌≢◌, refl, Bytes, Option, none, some, List, [], ◌∷◌, ◌++◌, length, codes, arith,
  Option-cases, inl, inr,
}
use vemory.Decimal.{ℤ, int64_max}
use vemory.Command.{
  CommandType, vset, vdel, set, del, unknown, parse_command_type, equals_ignore_case, same_letters,
}
use vemory.Request.{
  RequestContext, clear_out, from_tokens, from_command, from_vset, from_vdel, from_set, from_key,
  ok,
}
use vemory.Decode
use vemory.Decode.{decode}
use vemory.Decode.RoundTrip.{decode-encode_array}
use vemory.Encode.{encode_write_command, encode_array, append_bulks}

-- The words of a write, by its command.
abbrev tokens_at : CommandType → RequestContext → Option (List Bytes)
tokens_at set ctx = some (codes "SET" ∷ ctx.key ∷ ctx.element ∷ [])
tokens_at del ctx = some (codes "DEL" ∷ ctx.key ∷ [])
tokens_at vset ctx =
    some (codes "VSET" ∷ ctx.vector_blob ∷ ctx.user_key ∷ ctx.question ∷ ctx.answer ∷ [])
tokens_at vdel ctx = some (codes "VDEL" ∷ ctx.user_key ∷ [])
tokens_at _ ctx = none

abbrev pub write_tokens : RequestContext → Option (List Bytes)
write_tokens ctx = tokens_at ctx.cmd ctx

-- What a write acts on, with everything else as `ClearOut` leaves it.
abbrev pub write_at : ℕ → ℤ → CommandType → RequestContext → RequestContext
write_at now fd set ctx = record (clear_out fd set) {
  key = ctx.key;
  element = ctx.element;
  recv_time = now;
}
write_at now fd del ctx = record (clear_out fd del) { key = ctx.key; recv_time = now }
write_at now fd vset ctx = record (clear_out fd vset) {
  vector_blob = ctx.vector_blob;
  user_key = ctx.user_key;
  question = ctx.question;
  answer = ctx.answer;
  recv_time = now;
}
write_at now fd vdel ctx = record (clear_out fd vdel) { user_key = ctx.user_key; recv_time = now }
write_at now fd _ ctx = clear_out fd unknown

abbrev pub same_write : ℕ → ℤ → RequestContext → RequestContext
same_write now fd ctx = write_at now fd ctx.cmd ctx

-- The key that a write names.
abbrev pub key_at : CommandType → RequestContext → Bytes
key_at vset ctx = ctx.user_key
key_at vdel ctx = ctx.user_key
key_at _ ctx = ctx.key

pub encode_write_command-eq :
    (ctx : RequestContext)
    → encode_write_command ctx
      ≡ elim (write_tokens ctx) [ none ↦ none | some ts ↦ some (encode_array ts) ]
unfolding encode_write_command encode_array append_bulks
encode_write_command-eq ctx = ground arith

names :
    (parse_command_type (codes "SET") ≡ set)
    × (parse_command_type (codes "DEL") ≡ del)
    × (parse_command_type (codes "VSET") ≡ vset)
    × (parse_command_type (codes "VDEL") ≡ vdel)
unfolding parse_command_type equals_ignore_case same_letters
names = (refl, refl, refl, refl)

from_tokens-write_at :
    (strtof : Bytes → Option (ℕ × Bytes)) (now : ℕ) (fd : ℤ) (ctx out : RequestContext)
    (ts : List Bytes) (c : CommandType)
    → tokens_at c ctx ≡ some ts
    → key_at c ctx ≢ []
    → from_tokens strtof now fd ts out ≡ (ok, write_at now fd c ctx)
unfolding from_tokens from_command from_vset from_vdel from_set from_key
from_tokens-write_at strtof now fd ctx out ts set e h = ground (arith, names)
from_tokens-write_at strtof now fd ctx out ts _ e h = ground (arith, names)

-- The words of a write with a key are mapped back to that write, on any connection.
pub from_tokens-write :
    (strtof : Bytes → Option (ℕ × Bytes)) (now : ℕ) (fd : ℤ) (ctx out : RequestContext)
    (ts : List Bytes)
    → write_tokens ctx ≡ some ts
    → key_at ctx.cmd ctx ≢ []
    → from_tokens strtof now fd ts out ≡ (ok, same_write now fd ctx)
from_tokens-write strtof now fd ctx out ts e h =
    from_tokens-write_at strtof now fd ctx out ts ctx.cmd e h

length-tokens_at :
    (c : CommandType) (ctx : RequestContext) (ts : List Bytes)
    → tokens_at c ctx ≡ some ts
    → length ts ≤ 5
length-tokens_at set ctx ts e = ground arith
length-tokens_at _ ctx ts e = ground arith

encode-some :
    (ctx : RequestContext) (frame : Bytes)
    → encode_write_command ctx ≡ some frame
    → (ts : List Bytes) × (write_tokens ctx ≡ some ts) × (frame ≡ encode_array ts)
encode-some ctx frame e = elim (Option-cases (write_tokens ctx)) [
  | inl other ↦ absurd (ground (arith, encode_write_command-eq ctx))
  | inr (ts, w) ↦ (ts, w, ground (arith, encode_write_command-eq ctx))
]

-- The frame of a write with a key, whatever follows it, is decoded to words, of which it is all
-- that is consumed, and the words are mapped back to the same write. (`reserve` has room for five
-- words, and the buffer is shorter than `2 ^ 63 - 1`.)
pub encode_write_command-decode :
    (strtof : Bytes → Option (ℕ × Bytes)) (now : ℕ) (fd : ℤ) (ctx out : RequestContext) (room : ℕ)
    (frame rest : Bytes)
    → encode_write_command ctx ≡ some frame
    → key_at ctx.cmd ctx ≢ []
    → 5 ≤ room
    → length (frame ++ rest) < int64_max
    → (ts : List Bytes) × (decode room (frame ++ rest) ≡ Decode.ok ts (length frame))
      × (from_tokens strtof now fd ts out ≡ (ok, same_write now fd ctx))
encode_write_command-decode strtof now fd ctx out room frame rest e key_given fits small =
    let (ts, w, f) = encode-some ctx frame e in
    (
      ts,
      rw f (
          decode-encode_array room ts rest (omega (arith, length-tokens_at ctx.cmd ctx ts w))
            (rw f at small)),
      from_tokens-write strtof now fd ctx out ts w key_given,
    )
