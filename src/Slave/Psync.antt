-- ===== src/Slave/Psync.antt =====
-- The PSYNC request of the replica, read by the master's decoder and request parser.
use vemory.Prelude.{
  ℕ, ◌+◌, ◌-◌, ◌*◌, ◌≤◌, ◌<◌, ◌≡◌, ◌≢◌, refl, sym, ap, ◌∙◌, true, false, Option, some, List, [],
  ◌∷◌, ◌++◌, Bytes, codes, length, arith, append_assoc, append-nil,
}
use vemory.Decimal.{ℤ, pos, decimal, decimal_at, int64_max}
use vemory.Decimal.Laws.{IsNumeral, decimal-IsNumeral, decimal-cons}
use vemory.Command.{psync, parse_command_type, equals_ignore_case, same_letters}
use vemory.Decode
use vemory.Decode.{decode, Digits, value, digit_loop}
use vemory.Decode.Number.{digit_loop-decimal}
use vemory.Decode.RoundTrip.{array_then, encode_array-eq, decode-encode_array}
use vemory.Encode.{encode_array}
use vemory.Request
use vemory.Request.{
  RequestContext, from_tokens, from_command, from_psync, parse_offset, strtoll, signed_digits,
  clamped, c_str, skip_spaces, read_digits, is_empty, clear_out,
}
use vemory.Slave.{Slave, psync_request}

c_str-numeral : (s : Bytes) → IsNumeral s → c_str s ≡ s
unfolding c_str
c_str-numeral [] h = refl
c_str-numeral (c ∷ cs) h = ground (arith, c_str-numeral cs h.2)

read_digits-digit_loop :
    (acc : ℕ) (s : Bytes) (v : ℕ) → digit_loop acc s ≡ value v → read_digits acc s ≡ (v, [])
unfolding read_digits digit_loop
read_digits-digit_loop acc [] v h = ground arith
read_digits-digit_loop acc (c ∷ cs) v h =
    ground (arith, read_digits-digit_loop (acc * 10 + (c - b'0')) cs v)

-- The offset of PSYNC is read back from its numeral.
parse_offset-decimal : (n : ℕ) → n ≤ int64_max → parse_offset (decimal n) ≡ some (pos n)
unfolding parse_offset strtoll signed_digits clamped skip_spaces
parse_offset-decimal n fits =
    let (c, cs, e) = decimal-cons n in
    let text = c_str-numeral (decimal n) (decimal-IsNumeral n) in
    let digits = read_digits-digit_loop 0 (decimal n) n (digit_loop-decimal n fits) in
    ground (arith, e, text, digits, decimal-IsNumeral n)

three : decimal 3 ≡ codes "3"
unfolding decimal decimal_at
three = refl

five : decimal 5 ≡ codes "5"
unfolding decimal decimal_at
five = refl

-- The three tokens.
abbrev pub psync_tokens : {T : Type 0} → Slave T → List Bytes
psync_tokens t = codes "PSYNC" ∷ t.master_replid ∷ decimal t.repl_offset ∷ []

module _ {T : Type 0} (t : Slave T) (known : t.have_offset ≡ true)
    (named : t.master_replid ≢ []) where
  psync_request-array : (rest : Bytes) → psync_request t ++ rest ≡ array_then (psync_tokens t) rest
  unfolding psync_request
  psync_request-array rest =
      let not_empty : is_empty t.master_replid ≡ false = ground (arith, named) in
      rw (known, not_empty, three, five) (simp append_assoc)

  tokens_read :
      (strtof : Bytes → Option (ℕ × Bytes)) (now : ℕ) (fd : ℤ) (out : RequestContext)
      → t.repl_offset ≤ int64_max
      → from_tokens strtof now fd (psync_tokens t) out ≡ (
        Request.ok,
        record (clear_out fd psync) {
          psync_replid = t.master_replid;
          psync_offset = pos t.repl_offset;
          recv_time = now;
        },
      )
  unfolding from_tokens from_command from_psync parse_command_type equals_ignore_case same_letters
  tokens_read strtof now fd out fits =
      let (c, cs, e) = decimal-cons t.repl_offset in
      let not_empty : is_empty t.master_replid ≡ false = ground (arith, named) in
      let digits : is_empty (decimal t.repl_offset) ≡ false = ground (arith, e) in
      rw (not_empty, digits, parse_offset-decimal t.repl_offset fits) refl

  -- After a full synchronisation the master reads the request that a reconnecting replica sends as
  -- PSYNC with exactly the replica's replication id and offset, and consumes all of it: for an offset
  -- of an `int64_t` and a request shorter than `2 ^ 63 - 1`. (`reserve` has room for three words.)
  pub psync_request_lem :
      (strtof : Bytes → Option (ℕ × Bytes)) (now room : ℕ) (fd : ℤ) (out : RequestContext)
      → 3 ≤ room
      → t.repl_offset ≤ int64_max
      → length (psync_request t) < int64_max
      → (decode room (psync_request t) ≡ Decode.ok (psync_tokens t) (length (psync_request t)))
        × (from_tokens strtof now fd (psync_tokens t) out ≡ (
          Request.ok,
          record (clear_out fd psync) {
            psync_replid = t.master_replid;
            psync_offset = pos t.repl_offset;
            recv_time = now;
          },
        ))
  psync_request_lem strtof now room fd out wide fits small =
      let array = encode_array (psync_tokens t) in
      let same : psync_request t ≡ array =
        sym (append-nil (psync_request t))
        ∙ psync_request-array []
        ∙ sym (encode_array-eq (psync_tokens t) [])
        ∙ append-nil array in
      (
        ap (decode room) (same ∙ sym (append-nil array))
            ∙ decode-encode_array room (psync_tokens t) [] wide
                (rw (append-nil array, ← same) small)
            ∙ ap (λ (b : Bytes). Decode.ok (psync_tokens t) (length b)) (sym same),
        tokens_read strtof now fd out fits,
      )
