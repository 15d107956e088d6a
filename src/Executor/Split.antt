-- ===== src/Executor/Split.antt =====
-- The loop ends, and the way the input is cut into reads does not matter.
use vemory.Prelude.{
  ℕ, zero, suc, ◌<◌, ◌≤◌, ◌≡◌, ◌≢◌, refl, ap, List, [], ◌∷◌, ◌++◌, Bytes, length, drop, arith,
  length-drop, drop-length,
}
use vemory.Decimal.{int64_max}
use vemory.Decode
use vemory.Decode.{Decoded, decode}
use vemory.Decode.Bounds.{decode_bounds}
use vemory.Request.{RequestContext}
use vemory.Executor.{
  read_completed, Parse, parsed, need_more, error, throws, undefined, Service, Outcome, waits,
  wire_error, aborts, hangs, try_parse, serve, on_buffer_readable,
}

read_completed-drop : (n : ℕ) (buf : Bytes) → read_completed n buf ≡ drop n buf
unfolding read_completed
read_completed-drop n buf = ground (arith, drop-length n buf)

-- An outcome after `b` has been waiting to be written: a call that throws loses it.
abbrev pub after_writing : {S : Type 0} → Bytes → Outcome S → Outcome S
after_writing b (waits s buf out) = waits s buf (b ++ out)
after_writing b (wire_error s out) = wire_error s (b ++ out)
after_writing b (aborts s out) = aborts s out
after_writing b (Outcome.undefined s out) = Outcome.undefined s out
after_writing b hangs = hangs

-- An outcome without what had been written before the decoder threw, or was undefined.
abbrev pub unless_thrown : {S : Type 0} → Outcome S → Outcome S
unless_thrown (aborts s out) = aborts s []
unless_thrown (Outcome.undefined s out) = Outcome.undefined s []
unless_thrown (waits s buf out) = waits s buf out
unless_thrown (wire_error s out) = wire_error s out
unless_thrown hangs = hangs

abbrev pub concat : List Bytes → Bytes
concat [] = []
concat (b ∷ bs) = b ++ concat bs

module _ {S : Type 0} (v : Service S) where
  parsed_bounds :
      (s : S) (buf : Bytes) (ctx : RequestContext) (n : ℕ)
      → length buf < int64_max
      → try_parse v s buf ≡ parsed ctx n
      → (1 ≤ n) × (n ≤ length buf)
  unfolding try_parse
  parsed_bounds s buf ctx n small e = go (decode v.room buf) refl
    where
      go : (d : Decoded) → decode v.room buf ≡ d → (1 ≤ n) × (n ≤ length buf)
      go (Decode.ok ts c) q = ground (arith, decode_bounds v.room buf ts c small q)
      go _ q = ground arith

  -- What is left in the buffer after a request.
  next_length :
      (s : S) (buf : Bytes) (ctx : RequestContext) (n : ℕ)
      → length buf < int64_max
      → try_parse v s buf ≡ parsed ctx n
      → length (read_completed n buf) < length buf
  next_length s buf ctx n small e =
      rw (read_completed-drop n buf)
        (omega (arith, parsed_bounds s buf ctx n small e, length-drop n buf))

  abbrev round_of : ℕ → S → Bytes → Bytes → Parse → Outcome S
  round_of left s buf batch p = elim p [
    | need_more ↦ waits s buf batch
    | error ↦ wire_error s batch
    | throws ↦ aborts s []
    | undefined ↦ Outcome.undefined s []
    | parsed ctx consumed ↦
        let (s', reply) = v.on_ok s ctx in
        serve v left s' (read_completed consumed buf) (batch ++ reply)
  ]

  serve_round :
      (f : ℕ) (s : S) (buf batch : Bytes) {p : Parse}
      → try_parse v s buf ≡ p
      → serve v (suc f) s buf batch ≡ round_of f s buf batch p
  unfolding serve
  serve_round f s buf batch e = ap (round_of f s buf batch) e

  serve_ends :
      (f : ℕ) (s : S) (buf batch : Bytes)
      → length buf < f
      → length buf < int64_max
      → serve v f s buf batch ≢ hangs
  serve_ends zero s buf batch enough small = absurd (omega arith)
  serve_ends (suc f) s buf batch enough small =
      go (try_parse v s buf) refl (λ s' rest b p q. serve_ends f s' rest b p q)
    where
      go :
          (p : Parse)
          → try_parse v s buf ≡ p
          → ((s' : S) (rest b : Bytes)
              → length rest < f
              → length rest < int64_max
              → serve v f s' rest b ≢ hangs)
          → serve v (suc f) s buf batch ≢ hangs
      go (parsed ctx n) e ih =
          let (s', reply) = v.on_ok s ctx in
          let less = next_length s buf ctx n small e in
          rw (serve_round f s buf batch e)
            (ih s' (read_completed n buf) (batch ++ reply) (omega arith) (omega arith))
      go need_more e ih = rw (serve_round f s buf batch e) (λ h. cc)
      go error e ih = rw (serve_round f s buf batch e) (λ h. cc)
      go throws e ih = rw (serve_round f s buf batch e) (λ h. cc)
      go undefined e ih = rw (serve_round f s buf batch e) (λ h. cc)

  -- `OnBufferReadable` ends: each round but the last takes at least one byte from the buffer. (The
  -- buffer is shorter than `2 ^ 63 - 1`.)
  pub on_buffer_readable_ends :
      (s : S) (buf : Bytes) → length buf < int64_max → on_buffer_readable v s buf ≢ hangs
  unfolding on_buffer_readable
  on_buffer_readable_ends s buf small = serve_ends (suc (length buf)) s buf [] (omega arith) small

  -- A call on an outcome that waits, once `r` has come.
  abbrev resume : Bytes → Outcome S → Outcome S
  resume r (waits s rest out) = serve v (suc (length (rest ++ r))) s (rest ++ r) out
  resume r (wire_error s out) = wire_error s out
  resume r (aborts s out) = aborts s out
  resume r (Outcome.undefined s out) = Outcome.undefined s out
  resume r hangs = hangs

  abbrev Leaves : ℕ → Outcome S → Type 0
  Leaves n (waits s rest out) = length rest ≤ n
  Leaves n (aborts s out) = out ≡ []
  Leaves n (Outcome.undefined s out) = out ≡ []
  Leaves n _ = Unit {0}

  -- One read of all the bytes that several reads bring.
  abbrev at_once : S → Bytes → Bytes → List Bytes → Outcome S
  at_once s buf out chunks = after_writing out (on_buffer_readable v s (buf ++ concat chunks))
