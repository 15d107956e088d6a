-- ===== src/TcpConn/Ends.antt =====
-- src/net/TcpConnection.cc: the loop of `HandleWrite` ends.
use vemory.Prelude.{
  ℕ, zero, suc, ◌+◌, ◌<◌, ◌≤◌, ◌≡◌, refl, true, not, ◌||◌, Option, none, some, List, [], ◌∷◌, ◌++◌,
  Bytes, length, arith, Bool-cases, Option-cases, inl, inr,
}
use vemory.Request.{is_empty}
use vemory.TcpConn.{
  TcpConn, Answer, took, again, broken, Round, next, returned, close, send_now, send,
  clear_sendfile, write_buffer, write_file, round, rounds, handle_write,
}

abbrev files : Option Bytes → ℕ
files none = 0
files (some file) = 1

-- Answers that are left, and the end of a file.
abbrev measure : Option Bytes → List Answer → ℕ
measure file k = files file + length k

close-empty : (c : TcpConn) → c.sendfile ≡ none → (close c).sendfile ≡ none
unfolding close
close-empty c e = elim (Bool-cases c.closed) [ inl h ↦ rw h e | inr h ↦ rw h refl ]

send_now-shrinks :
    (c : TcpConn) (k : List Answer) (bs : Bytes)
    → c.sendfile ≡ none
    → let (c', k') = send_now c k bs in (c'.sendfile ≡ none) × (length k' ≤ length k)
unfolding send_now
send_now-shrinks c [] bs e = (e, omega arith)
send_now-shrinks c (again ∷ k) bs e = (e, omega arith)
send_now-shrinks c (broken ∷ k) bs e = (close-empty c e, omega arith)
send_now-shrinks c (took n ∷ k) bs e = (e, omega arith)

send-shrinks :
    (c : TcpConn) (k : List Answer) (bs : Bytes)
    → c.sendfile ≡ none
    → let (c', k') = send c k bs in (c'.sendfile ≡ none) × (length k' ≤ length k)
unfolding send
send-shrinks c k bs e = elim (Bool-cases (c.closed || is_empty bs)) [
  | inl h ↦ rw h (e, omega arith)
  | inr h ↦
      rw (h, e)
        (elim (Bool-cases (is_empty c.output_buffer)) [
          | inl now ↦ rw now (send_now-shrinks c k bs e)
          | inr later ↦ rw later (e, omega arith)
        ])
]

abbrev Smaller : ℕ → Round → Type 0
Smaller n (returned c k) = Unit {0}
Smaller n (next c k) = measure c.sendfile k < n

write_buffer-Smaller :
    (c : TcpConn) (k : List Answer) → Smaller (measure c.sendfile k) (write_buffer c k)
unfolding write_buffer
write_buffer-Smaller c [] = tt
write_buffer-Smaller c (again ∷ k) = tt
write_buffer-Smaller c (broken ∷ k) = tt
write_buffer-Smaller c (took n ∷ k) = omega arith

write_file-Smaller :
    (c : TcpConn) (file : Bytes) (k : List Answer) → Smaller (1 + length k) (write_file c file k)
unfolding write_file
write_file-Smaller c file [] = tt
write_file-Smaller c file (again ∷ k) = tt
write_file-Smaller c file (broken ∷ k) = tt
write_file-Smaller c file (took n ∷ k) = omega arith

clear_sendfile-Smaller :
    (c : TcpConn) (k : List Answer)
    → let (c', k') = clear_sendfile c k true in measure c'.sendfile k' < 1 + length k
unfolding clear_sendfile
clear_sendfile-Smaller c k =
    let (empty, fewer) =
      send-shrinks
        (record c {
          output_buffer = c.output_buffer ++ c.post_sendfile_buffer;
          sendfile = none;
          sendfile_done = λ done. [];
          post_sendfile_buffer = [];
          watched = not (is_empty c.post_sendfile_buffer) || c.watched;
        })
        k (c.sendfile_done true) refl in
    rw empty (omega arith)

round-Smaller : (c : TcpConn) (k : List Answer) → Smaller (measure c.sendfile k) (round c k)
unfolding round
round-Smaller c k = elim (Bool-cases (is_empty c.output_buffer)) [
  | inr h ↦ rw h (write_buffer-Smaller c k)
  | inl h ↦ elim (Option-cases c.sendfile) [
    | inl e ↦ rw (h, e) tt
    | inr (file, e) ↦ elim (Bool-cases (is_empty file)) [
      | inl sent ↦ rw (h, e, sent) (clear_sendfile-Smaller c k)
      | inr unsent ↦ rw (h, e, unsent) (write_file-Smaller c file k)
    ]
  ]
]

rounds_end :
    (left : ℕ) (c : TcpConn) (k : List Answer)
    → measure c.sendfile k < left
    → (rounds left c k).1 ≡ true
unfolding rounds
rounds_end zero c k h = absurd (omega arith)
rounds_end (suc left) c k h =
    go (round c k) refl (round-Smaller c k) (λ c' k'. rounds_end left c' k')
  where
    go :
        (r : Round)
        → round c k ≡ r
        → Smaller (measure c.sendfile k) r
        → ((c' : TcpConn) (k' : List Answer)
            → measure c'.sendfile k' < left
            → (rounds left c' k').1 ≡ true)
        → (rounds (suc left) c k).1 ≡ true
    go (returned c' k') e s ih = rw (e, rounds) refl
    go (next c' k') e s ih = rw (e, rounds) (ih c' k' (omega arith))

-- However the kernel answers, `HandleWrite` returns, within three rounds more than it gets answers.
pub handle_write_ends : (c : TcpConn) (k : List Answer) → (handle_write c k).1 ≡ true
handle_write_ends c k = rounds_end (3 + length k) c k (elim (Option-cases c.sendfile) [
  | inl e ↦ rw e (omega arith)
  | inr (file, e) ↦ rw e (omega arith)
])
