-- ===== src/TcpConn/Order.antt =====
-- src/net/TcpConnection.cc: bytes leave in the order of the calls.
use vemory.Prelude.{
  ℕ, zero, suc, ◌+◌, ◌≡◌, refl, sym, subst, ap, ◌∙◌, true, false, not, ◌||◌, Option, none, some,
  List, [], ◌∷◌, ◌++◌, Bytes, length, take, drop, append_assoc, append-nil, Bool-cases,
  Option-cases, inl, inr, take-append-drop,
}
use vemory.Request.{is_empty}
use vemory.TcpConn.{
  TcpConn, Answer, took, again, broken, Sent, Round, next, returned, unsent_file, close, send_now,
  send, clear_sendfile, give_up, write_buffer, write_file, file_took, round, rounds, handle_write,
}
use vemory.TcpConn.Ends.{handle_write_ends}

-- What the calls so far have asked to send, and what the callback of the file will send.
abbrev pub accepted : TcpConn → Bytes
accepted c = c.wire ++ (c.output_buffer ++ (unsent_file c.sendfile ++ c.post_sendfile_buffer))

abbrev pub promised : Option Bytes → Bytes → Bytes
promised none bs = []
promised (some file) bs = bs

abbrev Prefix : Bytes → Bytes → Type 0
Prefix bs whole = (rest : Bytes) × (bs ++ rest ≡ whole)

abbrev Ahead : Bytes → TcpConn → Type 0
Ahead whole c =
    (c.sendfile ≡ none → c.post_sendfile_buffer ≡ [])
    × (c.sendfile_done false ≡ [])
    × Prefix (accepted c ++ promised c.sendfile (c.sendfile_done true)) whole

abbrev Leads : Bytes → Round → Type 0
Leads whole (returned c k) = Prefix c.wire whole
Leads whole (next c k) = Ahead whole c

Prefix-less : (a b whole : Bytes) → Prefix (a ++ b) whole → Prefix a whole
Prefix-less a b whole (rest, e) = (b ++ rest, sym (append_assoc a b rest) ∙ e)

Ahead-Prefix : (whole : Bytes) (c : TcpConn) → Ahead whole c → Prefix c.wire whole
Ahead-Prefix whole c (o, d, p) = Prefix-less c.wire _ whole (Prefix-less (accepted c) _ whole p)

send-nil : (c : TcpConn) (k : List Answer) → send c k [] ≡ (c, k)
unfolding send
send-nil c k = elim (Bool-cases c.closed) [ inl h ↦ rw h refl | inr h ↦ rw h refl ]

close-wire : (c : TcpConn) → (close c).wire ≡ c.wire
unfolding close
close-wire c = elim (Bool-cases c.closed) [ inl h ↦ rw h refl | inr h ↦ rw h refl ]

-- The bytes of a buffer that go to the kernel stay in their place.
moved :
    (wire from rest : Bytes) (n : ℕ)
    → (wire ++ take n from) ++ (drop n from ++ rest) ≡ wire ++ (from ++ rest)
moved wire from rest n =
    append_assoc wire (take n from) (drop n from ++ rest)
    ∙ ap (λ (b : Bytes). wire ++ b)
        (sym (append_assoc (take n from) (drop n from) rest)
          ∙ ap (λ (b : Bytes). b ++ rest) (take-append-drop n from))

give_up_wire :
    (c : TcpConn) (k : List Answer) → c.sendfile_done false ≡ [] → (give_up c k).0.wire ≡ c.wire
unfolding clear_sendfile
give_up_wire c k e =
    rw (close-wire (clear_sendfile c k false).0, e, clear_sendfile)
      (ap (λ (r : Sent). r.0.wire)
        (send-nil
          (record c {
            output_buffer = c.output_buffer ++ [];
            sendfile = none;
            sendfile_done = λ done. [];
            post_sendfile_buffer = [];
            watched = c.watched;
          })
          k))

write_buffer-Leads :
    (whole : Bytes) (c : TcpConn) (k : List Answer) → Ahead whole c → Leads whole (write_buffer c k)
unfolding write_buffer
write_buffer-Leads whole c [] a = Ahead-Prefix whole c a
write_buffer-Leads whole c (again ∷ k) a = Ahead-Prefix whole c a
write_buffer-Leads whole c (broken ∷ k) (o, d, p) =
    rw (give_up_wire c k d) (Ahead-Prefix whole c (o, d, p))
write_buffer-Leads whole c (took n ∷ k) (o, d, p) = (
  o,
  d,
  subst (λ (b : Bytes). Prefix (b ++ promised c.sendfile (c.sendfile_done true)) whole)
      (sym
        (moved c.wire c.output_buffer (unsent_file c.sendfile ++ c.post_sendfile_buffer) (suc n)))
      p,
)

write_file-Leads :
    (whole : Bytes) (c : TcpConn) (file : Bytes) (k : List Answer)
    → c.sendfile ≡ some file
    → c.output_buffer ≡ []
    → Ahead whole c
    → Leads whole (write_file c file k)
unfolding write_file
write_file-Leads whole c file [] s e a = Ahead-Prefix whole c a
write_file-Leads whole c file (again ∷ k) s e a = Ahead-Prefix whole c a
write_file-Leads whole c file (broken ∷ k) s e (o, d, p) =
    rw (give_up_wire c k d) (Ahead-Prefix whole c (o, d, p))
write_file-Leads whole c file (took n ∷ k) s e (o, d, p) =
    let same : (c.wire ++ take (file_took n) file)
          ++ (c.output_buffer ++ (drop (file_took n) file ++ c.post_sendfile_buffer))
        ≡ accepted c =
      rw (s, e) (moved c.wire file c.post_sendfile_buffer (file_took n)) in
    (
      (λ f. absurd (cc f)),
      d,
      subst (λ (b : Bytes). Prefix (b ++ c.sendfile_done true) whole) (sym same)
          (subst
            (λ (f : Option Bytes). Prefix (accepted c ++ promised f (c.sendfile_done true)) whole) s
            p),
    )

-- A connection that has no file to send.
abbrev Tidy : Bytes → TcpConn → Type 0
Tidy whole c =
    (c.sendfile ≡ none)
    × (c.post_sendfile_buffer ≡ [])
    × (c.sendfile_done false ≡ [])
    × Prefix (c.wire ++ c.output_buffer) whole

Tidy-Ahead : (whole : Bytes) (c : TcpConn) → Tidy whole c → Ahead whole c
Tidy-Ahead whole c (s, post, d, p) = (
  (λ f. post),
  d,
  rw (s, post, append-nil c.output_buffer, append-nil (c.wire ++ c.output_buffer)) p,
)

close-Tidy : (whole : Bytes) (c : TcpConn) → Tidy whole c → Tidy whole (close c)
unfolding close
close-Tidy whole c (s, post, d, p) = elim (Bool-cases c.closed) [
  | inl h ↦ rw h (s, post, d, p)
  | inr h ↦ rw h (refl, refl, refl, p)
]

send_now-Tidy :
    (whole : Bytes) (c : TcpConn) (k : List Answer) (bs : Bytes)
    → c.output_buffer ≡ []
    → Tidy whole c
    → Prefix (c.wire ++ bs) whole
    → Tidy whole (send_now c k bs).0
unfolding send_now
send_now-Tidy whole c [] bs e (s, post, d, p) all = (s, post, d, all)
send_now-Tidy whole c (again ∷ k) bs e (s, post, d, p) all = (s, post, d, all)
send_now-Tidy whole c (broken ∷ k) bs e tidy all = close-Tidy whole c tidy
send_now-Tidy whole c (took n ∷ k) bs e (s, post, d, p) all =
    (s, post, d, rw (append_assoc, take-append-drop) all)

no_bytes : (b : Bytes) → is_empty b ≡ true → b ≡ []
no_bytes [] e = refl
no_bytes (c ∷ cs) e = absurd (cc e)

send-Tidy :
    (whole : Bytes) (c : TcpConn) (k : List Answer) (bs : Bytes)
    → Tidy whole c
    → Prefix ((c.wire ++ c.output_buffer) ++ bs) whole
    → Tidy whole (send c k bs).0
unfolding send
send-Tidy whole c k bs (s, post, d, p) all = elim (Bool-cases (c.closed || is_empty bs)) [
  | inl h ↦ rw h (s, post, d, p)
  | inr h ↦
      rw (h, s)
        (elim (Bool-cases (is_empty c.output_buffer)) [
          | inr some_out ↦ rw some_out (
            s,
            post,
            d,
            subst (λ (b : Bytes). Prefix b whole) (append_assoc c.wire c.output_buffer bs) all,
          )
          | inl e ↦ rw e (
              send_now-Tidy whole c k bs (no_bytes c.output_buffer e) (s, post, d, p)
                (subst (λ (b : Bytes). Prefix (b ++ bs) whole)
                  (rw (no_bytes c.output_buffer e) (append-nil c.wire)) all))
        ])
]

clear_sendfile-Ahead :
    (whole : Bytes) (c : TcpConn) (k : List Answer)
    → c.output_buffer ≡ []
    → c.sendfile ≡ some []
    → Ahead whole c
    → Ahead whole (clear_sendfile c k true).0
unfolding clear_sendfile
clear_sendfile-Ahead whole c k e s (o, d, p) =
    let all : Prefix
        ((c.wire ++ (c.output_buffer ++ c.post_sendfile_buffer)) ++ c.sendfile_done true) whole =
      subst
        (λ (f : Option Bytes).
          Prefix
            ((c.wire ++ (c.output_buffer ++ (unsent_file f ++ c.post_sendfile_buffer)))
              ++ promised f (c.sendfile_done true))
            whole)
        s p in
    let c' : TcpConn = record c {
      output_buffer = c.output_buffer ++ c.post_sendfile_buffer;
      sendfile = none;
      sendfile_done = λ done. [];
      post_sendfile_buffer = [];
      watched = not (is_empty c.post_sendfile_buffer) || c.watched;
    } in
    Tidy-Ahead whole (send c' k (c.sendfile_done true)).0 (
      send-Tidy whole c' k (c.sendfile_done true)
        (refl, refl, refl, Prefix-less _ (c.sendfile_done true) whole all) all)

round-Leads :
    (whole : Bytes) (c : TcpConn) (k : List Answer) → Ahead whole c → Leads whole (round c k)
unfolding round
round-Leads whole c k a = elim (Bool-cases (is_empty c.output_buffer)) [
  | inr h ↦ rw h (write_buffer-Leads whole c k a)
  | inl h ↦ elim (Option-cases c.sendfile) [
    | inl e ↦ rw (h, e) (Ahead-Prefix whole c a)
    | inr (file, e) ↦ elim (Bool-cases (is_empty file)) [
      | inl sent ↦
          rw (h, e, sent)
            (clear_sendfile-Ahead whole c k (no_bytes c.output_buffer h)
              (e ∙ ap (λ (b : Bytes). some b) (no_bytes file sent)) a)
      | inr unsent ↦
          rw (h, e, unsent) (write_file-Leads whole c file k e (no_bytes c.output_buffer h) a)
    ]
  ]
]

rounds-Prefix :
    (whole : Bytes) (left : ℕ) (c : TcpConn) (k : List Answer)
    → Ahead whole c
    → Prefix (rounds left c k).0.0.wire whole
unfolding rounds
rounds-Prefix whole zero c k a = Ahead-Prefix whole c a
rounds-Prefix whole (suc left) c k a =
    go (round c k) refl (round-Leads whole c k a) (λ c' k'. rounds-Prefix whole left c' k')
  where
    go :
        (r : Round)
        → round c k ≡ r
        → Leads whole r
        → ((c' : TcpConn) (k' : List Answer)
            → Ahead whole c'
            → Prefix (rounds left c' k').0.0.wire whole)
        → Prefix (rounds (suc left) c k).0.0.wire whole
    go (returned c' k') e p ih = rw (e, rounds) p
    go (next c' k') e a' ih = rw (e, rounds) (ih c' k' a')

-- Whatever the kernel answers, `HandleWrite` puts bytes on the wire in the order of the calls: the
-- buffer, then the file, then what was sent during the file, then what the callback sends at its
-- end. (Bytes wait behind a file only if there is one, and the callback of a failure sends nothing.)
pub handle_write_ordered :
    (c : TcpConn) (k : List Answer)
    → (c.sendfile ≡ none → c.post_sendfile_buffer ≡ [])
    → c.sendfile_done false ≡ []
    → let ((c', k'), done) = handle_write c k in
      (done ≡ true)
      × ((rest : Bytes) × (c'.wire ++ rest
            ≡ accepted c ++ promised c.sendfile (c.sendfile_done true)))
handle_write_ordered c k o d = (
  handle_write_ends c k,
  rounds-Prefix (accepted c ++ promised c.sendfile (c.sendfile_done true)) (3 + length k) c k
      (o, d, ([], append-nil (accepted c ++ promised c.sendfile (c.sendfile_done true)))),
)
