-- ===== src/Backlog/Stream.antt =====
-- What the operations of the backlog do to the stream that it stands for.
use vemory.Prelude.{
  ℕ, zero, suc, ◌+◌, ◌-◌, ◌*◌, ◌%◌, ◌^◌, ◌<◌, ◌≤◌, ◌≡◌, refl, ap, sym, ◌∙◌, Bytes, [], ◌∷◌, ◌++◌,
  length, take, drop, get_or, arith, min, some, none, true, false, ltb, leb, ◌&&◌, ◌||◌, Bool-cases,
  inl, inr, if◌then◌else◌, append-nil, append_assoc, length-append, replicate, length-replicate,
  ◌==◌, drop-append, take_of_length-le,
}
use native.Mathlib.Nat.{mod-eq_of_lt, mod-add-mod, mod-lt}
use vemory.Backlog.{
  Backlog, new_backlog, capacity, used, add64, sub64, feed_encoded, copy_loop, copy_range,
}
use vemory.Backlog.Stretch.{tabulate, tabulate-eq, tabulate-add, take-drop}
use vemory.Backlog.Refine.{Holds, drop_loop-Dropped, append-Holds}

-- A new backlog stands for the empty stream.
pub new_backlog-Holds : (room : ℕ) → room < 2 ^ 63 → Holds [] (new_backlog room)
new_backlog-Holds room small =
    let n : ℕ = if room == 0 then 16 * 1024 * 1024 else room in
    let size : length {A = ℕ} (replicate n 0) ≡ n = length-replicate n 0 in
    record {
      has_room = rw size (ground arith);
      in_memory = rw size (ground arith);
      all_fed = refl;
      countable = omega arith;
      in_order = omega arith;
      fits = omega arith;
      head_inside = rw size (ground arith);
      kept = λ i before. absurd (omega arith);
    }

pub feed_encoded-Holds :
    {h : Bytes} {s : Backlog} (frame : Bytes)
    → Holds h s
    → length h + length frame < 2 ^ 64
    → Holds (h ++ frame) (feed_encoded s frame)
unfolding feed_encoded
feed_encoded-Holds {h} {s} [] v count = rw append-nil v
feed_encoded-Holds {h} {s} (b ∷ bs) v count =
    let frame : Bytes = b ∷ bs in
    elim (Bool-cases (ltb (capacity s) (length frame))) [
      | inl large ↦
          let sum : add64 s.tip (length frame) ≡ length (h ++ frame) =
            omega (arith, v.all_fed, length-append h frame) in
          rw large (record {
            has_room = v.has_room;
            in_memory = v.in_memory;
            all_fed = sum;
            countable = omega (arith, length-append h frame);
            in_order = omega arith;
            fits = omega arith;
            head_inside = v.has_room;
            kept = λ i before. absurd (omega arith);
          })
      | inr small ↦
          let dropped =
            drop_loop-Dropped (used s) s (length frame) v (omega arith) (ground (arith, small))
              (omega arith) in
          rw small (append-Holds frame dropped.holds (rw dropped.same_buffer dropped.space) count)
    ]

-- The loop of `CopyRange` reads round the end of the buffer.
copy_loop_lem :
    (left : ℕ) (s : Backlog) (remaining pos : ℕ) (out : Bytes)
    → capacity s < 2 ^ 63
    → pos < capacity s
    → remaining ≤ left
    → copy_loop left s remaining pos out
      ≡ out ++ tabulate (λ i. get_or s.buf ((pos + i) % capacity s) 0) remaining
unfolding copy_loop
copy_loop_lem zero s zero pos out small inside few = rw append-nil
copy_loop_lem zero s (suc remaining) pos out small inside few = absurd (omega arith)
copy_loop_lem (suc left) s zero pos out small inside few = rw append-nil
copy_loop_lem (suc left) s (suc remaining) pos out small inside few =
    let c : ℕ = capacity s in
    let n : ℕ = min (suc remaining) (c - pos) in
    let here : ℕ → ℕ = λ i. get_or s.buf ((pos + i) % c) 0 in
    let pos' : ℕ = add64 pos n % c in
    let rest : ℕ = suc remaining - n in
    let sum : add64 pos n ≡ pos + n = omega arith in
    let chunk : take n (drop pos s.buf) ≡ tabulate here n =
      take-drop s.buf pos n (omega arith)
      ∙ tabulate-eq (λ i. get_or s.buf (pos + i) 0) here n
          (λ i h.
            ap (λ p. get_or s.buf p 0) (sym (mod-eq_of_lt {n = pos + i} {m = c} (omega arith)))) in
    let later : tabulate (λ i. get_or s.buf ((pos' + i) % c) 0) rest
        ≡ tabulate (λ i. here (n + i)) rest =
      tabulate-eq (λ i. get_or s.buf ((pos' + i) % c) 0) (λ i. here (n + i)) rest
        (λ i h.
          ap (λ p. get_or s.buf p 0)
            (mod-add-mod (add64 pos n) c i ∙ ap (λ p. p % c) (omega (arith, sum)))) in
    let more : ltb 0 (suc remaining) ≡ true = ground arith in
    rw more (
      copy_loop_lem left s rest pos' (out ++ take n (drop pos s.buf)) small
        (mod-lt (add64 pos n) (omega arith)) (omega arith)
      ∙ rw (chunk, later, append_assoc out (tabulate here n) (tabulate (λ i. here (n + i)) rest))
          (ap (λ l. out ++ l)
            (sym (tabulate-add here n rest)
              ∙ ap (λ k. tabulate here k) {y = suc remaining} (omega arith))))

-- `CopyRange` gives the bytes of the stream from `start` to `end` if the backlog still has the
-- first of them and the stream has reached the last, and false otherwise.
pub copy_range_lem :
    {h : Bytes} {s : Backlog} (start end : ℕ)
    → Holds h s
    → copy_range s start end ≡ (
        if leb s.base start && leb start end && leb end (length h)
        then some (take (end - start) (drop start h))
        else none)
unfolding copy_range
copy_range_lem {h} {s} start end v =
    elim (Bool-cases (leb s.base start && leb start end && leb end (length h))) [
      | inr refused ↦ rw refused (ground (arith, refused, v.all_fed))
      | inl kept ↦
          let (from, order, to) : (s.base ≤ start) × (start ≤ end) × (end ≤ length h) =
            ground (arith, kept) in
          let c : ℕ = capacity s in
          let back : sub64 end start ≡ end - start = omega (arith, v.countable) in
          let ahead : sub64 start s.base ≡ start - s.base = omega (arith, v.countable) in
          let first : add64 (sub64 start s.base) s.head ≡ start - s.base + s.head =
            omega (arith, ahead, v.fits, v.all_fed, v.head_inside, v.in_memory) in
          let read : tabulate
                (λ i. get_or s.buf ((add64 (sub64 start s.base) s.head % c + i) % c) 0)
                (end - start)
              ≡ take (end - start) (drop start h) =
            tabulate-eq (λ i. get_or s.buf ((add64 (sub64 start s.base) s.head % c + i) % c) 0)
              (λ i. get_or h (start + i) 0) (end - start)
              (λ i below.
                ap (λ p. get_or s.buf p 0)
                  (mod-add-mod (add64 (sub64 start s.base) s.head) c i
                    ∙ ap (λ p. p % c) (omega (arith, first)))
                ∙ v.kept (start - s.base + i) (omega (arith, v.all_fed))
                ∙ ap (λ p. get_or h p 0) (omega arith))
            ∙ sym (take-drop h start (end - start) (omega arith)) in
          let allowed : (ltb end start || ltb start s.base || ltb s.tip end) ≡ false =
            ground (arith, v.all_fed) in
          rw (kept, allowed)
            (ap some (
              copy_loop_lem (sub64 end start) s (sub64 end start)
                (add64 (sub64 start s.base) s.head % c) [] v.in_memory
                (mod-lt (add64 (sub64 start s.base) s.head) v.has_room) (omega arith)
              ∙ rw back read))
    ]

-- Where the frame fits, everything that is dropped came before it.
feed_encoded-base :
    {h : Bytes} {s : Backlog} (frame : Bytes)
    → Holds h s
    → length frame ≤ capacity s
    → (feed_encoded s frame).base ≤ length h
unfolding feed_encoded
feed_encoded-base {h} {s} [] v fits = omega (arith, v.in_order, v.all_fed)
feed_encoded-base {h} {s} (b ∷ bs) v fits =
    let frame : Bytes = b ∷ bs in
    let small : ltb (capacity s) (length frame) ≡ false = ground arith in
    let dropped = drop_loop-Dropped (used s) s (length frame) v (omega arith) fits (omega arith) in
    rw small (omega (arith, dropped.holds.in_order, dropped.holds.all_fed))

-- A frame that fits into the ring can be copied as soon as it has been fed.
pub copy_range-feed_encoded :
    {h : Bytes} {s : Backlog} (frame : Bytes)
    → Holds h s
    → length h + length frame < 2 ^ 64
    → length frame ≤ capacity s
    → copy_range (feed_encoded s frame) (length h) (length h + length frame) ≡ some frame
copy_range-feed_encoded {h} {s} frame v count fits =
    let start : ℕ = length h in
    let end : ℕ = length h + length frame in
    let total : length (h ++ frame) ≡ end = length-append h frame in
    let test : leb (feed_encoded s frame).base start
          && leb start end
          && leb end (length (h ++ frame))
        ≡ true =
      ground (arith, feed_encoded-base frame v fits, total) in
    let whole : take (end - start) frame ≡ frame =
      take_of_length-le (end - start) frame (omega arith) in
    copy_range_lem start end (feed_encoded-Holds frame v count)
    ∙ rw (test, drop-append h frame, whole)
