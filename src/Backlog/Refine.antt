-- ===== src/Backlog/Refine.antt =====
-- The ring against what it stands for: the stream of all the bytes that were fed, of which it keeps
-- the last ones.
use vemory.Prelude.{
  ℕ, zero, suc, ◌+◌, ◌-◌, ◌/◌, ◌%◌, ◌^◌, ◌<◌, ◌≤◌, ◌≡◌, refl, ap, sym, ◌∙◌, Bytes, ◌++◌, length,
  get_or, arith, min, max, ltb, ◌&&◌, Bool-cases, inl, inr, length-append, get_or-append_lt,
  get_or-append_length,
}
use native.Mathlib.Nat.{mod-add-mod, mod-lt, add-mod_right}
use vemory.Backlog.{Backlog, capacity, used, add64, append_bytes, ring_write, drop_loop}
use vemory.Backlog.Write.{length-ring_write, get_or-ring_write_new, get_or-ring_write_old}

-- The stream `h` since the start, of which `s` keeps the bytes from `base` on: they stand in the
-- buffer from `head` on, round its end.
pub record Holds (h : Bytes) (s : Backlog) : Type 0 where
  pub has_room : 0 < capacity s
  pub in_memory : capacity s < 2 ^ 63
  pub all_fed : s.tip ≡ length h
  pub countable : length h < 2 ^ 64
  pub in_order : s.base ≤ s.tip
  pub fits : s.tip ≤ s.base + capacity s
  pub head_inside : s.head < capacity s
  pub kept :
      (i : ℕ)
      → s.base + i < s.tip
      → get_or s.buf ((s.head + i) % capacity s) 0 ≡ get_or h (s.base + i) 0

pub used_lem : {h : Bytes} {s : Backlog} → Holds h s → used s ≡ s.tip - s.base
used_lem v = omega (arith, v.in_order, v.all_fed, v.countable)

-- Dropping some of the bytes that are kept.
drop-Holds :
    {h : Bytes} {s : Backlog} (n : ℕ)
    → n ≤ used s
    → Holds h s
    → Holds h (record s { head = add64 s.head n % capacity s; base = add64 s.base n })
drop-Holds {h} {s} n some_kept v =
    let kept_bytes = used_lem v in
    let base_sum : add64 s.base n ≡ s.base + n =
      omega (arith, v.all_fed, v.countable, v.in_order, kept_bytes) in
    let head_sum : add64 s.head n ≡ s.head + n =
      omega (arith, v.head_inside, v.in_memory, v.fits, v.in_order, kept_bytes) in
    record {
      has_room = v.has_room;
      in_memory = v.in_memory;
      all_fed = v.all_fed;
      countable = v.countable;
      in_order = rw base_sum (omega (arith, kept_bytes, v.in_order));
      fits = rw base_sum (omega (arith, v.fits));
      head_inside = mod-lt (add64 s.head n) v.has_room;
      kept = λ i before.
          ap (λ p. get_or s.buf p 0)
            (mod-add-mod (add64 s.head n) (capacity s) i
              ∙ ap (λ p. p % capacity s) (omega (arith, head_sum)))
          ∙ v.kept (n + i) (omega (arith, base_sum))
          ∙ ap (λ p. get_or h p 0) (omega (arith, base_sum));
    }

-- What the loop of `DropToMakeSpace` leaves.
pub record Dropped (h : Bytes) (s : Backlog) (need : ℕ) (s' : Backlog) : Type 0 where
  pub holds : Holds h s'
  pub same_buffer : s'.buf ≡ s.buf
  pub space : used s' + need ≤ capacity s
  pub kept_less : used s' ≤ used s

pub drop_loop-Dropped :
    (left : ℕ) {h : Bytes} (s : Backlog) (need : ℕ)
    → Holds h s
    → 0 < need
    → need ≤ capacity s
    → used s ≤ left
    → Dropped h s need (drop_loop left s need)
unfolding drop_loop
drop_loop-Dropped zero s need v some_need fits few = record {
  holds = v;
  same_buffer = refl;
  space = omega arith;
  kept_less = omega arith;
}
drop_loop-Dropped (suc left) {h} s need v some_need fits few =
    let n : ℕ = min (used s) (max need (capacity s / 8)) in
    let s' : Backlog = record s { head = add64 s.head n % capacity s; base = add64 s.base n } in
    let v' : Holds h s' = drop-Holds n (omega arith) v in
    let small = used_lem v in
    let less : used s' ≡ used s - n =
      omega (arith, used_lem v', v.all_fed, v.countable, v.in_order) in
    let sum : add64 (used s) need ≡ used s + need = omega (arith, small, v.fits, v.in_memory) in
    elim (Bool-cases (ltb (capacity s) (add64 (used s) need) && ltb 0 (used s))) [
      | inl go ↦
          let any : 0 < used s = ground (arith, go) in
          let later = drop_loop-Dropped left s' need v' some_need fits (omega (arith, less)) in
          rw go (record {
            holds = later.holds;
            same_buffer = later.same_buffer;
            space = later.space;
            kept_less = omega (arith, later.kept_less, less);
          })
      | inr stop ↦
          let enough : used s + need ≤ capacity s = ground (arith, stop, sum) in
          rw stop
            (record { holds = v; same_buffer = refl; space = enough; kept_less = omega arith })
    ]

-- `AppendBytes` with the step of `tip` after it, where there is space.
pub append-Holds :
    {h : Bytes} {s : Backlog} (frame : Bytes)
    → Holds h s
    → used s + length frame ≤ capacity s
    → length h + length frame < 2 ^ 64
    → Holds (h ++ frame) (record (append_bytes s frame) { tip = add64 s.tip (length frame) })
append-Holds {h} {s} frame v space count =
    let n : ℕ = used s in
    let c : ℕ = capacity s in
    let w : ℕ = add64 s.head n % c in
    let small = used_lem v in
    let head_sum : add64 s.head n ≡ s.head + n = omega (arith, v.head_inside, v.in_memory) in
    let inside : w < c = mod-lt (add64 s.head n) v.has_room in
    let same : length (ring_write s.buf w frame) ≡ c =
      length-ring_write s.buf frame w inside (omega arith) in
    let tip_sum : add64 s.tip (length frame) ≡ s.tip + length frame = omega (arith, v.all_fed) in
    record {
      has_room = rw same v.has_room;
      in_memory = rw same v.in_memory;
      all_fed = rw tip_sum (omega (arith, v.all_fed, length-append h frame));
      countable = omega (arith, length-append h frame);
      in_order = rw tip_sum (omega (arith, v.in_order));
      fits = rw (tip_sum, same) (omega (arith, small, v.in_order));
      head_inside = rw same v.head_inside;
      kept = λ i before. elim (Bool-cases (ltb i n)) [
        | inl old ↦
            let was : i < n = ground (arith, old) in
            let round : (w + (i + c - n)) % c ≡ (s.head + i) % c =
              mod-add-mod (add64 s.head n) c (i + c - n)
              ∙ ap (λ p. p % c) (omega (arith, head_sum))
              ∙ add-mod_right (s.head + i) c in
            rw (same, ← round)
              (get_or-ring_write_old s.buf frame w inside (omega arith) (i + c - n) (omega arith)
                  (omega arith)
                ∙ ap (λ p. get_or s.buf p 0) round
                ∙ v.kept i (omega (arith, small))
                ∙ sym (get_or-append_lt h frame (s.base + i) 0 (omega (arith, small, v.all_fed))))
        | inr new ↦
            let at : n ≤ i = ground (arith, new) in
            let round : (w + (i - n)) % c ≡ (s.head + i) % c =
              mod-add-mod (add64 s.head n) c (i - n) ∙ ap (λ p. p % c) (omega (arith, head_sum)) in
            rw (same, ← round)
              (get_or-ring_write_new s.buf frame w inside (omega arith) (i - n)
                  (omega (arith, tip_sum, small, v.in_order))
                ∙ sym (get_or-append_length h frame (i - n) 0)
                ∙ ap (λ p. get_or (h ++ frame) p 0) (omega (arith, small, v.all_fed, v.in_order)))
      ];
    }
