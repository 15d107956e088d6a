-- ===== src/Backlog.antt =====
-- src/replication/ReplicationBacklog.cc, include/vemory/replication/ReplicationBacklog.h: the ring
-- that keeps the last bytes of the stream of write commands, for replicas that fall behind. `tip_`
-- and the offsets are 64-bit, and so are the sums of `size_t`.
pub mod Stretch
pub mod Write
pub mod Refine
pub mod Stream
mod Tests
use vemory.Prelude.{
  ℕ, zero, suc, ◌+◌, ◌-◌, ◌*◌, ◌/◌, ◌%◌, ◌^◌, min, max, Bool, true, false, ◌||◌, ◌&&◌, Option, none,
  some, Bytes, [], ◌∷◌, ◌++◌, length, take, drop, replicate, ltb, leb, ◌==◌, if◌then◌else◌,
}
use vemory.Request.{is_empty}

pub record Backlog : Type 0 where
  pub buf : Bytes
  -- the place in `buf` of the byte at `base`
  pub head : ℕ
  pub base : ℕ
  pub tip : ℕ

-- `buf_.size()`, `buf_(capacity == 0 ? kDefaultCapacity : capacity)`
abbrev pub capacity : Backlog → ℕ
capacity s = length s.buf

abbrev pub new_backlog : ℕ → Backlog
new_backlog room = record {
  buf = replicate (if room == 0 then 16 * 1024 * 1024 else room) 0;
  head = 0;
  base = 0;
  tip = 0;
}

-- Sums and differences of 64 bits.
abbrev pub add64 : ℕ → ℕ → ℕ
add64 a b = (a + b) % 2 ^ 64

abbrev pub sub64 : ℕ → ℕ → ℕ
sub64 a b = (a + 2 ^ 64 - b) % 2 ^ 64

abbrev pub used : Backlog → ℕ
used s = sub64 s.tip s.base

-- `memcpy` to a place in the buffer.
unfoldable pub memcpy : Bytes → ℕ → Bytes → Bytes
memcpy buf at bs = take at buf ++ (bs ++ drop (at + length bs) buf)

-- The copies of `AppendBytes`: up to the end of the buffer, and what is left from its start.
unfoldable pub ring_write : Bytes → ℕ → Bytes → Bytes
ring_write buf write_pos bs =
    let first = min (length bs) (length buf - write_pos) in
    let once = memcpy buf write_pos (take first bs) in
    if ltb first (length bs) then memcpy once 0 (drop first bs) else once

-- `AppendBytes`
abbrev pub append_bytes : Backlog → Bytes → Backlog
append_bytes s bs = record s { buf = ring_write s.buf (add64 s.head (used s) % capacity s) bs }

-- The loop of `DropToMakeSpace`, with the rounds that are left.
unfoldable pub drop_loop : ℕ → Backlog → ℕ → Backlog
drop_loop zero s need = s
drop_loop (suc left) s need =
    let dropped = min (used s) (max need (capacity s / 8)) in
    let rest =
      drop_loop left
        (record s { head = add64 s.head dropped % capacity s; base = add64 s.base dropped }) need in
    if ltb (capacity s) (add64 (used s) need) && ltb 0 (used s) then rest else s

-- `DropToMakeSpace`: a round drops at least one of the bytes that are kept.
abbrev pub drop_to_make_space : Backlog → ℕ → Backlog
drop_to_make_space s need = drop_loop (used s) s need

-- `FeedEncoded`, which always returns true.
unfoldable pub feed_encoded : Backlog → Bytes → Backlog
feed_encoded s frame =
    if is_empty frame
    then s
    else if ltb (capacity s) (length frame)
    then record s { head = 0; base = add64 s.tip (length frame); tip = add64 s.tip (length frame) }
    else (let s' = append_bytes (drop_to_make_space s (length frame)) frame in
        record s' { tip = add64 s'.tip (length frame) })

-- `Contains`
abbrev pub contains : Backlog → ℕ → Bool
contains s offset = leb s.base offset && leb offset s.tip

-- The loop of `CopyRange`, with the rounds that are left.
unfoldable pub copy_loop : ℕ → Backlog → ℕ → ℕ → Bytes → Bytes
copy_loop zero s remaining pos out = out
copy_loop (suc left) s remaining pos out =
    let n = min remaining (capacity s - pos) in
    let rest =
      copy_loop left s (remaining - n) (add64 pos n % capacity s)
        (out ++ take n (drop pos s.buf)) in
    if ltb 0 remaining then rest else out

-- `CopyRange`: the bytes, or false. A round copies at least one byte.
unfoldable pub copy_range : Backlog → ℕ → ℕ → Option Bytes
copy_range s start end =
    if ltb end start || ltb start s.base || ltb s.tip end
    then none
    else (let len = sub64 end start in
        some (copy_loop len s len (add64 (sub64 start s.base) s.head % capacity s) []))
