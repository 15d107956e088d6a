-- ===== src/Backlog/Tests.antt =====
-- The theorems on the backlog at a ring of four bytes.
use vemory.Prelude.{
  ◌≡◌, refl, arith, codes, some, none, take, drop, length, ◌-◌, leb, ◌&&◌, if◌then◌else◌,
}
use vemory.Backlog.{
  Backlog, new_backlog, feed_encoded, copy_range, ring_write, memcpy, drop_loop, copy_loop,
}
use vemory.Backlog.Refine.{Holds}
use vemory.Backlog.Stream.{new_backlog-Holds, feed_encoded-Holds, copy_range_lem}

-- Three bytes, and a frame of two that goes round the end.
abbrev three : Backlog
three = feed_encoded (new_backlog 4) (codes "abc")

three-Holds : Holds (codes "abc") three
three-Holds = feed_encoded-Holds (codes "abc") (new_backlog-Holds 4 (omega arith)) (omega arith)

round_the_end : copy_range (feed_encoded three (codes "de")) 3 5 ≡ some (codes "de")
unfolding feed_encoded drop_loop ring_write memcpy copy_range copy_loop
round_the_end = refl

dropped : copy_range (feed_encoded three (codes "de")) 1 5 ≡ none
unfolding feed_encoded drop_loop ring_write memcpy copy_range copy_loop
dropped = refl

copy_range_lem_example : copy_range three 1 3 ≡ (
    if leb three.base 1 && leb 1 3 && leb 3 (length (codes "abc"))
    then some (take (3 - 1) (drop 1 (codes "abc")))
    else none)
copy_range_lem_example = copy_range_lem 1 3 three-Holds
