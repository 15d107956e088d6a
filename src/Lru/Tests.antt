-- ===== src/Lru/Tests.antt =====
-- The theorems on the access order at an order of two ids.
use vemory.Lru.{Lru, new_lru, touch, push, erase_id, pop_lru}
use vemory.Lru.View.{IsValid}
use vemory.Lru.Laws.{
  touch-IsValid, push-IsValid, erase_id-IsValid, pop_lru-IsValid, new_lru-IsValid,
}

abbrev two_ids : Lru
two_ids = push (push new_lru 1) 2

two_ids-IsValid : IsValid two_ids
two_ids-IsValid = push-IsValid (push-IsValid new_lru-IsValid 1) 2

touch-IsValid_example : IsValid (touch two_ids 1)
touch-IsValid_example = touch-IsValid two_ids-IsValid 1

push-IsValid_example : IsValid (push two_ids 1)
push-IsValid_example = push-IsValid two_ids-IsValid 1

erase_id-IsValid_example : IsValid (erase_id two_ids 1).0
erase_id-IsValid_example = erase_id-IsValid two_ids-IsValid 1

pop_lru-IsValid_example : IsValid (pop_lru two_ids).0
pop_lru-IsValid_example = pop_lru-IsValid two_ids-IsValid
