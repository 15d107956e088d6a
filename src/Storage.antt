-- ===== src/Storage.antt =====
-- src/storage/VNodeStorage.cc, include/vemory/storage/{VNode,VNodeStorage}.h: nodes by id, with an
-- index from user keys to ids. Pointers to results and visitors are never null here.
pub mod Laws
pub mod Ids
pub mod Tests
use vemory.Prelude.{
  ℕ, ◌+◌, ◌%◌, Bool, true, false, ◌||◌, Option, none, some, List, [], ◌∷◌, Bytes, nat_eq, bytes_eq,
  length, ◌==◌, if◌then◌else◌,
}
use vemory.Map.{Map, lookup, assign, emplace, erase, contains}
use vemory.Request.{is_empty}

pub record VNode : Type 0 where
  pub id : ℕ
  pub user_key : Bytes
  pub question : Bytes
  pub answer : Bytes

pub data Status : Type 0 where
  ok not_found full bad_value : Status

pub record Storage : Type 0 where
  -- 0 once every id has been given out
  pub next_id : ℕ
  pub by_id : Map ℕ VNode
  pub by_user_key : Map Bytes ℕ

abbrev pub new_storage : Storage
new_storage = record { next_id = 1; by_id = []; by_user_key = [] }

-- `Put`: the status, with the id beside `ok`.
unfoldable pub put : Storage → VNode → Storage × Status × Option ℕ
put s node =
    if is_empty node.user_key
    then (s, bad_value, none)
    else elim (lookup node.user_key s.by_user_key) [
      | some id ↦ (record s { by_id = assign id (record node { id = id }) s.by_id }, ok, some id)
      | none ↦ if s.next_id == 0 then (s, full, none) else (
        record {
          next_id = (s.next_id + 1) % 65536;
          by_id = assign s.next_id (record node { id = s.next_id }) s.by_id;
          by_user_key = emplace node.user_key s.next_id s.by_user_key;
        },
        ok,
        some s.next_id,
      )
    ]

-- `Restore`
unfoldable pub restore : Storage → VNode → Storage × Status
restore s node =
    if is_empty node.user_key || node.id == 0
    then (s, bad_value)
    else if contains node.id s.by_id || contains node.user_key s.by_user_key
    then (s, bad_value)
    else (
      record s {
        by_id = emplace node.id node s.by_id;
        by_user_key = emplace node.user_key node.id s.by_user_key;
      },
      ok,
    )

-- `GetById`: the node, or `kNotFound`.
unfoldable pub get_by_id : Storage → ℕ → Option VNode
get_by_id s id = lookup id s.by_id

-- `GetByUserKey`
unfoldable pub get_by_user_key : Storage → Bytes → Option VNode
get_by_user_key s key = elim (lookup key s.by_user_key) [ none ↦ none | some id ↦ get_by_id s id ]

-- `DelByUserKey`
unfoldable pub del_by_user_key : Storage → Bytes → Storage × Status
del_by_user_key s key = elim (lookup key s.by_user_key) [
  | none ↦ (s, not_found)
  | some id ↦ (record s { by_id = erase id s.by_id; by_user_key = erase key s.by_user_key }, ok)
]

-- `Clear`, `SetNextId`, `size`
abbrev pub clear : Storage → Storage
clear s = new_storage

abbrev pub set_next_id : Storage → ℕ → Storage
set_next_id s id = record s { next_id = id }

abbrev pub size : Storage → ℕ
size s = length s.by_id
