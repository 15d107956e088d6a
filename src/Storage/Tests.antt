-- ===== src/Storage/Tests.antt =====
-- The theorems on the node storage at a storage of one node.
use vemory.Prelude.{◌≡◌, arith, codes, [], bytes_eq}
use vemory.Map.{lookup}
use vemory.Storage.{VNode, Storage, new_storage, put, del_by_user_key}
use vemory.Storage.Laws.{IsValid, IsFresh, put-IsValid, del-IsValid, new_storage-IsValid}
use vemory.Storage.Ids.{put_failed}

abbrev pub node_k : VNode
node_k = record { id = 0; user_key = codes "k"; question = codes "q"; answer = codes "a" }

abbrev no_key : VNode
no_key = record { id = 9; user_key = []; question = []; answer = [] }

pub new_storage-IsFresh : IsFresh new_storage
unfolding lookup
new_storage-IsFresh = record { in_range = omega arith; above = λ id n first e. cc e }

abbrev one_node : Storage
one_node = (put new_storage node_k).0

one_node-IsValid : IsValid one_node
one_node-IsValid = put-IsValid new_storage-IsValid new_storage-IsFresh node_k

put_failed_example : (put one_node no_key).0 ≡ one_node
unfolding put
put_failed_example = put_failed one_node no_key (λ e. cc e)

del-IsValid_example : IsValid (del_by_user_key one_node (codes "k")).0
del-IsValid_example = del-IsValid one_node-IsValid (codes "k")
