-- ===== src/KvStore/Tests.antt =====
-- The theorems on the string store at a store of two keys.
use vemory.Prelude.{◌≡◌, refl, arith, codes, some, [], ◌∷◌, ◌++◌, bytes_eq}
use vemory.Map.{lookup}
use vemory.Stdio.{Sink, to_le}
use vemory.KvStore.{KvStore, ok, set, get, del, dump, load}
use vemory.KvStore.Laws.{IsValid, get-set, del-IsValid}
use vemory.KvStore.Dump.{Storable, dump_bytes, dump-bytes, load-dump}
use vemory.Stdio.Laws.{after}

abbrev two_keys : KvStore
two_keys = (codes "a", codes "1") ∷ (codes "b", []) ∷ []

abbrev disk : Sink
disk = record { written = []; room = 100 }

two_keys-IsValid : IsValid two_keys
unfolding lookup
two_keys-IsValid = record { unique = (refl, (refl, tt)); no_empty_key = refl }

two_keys-Storable : Storable two_keys
two_keys-Storable = (λ e. cc e, omega arith, omega arith, (λ e. cc e, omega arith, omega arith, tt))

get-set_example :
    ((set two_keys (codes "b") (codes "2")).1 ≡ ok)
    × (get (set two_keys (codes "b") (codes "2")).0 (codes "a") ≡ get two_keys (codes "a"))
get-set_example = get-set two_keys (codes "b") (codes "a") (codes "2") (λ e. cc e)

del-IsValid_example : IsValid (del two_keys (codes "a")).0
del-IsValid_example = del-IsValid two_keys (codes "a") two_keys-IsValid

dump-bytes_example : dump two_keys disk ≡ (after disk (dump_bytes two_keys), ok)
unfolding to_le
dump-bytes_example = dump-bytes two_keys disk two_keys-Storable (omega arith)

load-dump_example :
    ((dump two_keys disk).1 ≡ ok)
    × (load 100 [] ((dump two_keys disk).0.written ++ codes "rest") ≡ (some ok, two_keys))
unfolding to_le lookup
load-dump_example =
    load-dump 100 two_keys [] disk (codes "rest") two_keys-Storable two_keys-IsValid.unique
      (omega arith) (omega arith) refl (omega arith)
