-- ===== src/Dispatch/Tests.antt =====
-- Requests to a server with one entry in its cache.
use vemory.Prelude.{ℕ, ◌≡◌, refl, codes, some, none, [], ◌∷◌, List, Bytes, true, false}
use vemory.Decimal.{pos}
use vemory.Request.{new_context, from_tokens, from_command, from_ping}
use vemory.Command.{parse_command_type, equals_ignore_case, same_letters}
use vemory.Encode.{append_simple_string}
use vemory.Map.{Map}
use vemory.Index.Tests.{shelf}
use vemory.Mutation.Tests.{tape, one_slave, full_cache, vset_j, no_float}
use vemory.Dispatch.{Managers, Server, ok, dispatch, registered, assist_dispatcher}
use vemory.Dispatch.Laws.{dispatch-readonly}

abbrev no_managers : Managers ℕ (List Bytes)
no_managers = record { background_save = λ s. (s, ok); on_psync = λ r fd id off. (r, []) }

abbrev server : Server (Map ℕ Bytes) (List Bytes) (List Bytes) ℕ
server = record {
  stores = full_cache;
  has_index = true;
  has_kv = true;
  snapshot = none;
  replica_readonly = false;
}

abbrev replica : Server (Map ℕ Bytes) (List Bytes) (List Bytes) ℕ
replica = record server { replica_readonly = true }

-- A PING of two words is refused by `FromTokens`, and the context that it leaves is answered with
-- PONG.
wrong_ping :
    (dispatch shelf tape one_slave no_managers
      (λ a b. false)
      server
      (from_tokens no_float 0 (pos 3) (codes "PING" ∷ codes "a" ∷ codes "b" ∷ []) new_context).1).1
    ≡ some (codes "+PONG\r\n")
unfolding dispatch registered assist_dispatcher from_tokens from_command from_ping
    parse_command_type equals_ignore_case same_letters append_simple_string
wrong_ping = refl

dispatch-readonly_example :
    let s' = (dispatch shelf tape one_slave no_managers (λ a b. false) replica vset_j).0 in
    (s'.stores.kv ≡ replica.stores.kv) × (s'.stores.index.storage ≡ replica.stores.index.storage)
dispatch-readonly_example =
    dispatch-readonly shelf tape one_slave no_managers (λ a b. false) replica vset_j refl
