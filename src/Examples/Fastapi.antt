-- ===== src/Examples/Fastapi.antt =====
-- examples/fastapi_server.py. The node is not there before the application has started and after
-- it has ended.
use dlstorage.Base.{Text, ℕ, ℤ, sub_ℕ, Bytes, Option, none, some, if◌then◌else◌}
use dlstorage.Result.{ok}
use dlstorage.Action.{Action, pure, call, ◌>>=◌}
use dlstorage.Types.{Value, is_some_value, address}
use dlstorage.Ring.{count}
use dlstorage.Node.Storage.{StorageNode, async_set, async_delete}
use dlstorage.Node.Storage.Reads.{async_get}
use dlstorage.Examples.{Response, json, healthy, no_content, failed}

-- `_node_or_503`, before the rest of a handler
unfoldable pub node_or_503 :
    {S : Type 0} → Option (StorageNode S) → (StorageNode S → Action S Response) → Action S Response
node_or_503 none rest = pure (failed 503)
node_or_503 (some node) rest = rest node

module _ {S : Type 0} (sha256 : Text → Bytes) (app : Option (StorageNode S)) where
  unfoldable pub get_key : Text → Action S Response
  unfolding node_or_503
  get_key key = node_or_503 app (λ node. do
    value ← call (async_get sha256 node key)
    pure (if is_some_value value then json value else failed 404))

  unfoldable pub set_key : Text → Value → ℤ → Action S Response
  unfolding node_or_503
  set_key key value ts = node_or_503 app (λ node. do
    done ← async_set sha256 node key value none ts
    pure (if done then no_content else failed 500))

  unfoldable pub delete_key : Text → ℤ → Action S Response
  unfolding node_or_503
  delete_key key ts = node_or_503 app (λ node. do
    done ← async_delete sha256 node key ts
    pure (if done then no_content else failed 404))

  -- `/health`, where `keys` is `len(node._store)`
  unfoldable pub health : (S → ℕ) → Action S Response
  unfolding node_or_503
  health keys = node_or_503 app (λ node s. (
    ok (
        healthy (record {
          address = address node.info;
          peers = sub_ℕ (count node.ring) 1;
          keys = keys s;
        })),
    s,
  ))
