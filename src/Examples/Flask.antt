-- ===== src/Examples/Flask.antt =====
-- examples/flask_server.py. `ts` is the time that `set` and `delete` of the node read.
use dlstorage.Base.{Text, codes, ℕ, ℤ, sub_ℕ, Bytes, Option, none, some, if◌then◌else◌}
use dlstorage.Action.{Action, pure, ◌>>=◌}
use dlstorage.Types.{str, is_some_value, address}
use dlstorage.Ring.{count}
use dlstorage.Node.Storage.{StorageNode, get, set, delete}
use dlstorage.Examples.{Response, json, no_content, failed, Health}

-- `request.args.get("value", "")`
abbrev pub value_arg : Option Text → Text
value_arg none = codes ""
value_arg (some value) = value

module _ {S : Type 0} (sha256 : Text → Bytes) (node : StorageNode S) where
  unfoldable pub get_key : Text → S → Response × S
  get_key key s =
      let (value, s') = get sha256 node key s in
      (if is_some_value value then json value else failed 404, s')

  unfoldable pub set_key : Text → Option Text → ℤ → Action S Response
  set_key key arg ts = do
    done ← set sha256 node key (str (value_arg arg)) none ts
    pure (if done then no_content else failed 500)

  unfoldable pub delete_key : Text → ℤ → Action S Response
  delete_key key ts = do
    done ← delete sha256 node key ts
    pure (if done then no_content else failed 404)

  -- `keys` is `len(_node._store)`.
  unfoldable pub health : ℕ → Health
  health keys = record {
    address = address node.info;
    peers = sub_ℕ (count node.ring) 1;
    keys = keys;
  }
