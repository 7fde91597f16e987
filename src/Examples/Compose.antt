-- ===== src/Examples/Compose.antt =====
-- examples/docker-compose/app.py. Its functions have the same bodies as those of
-- examples/fastapi_server.py; its node finds its peers by the addresses of a host name.
use dlstorage.Base.{Text, ℕ, ℤ, Bytes, Option, List}
use dlstorage.Result.{Result}
use dlstorage.Action.{Action}
use dlstorage.Types.{NodeInfo, Value}
use dlstorage.Discovery.{Discovery}
use dlstorage.Handle.{ConnectionPool}
use dlstorage.Node.Storage.{StorageNode}
use dlstorage.Examples.{Response}
use dlstorage.Examples.Fastapi
use dlstorage.Examples.Lifespan
use dlstorage.Examples.Lifespan.{App}

module _ {S : Type 0} (sha256 : Text → Bytes) (app : Option (StorageNode S)) where
  abbrev pub get_key : Text → Action S Response
  get_key key = Fastapi.get_key sha256 app key

  abbrev pub set_key : Text → Value → ℤ → Action S Response
  set_key key value ts = Fastapi.set_key sha256 app key value ts

  abbrev pub delete_key : Text → ℤ → Action S Response
  delete_key key ts = Fastapi.delete_key sha256 app key ts

  abbrev pub health : (S → ℕ) → Action S Response
  health keys = Fastapi.health sha256 app keys

module _ {S : Type 0} (info : NodeInfo) (pool : ConnectionPool S) where
  abbrev pub startup : (Discovery → Result (List NodeInfo)) → Result {0} Unit → Action (App S) Unit
  startup found opens app = Lifespan.startup info pool found opens app

  abbrev pub shutdown : App S → App S
  shutdown app = Lifespan.shutdown info pool app
