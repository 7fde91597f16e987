-- ===== src/Examples/Lifespan.antt =====
-- The global `_node` and `lifespan` of examples/fastapi_server.py, around the requests. `S` is the
-- state of the node's store and of its pool.
pub mod Ready
use dlstorage.Base.{
  Text, ℕ, ℤ, Bytes, Bool, true, false, Option, none, some, List, [], ◌∷◌, if◌then◌else◌,
}
use dlstorage.Result.{Result, ok, raise}
use dlstorage.Action.{Action}
use dlstorage.Types.{NodeInfo, Value}
use dlstorage.Ring.{RendezvousRing}
use dlstorage.Discovery.{Discovery}
use dlstorage.Handle.{ConnectionPool}
use dlstorage.Node.Storage.{StorageNode}
use dlstorage.Node.Lifecycle.{Life, async_start, async_stop}
use dlstorage.Examples.{Response}
use dlstorage.Examples.Fastapi.{get_key, set_key, delete_key, health}

-- Whether `_node` is there, and the node.
pub record App (S : Type 0) : Type 0 where
  pub created : Bool
  pub life : Life S

pub data Request : Type 0 where
  get_request : Text → Request
  put_request : Text → Value → ℤ → Request
  delete_request : Text → ℤ → Request
  health_request : Request

-- `keys` is the number of the keys in the node's store.
module _ {S : Type 0} (sha256 : Text → Bytes) (keys : S → ℕ) where
  -- The handler that a request is routed to.
  unfoldable pub respond : Request → Option (StorageNode S) → Action S Response
  respond (get_request key) node = get_key sha256 node key
  respond (put_request key value ts) node = set_key sha256 node key value ts
  respond (delete_request key ts) node = delete_key sha256 node key ts
  respond health_request node = health sha256 node keys

  -- `fields` is the node, but for the ring that gossip changes.
  module _ (fields : RendezvousRing → StorageNode S) where
    unfoldable pub answer : Request → App S → Result Response × App S
    answer request app =
        let node = if app.created then some (fields app.life.peers.ring) else none in
        let (r, s) = respond request node app.life.peers.pool in
        (r, record app { life = record app.life { peers = record app.life.peers { pool = s } } })

    unfoldable pub answer_all : List Request → App S → List (Result Response) × App S
    answer_all [] app = ([], app)
    answer_all (request ∷ requests) app =
        let (r, app') = answer request app in
        let (rs, app'') = answer_all requests app' in (r ∷ rs, app'')

module _ {S : Type 0} (info : NodeInfo) (pool : ConnectionPool S) where
  -- What `lifespan` does before it yields. The global is set before the node has started.
  unfoldable pub startup :
      (Discovery → Result (List NodeInfo)) → Result {0} Unit → Action (App S) Unit
  startup found opens app =
      let (r, life) = async_start info pool found opens app.life in
      (r, record { created = true; life = life })

  -- What `lifespan` does afterwards.
  unfoldable pub shutdown : App S → App S
  shutdown app = record { created = false; life = async_stop info pool app.life }
