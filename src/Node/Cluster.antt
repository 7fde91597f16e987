-- ===== src/Node/Cluster.antt =====
-- A cluster of nodes that can all be reached: the store of each node, and a request to a node as
-- `dispatch` on that node's store.
pub mod Through
pub mod ReadBack
pub mod Outage
pub mod Partial
pub mod Survive
pub mod Visits
pub mod Lasting
pub mod Single
pub mod Traced
pub mod Expired
pub mod Concurrent
use dlstorage.Base.{Text, ℤ, Bool, true, false, Option, none, some, List, [], ◌∷◌, if◌then◌else◌}
use dlstorage.Action.{Action}
use dlstorage.Result.{Result}
use dlstorage.Types.{NodeInfo, node_eq, Message, Value}
use dlstorage.Ring.{RendezvousRing}
use dlstorage.Store.Lww
use dlstorage.Store.Lww.{LocalLwwStore}
use dlstorage.Handle.{ReplicaHandle, ConnectionPool}
use dlstorage.Consistency
use dlstorage.Node.Dispatcher.{dispatch}
use dlstorage.Node.Handles.{local_handle}
use dlstorage.Node.Handles.Remote.{delivered}
use dlstorage.Node.Storage.{StorageNode}

-- The store of each node.
abbrev pub World : Type 0
World = NodeInfo → LocalLwwStore

-- `time.monotonic()` and `time.time_ns()` at each node; the nodes share no clock.
pub record Clocks : Type 0 where
  pub now : NodeInfo → ℤ
  pub clock : NodeInfo → ℤ

unfoldable pub place : NodeInfo → LocalLwwStore → World → World
place n s w m = if node_eq n m then s else w m

-- A call on the store of one node.
abbrev pub on_store :
    {A : Type 0} → NodeInfo → (LocalLwwStore → A × LocalLwwStore) → World → A × World
on_store n f w = let (r, s) = f (w n) in (r, place n s w)

abbrev pub local_at : Clocks → NodeInfo → ReplicaHandle World
local_at c n =
    let h = local_handle (c.now n) (c.clock n) in
    record {
      get_versioned = λ key. on_store n (h.get_versioned key);
      set = λ key value ttl ts. on_store n (h.set key value ttl ts);
      delete = λ key ts. on_store n (h.delete key ts);
    }

-- The pool of a node whose peers all answer.
abbrev pub network : Clocks → ConnectionPool World
network c = record {
  execute = λ host port msg.
      let n : NodeInfo = record { host = host; port = port } in
      on_store n (λ s. let (r, s') = dispatch (c.now n) (c.clock n) msg s in (delivered r, s'));
  close_peer = λ host port w. w;
  close_all = λ w. w;
}

-- A node of the cluster, with the default resolver.
abbrev pub node_of : Clocks → NodeInfo → RendezvousRing → ℤ → StorageNode World
node_of c info ring replication = record {
  info = info;
  store_get = λ key. on_store info (Lww.get (c.now info) key);
  local = local_at c info;
  ring = ring;
  pool = network c;
  read_resolve = Consistency.Lww.read_resolve;
  replication = replication;
}
