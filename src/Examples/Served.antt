-- ===== src/Examples/Served.antt =====
-- Flask servers in front of the nodes of a cluster, against one store.
use dlstorage.Base.{
  Text, ℤ, Bytes, Option, none, List, [], ◌∷◌, All, map, if◌then◌else◌, ◌≡◌, ◌≢◌, refl, ap, ◌∙◌,
}
use dlstorage.Types.{NodeInfo, Value, str, is_some_value}
use dlstorage.Ring.{RendezvousRing, get_nodes}
use dlstorage.Store.Lww
use dlstorage.Action.{bind_pure_state}
use dlstorage.Node.Storage.{set, delete, get}
use dlstorage.Node.Cluster.{World, Clocks, node_of}
use dlstorage.Node.Cluster.Single.{
  Call, set_call, delete_call, get_call, IsTimed, cluster_reads, single_reads,
}
use dlstorage.Node.Cluster.Single.Refine.{cluster_reads-single_reads}
use dlstorage.Examples.{Response, json, failed}
use dlstorage.Examples.Flask.{value_arg, get_key, set_key, delete_key}

-- A request to the server of some node, with what the clocks of the nodes say meanwhile.
pub data Request : Type 0 where
  put_request : Clocks → NodeInfo → Text → Option Text → ℤ → Request
  delete_request : Clocks → NodeInfo → Text → ℤ → Request
  get_request : Clocks → NodeInfo → Text → Request

-- What the node is called with.
abbrev pub call_of : Request → Call
call_of (put_request c info key arg ts) = set_call c info key (str (value_arg arg)) ts
call_of (delete_request c info key ts) = delete_call c info key ts
call_of (get_request c info key) = get_call c info key

-- How a GET shows a value.
abbrev pub shown : Value → Response
shown value = if is_some_value value then json value else failed 404

module _ (sha256 : Text → Bytes) (ring : RendezvousRing) (replication : ℤ) where
  -- The answers to the GET requests.
  unfoldable pub served : List Request → World → List Response
  served [] w = []
  served (put_request c info key arg ts ∷ requests) w =
      served requests (set_key sha256 (node_of c info ring replication) key arg ts w).1
  served (delete_request c info key ts ∷ requests) w =
      served requests (delete_key sha256 (node_of c info ring replication) key ts w).1
  served (get_request c info key ∷ requests) w =
      let (answer, w') = get_key sha256 (node_of c info ring replication) key w in
      answer ∷ served requests w'

  served-cluster_reads :
      (requests : List Request) (w : World)
      → served requests w
        ≡ map shown (cluster_reads sha256 ring replication (map call_of requests) w)
  unfolding served cluster_reads set_key delete_key get_key
  served-cluster_reads [] w = refl
  served-cluster_reads (put_request c info key arg ts ∷ requests) w =
      ap (served requests) (
        bind_pure_state
          (set sha256 (node_of c info ring replication) key (str (value_arg arg)) none ts) _ w)
      ∙ served-cluster_reads requests _
  served-cluster_reads (delete_request c info key ts ∷ requests) w =
      ap (served requests)
        (bind_pure_state (delete sha256 (node_of c info ring replication) key ts) _ w)
      ∙ served-cluster_reads requests _
  served-cluster_reads (get_request c info key ∷ requests) w =
      let (value, w') = get sha256 (node_of c info ring replication) key w in
      ap (◌∷◌ (shown value)) (served-cluster_reads requests w')

  -- Whatever PUT, DELETE and GET requests the servers of a cluster receive, in whatever order and
  -- at whatever nodes, the GETs are answered as from one store that receives the same calls: with
  -- the value that it holds, or with 404 where it holds none. The nodes all answer, route alike,
  -- start empty and give every key a replica, and no timestamp is negative.
  pub served-single_reads :
      (requests : List Request)
      → ((k : Text) → get_nodes sha256 k replication ring ≢ [])
      → All IsTimed (map call_of requests)
      → served requests (λ n. Lww.init) ≡ map shown (single_reads (map call_of requests) Lww.init)
  served-single_reads requests routed timed =
      served-cluster_reads requests (λ n. Lww.init)
      ∙ ap (map shown)
          (cluster_reads-single_reads sha256 ring replication routed (map call_of requests) timed)
