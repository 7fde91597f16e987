-- ===== src/Node/Cluster/Single.antt =====
-- A cluster whose nodes all answer and route alike, and one store that receives the same calls.
pub mod Refine
use dlstorage.Base.{Text, ℤ, pos, ◌≤ℤ◌, Bytes, none, some, List, [], ◌∷◌}
use dlstorage.Types.{NodeInfo, Value}
use dlstorage.Ring.{RendezvousRing, get_nodes}
use dlstorage.Store.Lww
use dlstorage.Store.Lww.{LocalLwwStore}
use dlstorage.Node.Storage.{set, delete, get}
use dlstorage.Node.Cluster.{World, Clocks, node_of}

-- A call at some node of the cluster, with what the clocks of the nodes say meanwhile. No value
-- has a time to live.
pub data Call : Type 0 where
  set_call : Clocks → NodeInfo → Text → Value → ℤ → Call
  delete_call : Clocks → NodeInfo → Text → ℤ → Call
  get_call : Clocks → NodeInfo → Text → Call

abbrev pub IsTimed : Call → Type 0
IsTimed (set_call c info key value ts) = pos 0 ≤ℤ ts
IsTimed (delete_call c info key ts) = pos 0 ≤ℤ ts
IsTimed (get_call c info key) = Unit

-- The results of the reads, where one store receives the calls.
unfoldable pub single_reads : List Call → LocalLwwStore → List Value
single_reads [] s = []
single_reads (set_call c info key value ts ∷ calls) s =
    single_reads calls (Lww.set (c.now info) (c.clock info) key value none (some ts) s).1
single_reads (delete_call c info key ts ∷ calls) s =
    single_reads calls (Lww.delete (c.clock info) key (some ts) s).1
single_reads (get_call c info key ∷ calls) s =
    let (value, s') = Lww.get (c.now info) key s in value ∷ single_reads calls s'

module _ (sha256 : Text → Bytes) (ring : RendezvousRing) (replication : ℤ) where
  -- The results of the reads of the cluster, in their order.
  unfoldable pub cluster_reads : List Call → World → List Value
  cluster_reads [] w = []
  cluster_reads (set_call c info key value ts ∷ calls) w =
      cluster_reads calls (set sha256 (node_of c info ring replication) key value none ts w).1
  cluster_reads (delete_call c info key ts ∷ calls) w =
      cluster_reads calls (delete sha256 (node_of c info ring replication) key ts w).1
  cluster_reads (get_call c info key ∷ calls) w =
      let (value, w') = get sha256 (node_of c info ring replication) key w in
      value ∷ cluster_reads calls w'

  abbrev pub replicas : Text → List NodeInfo
  replicas key = get_nodes sha256 key replication ring
