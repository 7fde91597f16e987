-- ===== src/Node/Cluster/Traced.antt =====
-- Calls at the nodes of a cluster in which anything may be amiss: each call has its own clocks, its
-- own ring, and its own peers that can be reached.
pub mod Sources
pub mod Seen
pub mod Calls
pub mod Runs
use dlstorage.Base.{Text, ℤ, Bytes, Bool, Option, List, [], ◌∷◌, ◌≡◌, ◌⊎◌}
use dlstorage.Types.{NodeInfo, Value, null}
use dlstorage.Ring.{RendezvousRing}
use dlstorage.Node.Storage.{StorageNode, set, delete, get}
use dlstorage.Node.Cluster.{World, Clocks}
use dlstorage.Node.Cluster.Outage.{cut_off}

-- The circumstances of a call.
pub record Site : Type 0 where
  pub up : NodeInfo → Bool
  pub clocks : Clocks
  pub info : NodeInfo
  pub ring : RendezvousRing
  pub replication : ℤ

abbrev pub node_at : Site → StorageNode World
node_at x = cut_off x.up x.clocks x.info x.ring x.replication

pub data Call : Type 0 where
  set_call : Site → Text → Value → Option ℤ → ℤ → Call
  delete_call : Site → Text → ℤ → Call
  get_call : Site → Text → Call

-- The values that have been set, with their keys.
abbrev pub History : Type 0
History = List (Text × Value)

abbrev pub WasSet : Text → Value → History → Type 0
WasSet key value [] = ⊥
WasSet key value ((k, v) ∷ history) = ((k ≡ key) × (v ≡ value)) ⊎ WasSet key value history

-- From here on every `get` returns `None`, or a value that has been set for its key before.
abbrev pub IsTraced : (Text → Bytes) → List Call → History → World → Type 0
IsTraced sha256 [] history w = Unit
IsTraced sha256 (set_call x key value ttl ts ∷ calls) history w =
    IsTraced sha256 calls ((key, value) ∷ history) (set sha256 (node_at x) key value ttl ts w).1
IsTraced sha256 (delete_call x key ts ∷ calls) history w =
    IsTraced sha256 calls history (delete sha256 (node_at x) key ts w).1
IsTraced sha256 (get_call x key ∷ calls) history w =
    let (value, w') = get sha256 (node_at x) key w in
    ((value ≡ null) ⊎ WasSet key value history) × IsTraced sha256 calls history w'
