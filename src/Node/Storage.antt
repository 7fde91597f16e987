-- ===== src/Node/Storage.antt =====
-- dlstorage/node/sync.py and async_.py: what a node does with a key. `S` is the state in which its
-- own store and its pool run.
pub mod Agree
pub mod Reads
use dlstorage.Base.{
  Text, ℤ, Bytes, Bool, true, false, Option, List, [], ◌∷◌, map, any, if◌then◌else◌,
}
use dlstorage.Action.{Action, pure, continue, call, ◌>>=◌}
use dlstorage.Result.{Result, ok, raise}
use dlstorage.Types.{NodeInfo, node_eq, Value}
use dlstorage.Ring.{RendezvousRing, get_nodes}
use dlstorage.Handle.{ReplicaHandle, ConnectionPool}
use dlstorage.Node.Handles.{remote_handle, async_remote_handle}

-- The fields of a node that the operations on keys use.
pub record StorageNode (S : Type 0) : Type 0 where
  pub info : NodeInfo
  -- `self._store.get`, and the local handle on that store
  pub store_get : Text → S → Value × S
  pub local : ReplicaHandle S
  pub ring : RendezvousRing
  pub pool : ConnectionPool S
  pub read_resolve : Text → List (ReplicaHandle S) → S → Value × S
  pub replication : ℤ

abbrev pub make_handle : {S : Type 0} → StorageNode S → NodeInfo → ReplicaHandle S
make_handle node n = if node_eq n node.info then node.local else remote_handle n node.pool

abbrev pub make_handles : {S : Type 0} → StorageNode S → List NodeInfo → List (ReplicaHandle S)
make_handles node ns = map (make_handle node) ns

-- `_make_handles` of the async node, whose `local` is an async handle
abbrev pub async_make_handles :
    {S : Type 0} → StorageNode S → List NodeInfo → List (ReplicaHandle S)
async_make_handles node ns =
    map (λ n. if node_eq n node.info then node.local else async_remote_handle n node.pool) ns

-- `[call(h) for h in handles]`: an exception ends the loop.
unfoldable pub call_all :
    {S : Type 0} → (ReplicaHandle S → Action S Bool) → List (ReplicaHandle S) → Action S (List Bool)
call_all f [] = pure []
call_all f (h ∷ hs) = do r ← f h; rs ← call_all f hs; pure (r ∷ rs)

-- `gather(*[call(h) for h in handles], return_exceptions=True)`: every call is made, and an
-- exception is one of the results. The calls run one after the other, in their order.
unfoldable pub gather :
    {S : Type 0}
    → (ReplicaHandle S → Action S Bool)
    → List (ReplicaHandle S)
    → S
    → List (Result Bool) × S
gather f [] s = ([], s)
gather f (h ∷ hs) s = let (r, s') = f h s in let (rs, s'') = gather f hs s' in (r ∷ rs, s'')

-- `r is True`
abbrev pub is_true : Result Bool → Bool
is_true (ok r) = r
is_true (raise e) = false

-- A call on the node's own store, whose result is dropped for `True`.
abbrev pub alone : {S : Type 0} → Action S Bool → Action S Bool
alone m = do r ← m; pure true

module _ {S : Type 0} (sha256 : Text → Bytes) (node : StorageNode S) where
  abbrev pub candidates : Text → List NodeInfo
  candidates key = get_nodes sha256 key node.replication node.ring

  unfoldable pub get_from : Text → List NodeInfo → S → Value × S
  get_from key [] = node.store_get key
  get_from key (n ∷ ns) = node.read_resolve key (make_handles node (n ∷ ns))

  unfoldable pub get : Text → S → Value × S
  unfolding get_from
  get key = get_from key (candidates key)

  unfoldable pub set_on : Text → Value → Option ℤ → ℤ → List NodeInfo → Action S Bool
  set_on key value ttl ts [] = alone (node.local.set key value ttl ts)
  set_on key value ttl ts (n ∷ ns) = do
    results ← call_all (λ h. h.set key value ttl ts) (make_handles node (n ∷ ns))
    pure (any (λ r. r) results)

  -- `ts` is `time.time_ns()` at the call.
  unfoldable pub set : Text → Value → Option ℤ → ℤ → Action S Bool
  unfolding set_on
  set key value ttl ts = set_on key value ttl ts (candidates key)

  unfoldable pub delete_on : Text → ℤ → List NodeInfo → Action S Bool
  delete_on key ts [] = alone (node.local.delete key ts)
  delete_on key ts (n ∷ ns) = do
    results ← call_all (λ h. h.delete key ts) (make_handles node (n ∷ ns))
    pure (any (λ r. r) results)

  unfoldable pub delete : Text → ℤ → Action S Bool
  unfolding delete_on
  delete key ts = delete_on key ts (candidates key)

  async_set_on : Text → Value → Option ℤ → ℤ → List NodeInfo → Action S Bool
  async_set_on key value ttl ts [] s = alone (node.local.set key value ttl ts) s
  async_set_on key value ttl ts (n ∷ ns) s =
      let (results, s') =
        gather (λ h. h.set key value ttl ts) (async_make_handles node (n ∷ ns)) s in
      (ok (any is_true results), s')

  unfoldable pub async_set : Text → Value → Option ℤ → ℤ → Action S Bool
  unfolding async_set_on
  async_set key value ttl ts = async_set_on key value ttl ts (candidates key)

  async_delete_on : Text → ℤ → List NodeInfo → Action S Bool
  async_delete_on key ts [] s = alone (node.local.delete key ts) s
  async_delete_on key ts (n ∷ ns) s =
      let (results, s') = gather (λ h. h.delete key ts) (async_make_handles node (n ∷ ns)) s in
      (ok (any is_true results), s')

  unfoldable pub async_delete : Text → ℤ → Action S Bool
  unfolding async_delete_on
  async_delete key ts = async_delete_on key ts (candidates key)
