-- ===== src/Node/Lifecycle/Managed.antt =====
-- `__enter__` and `__exit__` of a node: `with` starts it, runs a block, and stops it.
use dlstorage.Base.{true, false, List, ◌≡◌, refl}
use dlstorage.Result.{Result, ok}
use dlstorage.Action.{Action, ◌>>=◌}
use dlstorage.Types.{NodeInfo}
use dlstorage.Discovery.{Discovery}
use dlstorage.Handle.{ConnectionPool}
use dlstorage.Node.Lifecycle.{Life, start, stop, async_start, async_stop}

module _ {S A : Type 0} (info : NodeInfo) (pool : ConnectionPool S) where
  -- `__exit__` returns None: an error of the block goes on, unless stopping raises another.
  abbrev pub leave : (Result A × Life S) → Result A × Life S
  leave (r, n) = (stop info pool >>= (λ u m. (r, m))) n

  -- `with node: ...`. A node that fails to start is not stopped.
  unfoldable pub with_node :
      (Discovery → Result (List NodeInfo)) → Result {0} Unit → Action (Life S) A → Action (Life S) A
  with_node found opens block = start info pool found opens >>= (λ u n. leave (block n))

  -- `__aexit__` of the async node, whose `stop` does not raise.
  abbrev pub async_leave : (Result A × Life S) → Result A × Life S
  async_leave (r, n) = (r, async_stop info pool n)

  -- `async with node: ...`
  unfoldable pub async_with_node :
      (Discovery → Result (List NodeInfo)) → Result {0} Unit → Action (Life S) A → Action (Life S) A
  async_with_node found opens block =
      async_start info pool found opens >>= (λ u n. async_leave (block n))

  -- Where the discovery answers and the server's socket opens, an `async with` statement ends as its
  -- block ends, be it with a value or with an error; the node has stopped then, its gossip loop has
  -- ended, and its pool is closed.
  pub async_with_node_lem :
      (found : Discovery → Result (List NodeInfo)) (ps : List NodeInfo) (block : Action (Life S) A)
      (n : Life S)
      → found n.peers.discovery ≡ ok ps
      → let (r, m) = async_with_node found (ok tt) block n in
        (r ≡ (block (async_start info pool found (ok tt) n).1).0)
        × (m.gossiping ≡ false)
        × (m.stopped ≡ true)
        × ((s : S) × (m.peers.pool ≡ pool.close_all s))
  unfolding async_with_node async_start async_stop
  async_with_node_lem found ps block n answered = rw answered (refl, refl, refl, (_, refl))
