-- ===== src/Node/Lifecycle.antt =====
-- dlstorage/node/sync.py and async_.py, from `start` to `stop`: the ring, the announcements and the
-- pool. `found` stands for `self.discovery.get_peers()`, and `opens` for what becomes of binding the
-- server's socket and listening on it.
pub mod Managed
use dlstorage.Base.{Bool, true, false, List}
use dlstorage.Result.{Result, ok, raise}
use dlstorage.Action.{Action, continue}
use dlstorage.Types.{NodeInfo}
use dlstorage.Discovery.{Discovery}
use dlstorage.Handle.{ConnectionPool}
use dlstorage.Gossip.{State, announce_join, announce_leave, async_broadcast}
use dlstorage.Gossip.Announce.{announcement, farewell}
use dlstorage.Node.Server.{start_ring}

-- What gossip changes, whether the server listens, whether the gossip loop runs, and whether `_stop`
-- is set or, in an async node, the background tasks have been cancelled.
pub record Life (S : Type 0) : Type 0 where
  pub peers : State S
  pub listening : Bool
  pub gossiping : Bool
  pub stopped : Bool

module _ {S : Type 0} (info : NodeInfo) (pool : ConnectionPool S) where
  -- `_bootstrap`, and the entry of the node itself.
  abbrev pub fill_ring : List NodeInfo → Life S → Life S
  fill_ring ps n = record n { peers = record n.peers { ring = start_ring info ps n.peers.ring } }

  -- The server's socket and the background work, where nothing has been raised.
  abbrev pub open_server : Life S → Life S
  open_server n = record n { listening = true; gossiping = true }

  -- What `stop` does after the announcement, `self._pool.close_all()` last. The gossip loop of the
  -- sync node does not look at `_stop`: the thread goes on, and `stop` waits three seconds for it.
  abbrev pub shut_down : Life S → Life S
  shut_down n = record n {
    peers = record n.peers { pool = pool.close_all n.peers.pool };
    listening = false;
    stopped = true;
  }

  abbrev pub announce : Action (State S) Unit → Action (Life S) Unit
  announce m n = let (r, t) = m n.peers in (r, record n { peers = t })

  -- All of `start` up to the announcement.
  abbrev pub begin_start :
      (Discovery → Result (List NodeInfo)) → Result {0} Unit → Action (Life S) Unit
  begin_start found opens n =
      continue (found n.peers.discovery)
        (λ ps m. continue opens (λ u k. (ok tt, open_server k)) (fill_ring ps m)) n

  unfoldable pub start :
      (Discovery → Result (List NodeInfo)) → Result {0} Unit → Action (Life S) Unit
  start found opens n =
      let (r, m) = begin_start found opens n in
      continue r (λ u k. announce (announce_join info pool) k) m

  unfoldable pub stop : Action (Life S) Unit
  stop n =
      let (r, m) = announce (announce_leave info pool) n in
      continue r (λ u k. (ok tt, shut_down k)) m

  -- `start` of the async node: a message that fails does not stop it.
  unfoldable pub async_start :
      (Discovery → Result (List NodeInfo)) → Result {0} Unit → Action (Life S) Unit
  async_start found opens n =
      let (r, m) = begin_start found opens n in
      continue r
        (λ u k. (ok tt, record k { peers = async_broadcast info pool (announcement info) k.peers }))
        m

  -- `stop` of the async node cancels the gossip loop.
  unfoldable pub async_stop : Life S → Life S
  async_stop n =
      shut_down
        (record n { peers = async_broadcast info pool (farewell info) n.peers; gossiping = false })
