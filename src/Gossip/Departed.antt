-- ===== src/Gossip/Departed.antt =====
-- Gossip between the nodes of a town, one thing after another, and a node that no other node knows.
pub mod Away
use dlstorage.Base.{Bool, true, false, List, [], if◌then◌else◌, ◌≡◌}
use dlstorage.Types.{NodeInfo, node_eq}
use dlstorage.Ring.{is_member}
use dlstorage.Gossip.{State, gossip_with, evict, announce_join, announce_leave}
use dlstorage.Gossip.Announce.{announcement, farewell}
use dlstorage.Gossip.Peers.{Town, town, tell}
use dlstorage.Node.Server.{start_ring}

-- What a node does by itself, with the others at the other end of its pool.
abbrev pub locally : NodeInfo → (State Town → State Town) → Town → Town
locally a f w =
    let s = f (record { ring = (w a).ring; discovery = (w a).discovery; pool = w }) in
    λ n.
      if node_eq a n then record { ring = s.ring; discovery = s.discovery; pool = tt } else s.pool n

-- What may happen while `k` does not announce itself, and no node that starts finds it.
pub data Step (k : NodeInfo) (w : Town) : Town → Type 0 where
  -- `a` asks a peer for its list, which need not be in the ring of `a`
  exchanges : (a peer : NodeInfo) → Step k w (locally a (gossip_with a town peer) w)
  -- a peer has not answered
  evicts : (a peer : NodeInfo) → Step k w (locally a (evict a town peer) w)
  -- the process of `a` ends; its ring is gone with it
  ends : (a : NodeInfo) → Step k w (locally a (λ s. record s { ring = record { members = [] } }) w)
  -- `a` starts: the peers that its discovery finds and `a` itself enter its ring
  starts :
      (a : NodeInfo) (found : List NodeInfo)
      → is_member k found ≡ false
      → Step k w (locally a (λ s. record s { ring = start_ring a found s.ring }) w)
  -- `a` announces itself to all whom it knows, or says farewell to them
  joins :
      (a : NodeInfo)
      → node_eq a k ≡ false
      → Step k w (locally a (λ s. (announce_join a town s).1) w)
  leaves : (a : NodeInfo) → Step k w (locally a (λ s. (announce_leave a town s).1) w)
  -- the announcement or the farewell of `a` reaches one node, and perhaps no other
  told_join : (a n : NodeInfo) → node_eq a k ≡ false → Step k w (tell (announcement a) n w).1
  told_leave : (a n : NodeInfo) → Step k w (tell (farewell a) n w).1

pub data Reach (k : NodeInfo) (w : Town) : Town → Type 0 where
  start : Reach k w w
  later : {v u : Town} → Reach k w v → Step k v u → Reach k w u
