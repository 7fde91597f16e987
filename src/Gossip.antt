-- ===== src/Gossip.antt =====
-- dlstorage/peer_comm/gossip.py: how nodes tell each other who is there.
pub mod Learned
pub mod Peers
pub mod Departed
pub mod Invariant
pub mod History
pub mod Announce
use dlstorage.Base.{
  Text, codes, ℕ, ℤ, min, Bool, true, false, not, ◌&&◌, Option, none, some, List, [], ◌∷◌, ◌++◌,
  length, map, filter, if◌then◌else◌,
}
use dlstorage.Result.{Result, ok, raise, connection_error}
use dlstorage.Action.{Action, pure, lift, continue, ◌>>=◌}
use dlstorage.Types.{
  NodeInfo, node_eq, MessageType, Message, Payload, empty_payload, PeerDict, to_dict, from_dict,
  item, field_of, type_name,
}
use dlstorage.Ring
use dlstorage.Ring.{RendezvousRing, is_member, differs}
use dlstorage.Discovery.{Discovery, GossipDiscovery, gossip, add_peer, remove_peer}
use dlstorage.Handle.{ConnectionPool, Answer, returned, raised, cancelled}
use dlstorage.Node.Dispatcher.{reply, unknown_type}

-- What gossip changes: the ring, the discovery and, in `pool`, the state of the connection pool.
pub record State (S : Type 0) : Type 0 where
  pub ring : RendezvousRing
  pub discovery : Discovery
  pub pool : S

-- `if isinstance(self._discovery, GossipDiscovery): self._discovery.add_peer(peer)`
abbrev pub discover : NodeInfo → Discovery → Discovery
discover p (gossip d) = gossip (add_peer p d).1
discover p other = other

-- `if isinstance(self._discovery, GossipDiscovery): self._discovery.remove_peer(peer)`
abbrev pub undiscover : NodeInfo → Discovery → Discovery
undiscover p (gossip d) = gossip (remove_peer p d)
undiscover p other = other

abbrev pub peer_payload : NodeInfo → Payload
peer_payload n = record empty_payload { peer = some (to_dict n) }

-- `resp.payload.get("peers", [])`
abbrev pub peers_of : Option (List PeerDict) → List PeerDict
peers_of none = []
peers_of (some ps) = ps

unfoldable pub learn : {S : Type 0} → NodeInfo → State S → State S
learn p s = record s { ring = Ring.add p s.ring; discovery = discover p s.discovery }

module _ {S : Type 0} (info : NodeInfo) (pool : ConnectionPool S) where
  -- `[n for n in ns if n != self.info]`
  abbrev pub others : List NodeInfo → List NodeInfo
  others ns = filter (differs info) ns

  -- `_evict`
  unfoldable pub evict : NodeInfo → State S → State S
  evict p s = record s {
    ring = Ring.remove p s.ring;
    discovery = undiscover p s.discovery;
    pool = pool.close_peer p.host p.port s.pool;
  }

  -- `self._pool.execute`
  abbrev pub execute : NodeInfo → Message → Action (State S) (Option Message)
  execute p msg s = let (r, t) = pool.execute p.host p.port msg s.pool in (r, record s { pool = t })

  -- The body of the loop over the peers that a reply names.
  abbrev pub meet : List NodeInfo → NodeInfo → State S → State S
  meet known p s = if differs info p && not (is_member p known) then learn p s else s

  unfoldable pub absorb : List NodeInfo → List PeerDict → Action (State S) Unit
  absorb known [] s = (ok tt, s)
  absorb known (raw ∷ raws) s =
      continue (from_dict raw) (λ p t. absorb known raws (meet known p t)) s

  by_reply_type : MessageType → Option Payload → Action (State S) Unit
  by_reply_type MessageType.peer_list payload s =
      continue (field_of (λ p. p.peers) payload) (λ ps t. absorb t.ring.members (peers_of ps) t) s
  by_reply_type other payload s = (ok tt, s)

  take_reply : NodeInfo → Option Message → Action (State S) Unit
  take_reply p none s = (ok tt, evict p s)
  take_reply p (some m) s = by_reply_type m.type m.payload s

  abbrev pub list_message : Message
  list_message = record {
    type = MessageType.peer_list;
    payload = some (record empty_payload { requester = some (to_dict info) });
  }

  -- The `except` of `_gossip_with`.
  evict_on_raise : NodeInfo → Result {0} Unit × State S → State S
  evict_on_raise p (ok _, s) = s
  evict_on_raise p (raise e, s) = evict p s

  -- `_gossip_with` after the call of `execute`, which has returned or raised.
  unfoldable pub settle : NodeInfo → Result (Option Message) → State S → State S
  unfolding by_reply_type take_reply evict_on_raise
  settle p r s = evict_on_raise p (continue r (take_reply p) s)

  -- `_gossip_with`
  unfoldable pub gossip_with : NodeInfo → State S → State S
  gossip_with p s = let (r, t) = execute p list_message s in settle p r t

  -- `_gossip_with` of the async version after its `await`; a cancellation is no `Exception`.
  unfoldable pub async_settle : NodeInfo → Answer (Option Message) → State S → State S
  async_settle p (returned r) s = settle p (ok r) s
  async_settle p (raised) s = settle p (raise connection_error) s
  async_settle p (cancelled) s = s

  -- A round of the async version: the replies in the order in which they come in.
  unfoldable pub async_round : List (NodeInfo × Answer (Option Message)) → State S → State S
  async_round [] s = s
  async_round ((p, a) ∷ answers) s = async_round answers (async_settle p a s)

  -- `_broadcast`: an exception ends the loop.
  unfoldable pub send_all : Message → List NodeInfo → Action (State S) Unit
  send_all msg [] = pure tt
  send_all msg (p ∷ ps) = do r ← execute p msg; send_all msg ps

  unfoldable pub broadcast : Message → Action (State S) Unit
  broadcast msg s = send_all msg (others s.ring.members) s

  -- `_broadcast` of the async version: every message is sent, whatever becomes of the others.
  unfoldable pub async_send_all : Message → List NodeInfo → State S → State S
  async_send_all msg [] s = s
  async_send_all msg (p ∷ ps) s = async_send_all msg ps (execute p msg s).1

  unfoldable pub async_broadcast : Message → State S → State S
  async_broadcast msg s = async_send_all msg (others s.ring.members) s

  unfoldable pub announce_join : Action (State S) Unit
  announce_join =
      broadcast (record { type = MessageType.peer_announce; payload = some (peer_payload info) })

  unfoldable pub announce_leave : Action (State S) Unit
  announce_leave =
      broadcast (record { type = MessageType.peer_leave; payload = some (peer_payload info) })

  unfoldable pub gossip_each : List NodeInfo → State S → State S
  gossip_each [] s = s
  gossip_each (p ∷ ps) s = gossip_each ps (gossip_with p s)

  -- One round of `gossip_loop`; `sample` is `random.sample`, and `found` what `get_peers` gives.
  unfoldable pub gossip_round :
      (List NodeInfo → ℕ → List NodeInfo) → (Discovery → Result (List NodeInfo)) → State S → State S
  gossip_round sample found s = elim (found s.discovery) [
    | raise e ↦ s
    | ok ps ↦ gossip_some (others ps)
  ]
    where
      gossip_some : List NodeInfo → State S
      gossip_some [] = s
      gossip_some (p ∷ ps) = gossip_each (sample (p ∷ ps) (min 3 (length (p ∷ ps)))) s

  peer_of : Option Payload → Result NodeInfo
  peer_of payload = continue_with (item (λ p. p.peer) payload)
    where
      continue_with : Result PeerDict → Result NodeInfo
      continue_with (ok d) = from_dict d
      continue_with (raise e) = raise e

  abbrev pub greet : NodeInfo → State S → State S
  greet p s = if is_member p s.ring.members then s else learn p s

  abbrev pub done_reply : Message
  done_reply = reply MessageType.ok_reply empty_payload

  handle_type : MessageType → Option Payload → Action (State S) Message
  handle_type MessageType.ping payload s =
      (ok (reply MessageType.pong (record empty_payload { node = some (to_dict info) })), s)
  handle_type MessageType.peer_list payload s = (
    ok (
        reply MessageType.peer_list
          (record empty_payload { peers = some (map to_dict (others s.ring.members)) })),
    s,
  )
  handle_type MessageType.peer_announce payload s =
      continue (peer_of payload) (λ p t. (ok done_reply, greet p t)) s
  handle_type MessageType.peer_leave payload s =
      continue (peer_of payload) (λ p t. (ok done_reply, evict p t)) s
  handle_type other payload s = (ok (unknown_type other), s)

  unfoldable pub handle_message : Message → Action (State S) Message
  unfolding handle_type peer_of item
  handle_message msg = handle_type msg.type msg.payload
