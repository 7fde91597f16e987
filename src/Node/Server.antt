-- ===== src/Node/Server.antt =====
-- dlstorage/node/sync.py: the server side of a node, one connection of a client. `dumps` and
-- `loads` stand for pickle.
pub mod Replies
pub mod Async
pub mod Errors
use dlstorage.Base.{ℕ, zero, suc, ℤ, Bytes, List, [], ◌∷◌, if◌then◌else◌}
use dlstorage.Result.{Result, ok, raise}
use dlstorage.Action.{Action, continue}
use dlstorage.Types.{NodeInfo, Message, is_gossip}
use dlstorage.Store.Lww.{LocalLwwStore}
use dlstorage.Ring
use dlstorage.Handle.{ConnectionPool}
use dlstorage.Gossip.{State, handle_message}
use dlstorage.Wire.{Socket, send_message, recv_message}
use dlstorage.Node.Dispatcher.{dispatch}

-- What the requests of a client change: what gossip changes, and the store.
pub record NodeState (S : Type 0) : Type 0 where
  pub peers : State S
  pub store : LocalLwwStore

-- The loop of `_bootstrap`.
unfoldable pub add_all : List NodeInfo → Ring.RendezvousRing → Ring.RendezvousRing
add_all [] ring = ring
add_all (p ∷ ps) ring = add_all ps (Ring.add p ring)

-- The ring of a node after `start`, from the peers of its discovery.
unfoldable pub start_ring : NodeInfo → List NodeInfo → Ring.RendezvousRing → Ring.RendezvousRing
start_ring info found ring = Ring.add info (add_all found ring)

module _ {S : Type 0} (info : NodeInfo) (pool : ConnectionPool S) (now clock : ℤ) where
  gossip_respond : Message → Action (NodeState S) Message
  gossip_respond msg n =
      let (r, g) = handle_message info pool msg n.peers in (r, record n { peers = g })

  store_respond : Message → Action (NodeState S) Message
  store_respond msg n = let (r, st) = dispatch now clock msg n.store in (r, record n { store = st })

  -- The response to a request of a client.
  unfoldable pub respond : Message → Action (NodeState S) Message
  unfolding gossip_respond store_respond
  respond msg = if is_gossip msg.type then gossip_respond msg else store_respond msg

module _ {N : Type 0} (dumps : Message → Bytes) (loads : Bytes → Result Message)
    (handle : Message → Action N Message) where
  -- What a turn of the loop leaves, and whether it raised.
  abbrev pub Turn : Type 0
  Turn = Result {0} Unit × Socket × N

  send : Socket → Result Message → N → Turn
  send sock (raise e) n = (raise e, sock, n)
  send sock (ok response) n = let (r, sock') = send_message dumps response sock in (r, sock', n)

  answer : Result Message × Socket → N → Turn
  unfolding send
  answer (raise e, sock) n = (raise e, sock, n)
  answer (ok msg, sock) n = send sock (handle msg n).0 (handle msg n).1

  -- One turn of the loop of `_handle_client`.
  unfoldable pub turn : Socket → N → Turn
  unfolding answer
  turn sock n = answer (recv_message loads sock) n

  go_on : (Socket → N → Socket × N) → Turn → Socket × N
  go_on next (raise e, sock, n) = (sock, n)
  go_on next (ok u, sock, n) = next sock n

  -- `_handle_client`, for at most as many turns as the fuel says; the first exception, that of the
  -- end of the stream among them, ends the loop.
  unfoldable pub handle_client : ℕ → Socket → N → Socket × N
  unfolding go_on
  handle_client zero sock n = (sock, n)
  handle_client (suc fuel) sock n = go_on (handle_client fuel) (turn sock n)
