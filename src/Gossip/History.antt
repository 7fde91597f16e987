-- ===== src/Gossip/History.antt =====
-- The life of a node's gossip, as a list of events: whatever arrives, and in whatever order.
use dlstorage.Base.{true, false, not, Option, List, [], ◌∷◌, ◌≡◌, arith, ◌&&◌}
use dlstorage.Result.{Result, ok, raise, connection_error}
use dlstorage.Types.{NodeInfo, node_eq, Message}
use dlstorage.Ring.{is_member, differs}
use dlstorage.Ring.Members.{is_member-add-remove}
use dlstorage.Handle.{ConnectionPool, Answer, returned, raised, cancelled}
use dlstorage.Gossip.{
  State, meet, evict, learn, settle, async_settle, gossip_with, execute, list_message,
  handle_message,
}
use dlstorage.Gossip.Invariant.{
  IsValid, settle-keeps, handle_message-keeps, learn-IsValid, evict-IsValid, IsValid-if,
}

pub data Event : Type 0 where
  -- another node's message is handled
  received : Message → Event
  -- lists are exchanged with a peer
  exchanged : NodeInfo → Event
  -- the async version gets to the reply of a peer, whatever happened since its request
  answered : NodeInfo → Answer (Option Message) → Event

module _ {S : Type 0} (info : NodeInfo) (pool : ConnectionPool S) where
  unfoldable pub happen : Event → State S → State S
  happen (received msg) s = (handle_message info pool msg s).1
  happen (exchanged p) s = gossip_with info pool p s
  happen (answered p a) s = async_settle info pool p a s

  unfoldable pub history : List Event → State S → State S
  history [] s = s
  history (e ∷ es) s = history es (happen e s)

  meet-IsValid :
      (known : List NodeInfo) (q : NodeInfo) (s : State S)
      → IsValid s
      → IsValid (meet info pool known q s)
  meet-IsValid known q s h =
      IsValid-if (differs info q && not (is_member q known)) (learn q s) s (learn-IsValid q s h) h

  settle-IsValid :
      (p : NodeInfo) (r : Result (Option Message)) (s : State S)
      → IsValid s
      → IsValid (settle info pool p r s)
  settle-IsValid p = settle-keeps info pool IsValid p meet-IsValid (evict-IsValid info pool p)

  happen-IsValid : (e : Event) (s : State S) → IsValid s → IsValid (happen e s)
  unfolding happen gossip_with async_settle
  happen-IsValid (received msg) s h =
      handle_message-keeps info pool IsValid
        (λ q t k. IsValid-if (is_member q t.ring.members) t (learn q t) k (learn-IsValid q t k))
        (evict-IsValid info pool) msg s h
  happen-IsValid (exchanged p) s h =
      let (r, t) = execute info pool p (list_message info pool) s in
      settle-IsValid p r t
        (record { ring_set = h.ring_set; found_set = h.found_set; known = h.known })
  happen-IsValid (answered p (returned r)) s h = settle-IsValid p (ok r) s h
  happen-IsValid (answered p raised) s h = settle-IsValid p (raise connection_error) s h
  happen-IsValid (answered p cancelled) s h = h

  -- Whatever messages and replies arrive, and in whatever order, the ring and the peers that
  -- gossip has found stay sets, and every found peer stays in the ring.
  pub history-IsValid : (es : List Event) (s : State S) → IsValid s → IsValid (history es s)
  unfolding history
  history-IsValid [] s h = h
  history-IsValid (e ∷ es) s h = history-IsValid es (happen e s) (happen-IsValid e s h)

  -- That a node is a member of its own ring.
  abbrev HasSelf : State S → Type 0
  HasSelf s = is_member info s.ring.members ≡ true

  meet-HasSelf :
      (known : List NodeInfo) (q : NodeInfo) (s : State S)
      → HasSelf s
      → HasSelf (meet info pool known q s)
  unfolding learn
  meet-HasSelf known q s h = ground (arith, h, (is_member-add-remove q info s.ring).0)

  -- An exchange with another node never takes a node out of its own ring, whatever the reply is and
  -- also where there is none.
  pub gossip_with-HasSelf :
      (p : NodeInfo) (s : State S)
      → node_eq p info ≡ false
      → is_member info s.ring.members ≡ true
      → is_member info (gossip_with info pool p s).ring.members ≡ true
  unfolding gossip_with evict
  gossip_with-HasSelf p s other h =
      let (r, t) = execute info pool p (list_message info pool) s in
      settle-keeps info pool HasSelf p meet-HasSelf
        (λ t k. ground (arith, k, other, (is_member-add-remove p info t.ring).1)) r t h
