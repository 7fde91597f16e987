-- ===== src/Gossip/Announce.antt =====
-- Joining and leaving, on the side that announces and on the side that is told.
use dlstorage.Base.{true, false, some, List, [], ◌∷◌, if◌then◌else◌, ◌≡◌, ap, ◌∙◌, arith}
use dlstorage.Result.{ok}
use dlstorage.Action.{>>=-eq-ok}
use dlstorage.Types.{NodeInfo, node_eq, to_dict, from_dict, MessageType, Message}
use dlstorage.Types.Address.{node_eq_iff}
use dlstorage.Ring.{is_member}
use dlstorage.Ring.Members.{is_member-add-remove}
use dlstorage.Handle.{ConnectionPool}
use dlstorage.Gossip.{
  State, peer_payload, learn, evict, execute, greet, handle_message, send_all, async_send_all,
  broadcast, async_broadcast, others,
}

abbrev pub announcement : NodeInfo → Message
announcement p = record { type = MessageType.peer_announce; payload = some (peer_payload p) }

abbrev pub farewell : NodeInfo → Message
farewell p = record { type = MessageType.peer_leave; payload = some (peer_payload p) }

module _ {S : Type 0} (info : NodeInfo) (pool : ConnectionPool S) where
  greet-member :
      (p k : NodeInfo) (s : State S)
      → is_member k (greet info pool p s).ring.members
        ≡ (if node_eq p k then true else is_member k s.ring.members)
  unfolding learn
  greet-member p k s = ground (arith, (is_member-add-remove p k s.ring).0, node_eq_iff p k)

  -- A node that handles an announcement has the announced peer in its ring, and one that handles a
  -- farewell has it no longer; in both cases the other members are as before.
  pub handle_message_announced :
      (p k : NodeInfo) (s : State S)
      → (is_member k (handle_message info pool (announcement p) s).1.ring.members
          ≡ (if node_eq p k then true else is_member k s.ring.members))
        × (is_member k (handle_message info pool (farewell p) s).1.ring.members
            ≡ (if node_eq p k then false else is_member k s.ring.members))
  unfolding handle_message evict from_dict to_dict
  handle_message_announced p k s = (greet-member p k s, (is_member-add-remove p k s.ring).1)

  send_all-agree :
      (msg : Message) (ps : List NodeInfo) (s s' : State S) (u : Unit)
      → send_all info pool msg ps s ≡ (ok u, s')
      → async_send_all info pool msg ps s ≡ s'
  unfolding send_all async_send_all
  send_all-agree msg [] s s' u h = cc
  send_all-agree msg (p ∷ ps) s s' u h =
      let (r, t, sent, rest) = >>=-eq-ok (execute info pool p msg) _ s s' u h in
      ap (λ x. async_send_all info pool msg ps x.1) sent ∙ send_all-agree msg ps t s' u rest

  -- Where a broadcast of the sync version reaches every member without an exception, that of the
  -- async version, one message after the other, leaves the same state.
  pub async_broadcast-agree :
      (msg : Message) (s s' : State S) (u : Unit)
      → broadcast info pool msg s ≡ (ok u, s')
      → async_broadcast info pool msg s ≡ s'
  unfolding broadcast async_broadcast
  async_broadcast-agree msg s = send_all-agree msg (others info pool s.ring.members) s
