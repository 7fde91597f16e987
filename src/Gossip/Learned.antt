-- ===== src/Gossip/Learned.antt =====
-- What a node learns from a gossip exchange.
use dlstorage.Base.{
  not, ◌&&◌, ◌||◌, List, [], ◌∷◌, map, ◌≡◌, refl, ◌∙◌, arith, Bool-cases, inl, inr,
}
use dlstorage.Result.{ok}
use dlstorage.Types.{NodeInfo, node_eq, to_dict, from_dict}
use dlstorage.Types.Address.{node_eq_iff}
use dlstorage.Ring.{is_member, differs}
use dlstorage.Ring.Members.{is_member-add-remove, is_member-filter}
use dlstorage.Handle.{ConnectionPool}
use dlstorage.Gossip.{State, meet, absorb, learn}
use dlstorage.Base.{some, map, filter, refl, arith}
use dlstorage.Types.{MessageType, Message, empty_payload, field_of}
use dlstorage.Gossip.{settle, gossip_with, list_message, handle_message}

module _ {S : Type 0} (info : NodeInfo) (pool : ConnectionPool S) where
  meet-member :
      (known : List NodeInfo) (n k : NodeInfo) (s : State S)
      → is_member k (meet info pool known n s).ring.members ≡ (
          is_member k s.ring.members
          || (node_eq n k && (differs info k && not (is_member k known))))
  unfolding learn
  meet-member known n k s = elim (Bool-cases (node_eq n k)) [
    | inl same ↦ ground (arith, (is_member-add-remove n k s.ring).0, (node_eq_iff n k).0 same, same)
    | inr other ↦ ground (arith, (is_member-add-remove n k s.ring).0, other)
  ]

  -- The loop over the peers of a reply that names `ns`.
  absorb-member :
      (known ns : List NodeInfo) (k : NodeInfo) (s : State S)
      → ((absorb info pool known (map to_dict ns) s).0 ≡ ok tt)
        × (is_member k (absorb info pool known (map to_dict ns) s).1.ring.members ≡ (
            is_member k s.ring.members
            || (is_member k ns && (differs info k && not (is_member k known)))))
  unfolding absorb is_member to_dict from_dict
  absorb-member known [] k s = (refl, ground arith)
  absorb-member known (n ∷ ns) k s =
      let (done, rest) = absorb-member known ns k (meet info pool known n s) in
      (done, rest ∙ ground (arith, meet-member known n k s))

  -- What a peer with the members `ns` answers to a request for its list.
  abbrev pub list_of : NodeInfo → List NodeInfo → Message
  list_of peer ns = record {
    type = MessageType.peer_list;
    payload = some (record empty_payload { peers = some (map to_dict (filter (differs peer) ns)) });
  }

  answer-eq :
      {T : Type 0} (peer : NodeInfo) (pool' : ConnectionPool T) (t t' : State T) (m : Message)
      → handle_message peer pool' (list_message info pool) t ≡ (ok m, t')
      → m ≡ list_of peer t.ring.members
  unfolding handle_message
  answer-eq peer pool' t t' m h = cc

  -- The rest of the exchange, after that answer.
  settle-list :
      (peer k : NodeInfo) (ns : List NodeInfo) (s : State S)
      → is_member k (settle info pool peer (ok (some (list_of peer ns))) s).ring.members
        ≡ (is_member k s.ring.members || (is_member k ns && (differs info k && differs peer k)))
  unfolding settle field_of
  settle-list peer k ns s =
      let (done, members) = absorb-member s.ring.members (filter (differs peer) ns) k s in
      rw done (
        members
        ∙ ground (arith, is_member-filter peer k ns, node_eq_iff peer k, node_eq_iff k peer))

  -- A node that exchanges lists with a peer has, next to the members it had, exactly the peer's
  -- members but for the peer and itself: a peer that has left its ring does not come back so.
  pub gossip_with_lem :
      {T : Type 0} (peer k : NodeInfo) (pool' : ConnectionPool T) (s : State S) (t t' : State T)
      (m : Message) (u : S)
      → handle_message peer pool' (list_message info pool) t ≡ (ok m, t')
      → pool.execute peer.host peer.port (list_message info pool) s.pool ≡ (ok (some m), u)
      → is_member k (gossip_with info pool peer s).ring.members ≡ (
          is_member k s.ring.members
          || (is_member k t.ring.members && (differs info k && differs peer k)))
  unfolding gossip_with
  gossip_with_lem peer k pool' s t t' m u answered sent =
      rw (sent, answer-eq peer pool' t t' m answered)
        (settle-list peer k t.ring.members (record s { pool = u }))
