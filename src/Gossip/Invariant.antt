-- ===== src/Gossip/Invariant.antt =====
-- What holds of a node's ring and discovery whatever the other nodes send.
use dlstorage.Base.{
  Bool, true, false, Option, none, some, List, [], ◌∷◌, if◌then◌else◌, ◌≡◌, arith, Bool-cases, inl,
  inr,
}
use dlstorage.Result.{Result, ok, raise}
use dlstorage.Action.{continue}
use dlstorage.Types.{
  NodeInfo, node_eq, from_dict, MessageType, Message, PeerDict, Payload, field_of,
}
use dlstorage.Ring.{is_member}
use dlstorage.Ring.Members.{
  IsSetOfNodes, is_member-add-remove, is_member-filter, add-remove-IsSetOfNodes,
  IsSetOfNodes-filter,
}
use dlstorage.Discovery.{Discovery, gossip, add_peer, remove_peer}
use dlstorage.Handle.{ConnectionPool}
use dlstorage.Gossip.{
  State, discover, undiscover, done_reply, evict, meet, greet, absorb, settle, handle_message,
  handle_type, peer_of, by_reply_type, evict_on_raise, learn, peers_of,
}

module _ {S : Type 0} (info : NodeInfo) (pool : ConnectionPool S) (P : State S → Type 0) where
  absorb-keeps :
      ((known : List NodeInfo) (q : NodeInfo) (s : State S) → P s → P (meet info pool known q s))
      → (known : List NodeInfo) (raws : List PeerDict) (s : State S) → P s
      → P (absorb info pool known raws s).1
  unfolding absorb
  absorb-keeps met known [] s h = h
  absorb-keeps met known (raw ∷ raws) s h =
      go (from_dict raw)
        (λ q. absorb-keeps met known raws (meet info pool known q s) (met known q s h))
    where
      go :
          (r : Result NodeInfo)
          → ((q : NodeInfo) → P (absorb info pool known raws (meet info pool known q s)).1)
          → P (continue r (λ p t. absorb info pool known raws (meet info pool known p t)) s).1
      go (ok q) k = k q
      go (raise e) k = h

  -- What the meeting of a peer and the eviction of this one keep, an exchange with it keeps.
  pub settle-keeps :
      (p : NodeInfo)
      → ((known : List NodeInfo) (q : NodeInfo) (s : State S) → P s → P (meet info pool known q s))
      → ((s : State S) → P s → P (evict info pool p s))
      → (r : Result (Option Message)) (s : State S) → P s
      → P (settle info pool p r s)
  unfolding settle field_of
  settle-keeps p met evicted (raise e) s h = evicted s h
  settle-keeps p met evicted (ok none) s h = evicted s h
  settle-keeps p met evicted (ok (some m)) s h = by_type m.type m.payload
    where
      on_result : (x : Result {0} Unit × State S) → P x.1 → P (evict_on_raise info pool p x)
      on_result (ok u, t) k = k
      on_result (raise e, t) k = evicted t k

      by_type :
          (type : MessageType) (payload : Option Payload)
          → P (evict_on_raise info pool p (by_reply_type info pool type payload s))
      by_type MessageType.peer_list none = evicted s h
      by_type MessageType.peer_list (some load) =
          on_result (absorb info pool s.ring.members (peers_of load.peers) s)
            (absorb-keeps met s.ring.members (peers_of load.peers) s h)
      by_type other payload = h

  -- What the greeting and the eviction of any peer keep, the handling of a message keeps.
  pub handle_message-keeps :
      ((q : NodeInfo) (s : State S) → P s → P (greet info pool q s))
      → ((q : NodeInfo) (s : State S) → P s → P (evict info pool q s))
      → (msg : Message) (s : State S) → P s
      → P (handle_message info pool msg s).1
  unfolding handle_message
  handle_message-keeps greeted evicted msg s h = by_type msg.type
    where
      on_announce :
          (r : Result NodeInfo)
          → P (continue r (λ q t. (ok (done_reply info pool), greet info pool q t)) s).1
      on_announce (ok q) = greeted q s h
      on_announce (raise e) = h

      on_leave :
          (r : Result NodeInfo)
          → P (continue r (λ q t. (ok (done_reply info pool), evict info pool q t)) s).1
      on_leave (ok q) = evicted q s h
      on_leave (raise e) = h

      by_type : (type : MessageType) → P (handle_type info pool type msg.payload s).1
      by_type MessageType.ping = h
      by_type MessageType.peer_list = h
      by_type MessageType.peer_announce = on_announce (peer_of info pool msg.payload)
      by_type MessageType.peer_leave = on_leave (peer_of info pool msg.payload)
      by_type other = h

-- The peers that gossip has found.
abbrev pub found : Discovery → List NodeInfo
found (gossip d) = d.peers
found other = []

-- The ring and the found peers are sets, and every found peer is in the ring.
pub record IsValid {S : Type 0} (s : State S) : Type 0 where
  pub ring_set : IsSetOfNodes s.ring.members
  pub found_set : IsSetOfNodes (found s.discovery)
  pub known :
      (k : NodeInfo) → is_member k (found s.discovery) ≡ true → is_member k s.ring.members ≡ true

discover-set :
    (q : NodeInfo) (d : Discovery) → IsSetOfNodes (found d) → IsSetOfNodes (found (discover q d))
unfolding add_peer
discover-set q (gossip d) h = elim (Bool-cases (is_member q d.peers)) [
  | inl old ↦ rw old h
  | inr new ↦ rw new (new, h)
]
discover-set q other h = tt

discover-member :
    (q k : NodeInfo) (d : Discovery)
    → is_member k (found (discover q d)) ≡ true
    → (if node_eq q k then true else is_member k (found d)) ≡ true
unfolding add_peer is_member
discover-member q k (gossip d) h = ground (arith, h)
discover-member q k other h = ground (arith, h)

undiscover-set :
    (q : NodeInfo) (d : Discovery) → IsSetOfNodes (found d) → IsSetOfNodes (found (undiscover q d))
unfolding remove_peer
undiscover-set q (gossip d) h = IsSetOfNodes-filter q d.peers h
undiscover-set q other h = tt

undiscover-member :
    (q k : NodeInfo) (d : Discovery)
    → is_member k (found (undiscover q d)) ≡ true
    → (if node_eq q k then false else is_member k (found d)) ≡ true
unfolding remove_peer is_member
undiscover-member q k (gossip d) h = ground (arith, h, is_member-filter q k d.peers)
undiscover-member q k other h = ground (arith, h)

module _ {S : Type 0} where
  pub learn-IsValid : (q : NodeInfo) (s : State S) → IsValid s → IsValid (learn q s)
  unfolding learn
  learn-IsValid q s h = record {
    ring_set = (add-remove-IsSetOfNodes q s.ring h.ring_set).0;
    found_set = discover-set q s.discovery h.found_set;
    known = λ k at_k. ground (
      arith,
      discover-member q k s.discovery at_k,
      h.known k,
      (is_member-add-remove q k s.ring).0,
    );
  }

  pub evict-IsValid :
      (info : NodeInfo) (pool : ConnectionPool S) (q : NodeInfo) (s : State S)
      → IsValid s
      → IsValid (evict info pool q s)
  unfolding evict
  evict-IsValid info pool q s h = record {
    ring_set = (add-remove-IsSetOfNodes q s.ring h.ring_set).1;
    found_set = undiscover-set q s.discovery h.found_set;
    known = λ k at_k. ground (
      arith,
      undiscover-member q k s.discovery at_k,
      h.known k,
      (is_member-add-remove q k s.ring).1,
    );
  }

  pub IsValid-if : (b : Bool) (s t : State S) → IsValid s → IsValid t → IsValid (if b then s else t)
  IsValid-if true s t hs ht = hs
  IsValid-if false s t hs ht = ht
