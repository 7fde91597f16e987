-- ===== src/Node/Server/Errors.antt =====
-- Requests of a client that a node cannot read, in dlstorage/node/dispatcher.py and
-- dlstorage/peer_comm/gossip.py.
use dlstorage.Base.{
  Text, ℤ, Bool, true, false, not, Option, none, some, ◌&&◌, ◌≡◌, refl, ap, Bool-cases, inl, inr,
}
use dlstorage.Result.{Result, ok, raise, Error}
use dlstorage.Types.{
  NodeInfo, MessageType, Message, Payload, PeerDict, Value, item, field_of, from_dict, is_gossip,
}
use dlstorage.Handle.{ConnectionPool}
use dlstorage.Store.Lww.{LocalLwwStore}
use dlstorage.Node.Dispatcher.{dispatch}
use dlstorage.Gossip.{State, handle_message}
use dlstorage.Node.Server.{NodeState, respond}

abbrev pub is_some {ℓ} : {A : Type ℓ} → Option A → Bool
is_some none = false
is_some (some a) = true

abbrev pub is_peer : Option PeerDict → Bool
is_peer none = false
is_peer (some d) = is_some d.host && is_some d.port

abbrev pub fields_of_type : MessageType → Payload → Bool
fields_of_type MessageType.get p = is_some p.key
fields_of_type MessageType.set p = is_some p.key && is_some p.value
fields_of_type MessageType.delete p = is_some p.key
fields_of_type MessageType.peer_announce p = is_peer p.peer
fields_of_type MessageType.peer_leave p = is_peer p.peer
fields_of_type other p = true

abbrev pub needs_payload : MessageType → Bool
needs_payload MessageType.get = true
needs_payload MessageType.set = true
needs_payload MessageType.delete = true
needs_payload MessageType.peer_announce = true
needs_payload MessageType.peer_leave = true
needs_payload other = false

-- The request has the fields that its type needs.
abbrev pub has_fields : Message → Bool
has_fields m = elim m.payload [
  | none ↦ not (needs_payload m.type)
  | some p ↦ fields_of_type m.type p
]

-- It is answered, or an exception leaves the state as it was.
abbrev pub Outcome : {S : Type 0} → Bool → Result Message × S → S → Type 0
Outcome true (r, t) s = (reply : Message) × (r ≡ ok reply)
Outcome false (r, t) s = ((e : Error) × (r ≡ raise e)) × (t ≡ s)

dispatch_outcome :
    (now clock : ℤ) (type : MessageType) (payload : Option Payload) (s : LocalLwwStore)
    → is_gossip type ≡ false
    → let m : Message = record { type = type; payload = payload } in
      Outcome (has_fields m) (dispatch now clock m s) s
unfolding dispatch is_gossip item field_of
dispatch_outcome now clock MessageType.ping payload s h = absurd cc
dispatch_outcome now clock MessageType.pong payload s h = absurd cc
dispatch_outcome now clock MessageType.peer_list payload s h = absurd cc
dispatch_outcome now clock MessageType.peer_announce payload s h = absurd cc
dispatch_outcome now clock MessageType.peer_leave payload s h = absurd cc
dispatch_outcome now clock MessageType.get none s h = ((_, refl), refl)
dispatch_outcome now clock MessageType.get (some p) s h = go p.key refl
  where
    go :
        (o : Option Text)
        → p.key ≡ o
        → Outcome
            (is_some p.key)
            (dispatch now clock (record { type = MessageType.get; payload = some p }) s)
            s
    go none e = rw e ((_, refl), refl)
    go (some k) e = rw e (_, refl)
dispatch_outcome now clock MessageType.set none s h = ((_, refl), refl)
dispatch_outcome now clock MessageType.set (some p) s h = go p.key p.value refl refl
  where
    go :
        (o : Option Text) (v : Option Value)
        → p.key ≡ o
        → p.value ≡ v
        → Outcome
            (is_some p.key && is_some p.value)
            (dispatch now clock (record { type = MessageType.set; payload = some p }) s)
            s
    go none v e f = rw e ((_, refl), refl)
    go (some k) none e f = rw (e, f) ((_, refl), refl)
    go (some k) (some v) e f = rw (e, f) (_, refl)
dispatch_outcome now clock MessageType.delete none s h = ((_, refl), refl)
dispatch_outcome now clock MessageType.delete (some p) s h = go p.key refl
  where
    go :
        (o : Option Text)
        → p.key ≡ o
        → Outcome
            (is_some p.key)
            (dispatch now clock (record { type = MessageType.delete; payload = some p }) s)
            s
    go none e = rw e ((_, refl), refl)
    go (some k) e = rw e (_, refl)
dispatch_outcome now clock MessageType.ok_reply none s h = (_, refl)
dispatch_outcome now clock MessageType.ok_reply (some p) s h = (_, refl)
dispatch_outcome now clock MessageType.not_found none s h = (_, refl)
dispatch_outcome now clock MessageType.not_found (some p) s h = (_, refl)
dispatch_outcome now clock MessageType.error none s h = (_, refl)
dispatch_outcome now clock MessageType.error (some p) s h = (_, refl)

lift_outcome :
    {A B : Type 0} (readable : Bool) (x : Result Message × A) (a : A) (f : A → B)
    → Outcome readable x a
    → Outcome readable (x.0, f x.1) (f a)
lift_outcome true (r, b) a f h = h
lift_outcome false (r, b) a f (failed, same) = (failed, ap f same)

module _ {S : Type 0} (info : NodeInfo) (pool : ConnectionPool S) where
  abbrev Handled : MessageType → Payload → State S → Type 0
  Handled type p s =
      let m : Message = record { type = type; payload = some p } in
      Outcome (has_fields m) (handle_message info pool m s) s

  peer_outcome :
      (p : Payload) (s : State S)
      → Handled MessageType.peer_announce p s × Handled MessageType.peer_leave p s
  unfolding handle_message item from_dict
  peer_outcome p s = go p.peer refl
    where
      of_dict :
          (d : PeerDict) (host : Option Text) (port : Option ℤ)
          → p.peer ≡ some d
          → d.host ≡ host
          → d.port ≡ port
          → Handled MessageType.peer_announce p s × Handled MessageType.peer_leave p s
      of_dict d none port e f g = rw (e, f) (((_, refl), refl), ((_, refl), refl))
      of_dict d (some a) none e f g = rw (e, f, g) (((_, refl), refl), ((_, refl), refl))
      of_dict d (some a) (some b) e f g = rw (e, f, g) ((_, refl), (_, refl))

      go :
          (o : Option PeerDict)
          → p.peer ≡ o
          → Handled MessageType.peer_announce p s × Handled MessageType.peer_leave p s
      go none e = rw e (((_, refl), refl), ((_, refl), refl))
      go (some d) e = of_dict d d.host d.port e refl refl

  gossip_outcome :
      (type : MessageType) (payload : Option Payload) (s : State S)
      → is_gossip type ≡ true
      → let m : Message = record { type = type; payload = payload } in
        Outcome (has_fields m) (handle_message info pool m s) s
  unfolding handle_message is_gossip item
  gossip_outcome MessageType.ping none s h = (_, refl)
  gossip_outcome MessageType.ping (some p) s h = (_, refl)
  gossip_outcome MessageType.pong none s h = (_, refl)
  gossip_outcome MessageType.pong (some p) s h = (_, refl)
  gossip_outcome MessageType.peer_list none s h = (_, refl)
  gossip_outcome MessageType.peer_list (some p) s h = (_, refl)
  gossip_outcome MessageType.peer_announce none s h = ((_, refl), refl)
  gossip_outcome MessageType.peer_announce (some p) s h = (peer_outcome p s).0
  gossip_outcome MessageType.peer_leave none s h = ((_, refl), refl)
  gossip_outcome MessageType.peer_leave (some p) s h = (peer_outcome p s).1
  gossip_outcome MessageType.get payload s h = absurd cc
  gossip_outcome MessageType.set payload s h = absurd cc
  gossip_outcome MessageType.delete payload s h = absurd cc
  gossip_outcome MessageType.ok_reply payload s h = absurd cc
  gossip_outcome MessageType.not_found payload s h = absurd cc
  gossip_outcome MessageType.error payload s h = absurd cc

  -- A request whose payload has the fields that its type needs is answered. Any other raises, and
  -- leaves the store, the ring, the discovery and the pool of the node as they were.
  pub respond_lem :
      (now clock : ℤ) (m : Message) (n : NodeState S)
      → Outcome (has_fields m) (respond info pool now clock m n) n
  unfolding respond
  respond_lem now clock m n = elim (Bool-cases (is_gossip m.type)) [
    | inl gossip ↦ rw gossip (
        lift_outcome (has_fields m) (handle_message info pool m n.peers) n.peers
          (λ g. record n { peers = g }) (gossip_outcome m.type m.payload n.peers gossip))
    | inr data_request ↦ rw data_request (
        lift_outcome (has_fields m) (dispatch now clock m n.store) n.store
          (λ st. record n { store = st })
          (dispatch_outcome now clock m.type m.payload n.store data_request))
  ]
