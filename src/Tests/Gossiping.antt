-- ===== src/Tests/Gossiping.antt =====
-- Gossip, discovery and the wire format on small inputs.
use dlstorage.Base.{
  ℕ, suc, pos, text_eq, any, true, false, if◌then◌else◌, Bytes, none, some, [], ◌∷◌, ◌&&◌, ◌||◌,
  ◌≡◌, refl, arith, to_bytes,
}
use dlstorage.Result.{Result, ok, raise}
use dlstorage.Types.{NodeInfo, node_eq, address, Message, MessageType, empty_payload}
use dlstorage.Ring.{is_member, differs}
use dlstorage.Discovery.{gossip, static}
use dlstorage.Handle.{ConnectionPool, cancelled}
use dlstorage.Gossip.{
  State, others, announce_join, announce_leave, list_message, handle_message, gossip_with,
}
use dlstorage.Gossip.Learned.{gossip_with_lem}
use dlstorage.Gossip.Invariant.{IsValid}
use dlstorage.Gossip.History.{received, exchanged, answered, history, history-IsValid}
use dlstorage.Gossip.Announce.{announcement}
use dlstorage.Wire.{Socket, send_message, recv_message, recv_message_async, recv_exactly}
use dlstorage.Wire.Stream.{stream}
use dlstorage.Wire.Frames.{recv_message-send_message}
use dlstorage.Node.Server.{NodeState, respond, handle_client}
use dlstorage.Node.Server.Replies.{Session, handle_client_lem}
use dlstorage.Node.Server.Async.{Peer, async_handle_client, async_handle_client-handle_client}
use dlstorage.Node.Server.Errors.{Outcome, has_fields, respond_lem}
use dlstorage.Gossip.Peers.{Town, town, announce-town}
use dlstorage.Tests.Samples.{stocked, node_a, node_b, node_c, ring_ab, ring_abc}

-- A pool that counts its calls and reaches nobody.
abbrev deaf : ConnectionPool ℕ
deaf = record {
  execute = λ host port msg n. (ok none, suc n);
  close_peer = λ host port n. n;
  close_all = λ n. 0;
}

abbrev state_ab : State ℕ
state_ab = record {
  ring = ring_ab;
  discovery = gossip (record { seed = node_b; peers = node_b ∷ [] });
  pool = 0;
}

abbrev state_abc : State ℕ
state_abc = record {
  ring = ring_abc;
  discovery = gossip (record { seed = node_b; peers = [] });
  pool = 0;
}

abbrev list_reply : Message
list_reply =
    (handle_message_answer (handle_message node_b deaf (list_message node_a deaf) state_abc).0)
  where
    handle_message_answer : Result Message → Message
    handle_message_answer (ok m) = m
    handle_message_answer (raise e) = record { type = MessageType.error; payload = none }

-- A pool that hands out that answer.
abbrev talking : ConnectionPool ℕ
talking = record deaf { execute = λ host port msg n. (ok (some list_reply), suc n) }

gossip_with_lem_example :
    is_member node_c (gossip_with node_a talking node_b state_ab).ring.members ≡ (
      is_member node_c ring_ab.members
      || (is_member node_c ring_abc.members && (differs node_a node_c && differs node_b node_c)))
unfolding handle_message
gossip_with_lem_example =
    gossip_with_lem node_a talking node_b node_c deaf state_ab state_abc state_abc list_reply 1 refl
      refl

state_ab-IsValid : IsValid state_ab
unfolding is_member node_eq address text_eq dlstorage.Types.Decimal.str_int
state_ab-IsValid = record {
  ring_set = (refl, (refl, tt));
  found_set = (refl, tt);
  known = λ k at_k. ground (arith, at_k);
}

history-IsValid_example : IsValid (
    history node_a deaf
      (received (announcement node_c) ∷ exchanged node_b ∷ answered node_c cancelled ∷ [])
      state_ab)
history-IsValid_example =
    history-IsValid node_a deaf
      (received (announcement node_c) ∷ exchanged node_b ∷ answered node_c cancelled ∷ []) state_ab
      state_ab-IsValid

-- A pickle of one byte.
abbrev ping : Message
ping = record { type = MessageType.ping; payload = none }

abbrev toy_dumps : Message → Bytes
toy_dumps m = 7 ∷ []

abbrev toy_loads : Bytes → Result Message
toy_loads b = ok ping

abbrev fresh : Socket
fresh = record { incoming = []; sent = [] }

-- A frame in three pieces, the last of which has a byte of the next frame.
abbrev pieces : Socket
pieces = record { incoming = (0 ∷ 0 ∷ []) ∷ (0 ∷ []) ∷ (1 ∷ 7 ∷ 9 ∷ []) ∷ []; sent = [] }

recv_message-send_message_example :
    ((recv_message toy_loads pieces).0 ≡ ok ping)
    × (stream (recv_message toy_loads pieces).1.incoming ≡ 9 ∷ [])
unfolding send_message dlstorage.Wire.frame dlstorage.Wire.header to_bytes stream
recv_message-send_message_example =
    recv_message-send_message toy_dumps toy_loads ping (9 ∷ []) fresh
      (record { incoming = []; sent = 0 ∷ 0 ∷ 0 ∷ 1 ∷ 7 ∷ [] }) pieces refl refl
      (omega arith, (omega arith, (omega arith, tt))) refl

-- A node that serves one client, whose request comes in three pieces.
abbrev serving : NodeState ℕ
serving = record { peers = state_ab; store = stocked }

abbrev one_request : Socket
one_request = record { incoming = (0 ∷ 0 ∷ []) ∷ (0 ∷ []) ∷ (1 ∷ 7 ∷ []) ∷ []; sent = [] }

handle_client_lem_example :
    ((handle_client toy_dumps toy_loads
        (respond node_a deaf (pos 1) (pos 1))
        2
        one_request
        serving).0.sent
      ≡ 0 ∷ 0 ∷ 0 ∷ 1 ∷ 7 ∷ [])
    × ((handle_client toy_dumps toy_loads
          (respond node_a deaf (pos 1) (pos 1))
          2
          one_request
          serving).1
        ≡ serving)
unfolding dlstorage.Wire.frame dlstorage.Wire.header to_bytes respond handle_message stream
    dlstorage.Types.is_gossip
handle_client_lem_example =
    handle_client_lem toy_dumps toy_loads (respond node_a deaf (pos 1) (pos 1)) 2 one_request
      (Session.request {msg = ping} refl refl refl refl Session.closed) (omega arith)
      (omega arith, (omega arith, (omega arith, tt))) refl

abbrev one_peer : Peer
one_peer = record { reader = 0 ∷ 0 ∷ 0 ∷ 1 ∷ 7 ∷ []; writer = [] }

abbrev answer_ping : Message → dlstorage.Action.Action (NodeState ℕ) Message
answer_ping = respond node_a deaf (pos 1) (pos 1)

async_handle_client-handle_client_example :
    ((handle_client toy_dumps toy_loads answer_ping 6 one_request serving).0.sent
      ≡ (async_handle_client toy_dumps toy_loads answer_ping 6 one_peer serving).0.writer)
    × ((handle_client toy_dumps toy_loads answer_ping 6 one_request serving).1
        ≡ (async_handle_client toy_dumps toy_loads answer_ping 6 one_peer serving).1)
unfolding stream
async_handle_client-handle_client_example =
    async_handle_client-handle_client toy_dumps toy_loads answer_ping 6 one_request one_peer serving
      (omega arith, (omega arith, (omega arith, tt))) refl refl

-- A GET without a key.
abbrev no_key : Message
no_key = record { type = MessageType.get; payload = some empty_payload }

respond_lem_example : Outcome (has_fields no_key) (answer_ping no_key serving) serving
respond_lem_example = respond_lem node_a deaf (pos 1) (pos 1) no_key serving

-- Every peer's ring is empty, and the node that announces itself knows two peers.
abbrev quiet_town : Town
quiet_town n = record { ring = record { members = [] }; discovery = static []; pool = tt }

abbrev newcomer : State Town
newcomer = record { ring = ring_abc; discovery = static []; pool = quiet_town }

announce-town_example :
    let told = any (λ n. node_eq n node_b) (others node_a town newcomer.ring.members) in
    let old = is_member node_a (newcomer.pool node_b).ring.members in
    let (r, t) = announce_join node_a town newcomer in
    let (r', t') = announce_leave node_a town newcomer in
    (r ≡ ok tt)
    × (is_member node_a (t.pool node_b).ring.members
        ≡ (if told && node_eq node_a node_a then true else old))
    × (r' ≡ ok tt)
    × (is_member node_a (t'.pool node_b).ring.members
        ≡ (if told && node_eq node_a node_a then false else old))
announce-town_example = announce-town node_a newcomer node_a node_b
