-- ===== src/Types.antt =====
-- dlstorage/types.py: message types, node identities, messages and their payloads.
pub mod Decimal
pub mod Address
use dlstorage.Base.{
  Text, codes, text_eq, ℕ, ℤ, Bool, true, false, List, Option, none, some, if◌then◌else◌, ◌++◌, ◌∷◌,
  [], ◌==◌,
}
use dlstorage.Result.{
  Result, ok, raise, key_error, value_error, type_error, attribute_error, or_raise, ◌>>=◌,
}
use Decimal.{str_int, int_text}

pub data MessageType : Type 0 where
  ping pong peer_list peer_announce peer_leave : MessageType
  get set delete : MessageType
  ok_reply not_found error : MessageType

unfoldable pub is_gossip : MessageType → Bool
is_gossip ping = true
is_gossip pong = true
is_gossip peer_list = true
is_gossip peer_announce = true
is_gossip peer_leave = true
is_gossip _ = false

-- `MessageType.X.value`
unfoldable pub type_value : MessageType → Text
type_value ping = codes "ping"
type_value pong = codes "pong"
type_value peer_list = codes "peer_list"
type_value peer_announce = codes "peer_announce"
type_value peer_leave = codes "peer_leave"
type_value get = codes "get"
type_value set = codes "set"
type_value delete = codes "delete"
type_value ok_reply = codes "ok"
type_value not_found = codes "not_found"
type_value error = codes "error"

-- The members of the enumeration, in its order.
abbrev pub message_types : List MessageType
message_types =
    ping ∷ pong ∷ peer_list ∷ peer_announce ∷ peer_leave ∷ get ∷ set ∷ delete ∷ ok_reply ∷ not_found
    ∷ error ∷ []

with_value : Text → List MessageType → Result MessageType
with_value v [] = raise value_error
with_value v (t ∷ ts) = if text_eq (type_value t) v then ok t else with_value v ts

-- `MessageType(v)`
unfoldable pub message_type : Text → Result MessageType
unfolding with_value type_value
message_type v = with_value v message_types

-- `str(t)`, which an f-string shows
unfoldable pub type_name : MessageType → Text
type_name ping = codes "MessageType.PING"
type_name pong = codes "MessageType.PONG"
type_name peer_list = codes "MessageType.PEER_LIST"
type_name peer_announce = codes "MessageType.PEER_ANNOUNCE"
type_name peer_leave = codes "MessageType.PEER_LEAVE"
type_name get = codes "MessageType.GET"
type_name set = codes "MessageType.SET"
type_name delete = codes "MessageType.DELETE"
type_name ok_reply = codes "MessageType.OK"
type_name not_found = codes "MessageType.NOT_FOUND"
type_name error = codes "MessageType.ERROR"

-- A Python value that a client stores; only `None` is told apart from the rest.
pub data Value : Type 0 where
  null : Value
  bool : Bool → Value
  int : ℤ → Value
  str : Text → Value
  object : ℕ → Value

-- `value is not None`
abbrev pub is_some_value : Value → Bool
is_some_value null = false
is_some_value _ = true

pub record NodeInfo : Type 0 where
  pub host : Text
  pub port : ℤ

-- `f"{self.host}:{self.port}"`
unfoldable pub address : NodeInfo → Text
address n = n.host ++ (b':' ∷ str_int n.port)

-- `__eq__`: two nodes are one if their addresses are.
unfoldable pub node_eq : NodeInfo → NodeInfo → Bool
node_eq a b = text_eq (address a) (address b)

-- The dictionary of a node; a key may be missing.
pub record PeerDict : Type 0 where
  pub host : Option Text
  pub port : Option ℤ

unfoldable pub to_dict : NodeInfo → PeerDict
to_dict n = record { host = some n.host; port = some n.port }

unfoldable pub from_dict : PeerDict → Result NodeInfo
from_dict d = do
  host ← or_raise key_error d.host
  port ← or_raise key_error d.port
  ok (record { host = host; port = port })

-- `address.rsplit(":", 1)`, as the two parts of the last split
unfoldable pub rsplit : ℕ → Text → Option (Text × Text)
rsplit sep [] = none
rsplit sep (c ∷ cs) = elim (rsplit sep cs) [
  | some (before, after) ↦ some (c ∷ before, after)
  | none ↦ if c == sep then some ([], cs) else none
]

unfoldable pub from_address : Text → Result NodeInfo
from_address text = do
  (host, port_text) ← or_raise value_error (rsplit b':' text)
  port ← or_raise value_error (int_text port_text)
  ok (record { host = host; port = port })

-- The payload dictionary of a message, a field for each key that the program writes or reads.
pub record Payload : Type 0 where
  pub key : Option Text
  pub value : Option Value
  pub ts : Option ℤ
  pub ttl : Option ℤ
  pub tombstone : Option Bool
  pub error : Option Text
  pub peer : Option PeerDict
  pub peers : Option (List PeerDict)
  pub requester : Option PeerDict
  pub node : Option PeerDict

-- `{}`
abbrev pub empty_payload : Payload
empty_payload = record {
  key = none;
  value = none;
  ts = none;
  ttl = none;
  tombstone = none;
  error = none;
  peer = none;
  peers = none;
  requester = none;
  node = none;
}

pub record Message : Type 0 where
  pub type : MessageType
  pub payload : Option Payload

-- `msg.payload[...]`: `None` is not subscriptable, and a missing key raises.
unfoldable pub item {ℓ} : {A : Type ℓ} → (Payload → Option A) → Option Payload → Result A
item field none = raise type_error
item field (some p) = or_raise key_error (field p)

-- `msg.payload.get(...)`: `None` has no method `get`, and a missing key gives `None`.
unfoldable pub field_of {ℓ} :
    {A : Type ℓ} → (Payload → Option A) → Option Payload → Result (Option A)
field_of field none = raise attribute_error
field_of field (some p) = ok (field p)

-- The dictionary of a message; a key may be missing.
pub record MessageDict : Type 0 where
  pub type : Option Text
  pub payload : Option Payload

unfoldable pub message_to_dict : Message → MessageDict
message_to_dict m = record { type = some (type_value m.type); payload = m.payload }

unfoldable pub message_from_dict : MessageDict → Result Message
message_from_dict d = do
  value ← or_raise key_error d.type
  type ← message_type value
  ok (record { type = type; payload = d.payload })
