-- ===== src/Node/Handles.antt =====
-- The replica handles of dlstorage/node/sync.py and async_.py.
pub mod Remote
use dlstorage.Base.{Text, ℤ, pos, ltb_ℤ, Bool, true, false, Option, none, some, if◌then◌else◌}
use dlstorage.Action.{Action, pure, lift, call, ◌>>=◌}
use dlstorage.Result.{Result, ok, raise, attribute_error}
use dlstorage.Types.{NodeInfo, MessageType, Message, Payload, empty_payload, Value, null}
use dlstorage.Store.Lww
use dlstorage.Store.Lww.{LocalLwwStore, Versioned, value_of}
use dlstorage.Handle.{ReplicaHandle, ConnectionPool}

-- `_SyncLocalHandle`, over the store of the node itself
unfoldable pub local_handle : ℤ → ℤ → ReplicaHandle LocalLwwStore
local_handle now clock = record {
  get_versioned = λ key. call (Lww.get_versioned now key);
  set = λ key value ttl ts. call (Lww.set now clock key value ttl (some ts));
  delete = λ key ts. call (Lww.delete clock key (some ts));
}

-- `resp.payload`, on which the handle calls `get`
abbrev payload_of : Message → Result Payload
payload_of m = elim m.payload [ none ↦ raise attribute_error | some p ↦ ok p ]

abbrev get_or {ℓ} : {A : Type ℓ} → A → Option A → A
get_or a none = a
get_or a (some b) = b

abbrev ok_version : Payload → Option Versioned
ok_version p = some (get_or null p.value, get_or (pos 0) p.ts, false)

abbrev missing_version : Payload → Option Versioned
missing_version p =
    let ts = get_or (pos 0) p.ts in
    if ltb_ℤ (pos 0) ts then some (null, ts, get_or false p.tombstone) else none

version_of : MessageType → Result Payload → Result (Option Versioned)
version_of MessageType.ok_reply (ok p) = ok (ok_version p)
version_of MessageType.ok_reply (raise e) = raise e
version_of MessageType.not_found (ok p) = ok (missing_version p)
version_of MessageType.not_found (raise e) = raise e
version_of other r = ok none

-- What a reply to GET says about the key.
read_reply : Option Message → Result (Option Versioned)
read_reply none = ok none
read_reply (some m) = version_of m.type (payload_of m)

-- `resp.type == MessageType.OK`
is_ok_type : MessageType → Bool
is_ok_type MessageType.ok_reply = true
is_ok_type _ = false

-- `resp is not None and resp.type == MessageType.OK`
is_ok : Option Message → Bool
is_ok none = false
is_ok (some m) = is_ok_type m.type

abbrev pub get_message : Text → Message
get_message key = record {
  type = MessageType.get;
  payload = some (record empty_payload { key = some key });
}

-- The key `ttl` is there only where a time to live is given.
abbrev pub set_message : Text → Value → Option ℤ → ℤ → Message
set_message key value ttl ts = record {
  type = MessageType.set;
  payload =
      some (record empty_payload { key = some key; value = some value; ts = some ts; ttl = ttl });
}

abbrev pub delete_message : Text → ℤ → Message
delete_message key ts = record {
  type = MessageType.delete;
  payload = some (record empty_payload { key = some key; ts = some ts });
}

-- `_SyncRemoteHandle`, over a connection pool
unfoldable pub remote_handle : {S : Type 0} → NodeInfo → ConnectionPool S → ReplicaHandle S
unfolding read_reply version_of is_ok is_ok_type
remote_handle node pool = record {
  get_versioned = λ key. do
    resp ← pool.execute node.host node.port (get_message key)
    lift (read_reply resp);
  set = λ key value ttl ts. do
    resp ← pool.execute node.host node.port (set_message key value ttl ts)
    pure (is_ok resp);
  delete = λ key ts. do
    resp ← pool.execute node.host node.port (delete_message key ts)
    pure (is_ok resp);
}

-- `get` of a remote handle
unfoldable pub remote_get : {S : Type 0} → NodeInfo → ConnectionPool S → Text → Action S Value
unfolding remote_handle
remote_get node pool key = do
  result ← (remote_handle node pool).get_versioned key
  pure (value_of result)

-- The handles of dlstorage/node/async_.py have the same bodies, with an `await` at each call.
abbrev pub async_local_handle : ℤ → ℤ → ReplicaHandle LocalLwwStore
async_local_handle = local_handle

abbrev pub async_remote_handle : {S : Type 0} → NodeInfo → ConnectionPool S → ReplicaHandle S
async_remote_handle = remote_handle
