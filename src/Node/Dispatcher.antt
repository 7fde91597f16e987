-- ===== src/Node/Dispatcher.antt =====
-- dlstorage/node/dispatcher.py: a request against the local store. `now` and `clock` are the two
-- clocks that the store reads.
use dlstorage.Base.{Text, codes, ℤ, pos, Bool, true, Option, none, some, ◌++◌, if◌then◌else◌}
use dlstorage.Action.{Action, pure, lift, call, ◌>>=◌}
use dlstorage.Types.{MessageType, Message, Payload, empty_payload, item, field_of, type_name}
use dlstorage.Store.Lww
use dlstorage.Store.Lww.{LocalLwwStore, Versioned}

abbrev pub reply : MessageType → Payload → Message
reply type payload = record { type = type; payload = some payload }

abbrev pub get_reply : Text → Option Versioned → Message
get_reply key none =
    reply MessageType.not_found (record empty_payload { key = some key; ts = some (pos 0) })
get_reply key (some (value, ts, is_tombstone)) =
    if is_tombstone
    then reply MessageType.not_found
        (record empty_payload { key = some key; ts = some ts; tombstone = some true })
    else reply MessageType.ok_reply
        (record empty_payload { key = some key; value = some value; ts = some ts })

abbrev pub delete_reply : Text → Bool → Message
delete_reply key deleted =
    if deleted
    then reply MessageType.ok_reply (record empty_payload { key = some key })
    else reply MessageType.not_found (record empty_payload { key = some key })

on_get : ℤ → Option Payload → Action LocalLwwStore Message
on_get now payload = do
  key ← lift (item (λ p. p.key) payload)
  entry ← call (Lww.get_versioned now key)
  pure (get_reply key entry)

-- What `store.set` returns is dropped.
on_set : ℤ → ℤ → Option Payload → Action LocalLwwStore Message
on_set now clock payload = do
  key ← lift (item (λ p. p.key) payload)
  value ← lift (item (λ p. p.value) payload)
  ttl ← lift (field_of (λ p. p.ttl) payload)
  ts ← lift (field_of (λ p. p.ts) payload)
  stored ← call (Lww.set now clock key value ttl ts)
  pure (reply MessageType.ok_reply (record empty_payload { key = some key }))

on_delete : ℤ → Option Payload → Action LocalLwwStore Message
on_delete clock payload = do
  key ← lift (item (λ p. p.key) payload)
  ts ← lift (field_of (λ p. p.ts) payload)
  deleted ← call (Lww.delete clock key ts)
  pure (delete_reply key deleted)

abbrev pub unknown_type : MessageType → Message
unknown_type type =
    reply MessageType.error
      (record empty_payload { error = some (codes "unknown message type: " ++ type_name type) })

by_type : ℤ → ℤ → MessageType → Option Payload → Action LocalLwwStore Message
by_type now clock MessageType.get payload = on_get now payload
by_type now clock MessageType.set payload = on_set now clock payload
by_type now clock MessageType.delete payload = on_delete clock payload
by_type now clock other payload = pure (unknown_type other)

unfoldable pub dispatch : ℤ → ℤ → Message → Action LocalLwwStore Message
unfolding by_type on_get on_set on_delete item field_of
dispatch now clock msg = by_type now clock msg.type msg.payload
