-- ===== src/Node/Handles/Remote.antt =====
-- A remote handle on a peer that can be reached, against the local handle that the peer has.
use dlstorage.Base.{
  Text, ℤ, pos, ltb_ℤ, Bool, true, false, Option, none, some, if◌then◌else◌, ◌≡◌, refl, ap, arith,
}
use dlstorage.Result.{Result, ok, raise}
use dlstorage.Types.{NodeInfo, Message, Value, null}
use dlstorage.Store.Lww.{LocalLwwStore, Versioned, set, delete, get_versioned}
use dlstorage.Handle.{ConnectionPool}
use dlstorage.Node.Dispatcher.{dispatch, get_reply, delete_reply}
use dlstorage.Node.Handles.{local_handle, remote_handle, read_reply, version_of, is_ok, is_ok_type}

-- What reaches the caller: the reply, or nothing, since a server that raises drops the connection.
abbrev pub delivered : Result Message → Result (Option Message)
delivered (ok m) = ok (some m)
delivered (raise e) = ok none

-- A pool whose every request reaches a node with the given clocks.
abbrev pub connected : ℤ → ℤ → ConnectionPool LocalLwwStore
connected now clock = record {
  execute = λ host port msg s. let (r, s') = dispatch now clock msg s in (delivered r, s');
  close_peer = λ host port s. s;
  close_all = λ s. s;
}

-- A remote reader does not see a tombstone whose timestamp is zero or negative.
abbrev pub seen_remotely : Option Versioned → Option Versioned
seen_remotely none = none
seen_remotely (some (value, ts, is_tombstone)) =
    if is_tombstone
    then (if ltb_ℤ (pos 0) ts then some (null, ts, true) else none)
    else some (value, ts, false)

read-get_reply :
    (key : Text) (o : Option Versioned) → read_reply (some (get_reply key o)) ≡ ok (seen_remotely o)
unfolding read_reply version_of
read-get_reply key none = refl
read-get_reply key (some (value, ts, true)) = ground arith
read-get_reply key (some (value, ts, false)) = refl

is_ok-delete_reply :
    (key : Text) (deleted : Bool) → is_ok (some (delete_reply key deleted)) ≡ deleted
unfolding is_ok is_ok_type
is_ok-delete_reply key true = refl
is_ok-delete_reply key false = refl

module _ (now clock : ℤ) (node : NodeInfo) (key : Text) where
  -- A remote read leaves the peer's store as a local read does, and returns what a local read
  -- returns, but for tombstones whose timestamp is zero or negative.
  pub remote-get_versioned :
      (s : LocalLwwStore)
      → (remote_handle node (connected now clock)).get_versioned key s
        ≡ (ok (seen_remotely (get_versioned now key s).0), (get_versioned now key s).1)
  unfolding remote_handle dispatch
  remote-get_versioned s =
      ap (λ r. (r, (get_versioned now key s).1)) (read-get_reply key (get_versioned now key s).0)

  -- A remote write leaves the peer's store as a local write does. It reports success even where the
  -- local write reports that a newer entry refused it.
  pub remote-set :
      (value : Value) (ttl : Option ℤ) (ts : ℤ) (s : LocalLwwStore)
      → (remote_handle node (connected now clock)).set key value ttl ts s
        ≡ (ok true, (set now clock key value ttl (some ts) s).1)
  unfolding remote_handle dispatch
  remote-set value ttl ts s = refl

  -- A remote delete is the local one: the same store after it, and the same report.
  pub remote-delete :
      (ts : ℤ) (s : LocalLwwStore)
      → (remote_handle node (connected now clock)).delete key ts s
        ≡ (local_handle now clock).delete key ts s
  unfolding remote_handle dispatch local_handle
  remote-delete ts s =
      ap (λ r. (ok r, (delete clock key (some ts) s).1))
        (is_ok-delete_reply key (delete clock key (some ts) s).0)
