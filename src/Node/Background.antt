-- ===== src/Node/Background.antt =====
-- The background work of dlstorage/node/sync.py and async_.py on the store of a node: the loop that
-- purges it, between the requests that use it.
pub mod Twins
pub mod Unseen
use dlstorage.Base.{Text, ℤ, Option, none, some, List, [], ◌∷◌}
use dlstorage.Types.{Value}
use dlstorage.Store.Lww
use dlstorage.Store.Lww.{LocalLwwStore, Versioned, purge_expired}

-- `_purge_loop`, from what each wait of ten seconds comes to: the time at its end, or `none`
-- where the node stops.
unfoldable pub purge_loop : List (Option ℤ) → LocalLwwStore → LocalLwwStore
purge_loop [] s = s
purge_loop (none ∷ waits) s = s
purge_loop (some now ∷ waits) s = purge_loop waits (purge_expired now s).1

-- That of the async node, where `none` is the cancellation of the task, which ends its sleep.
abbrev pub async_purge_loop : List (Option ℤ) → LocalLwwStore → LocalLwwStore
async_purge_loop waits s = purge_loop waits s

-- What happens to the store, one thing after another: the purge wakes up, or a request reads or
-- changes a key.
pub data Event : Type 0 where
  wake : ℤ → Event
  read : ℤ → Text → Event
  write : (now clock : ℤ) → Text → Value → Option ℤ → Option ℤ → Event
  erase : ℤ → Text → Option ℤ → Event

-- What the reads return, in their order.
unfoldable pub reads : List Event → LocalLwwStore → List (Option Versioned)
reads [] s = []
reads (wake now ∷ es) s = reads es (purge_loop (some now ∷ []) s)
reads (read now k ∷ es) s = let (r, s') = Lww.get_versioned now k s in r ∷ reads es s'
reads (write now clock k value ttl ts ∷ es) s = reads es (Lww.set now clock k value ttl ts s).1
reads (erase clock k ts ∷ es) s = reads es (Lww.delete clock k ts s).1

-- The same requests, without the purges.
unfoldable pub requests : List Event → List Event
requests [] = []
requests (wake now ∷ es) = requests es
requests (read now k ∷ es) = read now k ∷ requests es
requests (write now clock k value ttl ts ∷ es) = write now clock k value ttl ts ∷ requests es
requests (erase clock k ts ∷ es) = erase clock k ts ∷ requests es
