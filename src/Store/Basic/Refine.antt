-- ===== src/Store/Basic/Refine.antt =====
-- `LocalLWWStore` does what `LocalStore` does for a single client whose clock never goes back: the
-- timestamps and the tombstones do not show.
use dlstorage.Base.{ℕ, Text, ℤ, ◌≤ℤ◌, Bool, Option, none, List, [], ◌∷◌}
use dlstorage.Types.{Value}
use dlstorage.Store.Basic
use dlstorage.Store.Basic.{LocalStore}
use dlstorage.Store.Basic.Sim.{Sim}
use dlstorage.Store.Lww
use dlstorage.Store.Lww.{LocalLwwStore}

-- What a client asks of a store, with no timestamp of its own.
pub data Request : Type 0 where
  set : Text → Value → Option ℤ → Request
  get : Text → Request
  exists : Text → Request
  delete : Text → Request
  flush_keys : Text → Request
  flush_all : Request
  clear : Request
  purge_expired : Request

pub data Reply : Type 0 where
  value : Value → Reply
  flag : Bool → Reply
  -- how many entries a bulk deletion has removed
  removed : ℕ → Reply
  done : Reply

-- A reply but for the number of removed entries: that of `flush_keys` differs, since the versioned
-- store counts its tombstones.
abbrev pub uncounted : Reply → Reply
uncounted (value v) = value v
uncounted (flag b) = flag b
uncounted (removed n) = done
uncounted done = done

-- A request with the two clocks at its call.
pub record Timed : Type 0 where
  pub now : ℤ
  pub clock : ℤ
  pub request : Request

unfoldable pub basic_step : ℤ → Request → LocalStore → Reply × LocalStore
basic_step now (set k v ttl) s = let (r, s') = Basic.set now k v ttl s in (flag r, s')
basic_step now (get k) s = let (r, s') = Basic.get now k s in (value r, s')
basic_step now (exists k) s = let (r, s') = Basic.exists now k s in (flag r, s')
basic_step now (delete k) s = let (r, s') = Basic.delete k s in (flag r, s')
basic_step now (flush_keys p) s = let (n, s') = Basic.flush_keys p s in (removed n, s')
basic_step now flush_all s = (done, Basic.flush_all s)
basic_step now clear s = (done, Basic.clear s)
basic_step now purge_expired s = let (n, s') = Basic.purge_expired now s in (removed n, s')

unfoldable pub lww_step : ℤ → ℤ → Request → LocalLwwStore → Reply × LocalLwwStore
lww_step now clock (set k v ttl) s = let (r, s') = Lww.set now clock k v ttl none s in (flag r, s')
lww_step now clock (get k) s = let (r, s') = Lww.get now k s in (value r, s')
lww_step now clock (exists k) s = let (r, s') = Lww.exists now k s in (flag r, s')
lww_step now clock (delete k) s = let (r, s') = Lww.delete clock k none s in (flag r, s')
lww_step now clock (flush_keys p) s = let (n, s') = Lww.flush_keys p s in (removed n, s')
lww_step now clock flush_all s = (done, Lww.flush_all s)
lww_step now clock clear s = (done, Lww.clear s)
lww_step now clock purge_expired s = let (n, s') = Lww.purge_expired now s in (removed n, s')

-- The replies to a list of requests, each with its clocks.
unfoldable pub basic_run : List Timed → LocalStore → List Reply
unfolding basic_step
basic_run [] s = []
basic_run (c ∷ cs) s = let (r, s') = basic_step c.now c.request s in r ∷ basic_run cs s'

unfoldable pub lww_run : List Timed → LocalLwwStore → List Reply
unfolding lww_step
lww_run [] s = []
lww_run (c ∷ cs) s = let (r, s') = lww_step c.now c.clock c.request s in r ∷ lww_run cs s'

-- The wall clock never goes back from `t` on.
abbrev pub IsOrdered : ℤ → List Timed → Type 0
IsOrdered t [] = Unit
IsOrdered t (c ∷ cs) = (t ≤ℤ c.clock) × IsOrdered c.clock cs
