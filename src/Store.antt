-- ===== src/Store.antt =====
-- dlstorage/store: the two local stores, and what they share, the deadlines of entries. Every
-- method runs under the store's lock, so a call is one step. `now` is `time.monotonic()` and
-- `clock` is `time.time_ns()` at the call; both, and the times to live, count fixed ticks.
pub mod Lww
pub mod Basic
use dlstorage.Base.{ℤ, ◌+ℤ◌, ltb_ℤ, leb_ℤ, Bool, true, false, Option, none, some}

-- `time.monotonic() + ttl if ttl is not None else None`
unfoldable pub deadline : ℤ → Option ℤ → Option ℤ
deadline now none = none
deadline now (some ttl) = some (now +ℤ ttl)

-- `exp is not None and now > exp`, the test of a read
abbrev pub is_past : ℤ → Option ℤ → Bool
is_past now none = false
is_past now (some exp) = ltb_ℤ exp now

-- `exp is None or exp > now`, the test of a listing
abbrev pub is_ahead : ℤ → Option ℤ → Bool
is_ahead now none = true
is_ahead now (some exp) = ltb_ℤ now exp

-- `exp is not None and exp <= now`, the test of a purge
abbrev pub is_due : ℤ → Option ℤ → Bool
is_due now none = false
is_due now (some exp) = leb_ℤ exp now
