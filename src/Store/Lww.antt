-- ===== src/Store/Lww.antt =====
-- dlstorage/store/lww.py: the store whose entries carry the timestamp of their write.
pub mod Invariant
pub mod Writes
pub mod Converge
pub mod Arrivals
pub mod Replica
pub mod Reads
pub mod Sweep
use dlstorage.Base.{
  ℕ, Text, is_in, ℤ, ltb_ℤ, leb_ℤ, Bool, true, false, not, ◌&&◌, Option, none, some, List, [], ◌∷◌,
  length, if◌then◌else◌,
}
use dlstorage.Dict
use dlstorage.Dict.{Dict}
use dlstorage.Types.{Value, null, is_some_value}
use dlstorage.Store.{deadline, is_past, is_ahead, is_due}

-- A stored value, or the sentinel `_TOMBSTONE`, which no value is.
pub data Slot : Type 0 where
  live : Value → Slot
  tombstone : Slot

pub record Entry : Type 0 where
  pub slot : Slot
  pub expires_at : Option ℤ
  pub ts : ℤ

pub record LocalLwwStore : Type 0 where
  pub entries : Dict Entry

abbrev pub init : LocalLwwStore
init = record { entries = [] }

-- `(value, ts_ns, is_tombstone)`
abbrev pub Versioned : Type 0
Versioned = Value × ℤ × Bool

-- `ts`, or the clock where the caller gives none
abbrev pub stamp : ℤ → Option ℤ → ℤ
stamp clock none = clock
stamp clock (some ts) = ts

-- `existing is not None and existing[2] > ts`
abbrev pub is_newer : Option Entry → ℤ → Bool
is_newer none ts = false
is_newer (some e) ts = ltb_ℤ ts e.ts

-- `existing is None or existing[2] <= ts`
abbrev pub is_not_newer : Option Entry → ℤ → Bool
is_not_newer none ts = true
is_not_newer (some e) ts = leb_ℤ e.ts ts

unfoldable pub set :
    ℤ → ℤ → Text → Value → Option ℤ → Option ℤ → LocalLwwStore → Bool × LocalLwwStore
set now clock key value ttl ts s =
    let entry : Entry = record {
      slot = live value;
      expires_at = deadline now ttl;
      ts = stamp clock ts;
    } in
    if is_newer (Dict.get key s.entries) (stamp clock ts)
    then (false, s)
    else (true, record s { entries = Dict.put key entry s.entries })

read_entry : ℤ → Text → Option Entry → LocalLwwStore → Option Versioned × LocalLwwStore
read_entry now key none s = (none, s)
read_entry now key (some e) s = elim e.slot [
  | tombstone ↦ (some (null, e.ts, true), s)
  | live value ↦
      if is_past now e.expires_at
      then (none, record s { entries = Dict.remove key s.entries })
      else (some (value, e.ts, false), s)
]

unfoldable pub get_versioned : ℤ → Text → LocalLwwStore → Option Versioned × LocalLwwStore
unfolding read_entry
get_versioned now key s = read_entry now key (Dict.get key s.entries) s

-- The value of a versioned result; `None` for a miss and for a tombstone.
abbrev pub value_of : Option Versioned → Value
value_of none = null
value_of (some (value, ts, is_tombstone)) = if is_tombstone then null else value

unfoldable pub get : ℤ → Text → LocalLwwStore → Value × LocalLwwStore
get now key s = let (result, s') = get_versioned now key s in (value_of result, s')

abbrev pub is_live : Entry → Bool
is_live e = elim e.slot [ live _ ↦ true | tombstone ↦ false ]

abbrev pub lived : Option Entry → Bool
lived none = false
lived (some e) = is_live e

unfoldable pub delete : ℤ → Text → Option ℤ → LocalLwwStore → Bool × LocalLwwStore
delete clock key ts s =
    let entry : Entry = record { slot = tombstone; expires_at = none; ts = stamp clock ts } in
    let existing = Dict.get key s.entries in
    if is_not_newer existing (stamp clock ts)
    then (lived existing, record s { entries = Dict.put key entry s.entries })
    else (lived existing, s)

unfoldable pub exists : ℤ → Text → LocalLwwStore → Bool × LocalLwwStore
exists now key s = let (value, s') = get now key s in (is_some_value value, s')

-- The test of `keys`, and with a pattern that of `scan_keys`.
abbrev pub is_listed : ℤ → Text → Entry → Bool
is_listed now k e = is_live e && is_ahead now e.expires_at

unfoldable pub keys : ℤ → LocalLwwStore → List Text
keys now s = Dict.select (is_listed now) s.entries

abbrev pub is_match : Text → ℤ → Text → Entry → Bool
is_match pattern_text now k e = is_live e && (is_in pattern_text k && is_ahead now e.expires_at)

unfoldable pub scan_keys : ℤ → Text → LocalLwwStore → List Text
scan_keys now pattern_text s = Dict.select (is_match pattern_text now) s.entries

-- The value in a slot; a tombstone is never listed.
abbrev pub slot_value : Slot → Value
slot_value (live value) = value
slot_value tombstone = null

scan_items : (Text → Entry → Bool) → Dict Entry → List (Text × Value)
scan_items p [] = []
scan_items p ((k, e) ∷ d) =
    let rest = scan_items p d in if p k e then (k, slot_value e.slot) ∷ rest else rest

unfoldable pub scan : ℤ → Text → LocalLwwStore → List (Text × Value)
unfolding scan_items
scan now pattern_text s = scan_items (is_match pattern_text now) s.entries

unfoldable pub flush_all : LocalLwwStore → LocalLwwStore
flush_all s = record s { entries = [] }

unfoldable pub clear : LocalLwwStore → LocalLwwStore
clear s = record s { entries = [] }

unfoldable pub flush_keys : Text → LocalLwwStore → ℕ × LocalLwwStore
flush_keys pattern_text s =
    let to_delete = Dict.select (λ k _. is_in pattern_text k) s.entries in
    (length to_delete, record s { entries = Dict.remove_all to_delete s.entries })

abbrev pub is_expired : ℤ → Text → Entry → Bool
is_expired now k e = is_live e && is_due now e.expires_at

unfoldable pub purge_expired : ℤ → LocalLwwStore → ℕ × LocalLwwStore
purge_expired now s =
    let expired = Dict.select (is_expired now) s.entries in
    (length expired, record s { entries = Dict.remove_all expired s.entries })

-- `len(store)`
unfoldable pub count : ℤ → LocalLwwStore → ℕ
count now s = length (keys now s)
