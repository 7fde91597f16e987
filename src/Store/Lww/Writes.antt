-- ===== src/Store/Lww/Writes.antt =====
-- What `set` and `delete` leave at each key: a register in which the newest write wins.
use dlstorage.Base.{Text, text_eq, text_eq_iff, ℤ, Option, none, some, if◌then◌else◌, ◌≡◌, arith}
use dlstorage.Dict
use dlstorage.Dict.Laws.{get-put}
use dlstorage.Types.{Value}
use dlstorage.Store.{deadline}
use dlstorage.Store.Lww.{Entry, LocalLwwStore, live, tombstone, stamp, is_newer, set, delete}

-- The register at a key.
abbrev pub entry_at : Text → LocalLwwStore → Option Entry
entry_at k s = Dict.get k s.entries

-- A write against what is stored: a stored entry stays only if it is strictly newer.
abbrev pub merge : Entry → Option Entry → Option Entry
merge e stored = if is_newer stored e.ts then stored else some e

pub merge_idem : (e : Entry) (o : Option Entry) → merge e (merge e o) ≡ merge e o
merge_idem e none = ground arith
merge_idem e (some f) = ground arith

abbrev pub set_entry : ℤ → ℤ → Value → Option ℤ → Option ℤ → Entry
set_entry now clock value ttl ts = record {
  slot = live value;
  expires_at = deadline now ttl;
  ts = stamp clock ts;
}

abbrev pub delete_entry : ℤ → Option ℤ → Entry
delete_entry clock ts = record { slot = tombstone; expires_at = none; ts = stamp clock ts }

pub entry_at-set :
    (now clock : ℤ) (k j : Text) (value : Value) (ttl ts : Option ℤ) (s : LocalLwwStore)
    → entry_at j (set now clock k value ttl ts s).1 ≡ (
        if text_eq k j
        then merge (set_entry now clock value ttl ts) (entry_at k s)
        else entry_at j s)
unfolding set
entry_at-set now clock k j value ttl ts s =
    ground (arith, get-put k j (set_entry now clock value ttl ts) s.entries, text_eq_iff k j)

pub entry_at-delete :
    (clock : ℤ) (k j : Text) (ts : Option ℤ) (s : LocalLwwStore)
    → entry_at j (delete clock k ts s).1
      ≡ (if text_eq k j then merge (delete_entry clock ts) (entry_at k s) else entry_at j s)
unfolding delete
entry_at-delete clock k j ts s =
    ground (arith, get-put k j (delete_entry clock ts) s.entries, text_eq_iff k j)
