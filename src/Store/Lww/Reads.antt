-- ===== src/Store/Lww/Reads.antt =====
-- What a read returns and what it leaves, and how the listings agree with it.
use dlstorage.Base.{
  Text, text_eq, text_eq_iff, text_eq_self, is_in, ℤ, ◌≤ℤ◌, ◌<ℤ◌, eq_of_parts, Bool, true, false,
  Option, none, some, List, [], ◌∷◌, map, if◌then◌else◌, ◌&&◌, ◌≡◌, ◌≢◌, refl, sym, ◌∙◌, ap, arith,
  Bool-cases, Option-cases, inl, inr,
}
use dlstorage.Dict
use dlstorage.Dict.{Dict}
use dlstorage.Dict.Laws.{IsDistinct, contains, holds, contains-select, get-remove}
use dlstorage.Types.{Value, null}
use dlstorage.Store.{deadline, is_past}
use dlstorage.Store.Lww.{
  live, tombstone, Entry, LocalLwwStore, Versioned, value_of, slot_value, set, get_versioned, get,
  stamp, is_newer, keys, scan_keys, scan, scan_items, is_listed, is_match, is_live,
}
use dlstorage.Store.Lww.Invariant.{IsValid}
use dlstorage.Store.Lww.Writes.{entry_at, entry_at-set}
use dlstorage.Store.Lww.Converge.{Write, write_key, write_entry, apply_all, apply_all-newest}

-- What a reader at time `now` sees of an entry.
abbrev pub view : ℤ → Option Entry → Option Versioned
view now none = none
view now (some e) = elim e.slot [
  | tombstone ↦ some (null, e.ts, true)
  | live value ↦ if is_past now e.expires_at then none else some (value, e.ts, false)
]

pub get_versioned-eq-view :
    (now : ℤ) (k : Text) (s : LocalLwwStore) → (get_versioned now k s).0 ≡ view now (entry_at k s)
unfolding get_versioned
get_versioned-eq-view now k s = ground arith

-- The entry that a read of the key drops is a value whose deadline has passed.
abbrev pub after_read : ℤ → Option Entry → Option Entry
after_read now none = none
after_read now (some e) = if is_live e && is_past now e.expires_at then none else some e

pub entry_at-get_versioned :
    (now : ℤ) (k j : Text) (s : LocalLwwStore)
    → entry_at j (get_versioned now k s).1
      ≡ (if text_eq k j then after_read now (entry_at k s) else entry_at j s)
unfolding get_versioned
entry_at-get_versioned now k j s = ground (arith, get-remove k j s.entries, text_eq_iff k j)

is_past_mono :
    (now t : ℤ) (exp : Option ℤ) → now ≤ℤ t → is_past now exp ≡ true → is_past t exp ≡ true
is_past_mono now t none h p = p
is_past_mono now t (some exp) h p = ground arith

-- A read may drop the entry it reads, and no read of any key at that time or later can tell.
pub view-get_versioned :
    (now t : ℤ) (k j : Text) (s : LocalLwwStore)
    → now ≤ℤ t
    → view t (entry_at j (get_versioned now k s).1) ≡ view t (entry_at j s)
unfolding get_versioned
view-get_versioned now t k j s h = ground (arith, get-remove k j s.entries, text_eq_iff k j)

-- A `set` that no stored entry outdates is read back, until its time to live has passed.
pub get_versioned-set :
    (now clock t : ℤ) (k : Text) (value : Value) (ttl ts : Option ℤ) (s : LocalLwwStore)
    → is_newer (entry_at k s) (stamp clock ts) ≡ false
    → (get_versioned t k (set now clock k value ttl ts s).1).0
      ≡ (if is_past t (deadline now ttl) then none else some (value, stamp clock ts, false))
get_versioned-set now clock t k value ttl ts s h =
    get_versioned-eq-view t k _
    ∙ ap (view t) (entry_at-set now clock k k value ttl ts s)
    ∙ rw (text_eq_self k, h) refl

-- Behind a write, and any writes after it, a `set` with an older timestamp is refused and leaves
-- the store as it is; a deleted key is not brought back.
pub stale_set_refused :
    (w : Write) (ws : List Write) (s : LocalLwwStore) (now clock : ℤ) (value : Value)
    (ttl ts : Option ℤ)
    → stamp clock ts <ℤ (write_entry w).ts
    → set now clock (write_key w) value ttl ts (apply_all (w ∷ ws) s)
      ≡ (false, apply_all (w ∷ ws) s)
unfolding set
stale_set_refused w ws s now clock value ttl ts h =
    let (m, at_m, le_m) = apply_all-newest w ws s in rw at_m (ground arith)

contains-keys :
    (now : ℤ) (k : Text) (s : LocalLwwStore)
    → IsValid s
    → contains k (keys now s) ≡ holds (is_listed now k) (entry_at k s)
unfolding keys
contains-keys now k s h = contains-select (is_listed now) k s.entries h

listed→view :
    (now : ℤ) (k : Text) (o : Option Entry)
    → holds (is_listed now k) o ≡ true
    → (value : Value) × (ts : ℤ) × (view now o ≡ some (value, ts, false))
listed→view now k none h = absurd (ground arith)
listed→view now k (some e) h = (slot_value e.slot, e.ts, ground arith)

-- Every listed key is one that a read at the same time finds alive.
pub keys-alive :
    (now : ℤ) (k : Text) (s : LocalLwwStore)
    → IsValid s
    → contains k (keys now s) ≡ true
    → (value : Value) × (ts : ℤ) × ((get_versioned now k s).0 ≡ some (value, ts, false))
keys-alive now k s h listed =
    let (value, ts, seen) =
      listed→view now k (entry_at k s) (sym (contains-keys now k s h) ∙ listed) in
    (value, ts, get_versioned-eq-view now k s ∙ seen)

view→listed :
    (now : ℤ) (k : Text) (o : Option Entry) (value : Value) (ts : ℤ)
    → view now o ≡ some (value, ts, false)
    → ((e : Entry) → o ≡ some e → e.expires_at ≢ some now)
    → holds (is_listed now k) o ≡ true
view→listed now k none value ts h off = cc
view→listed now k (some e) value ts h off = elim (Option-cases e.expires_at) [
  | inl never ↦ ground (arith, never)
  | inr (x, at_x) ↦ ground (arith, at_x, off e refl, eq_of_parts x now)
]

-- A key that a read finds alive is listed, unless this is the very tick of its deadline.
pub alive-keys :
    (now : ℤ) (k : Text) (s : LocalLwwStore) (value : Value) (ts : ℤ)
    → IsValid s
    → (get_versioned now k s).0 ≡ some (value, ts, false)
    → ((e : Entry) → entry_at k s ≡ some e → e.expires_at ≢ some now)
    → contains k (keys now s) ≡ true
alive-keys now k s value ts h seen off =
    contains-keys now k s h
    ∙ view→listed now k (entry_at k s) value ts (sym (get_versioned-eq-view now k s) ∙ seen) off

-- `scan_keys` lists what `keys` lists among the keys that contain the pattern.
pub contains-scan_keys :
    (now : ℤ) (pattern_text k : Text) (s : LocalLwwStore)
    → IsValid s
    → contains k (scan_keys now pattern_text s) ≡ (is_in pattern_text k && contains k (keys now s))
unfolding scan_keys
contains-scan_keys now pattern_text k s h =
    contains-select (is_match pattern_text now) k s.entries h
    ∙ regroup (entry_at k s)
    ∙ ap (λ b. is_in pattern_text k && b) (sym (contains-keys now k s h))
  where
    regroup :
        (o : Option Entry)
        → holds (is_match pattern_text now k) o
          ≡ (is_in pattern_text k && holds (is_listed now k) o)
    regroup none = ground arith
    regroup (some e) = ground arith

map-scan_items :
    (p : Text → Entry → Bool) (d : Dict Entry) → map (λ x. x.0) (scan_items p d) ≡ Dict.select p d
unfolding scan_items Dict.select
map-scan_items p [] = refl
map-scan_items p ((k, e) ∷ d) = ground (arith, map-scan_items p d)

-- What a scan shows of the entry at a key.
abbrev shown : (Entry → Bool) → Option Entry → Option Value
shown p none = none
shown p (some e) = if p e then some (slot_value e.slot) else none

get-scan_items :
    (p : Text → Entry → Bool) (k : Text) (d : Dict Entry)
    → IsDistinct d
    → Dict.get k (scan_items p d) ≡ shown (p k) (Dict.get k d)
unfolding scan_items Dict.get
get-scan_items p k [] h = refl
get-scan_items p k ((i, e) ∷ d) h = elim (Bool-cases (text_eq i k)) [
  | inr other ↦ ground (arith, other, get-scan_items p k d h.1)
  | inl same ↦
      let i_eq_k : i ≡ k = (text_eq_iff i k).0 same in
      let ih = get-scan_items p k d h.1 in ground (arith, same, i_eq_k, ih, h.0)
]

shown→view :
    (now : ℤ) (pattern_text k : Text) (o : Option Entry) (value : Value)
    → shown (is_match pattern_text now k) o ≡ some value
    → (is_in pattern_text k ≡ true) × (value_of (view now o) ≡ value)
shown→view now pattern_text k none value h = cc
shown→view now pattern_text k (some e) value h = (ground arith, ground arith)

pub get-view :
    (now : ℤ) (k : Text) (s : LocalLwwStore) → (get now k s).0 ≡ value_of (view now (entry_at k s))
unfolding get
get-view now k s = ap value_of (get_versioned-eq-view now k s)

-- `scan` goes through the keys of `scan_keys` in their order, and shows each with the value that
-- `get` returns for it at that time.
pub scan_lem :
    (now : ℤ) (pattern_text : Text) (s : LocalLwwStore)
    → IsValid s
    → (map (λ x. x.0) (scan now pattern_text s) ≡ scan_keys now pattern_text s)
      × ((k : Text) (value : Value)
          → Dict.get k (scan now pattern_text s) ≡ some value
          → (is_in pattern_text k ≡ true) × ((get now k s).0 ≡ value))
unfolding scan scan_keys
scan_lem now pattern_text s h = (
  map-scan_items (is_match pattern_text now) s.entries,
  λ k value found.
      let (matches, seen) =
        shown→view now pattern_text k (entry_at k s) value
          (sym (get-scan_items (is_match pattern_text now) k s.entries h) ∙ found) in
      (matches, get-view now k s ∙ seen),
)
