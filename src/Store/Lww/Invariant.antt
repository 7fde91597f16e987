-- ===== src/Store/Lww/Invariant.antt =====
-- The states of the store: whatever its methods do, no key has two entries.
use dlstorage.Base.{
  ℤ, Text, Option, none, some, List, [], ◌∷◌, Bool-cases, inl, inr, ◌≡◌, is_in, ◌⊎◌, refl,
}
use dlstorage.Dict
use dlstorage.Dict.Laws.{IsDistinct, put-IsDistinct, remove-IsDistinct, remove_all-IsDistinct}
use dlstorage.Types.{Value}
use dlstorage.Store.{is_past}
use dlstorage.Store.Lww.{
  LocalLwwStore, Entry, Slot, live, tombstone, read_entry, set, get_versioned, get, delete, exists,
  flush_all, clear, flush_keys, purge_expired, stamp, is_newer, is_not_newer, is_expired,
}

abbrev pub IsValid : LocalLwwStore → Type 0
IsValid s = IsDistinct s.entries

-- A call of a method that may change the store, with the clocks that it reads.
pub data Call : Type 0 where
  set_call : (now clock : ℤ) → Text → Value → Option ℤ → Option ℤ → Call
  get_versioned_call : ℤ → Text → Call
  get_call : ℤ → Text → Call
  exists_call : ℤ → Text → Call
  delete_call : ℤ → Text → Option ℤ → Call
  flush_all_call : Call
  clear_call : Call
  flush_keys_call : Text → Call
  purge_expired_call : ℤ → Call

unfoldable pub step : Call → LocalLwwStore → LocalLwwStore
step (set_call now clock k value ttl ts) s = (set now clock k value ttl ts s).1
step (get_versioned_call now k) s = (get_versioned now k s).1
step (get_call now k) s = (get now k s).1
step (exists_call now k) s = (exists now k s).1
step (delete_call clock k ts) s = (delete clock k ts s).1
step flush_all_call s = flush_all s
step clear_call s = clear s
step (flush_keys_call pattern_text) s = (flush_keys pattern_text s).1
step (purge_expired_call now) s = (purge_expired now s).1

unfoldable pub run : List Call → LocalLwwStore → LocalLwwStore
run [] s = s
run (c ∷ cs) s = run cs (step c s)

pub set-IsValid :
    (now clock : ℤ) (k : Text) (value : Value) (ttl ts : Option ℤ) (s : LocalLwwStore)
    → IsValid s
    → IsValid (set now clock k value ttl ts s).1
unfolding set
set-IsValid now clock k value ttl ts s h =
    elim (Bool-cases (is_newer (Dict.get k s.entries) (stamp clock ts))) [
      | inl newer ↦ rw newer h
      | inr older ↦ rw older (put-IsDistinct k _ s.entries h)
    ]

Slot-cases : (slot : Slot) → (slot ≡ tombstone) ⊎ ((value : Value) × (slot ≡ live value))
Slot-cases tombstone = inl refl
Slot-cases (live value) = inr (value, refl)

pub get_versioned-IsValid :
    (now : ℤ) (k : Text) (s : LocalLwwStore) → IsValid s → IsValid (get_versioned now k s).1
unfolding get_versioned
get_versioned-IsValid now k s h = read_entry-IsValid (Dict.get k s.entries)
  where
    read_entry-IsValid : (o : Option Entry) → IsValid (read_entry now k o s).1
    read_entry-IsValid none = h
    read_entry-IsValid (some e) = elim (Slot-cases e.slot) [
      | inl dead ↦ rw (dead, read_entry) h
      | inr (value, at_value) ↦ elim (Bool-cases (is_past now e.expires_at)) [
        | inl past ↦ rw (at_value, past) (remove-IsDistinct k s.entries h)
        | inr current ↦ rw (at_value, current) h
      ]
    ]

pub delete-IsValid :
    (clock : ℤ) (k : Text) (ts : Option ℤ) (s : LocalLwwStore)
    → IsValid s
    → IsValid (delete clock k ts s).1
unfolding delete
delete-IsValid clock k ts s h =
    elim (Bool-cases (is_not_newer (Dict.get k s.entries) (stamp clock ts))) [
      | inl accepted ↦ rw accepted (put-IsDistinct k _ s.entries h)
      | inr newer ↦ rw newer h
    ]

pub purge_expired-IsValid :
    (now : ℤ) (s : LocalLwwStore) → IsValid s → IsValid (purge_expired now s).1
unfolding purge_expired
purge_expired-IsValid now s h =
    remove_all-IsDistinct (Dict.select (is_expired now) s.entries) s.entries h

step-IsValid : (c : Call) (s : LocalLwwStore) → IsValid s → IsValid (step c s)
unfolding step
step-IsValid (set_call now clock k value ttl ts) s h = set-IsValid now clock k value ttl ts s h
step-IsValid (get_versioned_call now k) s h = get_versioned-IsValid now k s h
step-IsValid (get_call now k) s h = unfold get in get_versioned-IsValid now k s h
step-IsValid (exists_call now k) s h = unfold exists get in get_versioned-IsValid now k s h
step-IsValid (delete_call clock k ts) s h = delete-IsValid clock k ts s h
step-IsValid flush_all_call s h = unfold flush_all in tt
step-IsValid clear_call s h = unfold clear in tt
step-IsValid (flush_keys_call pattern_text) s h =
    unfold flush_keys in
    remove_all-IsDistinct (Dict.select (λ k _. is_in pattern_text k) s.entries) s.entries h
step-IsValid (purge_expired_call now) s h = purge_expired-IsValid now s h

-- From a store that holds each key once, every sequence of calls leads to one that does.
pub run-IsValid : (cs : List Call) (s : LocalLwwStore) → IsValid s → IsValid (run cs s)
unfolding run
run-IsValid [] s h = h
run-IsValid (c ∷ cs) s h = run-IsValid cs (step c s) (step-IsValid c s h)
