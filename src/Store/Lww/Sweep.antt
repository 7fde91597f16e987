-- ===== src/Store/Lww/Sweep.antt =====
-- The bulk deletions: `purge_expired`, `flush_keys`, `flush_all`.
use dlstorage.Base.{
  ◌+◌, Text, is_in, ℤ, ◌≤ℤ◌, ◌<ℤ◌, false, Option, none, some, [], ◌∷◌, length, filter,
  if◌then◌else◌, ◌≡◌, refl, sym, ◌∙◌, ap, arith,
}
use dlstorage.Dict
use dlstorage.Dict.{Dict}
use dlstorage.Dict.Laws.{
  holds, fails, remove_all-select, length-remove_all-select, get-remove_all-select,
}
use dlstorage.Types.{Value}
use dlstorage.Store.Lww.{
  live, Entry, LocalLwwStore, get_versioned, keys, is_listed, is_expired, purge_expired, flush_keys,
}
use dlstorage.Store.Lww.Invariant.{IsValid}
use dlstorage.Store.Lww.Writes.{entry_at}
use dlstorage.Store.Lww.Reads.{view, get_versioned-eq-view}

pub entry_at-purge_expired :
    (now : ℤ) (k : Text) (s : LocalLwwStore)
    → IsValid s
    → entry_at k (purge_expired now s).1
      ≡ (if holds (is_expired now k) (entry_at k s) then none else entry_at k s)
unfolding purge_expired
entry_at-purge_expired now k s h = get-remove_all-select (is_expired now) k s.entries h

view-purged :
    (now t : ℤ) (k : Text) (o : Option Entry)
    → now <ℤ t
    → view t (if holds (is_expired now k) o then none else o) ≡ view t o
view-purged now t k none h = refl
view-purged now t k (some e) h = ground arith

-- A purge is invisible to every read at a later time, its count is the number of entries that it
-- removes, and what it leaves holds nothing that is due.
purge_expired_lem :
    (now : ℤ) (s : LocalLwwStore)
    → IsValid s
    → ((t : ℤ) (k : Text)
        → now <ℤ t
        → (get_versioned t k (purge_expired now s).1).0 ≡ (get_versioned t k s).0)
      × (length (purge_expired now s).1.entries + (purge_expired now s).0 ≡ length s.entries)
      × ((k : Text) → holds (is_expired now k) (entry_at k (purge_expired now s).1) ≡ false)
purge_expired_lem now s h = (
  λ t k later.
      get_versioned-eq-view t k _
      ∙ ap (view t) (entry_at-purge_expired now k s h)
      ∙ view-purged now t k (entry_at k s) later
      ∙ sym (get_versioned-eq-view t k s),
  unfold purge_expired in length-remove_all-select (is_expired now) s.entries h,
  λ k. rw (entry_at-purge_expired now k s h) (nothing_due k (entry_at k s)),
)
  where
    nothing_due :
        (k : Text) (o : Option Entry)
        → holds (is_expired now k) (if holds (is_expired now k) o then none else o) ≡ false
    nothing_due k none = refl
    nothing_due k (some e) = ground arith

-- At the very tick of a live entry's deadline a read still returns the value, and after a purge at
-- that same tick it returns nothing.
pub purge_expired_at_deadline :
    (now : ℤ) (k : Text) (value : Value) (ts : ℤ) (s : LocalLwwStore)
    → IsValid s
    → entry_at k s ≡ some (record { slot = live value; expires_at = some now; ts = ts })
    → ((get_versioned now k s).0 ≡ some (value, ts, false))
      × ((get_versioned now k (purge_expired now s).1).0 ≡ none)
purge_expired_at_deadline now k value ts s h at_k = (
  get_versioned-eq-view now k s ∙ rw at_k (ground arith),
  get_versioned-eq-view now k _ ∙ rw (entry_at-purge_expired now k s h, at_k) (ground arith),
)

select-filter :
    (now t : ℤ) (d : Dict Entry)
    → now ≤ℤ t
    → Dict.select (is_listed t) (filter (fails (is_expired now)) d) ≡ Dict.select (is_listed t) d
unfolding Dict.select
select-filter now t [] h = refl
select-filter now t ((k, e) ∷ d) h = ground (arith, select-filter now t d h)

-- A purge leaves the listing of the keys as it is, at the purge's time and at any later one.
pub keys-purge_expired :
    (now t : ℤ) (s : LocalLwwStore)
    → IsValid s
    → now ≤ℤ t
    → keys t (purge_expired now s).1 ≡ keys t s
unfolding keys purge_expired
keys-purge_expired now t s h later =
    rw (remove_all-select (is_expired now) s.entries h) (select-filter now t s.entries later)

-- `flush_keys` removes the keys that contain the pattern, tombstones included, leaves the others
-- as they are, and counts the removed entries.
pub flush_keys_lem :
    (pattern_text : Text) (s : LocalLwwStore)
    → IsValid s
    → ((k : Text)
        → entry_at k (flush_keys pattern_text s).1
          ≡ (if is_in pattern_text k then none else entry_at k s))
      × (length (flush_keys pattern_text s).1.entries + (flush_keys pattern_text s).0
          ≡ length s.entries)
unfolding flush_keys
flush_keys_lem pattern_text s h = (
  λ k.
      get-remove_all-select (λ j _. is_in pattern_text j) k s.entries h
      ∙ by_pattern k (entry_at k s),
  length-remove_all-select (λ j _. is_in pattern_text j) s.entries h,
)
  where
    by_pattern :
        (k : Text) (o : Option Entry)
        → (if holds (λ _. is_in pattern_text k) o then none else o)
          ≡ (if is_in pattern_text k then none else o)
    by_pattern k none = ground arith
    by_pattern k (some e) = refl
