-- ===== src/Node/Background/Unseen.antt =====
-- What the purges of a store change for its readers.
use dlstorage.Base.{
  Text, text_eq, ℤ, ◌≤ℤ◌, ◌<ℤ◌, false, Option, List, [], ◌∷◌, if◌then◌else◌, ◌≡◌, refl, sym, ap,
  ◌∙◌, Bool-cases, inl, inr,
}
use dlstorage.Store.Lww
use dlstorage.Store.Lww.{
  LocalLwwStore, Versioned, Entry, stamp, is_newer, is_expired, purge_expired,
}
use dlstorage.Store.Lww.Invariant.{
  IsValid, set-IsValid, get_versioned-IsValid, delete-IsValid, purge_expired-IsValid,
}
use dlstorage.Store.Lww.Writes.{entry_at, set_entry, delete_entry, entry_at-set, entry_at-delete}
use dlstorage.Store.Lww.Reads.{get_versioned-eq-view, entry_at-get_versioned}
use dlstorage.Store.Lww.Sweep.{entry_at-purge_expired}
use dlstorage.Node.Background.{Event, wake, read, write, erase, reads, requests, purge_loop}
use dlstorage.Node.Background.Twins.{IsTwin, wake-IsTwin, read-IsTwin, write-IsTwin, later-IsTwin}

-- Each purge is no earlier than the purges before it, each read is later than the purges before it,
-- and the timestamp of each write is at least those before it.
abbrev pub IsTimely : ℤ → ℤ → List Event → Type 0
IsTimely t m [] = Unit
IsTimely t m (wake now ∷ es) = (t ≤ℤ now) × IsTimely now m es
IsTimely t m (read now k ∷ es) = (t <ℤ now) × IsTimely t m es
IsTimely t m (write now clock k value ttl ts ∷ es) =
    (m ≤ℤ stamp clock ts) × IsTimely t (stamp clock ts) es
IsTimely t m (erase clock k ts ∷ es) = (m ≤ℤ stamp clock ts) × IsTimely t (stamp clock ts) es

abbrev AreTwins : ℤ → ℤ → LocalLwwStore → LocalLwwStore → Type 0
AreTwins t m s purged = (k : Text) → IsTwin t m k (entry_at k s) (entry_at k purged)

-- A change of one key.
at_key :
    (t n : ℤ) (j k : Text) (a b x y : Option Entry)
    → IsTwin t n j a b
    → IsTwin t n k x y
    → IsTwin t n k (if text_eq j k then a else x) (if text_eq j k then b else y)
at_key t n j k a b x y changed other = elim (Bool-cases (text_eq j k)) [
  | inl same ↦ rw same changed
  | inr differ ↦ rw differ other
]

reads_twin :
    (es : List Event) (t m : ℤ) (s purged : LocalLwwStore)
    → IsTimely t m es
    → IsValid purged
    → AreTwins t m s purged
    → reads es purged ≡ reads (requests es) s
unfolding reads requests purge_loop
reads_twin [] t m s purged timely valid twins = refl
reads_twin (wake now ∷ es) t m s purged (h, timely) valid twins =
    reads_twin es now m s (purge_expired now purged).1 timely
      (purge_expired-IsValid now purged valid)
      (λ k. rw (entry_at-purge_expired now k purged valid) (wake-IsTwin t now m k _ _ h (twins k)))
reads_twin (read now j ∷ es) t m s purged (h, timely) valid twins =
    let (seen, after) = read-IsTwin t now m j _ _ h (twins j) in
    let same : (Lww.get_versioned now j purged).0 ≡ (Lww.get_versioned now j s).0 =
      get_versioned-eq-view now j purged ∙ seen ∙ sym (get_versioned-eq-view now j s) in
    rw same (
      ap (◌∷◌ (Lww.get_versioned now j s).0) (
        reads_twin es t m (Lww.get_versioned now j s).1 (Lww.get_versioned now j purged).1 timely
          (get_versioned-IsValid now j purged valid)
          (λ k.
            rw (entry_at-get_versioned now j k s, entry_at-get_versioned now j k purged)
              (at_key t m j k _ _ _ _ after (twins k)))))
reads_twin (write now clock j value ttl ts ∷ es) t m s purged (h, timely) valid twins =
    let n = stamp clock ts in
    reads_twin es t n (Lww.set now clock j value ttl ts s).1
      (Lww.set now clock j value ttl ts purged).1 timely
      (set-IsValid now clock j value ttl ts purged valid)
      (λ k.
        rw
          (
            entry_at-set now clock j k value ttl ts s,
            entry_at-set now clock j k value ttl ts purged,
          )
          (at_key t n j k _ _ _ _
            (write-IsTwin t m j (set_entry now clock value ttl ts) _ _ h (twins j))
            (later-IsTwin t m n k _ _ h (twins k))))
reads_twin (erase clock j ts ∷ es) t m s purged (h, timely) valid twins =
    let n = stamp clock ts in
    reads_twin es t n (Lww.delete clock j ts s).1 (Lww.delete clock j ts purged).1 timely
      (delete-IsValid clock j ts purged valid)
      (λ k.
        rw (entry_at-delete clock j k ts s, entry_at-delete clock j k ts purged)
          (at_key t n j k _ _ _ _ (write-IsTwin t m j (delete_entry clock ts) _ _ h (twins j))
            (later-IsTwin t m n k _ _ h (twins k))))

-- The purges in the background change no read: where no purge is earlier than the one before it,
-- each read is later than the purges before it, and each write's timestamp is at least those of the
-- writes before it and of what the store holds, the requests read what they would read if nothing
-- were ever purged. The store holds each key once to begin with.
pub reads-requests :
    (es : List Event) (t m : ℤ) (s : LocalLwwStore)
    → IsTimely t m es
    → IsValid s
    → ((k : Text) → is_newer (entry_at k s) m ≡ false)
    → reads es s ≡ reads (requests es) s
reads-requests es t m s timely valid old =
    reads_twin es t m s s timely valid (λ k. (inl refl, old k))
