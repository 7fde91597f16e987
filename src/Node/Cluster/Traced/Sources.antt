-- ===== src/Node/Cluster/Traced/Sources.antt =====
-- What the stores hold has been set: every operation of a store keeps it so.
use mathlib.Core.Path.{subst}
use dlstorage.Base.{Text, text_eq, text_eq_iff, ℤ, Option, none, some, ◌&&◌, Bool-cases, inl, inr}
use dlstorage.Types.{NodeInfo, node_eq, Value}
use dlstorage.Store.{is_past}
use dlstorage.Store.Lww
use dlstorage.Store.Lww.{LocalLwwStore, Entry, Slot, live, tombstone, Versioned, value_of, is_newer}
use dlstorage.Store.Lww.Writes.{
  entry_at, merge, set_entry, delete_entry, entry_at-set, entry_at-delete,
}
use dlstorage.Store.Lww.Reads.{after_read, entry_at-get_versioned}
use dlstorage.Node.Cluster.{World, place}
use dlstorage.Node.Cluster.Traced.{History, WasSet}

-- What is stored for a key has been set for it.
abbrev pub IsHeld : Text → History → Option Entry → Type 0
IsHeld key h none = Unit
IsHeld key h (some e) = elim e.slot [ tombstone ↦ Unit | live value ↦ WasSet key value h ]

abbrev pub IsSourced : History → LocalLwwStore → Type 0
IsSourced h s = (k : Text) → IsHeld k h (entry_at k s)

abbrev pub AllSourced : History → World → Type 0
AllSourced h w = (n : NodeInfo) → IsSourced h (w n)

pub place-AllSourced :
    (h : History) (n : NodeInfo) (s : LocalLwwStore) (w : World)
    → IsSourced h s
    → AllSourced h w
    → AllSourced h (place n s w)
unfolding place
place-AllSourced h n s w at_n rest m k = elim (Bool-cases (node_eq n m)) [
  | inl same ↦ rw same (at_n k)
  | inr other ↦ rw other (rest m k)
]

merge-IsHeld :
    (key : Text) (h : History) (e : Entry) (o : Option Entry)
    → IsHeld key h (some e)
    → IsHeld key h o
    → IsHeld key h (merge e o)
merge-IsHeld key h e o new old = elim (Bool-cases (is_newer o e.ts)) [
  | inl newer ↦ rw newer old
  | inr older ↦ rw older new
]

pub set-IsSourced :
    (now clock : ℤ) (key : Text) (value : Value) (ttl : Option ℤ) (ts : ℤ) (h : History)
    (s : LocalLwwStore)
    → WasSet key value h
    → IsSourced h s
    → IsSourced h (Lww.set now clock key value ttl (some ts) s).1
set-IsSourced now clock key value ttl ts h s was held k =
    rw (entry_at-set now clock key k value ttl (some ts) s) (elim (Bool-cases (text_eq key k)) [
      | inr other ↦ rw other (held k)
      | inl same ↦ rw same (
          subst (λ x. IsHeld x h (merge (set_entry now clock value ttl (some ts)) (entry_at key s)))
            ((text_eq_iff key k).0 same)
            (merge-IsHeld key h (set_entry now clock value ttl (some ts)) (entry_at key s) was
              (held key)))
    ])

pub delete-IsSourced :
    (clock : ℤ) (key : Text) (ts : ℤ) (h : History) (s : LocalLwwStore)
    → IsSourced h s
    → IsSourced h (Lww.delete clock key (some ts) s).1
delete-IsSourced clock key ts h s held k =
    rw (entry_at-delete clock key k (some ts) s) (elim (Bool-cases (text_eq key k)) [
      | inr other ↦ rw other (held k)
      | inl same ↦ rw same (
          subst (λ x. IsHeld x h (merge (delete_entry clock (some ts)) (entry_at key s)))
            ((text_eq_iff key k).0 same)
            (merge-IsHeld key h (delete_entry clock (some ts)) (entry_at key s) tt (held key)))
    ])

after_read-IsHeld :
    (now : ℤ) (k : Text) (h : History) (o : Option Entry)
    → IsHeld k h o
    → IsHeld k h (after_read now o)
after_read-IsHeld now k h none held = tt
after_read-IsHeld now k h (some e) held =
    elim (Bool-cases (Lww.is_live e && is_past now e.expires_at)) [
      | inl gone ↦ rw gone tt
      | inr kept ↦ rw kept held
    ]

pub get-IsSourced :
    (now : ℤ) (key : Text) (h : History) (s : LocalLwwStore)
    → IsSourced h s
    → IsSourced h (Lww.get_versioned now key s).1
get-IsSourced now key h s held k =
    rw (entry_at-get_versioned now key k s) (elim (Bool-cases (text_eq key k)) [
      | inr other ↦ rw other (held k)
      | inl same ↦ rw same (
          subst (λ x. IsHeld x h (after_read now (entry_at key s))) ((text_eq_iff key k).0 same)
            (after_read-IsHeld now key h (entry_at key s) (held key)))
    ])
