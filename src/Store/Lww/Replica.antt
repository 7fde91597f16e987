-- ===== src/Store/Lww/Replica.antt =====
-- A replica but for what is its own: what it holds at each key, whatever the order of its dictionary
-- and whatever deadlines its clock has made of the times to live.
use mathlib.Core.Quot
use mathlib.Core.Quot.{Quot, Quot-set}
use dlstorage.Base.{Text, List, [], ◌∷◌, ◌≡◌, sym, ap, ◌∙◌}
use dlstorage.Store.Lww.{LocalLwwStore}
use dlstorage.Store.Lww.Writes.{entry_at}
use dlstorage.Store.Lww.Converge.{apply, entry_at-apply}
use dlstorage.Store.Lww.Arrivals.{Arrival, write_of, undated, take_call, undated-absorb}

-- The same values, tombstones and timestamps at every key.
abbrev pub SameEntries : LocalLwwStore → LocalLwwStore → Type 0
SameEntries s t = (k : Text) → undated (entry_at k s) ≡ undated (entry_at k t)

abbrev pub Replica : Type 0
Replica = Quot SameEntries

undated-apply :
    (a : Arrival) (k : Text) (s : LocalLwwStore)
    → undated (entry_at k (apply (write_of a) s)) ≡ take_call k a.call (undated (entry_at k s))
undated-apply a k s =
    ap undated (entry_at-apply (write_of a) k s) ∙ undated-absorb k a (entry_at k s)

pub SameEntries-apply :
    (a : Arrival) (s t : LocalLwwStore)
    → SameEntries s t
    → SameEntries (apply (write_of a) s) (apply (write_of a) t)
SameEntries-apply a s t h k =
    undated-apply a k s ∙ ap (take_call k a.call) (h k) ∙ sym (undated-apply a k t)

-- A `set` or a `delete` that reaches the replica.
unfoldable pub write : Arrival → Replica → Replica
write a =
    Quot.lift Quot-set (λ s. Quot.mk (apply (write_of a) s))
      (λ s t h. Quot.sound (SameEntries-apply a s t h))

unfoldable pub write_all : List Arrival → Replica → Replica
write_all [] r = r
write_all (a ∷ arrived) r = write_all arrived (write a r)
