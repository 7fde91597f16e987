-- ===== src/Store/Lww/Converge.antt =====
-- Writes that arrive at a store one after another.
use dlstorage.Base.{
  Text, text_eq, text_eq_iff, ℤ, ℤ-discrete, ltb_ℤ, ◌≤ℤ◌, eq_of_parts, Option, none, some, List, [],
  ◌∷◌, if◌then◌else◌, ◌≡◌, ◌≢◌, refl, sym, ◌∙◌, ap, text_eq_self, loop, arith, Bool-cases, inl, inr,
}
use dlstorage.Types.{Value}
use dlstorage.Store.Lww.{Entry, LocalLwwStore, set, delete}
use dlstorage.Store.Lww.Writes.{
  entry_at, merge, merge_idem, set_entry, delete_entry, entry_at-set, entry_at-delete,
}

-- The arrival of a call of `set` or of `delete` at a store, with the clocks that the store reads.
pub data Write : Type 0 where
  set_write : (now clock : ℤ) → Text → Value → Option ℤ → Option ℤ → Write
  delete_write : ℤ → Text → Option ℤ → Write

abbrev pub write_key : Write → Text
write_key (set_write now clock k value ttl ts) = k
write_key (delete_write clock k ts) = k

abbrev pub write_entry : Write → Entry
write_entry (set_write now clock k value ttl ts) = set_entry now clock value ttl ts
write_entry (delete_write clock k ts) = delete_entry clock ts

unfoldable pub apply : Write → LocalLwwStore → LocalLwwStore
apply (set_write now clock k value ttl ts) s = (set now clock k value ttl ts s).1
apply (delete_write clock k ts) s = (delete clock k ts s).1

unfoldable pub apply_all : List Write → LocalLwwStore → LocalLwwStore
apply_all [] s = s
apply_all (w ∷ ws) s = apply_all ws (apply w s)

abbrev pub absorb : Text → Write → Option Entry → Option Entry
absorb j w r = if text_eq (write_key w) j then merge (write_entry w) r else r

pub entry_at-apply :
    (w : Write) (j : Text) (s : LocalLwwStore) → entry_at j (apply w s) ≡ absorb j w (entry_at j s)
unfolding apply
entry_at-apply (set_write now clock k value ttl ts) j s =
    ground (arith, entry_at-set now clock k j value ttl ts s, text_eq_iff k j)
entry_at-apply (delete_write clock k ts) j s =
    ground (arith, entry_at-delete clock k j ts s, text_eq_iff k j)

pub entry_at-apply_all :
    (ws : List Write) (j : Text) (s : LocalLwwStore)
    → entry_at j (apply_all ws s) ≡ loop (absorb j) ws (entry_at j s)
unfolding apply_all
entry_at-apply_all [] j s = refl
entry_at-apply_all (w ∷ ws) j s =
    entry_at-apply_all ws j (apply w s) ∙ ap (loop (absorb j) ws) (entry_at-apply w j s)

merge_comm :
    (a b : Entry) (r : Option Entry) → a.ts ≢ b.ts → merge a (merge b r) ≡ merge b (merge a r)
merge_comm a b none h = ground (arith, eq_of_parts a.ts b.ts)
merge_comm a b (some e) h = ground (arith, eq_of_parts a.ts b.ts)

-- An entry that is written at a key, as it shows at the key `j`.
abbrev pub take_at : Text → Text → Entry → Option Entry → Option Entry
take_at j k e r = if text_eq k j then merge e r else r

pub take_at_comm :
    (j k l : Text) (e f : Entry) (r : Option Entry)
    → (k ≡ l → e.ts ≡ f.ts → e ≡ f)
    → take_at j k e (take_at j l f r) ≡ take_at j l f (take_at j k e r)
take_at_comm j k l e f r h = elim (Bool-cases (text_eq k j)) [
  | inr other ↦ rw other
  | inl at_k ↦ elim (Bool-cases (text_eq l j)) [
    | inr other ↦ rw other
    | inl at_l ↦ elim (ℤ-discrete e.ts f.ts) [
      | yes same ↦
          let alike : e ≡ f = h ((text_eq_iff _ _).0 at_k ∙ sym ((text_eq_iff _ _).0 at_l)) same in
          rw (at_k, at_l, alike)
      | no differ ↦ rw (at_k, at_l) (merge_comm e f r differ)
    ]
  ]
]

pub absorb_comm :
    (j : Text) (v w : Write) (r : Option Entry)
    → (write_key v ≡ write_key w → (write_entry v).ts ≡ (write_entry w).ts → v ≡ w)
    → absorb j v (absorb j w r) ≡ absorb j w (absorb j v r)
absorb_comm j v w r h =
    take_at_comm j (write_key v) (write_key w) (write_entry v) (write_entry w) r
      (λ keys stamps. ap write_entry (h keys stamps))

-- A write that is taken twice in a row is taken once.
pub absorb_idem :
    (k : Text) (w : Write) (o : Option Entry) → absorb k w (absorb k w o) ≡ absorb k w o
absorb_idem k w o = elim (Bool-cases (text_eq (write_key w) k)) [
  | inl at_k ↦ rw at_k (merge_idem (write_entry w) o)
  | inr other ↦ rw other refl
]

merge-newest : (e : Entry) (r : Option Entry) → (m : Entry) × (merge e r ≡ some m) × (e.ts ≤ℤ m.ts)
merge-newest e none = (e, refl, omega arith)
merge-newest e (some f) = elim (Bool-cases (ltb_ℤ e.ts f.ts)) [
  | inl newer ↦ (f, rw newer, ground arith)
  | inr older ↦ (e, rw older, omega arith)
]

merge-keeps : (e f : Entry) → (m : Entry) × (merge e (some f) ≡ some m) × (f.ts ≤ℤ m.ts)
merge-keeps e f = elim (Bool-cases (ltb_ℤ e.ts f.ts)) [
  | inl newer ↦ (f, rw newer, omega arith)
  | inr older ↦ (e, rw older, ground arith)
]

absorb_all-keeps :
    (ws : List Write) (j : Text) (f : Entry)
    → (m : Entry) × (loop (absorb j) ws (some f) ≡ some m) × (f.ts ≤ℤ m.ts)
absorb_all-keeps [] j f = (f, refl, omega arith)
absorb_all-keeps (w ∷ ws) j f = elim (Bool-cases (text_eq (write_key w) j)) [
  | inr other ↦ rw other (absorb_all-keeps ws j f)
  | inl same ↦
      let (m, at_m, le_m) = merge-keeps (write_entry w) f in
      let (n, at_n, le_n) = absorb_all-keeps ws j m in (n, rw (same, at_m) at_n, omega arith)
]

-- Once a key has an entry, no sequence of writes loses it or makes its timestamp smaller.
pub apply_all-keeps :
    (ws : List Write) (s : LocalLwwStore) (j : Text) (f : Entry)
    → entry_at j s ≡ some f
    → (m : Entry) × (entry_at j (apply_all ws s) ≡ some m) × (f.ts ≤ℤ m.ts)
apply_all-keeps ws s j f h =
    let (m, at_m, le_m) = absorb_all-keeps ws j f in
    (m, entry_at-apply_all ws j s ∙ ap (loop (absorb j) ws) h ∙ at_m, le_m)

-- After a write and any writes behind it, the key's entry is at least as new as that write.
pub apply_all-newest :
    (w : Write) (ws : List Write) (s : LocalLwwStore)
    → (m : Entry) × (entry_at (write_key w) (apply_all (w ∷ ws) s) ≡ some m)
      × ((write_entry w).ts ≤ℤ m.ts)
unfolding apply_all
apply_all-newest w ws s =
    let (f, at_f, le_f) = merge-newest (write_entry w) (entry_at (write_key w) s) in
    let at_w : entry_at (write_key w) (apply w s) ≡ some f =
      entry_at-apply w (write_key w) s ∙ rw (text_eq_self (write_key w)) at_f in
    let (m, at_m, le_m) = apply_all-keeps ws (apply w s) (write_key w) f at_w in
    (m, at_m, omega arith)
