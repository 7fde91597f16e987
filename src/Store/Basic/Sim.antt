-- ===== src/Store/Basic/Sim.antt =====
-- The states of the two stores that look the same to a client without timestamps, and that each
-- method keeps them so.
use dlstorage.Base.{
  Text, text_eq, is_in, ℤ, ◌≤ℤ◌, Bool, true, false, ◌&&◌, Option, none, some, if◌then◌else◌, ◌≡◌,
  refl, sym, ◌∙◌, arith,
}
use dlstorage.Dict
use dlstorage.Dict.Laws.{holds, put-IsDistinct, remove-IsDistinct, remove_all-IsDistinct}
use dlstorage.Types.{Value}
use dlstorage.Store.{is_past}
use dlstorage.Store.Basic
use dlstorage.Store.Basic.{Item, LocalStore}
use dlstorage.Store.Basic.Laws
use dlstorage.Store.Basic.Laws.{
  item_at, item_at-set, item_at-get, item_at-delete, item_at-flush_keys, item_at-purge_expired,
  get-eq-view,
}
use dlstorage.Store.Lww
use dlstorage.Store.Lww.{Entry, LocalLwwStore, live, tombstone, is_live, value_of, is_newer}
use dlstorage.Store.Lww.Invariant
use dlstorage.Store.Lww.Writes.{entry_at, entry_at-set, entry_at-delete}
use dlstorage.Store.Lww.Reads.{entry_at-get_versioned, get-view, after_read, view}
use dlstorage.Store.Lww.Sweep.{entry_at-purge_expired, flush_keys_lem}

-- The item that an entry stands for.
abbrev pub forget : Option Entry → Option Item
forget none = none
forget (some e) = elim e.slot [
  | live v ↦ some (record { value = v; expires_at = e.expires_at })
  | tombstone ↦ none
]

abbrev pub Fits : ℤ → Option Entry → Type 0
Fits t none = Unit
Fits t (some e) = e.ts ≤ℤ t

-- The states correspond, and no entry is from after `t`.
pub record Sim (t : ℤ) (a : LocalStore) (b : LocalLwwStore) : Type 0 where
  pub valid : Laws.IsValid a
  pub valid_lww : Invariant.IsValid b
  pub same : (k : Text) → item_at k a ≡ forget (entry_at k b)
  pub bounded : (k : Text) → Fits t (entry_at k b)

not_newer : (t clock : ℤ) (o : Option Entry) → t ≤ℤ clock → Fits t o → is_newer o clock ≡ false
not_newer t clock none h f = refl
not_newer t clock (some e) h f = ground arith

Fits-mono : (t clock : ℤ) (o : Option Entry) → t ≤ℤ clock → Fits t o → Fits clock o
Fits-mono t clock none h f = tt
Fits-mono t clock (some e) h f = omega arith

Fits-if :
    (t : ℤ) (b : Bool) (x y : Option Entry) → Fits t x → Fits t y → Fits t (if b then x else y)
Fits-if t true x y fx fy = fx
Fits-if t false x y fx fy = fy

module _ (t clock : ℤ) (a : LocalStore) (b : LocalLwwStore) (later : t ≤ℤ clock)
    (s : Sim t a b) where
  pub Sim-set :
      (now : ℤ) (k : Text) (v : Value) (ttl : Option ℤ)
      → Sim clock (Basic.set now k v ttl a).1 (Lww.set now clock k v ttl none b).1
        × ((Basic.set now k v ttl a).0 ≡ (Lww.set now clock k v ttl none b).0)
  Sim-set now k v ttl =
      let fresh = not_newer t clock (entry_at k b) later (s.bounded k) in
      (
        record {
          valid = unfold Basic.set in put-IsDistinct k _ a.items s.valid;
          valid_lww = Invariant.set-IsValid now clock k v ttl none b s.valid_lww;
          same = λ j. ground (
            arith,
            item_at-set now k j v ttl a,
            entry_at-set now clock k j v ttl none b,
            fresh,
            s.same j,
          );
          bounded = λ j.
              rw (entry_at-set now clock k j v ttl none b, fresh)
                (Fits-if clock (text_eq k j) _ _ (omega arith)
                  (Fits-mono t clock (entry_at j b) later (s.bounded j)));
        },
        unfold Basic.set Lww.set in rw fresh,
      )

  pub Sim-delete :
      (k : Text)
      → Sim clock (Basic.delete k a).1 (Lww.delete clock k none b).1
        × ((Basic.delete k a).0 ≡ (Lww.delete clock k none b).0)
  Sim-delete k =
      let fresh = not_newer t clock (entry_at k b) later (s.bounded k) in
      (
        record {
          valid = unfold Basic.delete in remove-IsDistinct k a.items s.valid;
          valid_lww = Invariant.delete-IsValid clock k none b s.valid_lww;
          same = λ j.
              ground
                (arith, item_at-delete k j a, entry_at-delete clock k j none b, fresh, s.same j);
          bounded = λ j.
              rw (entry_at-delete clock k j none b, fresh)
                (Fits-if clock (text_eq k j) _ _ (omega arith)
                  (Fits-mono t clock (entry_at j b) later (s.bounded j)));
        },
        unfold Basic.delete Lww.delete in ground (arith, s.same k, fresh),
      )

  pub Sim-get :
      (now : ℤ) (k : Text)
      → Sim clock (Basic.get now k a).1 (Lww.get now k b).1
        × ((Basic.get now k a).0 ≡ (Lww.get now k b).0)
  Sim-get now k = (
    record {
      valid = Laws.get-IsValid now k a s.valid;
      valid_lww = unfold Lww.get in Invariant.get_versioned-IsValid now k b s.valid_lww;
      same = λ j.
          unfold Lww.get in
          ground
            (arith, item_at-get now k j a, entry_at-get_versioned now k j b, s.same k, s.same j);
      bounded = λ j.
          unfold Lww.get in
          rw (entry_at-get_versioned now k j b) (
            Fits-if clock (text_eq k j) _ _
              (Fits-after_read now (entry_at k b)
                (Fits-mono t clock (entry_at k b) later (s.bounded k)))
              (Fits-mono t clock (entry_at j b) later (s.bounded j)));
    },
    get-eq-view now k a
        ∙ read_same (entry_at k b) (item_at k a) (s.same k)
        ∙ sym (get-view now k b),
  )
    where
      Fits-after_read : (n : ℤ) (o : Option Entry) → Fits clock o → Fits clock (after_read n o)
      Fits-after_read n none f = tt
      Fits-after_read n (some e) f =
          Fits-if clock (is_live e && is_past n e.expires_at) none (some e) tt f

      read_same :
          (o : Option Entry) (i : Option Item)
          → i ≡ forget o
          → Laws.view now i ≡ value_of (view now o)
      read_same none i e = ground arith
      read_same (some x) i e = ground arith

  pub Sim-flush_keys :
      (pattern_text : Text)
      → Sim clock (Basic.flush_keys pattern_text a).1 (Lww.flush_keys pattern_text b).1
  Sim-flush_keys pattern_text =
      let flushed = λ (j : Text). (flush_keys_lem pattern_text b s.valid_lww).0 j in
      record {
        valid = unfold Basic.flush_keys in remove_all-IsDistinct _ a.items s.valid;
        valid_lww = unfold Lww.flush_keys in remove_all-IsDistinct _ b.entries s.valid_lww;
        same =
            λ j. ground (arith, item_at-flush_keys pattern_text j a s.valid, flushed j, s.same j);
        bounded = λ j. rw (flushed j) (
            Fits-if clock (is_in pattern_text j) none _ tt
              (Fits-mono t clock (entry_at j b) later (s.bounded j)));
      }

  pub Sim-purge_expired :
      (now : ℤ) → Sim clock (Basic.purge_expired now a).1 (Lww.purge_expired now b).1
  Sim-purge_expired now = record {
    valid = unfold Basic.purge_expired in remove_all-IsDistinct _ a.items s.valid;
    valid_lww = unfold Lww.purge_expired in remove_all-IsDistinct _ b.entries s.valid_lww;
    same = λ j. ground (
      arith,
      item_at-purge_expired now j a s.valid,
      entry_at-purge_expired now j b s.valid_lww,
      s.same j,
    );
    bounded = λ j. rw (entry_at-purge_expired now j b s.valid_lww) (
        Fits-if clock (holds (Lww.is_expired now j) (entry_at j b)) none _ tt
          (Fits-mono t clock (entry_at j b) later (s.bounded j)));
  }

pub Sim-empty : (t : ℤ) → Sim t Basic.init Lww.init
Sim-empty t = record {
  valid = tt;
  valid_lww = tt;
  same = λ k. unfold Dict.get in refl;
  bounded = λ k. unfold Dict.get in tt;
}
