-- ===== src/Store/Basic/Laws.antt =====
-- What each method of `LocalStore` leaves at each key, and what it returns.
use dlstorage.Base.{
  Text, text_eq, text_eq_iff, is_in, ℤ, Option, none, some, if◌then◌else◌, ◌≡◌, refl, ◌∙◌, arith,
  Bool-cases, inl, inr,
}
use dlstorage.Dict
use dlstorage.Dict.Laws.{
  IsDistinct, holds, contains, contains-select, get-put, get-remove, remove-IsDistinct,
  get-remove_all-select,
}
use dlstorage.Types.{Value, null}
use dlstorage.Store.{deadline, is_past, is_ahead}
use dlstorage.Store.Basic.{
  Item, LocalStore, set, read_item, get, delete, keys, flush_keys, is_expired, purge_expired,
}

abbrev pub item_at : Text → LocalStore → Option Item
item_at k s = Dict.get k s.items

abbrev pub IsValid : LocalStore → Type 0
IsValid s = IsDistinct s.items

-- What a reader at time `now` sees of an item.
abbrev pub view : ℤ → Option Item → Value
view now none = null
view now (some e) = if is_past now e.expires_at then null else e.value

pub get-eq-view : (now : ℤ) (k : Text) (s : LocalStore) → (get now k s).0 ≡ view now (item_at k s)
unfolding get
get-eq-view now k s = ground arith

-- The item that a read of the key drops is one whose deadline has passed.
abbrev pub after_read : ℤ → Option Item → Option Item
after_read now none = none
after_read now (some e) = if is_past now e.expires_at then none else some e

pub item_at-get :
    (now : ℤ) (k j : Text) (s : LocalStore)
    → item_at j (get now k s).1
      ≡ (if text_eq k j then after_read now (item_at k s) else item_at j s)
unfolding get
item_at-get now k j s = ground (arith, get-remove k j s.items, text_eq_iff k j)

pub item_at-set :
    (now : ℤ) (k j : Text) (value : Value) (ttl : Option ℤ) (s : LocalStore)
    → item_at j (set now k value ttl s).1 ≡ (
        if text_eq k j
        then some (record { value = value; expires_at = deadline now ttl })
        else item_at j s)
unfolding set
item_at-set now k j value ttl s = get-put k j _ s.items

pub item_at-delete :
    (k j : Text) (s : LocalStore)
    → item_at j (delete k s).1 ≡ (if text_eq k j then none else item_at j s)
unfolding delete
item_at-delete k j s = get-remove k j s.items

pub item_at-flush_keys :
    (pattern_text k : Text) (s : LocalStore)
    → IsValid s
    → item_at k (flush_keys pattern_text s).1 ≡ (if is_in pattern_text k then none else item_at k s)
unfolding flush_keys
item_at-flush_keys pattern_text k s h =
    get-remove_all-select (λ j _. is_in pattern_text j) k s.items h ∙ by_pattern (item_at k s)
  where
    by_pattern :
        (o : Option Item)
        → (if holds (λ _. is_in pattern_text k) o then none else o)
          ≡ (if is_in pattern_text k then none else o)
    by_pattern none = ground arith
    by_pattern (some e) = refl

pub item_at-purge_expired :
    (now : ℤ) (k : Text) (s : LocalStore)
    → IsValid s
    → item_at k (purge_expired now s).1
      ≡ (if holds (is_expired now k) (item_at k s) then none else item_at k s)
unfolding purge_expired
item_at-purge_expired now k s h = get-remove_all-select (is_expired now) k s.items h

pub get-IsValid : (now : ℤ) (k : Text) (s : LocalStore) → IsValid s → IsValid (get now k s).1
unfolding get
get-IsValid now k s h = read_item-IsValid (Dict.get k s.items)
  where
    read_item-IsValid : (o : Option Item) → IsValid (read_item now k o s).1
    read_item-IsValid none = h
    read_item-IsValid (some e) = elim (Bool-cases (is_past now e.expires_at)) [
      | inl past ↦ rw past (remove-IsDistinct k s.items h)
      | inr current ↦ rw current h
    ]

-- A key is listed exactly when it has an item whose deadline lies ahead.
pub contains-keys :
    (now : ℤ) (k : Text) (s : LocalStore)
    → IsValid s
    → contains k (keys now s) ≡ holds (λ e. is_ahead now e.expires_at) (item_at k s)
unfolding keys
contains-keys now k s h = contains-select (λ _ e. is_ahead now e.expires_at) k s.items h
