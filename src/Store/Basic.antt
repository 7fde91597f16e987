-- ===== src/Store/Basic.antt =====
-- dlstorage/store/basic.py: the store with optional times to live and no timestamps.
pub mod Laws
pub mod Sim
pub mod Refine
use dlstorage.Base.{
  ℕ, Text, is_in, ℤ, Bool, true, false, ◌&&◌, Option, none, some, List, [], ◌∷◌, length,
  if◌then◌else◌,
}
use dlstorage.Dict
use dlstorage.Dict.{Dict}
use dlstorage.Types.{Value, null, is_some_value}
use dlstorage.Store.{deadline, is_past, is_ahead, is_due}

-- `(value, expires_at)`
pub record Item : Type 0 where
  pub value : Value
  pub expires_at : Option ℤ

pub record LocalStore : Type 0 where
  pub items : Dict Item

abbrev pub init : LocalStore
init = record { items = [] }

unfoldable pub set : ℤ → Text → Value → Option ℤ → LocalStore → Bool × LocalStore
set now key value ttl s =
    let item : Item = record { value = value; expires_at = deadline now ttl } in
    (true, record s { items = Dict.put key item s.items })

read_item : ℤ → Text → Option Item → LocalStore → Value × LocalStore
read_item now key none s = (null, s)
read_item now key (some e) s =
    if is_past now e.expires_at
    then (null, record s { items = Dict.remove key s.items })
    else (e.value, s)

unfoldable pub get : ℤ → Text → LocalStore → Value × LocalStore
unfolding read_item
get now key s = read_item now key (Dict.get key s.items) s

abbrev pub is_present : Option Item → Bool
is_present none = false
is_present (some _) = true

unfoldable pub delete : Text → LocalStore → Bool × LocalStore
delete key s = (is_present (Dict.get key s.items), record s { items = Dict.remove key s.items })

unfoldable pub exists : ℤ → Text → LocalStore → Bool × LocalStore
exists now key s = let (value, s') = get now key s in (is_some_value value, s')

unfoldable pub keys : ℤ → LocalStore → List Text
keys now s = Dict.select (λ k e. is_ahead now e.expires_at) s.items

abbrev pub is_match : Text → ℤ → Text → Item → Bool
is_match pattern_text now k e = is_in pattern_text k && is_ahead now e.expires_at

scan_items : (Text → Item → Bool) → Dict Item → List (Text × Value)
scan_items p [] = []
scan_items p ((k, e) ∷ d) = let rest = scan_items p d in if p k e then (k, e.value) ∷ rest else rest

unfoldable pub scan : ℤ → Text → LocalStore → List (Text × Value)
unfolding scan_items
scan now pattern_text s = scan_items (is_match pattern_text now) s.items

unfoldable pub scan_keys : ℤ → Text → LocalStore → List Text
scan_keys now pattern_text s = Dict.select (is_match pattern_text now) s.items

unfoldable pub flush_all : LocalStore → LocalStore
flush_all s = record s { items = [] }

unfoldable pub flush_keys : Text → LocalStore → ℕ × LocalStore
flush_keys pattern_text s =
    let to_delete = Dict.select (λ k _. is_in pattern_text k) s.items in
    (length to_delete, record s { items = Dict.remove_all to_delete s.items })

unfoldable pub clear : LocalStore → LocalStore
clear s = record s { items = [] }

abbrev pub is_expired : ℤ → Text → Item → Bool
is_expired now k e = is_due now e.expires_at

unfoldable pub purge_expired : ℤ → LocalStore → ℕ × LocalStore
purge_expired now s =
    let expired = Dict.select (is_expired now) s.items in
    (length expired, record s { items = Dict.remove_all expired s.items })

-- `len(store)`
unfoldable pub count : ℤ → LocalStore → ℕ
count now s = length (keys now s)
