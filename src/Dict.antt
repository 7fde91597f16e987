-- ===== src/Dict.antt =====
-- Python's `dict` with text keys: the entries in insertion order, as iteration sees them.
pub mod Laws
use dlstorage.Base.{
  Text, text_eq, Bool, List, [], ◌∷◌, Option, none, some, if◌then◌else◌, filter, map,
}

abbrev pub Dict {ℓ} : Type ℓ → Type ℓ
Dict V = List (Text × V)

module _ {ℓ} {V : Type ℓ} where
  -- `d.get(k)`
  unfoldable pub get : Text → Dict V → Option V
  get k [] = none
  get k ((j, v) ∷ d) = if text_eq j k then some v else get k d

  -- `d[k] = v`: a present key keeps its place, a new one goes to the end.
  unfoldable pub put : Text → V → Dict V → Dict V
  put k v [] = (k, v) ∷ []
  put k v ((j, w) ∷ d) = let rest = put k v d in if text_eq j k then (j, v) ∷ d else (j, w) ∷ rest

  -- `d.pop(k, None)`, and `del d[k]` of a present key
  unfoldable pub remove : Text → Dict V → Dict V
  remove k [] = []
  remove k ((j, w) ∷ d) = let rest = remove k d in if text_eq j k then rest else (j, w) ∷ rest

  -- `[k for k, v in d.items() if p(k, v)]`
  unfoldable pub select : (Text → V → Bool) → Dict V → List Text
  select p [] = []
  select p ((j, w) ∷ d) = let rest = select p d in if p j w then j ∷ rest else rest

  -- `for k in ks: del d[k]`
  unfoldable pub remove_all : List Text → Dict V → Dict V
  remove_all [] d = d
  remove_all (k ∷ ks) d = remove_all ks (remove k d)
