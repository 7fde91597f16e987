-- ===== src/Ring/Rank.antt =====
-- Ranking by a score: Python's stable `sorted(..., reverse=True)` and `max`, over any type.
pub mod Laws
use dlstorage.Base.{ℕ, ltb, List, [], ◌∷◌, if◌then◌else◌}

module _ {ℓ} {A : Type ℓ} (score : A → ℕ) where
  -- `x` goes in front of the elements that do not beat it: it stood before them.
  unfoldable pub insert_by : A → List A → List A
  insert_by x [] = x ∷ []
  insert_by x (y ∷ l) =
      let rest = insert_by x l in if ltb (score x) (score y) then y ∷ rest else x ∷ y ∷ l

  -- `sorted(l, key=score, reverse=True)`: equal scores keep their order.
  unfoldable pub sort_by : List A → List A
  unfolding insert_by
  sort_by [] = []
  sort_by (x ∷ l) = insert_by x (sort_by l)

  -- `max` of `best` and the elements of `l`: a later element wins only if it is strictly greater.
  unfoldable pub max_by : A → List A → A
  max_by best [] = best
  max_by best (x ∷ l) = max_by (if ltb (score best) (score x) then x else best) l
