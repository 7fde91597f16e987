-- ===== src/Dict/Laws.antt =====
-- What a lookup sees after each change of a dictionary, and how many entries are left.
use dlstorage.Base.{
  ◌+◌, Text, text_eq, text_eq_iff, text_eq_self, Bool, false, List, [], ◌∷◌, Option, none, some,
  if◌then◌else◌, ◌≡◌, refl, arith, length, Bool-cases, inl, inr, ◌||◌, not, filter, ap, ◌∙◌,
}
use dlstorage.Dict.{Dict, get, put, remove, select, remove_all}

-- No key stands twice: the invariant of every dictionary.
abbrev pub IsDistinct {ℓ} : {V : Type ℓ} → Dict V → Type ℓ
IsDistinct [] = Unit
IsDistinct ((k, v) ∷ d) = (get k d ≡ none) × IsDistinct d

-- `k in ks`, for a list of keys
abbrev pub contains : Text → List Text → Bool
contains k [] = false
contains k (j ∷ js) = text_eq j k || contains k js

-- `p(k, d[k])` where `k in d`
abbrev pub holds {ℓ} : {V : Type ℓ} → (V → Bool) → Option V → Bool
holds p none = false
holds p (some v) = p v

module _ {ℓ} {V : Type ℓ} where
  pub get-put :
      (k j : Text) (v : V) (d : Dict V)
      → get j (put k v d) ≡ (if text_eq k j then some v else get j d)
  unfolding get put
  get-put k j v [] = refl
  get-put k j v ((i, w) ∷ d) =
      ground (arith, text_eq_iff k j, text_eq_iff i k, text_eq_iff i j, get-put k j v d)

  pub put-put : (k : Text) (v w : V) (d : Dict V) → put k v (put k w d) ≡ put k v d
  unfolding put
  put-put k v w [] = rw (text_eq_self k) refl
  put-put k v w ((i, x) ∷ d) = elim (Bool-cases (text_eq i k)) [
    | inl same ↦ rw (same, same) refl
    | inr other ↦ rw (other, other) (ap (◌∷◌ (i, x)) (put-put k v w d))
  ]

  pub get-remove :
      (k j : Text) (d : Dict V) → get j (remove k d) ≡ (if text_eq k j then none else get j d)
  unfolding get remove
  get-remove k j [] = ground arith
  get-remove k j ((i, w) ∷ d) =
      ground (arith, text_eq_iff k j, text_eq_iff i k, text_eq_iff i j, get-remove k j d)

  pub get-remove_all :
      (ks : List Text) (j : Text) (d : Dict V)
      → get j (remove_all ks d) ≡ (if contains j ks then none else get j d)
  unfolding remove_all
  get-remove_all [] j d = refl
  get-remove_all (k ∷ ks) j d = ground (arith, get-remove_all ks j (remove k d), get-remove k j d)

  pub put-IsDistinct : (k : Text) (v : V) (d : Dict V) → IsDistinct d → IsDistinct (put k v d)
  unfolding put
  put-IsDistinct k v [] h = (unfold get in refl, tt)
  put-IsDistinct k v ((i, w) ∷ d) h = elim (Bool-cases (text_eq i k)) [
    | inl same ↦ rw same h
    | inr other ↦ rw other (
      ground (arith, get-put k i v d, text_eq_iff k i, text_eq_iff i k),
      put-IsDistinct k v d h.1,
    )
  ]

  pub remove-IsDistinct : (k : Text) (d : Dict V) → IsDistinct d → IsDistinct (remove k d)
  unfolding remove
  remove-IsDistinct k [] h = tt
  remove-IsDistinct k ((i, w) ∷ d) h = elim (Bool-cases (text_eq i k)) [
    | inl same ↦ rw same (remove-IsDistinct k d h.1)
    | inr other ↦ rw other (ground (arith, get-remove k i d), remove-IsDistinct k d h.1)
  ]

  pub remove_all-IsDistinct :
      (ks : List Text) (d : Dict V) → IsDistinct d → IsDistinct (remove_all ks d)
  unfolding remove_all
  remove_all-IsDistinct [] d h = h
  remove_all-IsDistinct (k ∷ ks) d h =
      remove_all-IsDistinct ks (remove k d) (remove-IsDistinct k d h)

  -- A key is selected exactly when its entry passes the test.
  pub contains-select :
      (p : Text → V → Bool) (k : Text) (d : Dict V)
      → IsDistinct d
      → contains k (select p d) ≡ holds (p k) (get k d)
  unfolding select get
  contains-select p k [] h = refl
  contains-select p k ((i, w) ∷ d) h = elim (Bool-cases (text_eq i k)) [
    | inl same ↦
        let e : i ≡ k = (text_eq_iff i k).0 same in
        let ih = contains-select p k d h.1 in
        let missing : get k d ≡ none = rw e at h.0 in ground (arith, same, e, ih, missing)
    | inr other ↦ ground (arith, other, contains-select p k d h.1)
  ]

  remove_absent : (k : Text) (d : Dict V) → get k d ≡ none → remove k d ≡ d
  unfolding get remove
  remove_absent k [] h = refl
  remove_absent k ((i, w) ∷ d) h = ground (arith, remove_absent k d)

  remove_all-cons :
      (ks : List Text) (i : Text) (w : V) (d : Dict V)
      → remove_all ks ((i, w) ∷ d)
        ≡ (if contains i ks then remove_all ks d else (i, w) ∷ remove_all ks d)
  unfolding remove_all remove
  remove_all-cons [] i w d = refl
  remove_all-cons (k ∷ ks) i w d =
      ground (arith, remove_all-cons ks i w (remove k d), text_eq_iff i k, text_eq_iff k i)

  abbrev pub fails : (Text → V → Bool) → Text × V → Bool
  fails p e = not (p e.0 e.1)

  -- Collecting the keys that pass a test and deleting them keeps the entries that fail it.
  pub remove_all-select :
      (p : Text → V → Bool) (d : Dict V)
      → IsDistinct d
      → remove_all (select p d) d ≡ filter (fails p) d
  unfolding select remove_all
  remove_all-select p [] h = refl
  remove_all-select p ((i, w) ∷ d) h = elim (Bool-cases (p i w)) [
    | inl hit ↦ rw hit (
        ground (
          arith,
          remove_all-cons (i ∷ select p d) i w d,
          text_eq_self i,
          remove_absent i d h.0,
          remove_all-select p d h.1,
        ))
    | inr miss ↦ rw miss (
        ground (
          arith,
          remove_all-cons (select p d) i w d,
          contains-select p i d h.1,
          h.0,
          remove_all-select p d h.1,
        ))
  ]

  pub length-fails :
      (p : Text → V → Bool) (d : Dict V)
      → length (filter (fails p) d) + length (select p d) ≡ length d
  unfolding select
  length-fails p [] = omega arith
  length-fails p ((i, w) ∷ d) = ground (arith, length-fails p d)

  -- Deleting what was collected shrinks the dictionary by the number collected.
  pub length-remove_all-select :
      (p : Text → V → Bool) (d : Dict V)
      → IsDistinct d
      → length (remove_all (select p d) d) + length (select p d) ≡ length d
  length-remove_all-select p d h = rw (remove_all-select p d h) (length-fails p d)

  -- What a lookup sees after the entries that pass a test are deleted.
  pub get-remove_all-select :
      (p : Text → V → Bool) (k : Text) (d : Dict V)
      → IsDistinct d
      → get k (remove_all (select p d) d) ≡ (if holds (p k) (get k d) then none else get k d)
  get-remove_all-select p k d h =
      get-remove_all (select p d) k d
      ∙ ap (λ b. if b then none else get k d) (contains-select p k d h)
