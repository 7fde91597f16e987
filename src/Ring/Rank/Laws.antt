-- ===== src/Ring/Rank/Laws.antt =====
-- The ranking is a descending permutation, and depends on nothing but the scores.
use mathlib.Core.Logic.{∥∥₁_elim}
use mathlib.Core.List.{Mem, mem-cons_self, mem-cons_of_mem, Perm, Permᴰ, head?}
use mathlib.Core.List.Perm
use mathlib.Core.Path.{ap₂}
use dlstorage.Base.{
  ℕ, ◌≤◌, ltb, Bool, List, [], ◌∷◌, none, some, if◌then◌else◌, filter, All, All-map, ◌≡◌, refl, ◌∙◌,
  arith, Bool-cases, inl, inr,
}
use dlstorage.Ring.Rank.{insert_by, sort_by, max_by}

module _ {A : Type 0} (score : A → ℕ) where
  -- Every element scores at least as much as those behind it.
  abbrev pub IsDescending : List A → Type 0
  IsDescending [] = Unit
  IsDescending (x ∷ l) = All (λ y. score y ≤ score x) l × IsDescending l

  insert_by-perm : (x : A) (l : List A) → Perm (insert_by score x l) (x ∷ l)
  unfolding insert_by
  insert_by-perm x [] = Perm.refl _
  insert_by-perm x (y ∷ l) = elim (Bool-cases (ltb (score x) (score y))) [
    | inl below ↦ rw below (Perm.trans (Perm.cons y (insert_by-perm x l)) (Perm.swap x y l))
    | inr above ↦ rw above (Perm.refl _)
  ]

  pub sort_by-perm : (l : List A) → Perm (sort_by score l) l
  unfolding sort_by
  sort_by-perm [] = Perm.refl _
  sort_by-perm (x ∷ l) =
      Perm.trans (insert_by-perm x (sort_by score l)) (Perm.cons x (sort_by-perm l))

  All-insert_by :
      (P : A → Type 0) (x : A) (l : List A) → P x → All P l → All P (insert_by score x l)
  unfolding insert_by
  All-insert_by P x [] px pl = (px, tt)
  All-insert_by P x (y ∷ l) px pl = elim (Bool-cases (ltb (score x) (score y))) [
    | inl below ↦ rw below (pl.0, All-insert_by P x l px pl.1)
    | inr above ↦ rw above (px, pl)
  ]

  insert_by-IsDescending :
      (x : A) (l : List A) → IsDescending l → IsDescending (insert_by score x l)
  unfolding insert_by
  insert_by-IsDescending x [] h = (tt, tt)
  insert_by-IsDescending x (y ∷ l) h = elim (Bool-cases (ltb (score x) (score y))) [
    | inl below ↦ rw below (
      All-insert_by (λ z. score z ≤ score y) x l (ground arith) h.0,
      insert_by-IsDescending x l h.1,
    )
    | inr above ↦
        let top : score y ≤ score x = ground arith in
        rw above (
          (
            top,
            All-map (λ z. score z ≤ score y) (λ z. score z ≤ score x) l (λ z le. omega arith) h.0,
          ),
          h,
        )
  ]

  pub sort_by-IsDescending : (l : List A) → IsDescending (sort_by score l)
  unfolding sort_by
  sort_by-IsDescending [] = tt
  sort_by-IsDescending (x ∷ l) = insert_by-IsDescending x (sort_by score l) (sort_by-IsDescending l)

  -- In front of elements that do not beat it, an element is inserted at the head.
  insert_by-top :
      (x : A) (l : List A) → All (λ z. score z ≤ score x) l → insert_by score x l ≡ x ∷ l
  unfolding insert_by
  insert_by-top x [] h = refl
  insert_by-top x (y ∷ l) h = ground (arith, h.0)

  All-filter : (P : A → Type 0) (p : A → Bool) (l : List A) → All P l → All P (filter p l)
  All-filter P p [] h = tt
  All-filter P p (x ∷ l) h = elim (Bool-cases (p x)) [
    | inl keep ↦ rw keep (h.0, All-filter P p l h.1)
    | inr lose ↦ rw lose (All-filter P p l h.1)
  ]

  filter-insert_by :
      (p : A → Bool) (x : A) (l : List A)
      → IsDescending l
      → filter p (insert_by score x l)
        ≡ (if p x then insert_by score x (filter p l) else filter p l)
  unfolding insert_by
  filter-insert_by p x [] h = refl
  filter-insert_by p x (y ∷ l) h = elim (Bool-cases (ltb (score x) (score y))) [
    | inl below ↦ rw below (ground (arith, below, filter-insert_by p x l h.1))
    | inr above ↦
        let le_x : score y ≤ score x = ground arith in
        let all_le : All (λ z. score z ≤ score x) (y ∷ l) = (
          le_x,
          All-map (λ z. score z ≤ score y) (λ z. score z ≤ score x) l (λ z le. omega arith) h.0,
        ) in
        let top =
          insert_by-top x (filter p (y ∷ l))
            (All-filter (λ z. score z ≤ score x) p (y ∷ l) all_le) in
        rw (above, top) refl
  ]

  -- Ranking what passes a test is the ranking of all, with the rest left out.
  pub sort_by-filter :
      (p : A → Bool) (l : List A) → sort_by score (filter p l) ≡ filter p (sort_by score l)
  unfolding sort_by
  sort_by-filter p [] = refl
  sort_by-filter p (x ∷ l) =
      ground
        (arith, filter-insert_by p x (sort_by score l) (sort_by-IsDescending l), sort_by-filter p l)

  insert_by_comm :
      (x y : A) (l : List A)
      → (score x ≡ score y → x ≡ y)
      → insert_by score x (insert_by score y l) ≡ insert_by score y (insert_by score x l)
  unfolding insert_by
  insert_by_comm x y [] h = ground arith
  insert_by_comm x y (z ∷ l) h = ground (arith, insert_by_comm x y l h)

  -- No two different elements of the list have the same score.
  abbrev pub IsTieFree : List A → Type 0
  IsTieFree l = (x y : A) → Mem x l → Mem y l → score x ≡ score y → x ≡ y

  sort_by-Permᴰ : {l m : List A} → Permᴰ l m → IsTieFree l → sort_by score l ≡ sort_by score m
  unfolding sort_by
  sort_by-Permᴰ Permᴰ.nil h = refl
  sort_by-Permᴰ (Permᴰ.cons {a = x} {l₁ = l} e p) h =
      ap₂ (insert_by score) e
        (sort_by-Permᴰ p (λ y z my mz. h y z (mem-cons_of_mem x my) (mem-cons_of_mem x mz)))
  sort_by-Permᴰ (Permᴰ.swap {a = x} {b = y} {l = l} e f) h =
      insert_by_comm x y (sort_by score l) (h x y mem-cons_self (mem-cons_of_mem x mem-cons_self))
      ∙ ap₂ (λ v w. insert_by score v (insert_by score w (sort_by score l))) f e
  sort_by-Permᴰ (Permᴰ.trans p q) h =
      sort_by-Permᴰ p h
      ∙ sort_by-Permᴰ q
          (λ x y mx my. h x y ((Perm.mem_iff ∣ p ∣₁).1 mx) ((Perm.mem_iff ∣ p ∣₁).1 my))

  -- Without ties the ranking does not depend on the order of the list.
  pub sort_by-perm_eq :
      (set : IsSet A) (l m : List A) → Perm l m → IsTieFree l → sort_by score l ≡ sort_by score m
  sort_by-perm_eq set l m p h = ∥∥₁_elim p (List_set _ _) (λ q. sort_by-Permᴰ q h)
    where
      List_set : IsSet (List A)
      List_set = hlevel set

  pub head-insert_by :
      (x : A) (l : List A)
      → head? (insert_by score x l) ≡ elim (head? l) [
        | none ↦ some x
        | some y ↦ if ltb (score x) (score y) then some y else some x
      ]
  unfolding insert_by
  head-insert_by x [] = refl
  head-insert_by x (y ∷ l) = ground arith

  -- `max` is the head of the ranking.
  pub head-sort_by :
      (best : A) (l : List A) → head? (sort_by score (best ∷ l)) ≡ some (max_by score best l)
  unfolding sort_by max_by
  head-sort_by best [] = unfold insert_by in refl
  head-sort_by best (x ∷ l) =
      let ranked = sort_by score l in
      elim (Bool-cases (ltb (score best) (score x))) [
        | inl beaten ↦ rw beaten (
            ground (
              arith,
              beaten,
              head-insert_by best (insert_by score x ranked),
              head-insert_by x ranked,
              head-sort_by x l,
            ))
        | inr stays ↦ rw stays (
            ground (
              arith,
              stays,
              head-insert_by best (insert_by score x ranked),
              head-insert_by x ranked,
              head-insert_by best ranked,
              head-sort_by best l,
            ))
      ]
