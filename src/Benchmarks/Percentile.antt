-- ===== src/Benchmarks/Percentile.antt =====
-- benchmarks/framework.py, `percentile`. Latencies are nanoseconds, `p` counts hundredths, and the
-- arithmetic is exact, where the code's floats round.
use native.Mathlib.Nat.{mul-add, mul-le-mul_left, mul-le-mul_right}
use dlstorage.Base.{
  ℕ, zero, suc, ◌+◌, ◌-◌, ◌*◌, ◌/◌, ◌%◌, ◌≤◌, ◌<◌, min, List, [], ◌∷◌, All, length, ◌≡◌, sym, ap,
  ◌∙◌, arith, ◌==◌, Bool-cases, inl, inr,
}

-- `data[i]`, for an index that is in range
abbrev pub get_or : ℕ → List ℕ → ℕ → ℕ
get_or d [] i = d
get_or d (x ∷ xs) zero = x
get_or d (x ∷ xs) (suc i) = get_or d xs i

-- A hundred times `a + (b - a) * f`, where `f` counts hundredths.
abbrev pub between : ℕ → ℕ → ℕ → ℕ
between a b f = a * (100 - f) + b * f

-- A hundred times the result, with `k = (len(data) - 1) * p / 100`.
unfoldable pub percentile : List ℕ → ℕ → ℕ
percentile [] p = 0
percentile (x ∷ xs) p =
    let k = length xs * p in
    let lo = k / 100 in
    let hi = min (lo + 1) (length xs) in
    between (get_or 0 (x ∷ xs) lo) (get_or 0 (x ∷ xs) hi) (k % 100)

-- Each element is at most those behind it.
abbrev pub IsAscending : List ℕ → Type 0
IsAscending [] = Unit
IsAscending (x ∷ xs) = All (λ y. x ≤ y) xs × IsAscending xs

between_split : (c f : ℕ) → f ≤ 100 → c * (100 - f) + c * f ≡ c * 100
between_split c f within = sym (mul-add c (100 - f) f) ∙ ap (λ n. c * n) (omega arith)

between_bounds :
    (a b f : ℕ) → a ≤ b → f ≤ 100 → (100 * a ≤ between a b f) × (between a b f ≤ 100 * b)
between_bounds a b f h within = (
  omega (arith, between_split a f within, mul-le-mul_right f h),
  omega (arith, between_split b f within, mul-le-mul_right (100 - f) h),
)

between_mono : (a b f g : ℕ) → a ≤ b → f ≤ g → g ≤ 100 → between a b f ≤ between a b g
between_mono a b f g h le within =
    let apart : 100 - f ≡ 100 - g + (g - f) = omega arith in
    let reached : g ≡ f + (g - f) = omega arith in
    omega (
      arith,
      ap (λ n. a * n) apart,
      ap (λ n. b * n) reached,
      mul-add a (100 - g) (g - f),
      mul-add b f (g - f),
      mul-le-mul_right (g - f) h,
    )

get_or-All : (x i : ℕ) (l : List ℕ) → i < length l → All (λ y. x ≤ y) l → x ≤ get_or 0 l i
get_or-All x i [] h all = absurd (omega arith)
get_or-All x zero (y ∷ l) h all = all.0
get_or-All x (suc i) (y ∷ l) h all = get_or-All x i l (omega arith) all.1

get_or_mono :
    (i j : ℕ) (l : List ℕ) → IsAscending l → i ≤ j → j < length l → get_or 0 l i ≤ get_or 0 l j
get_or_mono i j [] h le within = absurd (omega arith)
get_or_mono zero zero (x ∷ l) h le within = omega arith
get_or_mono zero (suc j) (x ∷ l) h le within = get_or-All x j l (omega arith) h.0
get_or_mono (suc i) zero (x ∷ l) h le within = absurd (omega arith)
get_or_mono (suc i) (suc j) (x ∷ l) h le within = get_or_mono i j l h.1 (omega arith) (omega arith)

module _ (x : ℕ) (xs : List ℕ) (h : IsAscending (x ∷ xs)) where
  abbrev at : ℕ → ℕ
  at = get_or 0 (x ∷ xs)

  -- The result for a given `k`.
  abbrev for_k : ℕ → ℕ
  for_k k = between (at (k / 100)) (at (min (k / 100 + 1) (length xs))) (k % 100)

  neighbours : (k : ℕ) → k ≤ length xs * 100 → at (k / 100) ≤ at (min (k / 100 + 1) (length xs))
  neighbours k le = get_or_mono _ _ (x ∷ xs) h (omega arith) (omega arith)

  for_k_mono : (k m : ℕ) → k ≤ m → m ≤ length xs * 100 → for_k k ≤ for_k m
  for_k_mono k m le within = elim (Bool-cases (k / 100 == m / 100)) [
    | inl same ↦
        let e : k / 100 ≡ m / 100 = ground (arith, same) in
        rw e (
          between_mono (at (m / 100)) (at (min (m / 100 + 1) (length xs))) (k % 100) (m % 100)
            (neighbours m within) (omega arith) (omega arith))
    | inr differ ↦
        let further : k / 100 + 1 ≤ m / 100 = ground (arith, differ) in
        let below =
          between_bounds (at (k / 100)) (at (min (k / 100 + 1) (length xs))) (k % 100)
            (neighbours k (omega arith)) (omega arith) in
        let above =
          between_bounds (at (m / 100)) (at (min (m / 100 + 1) (length xs))) (m % 100)
            (neighbours m within) (omega arith) in
        let step : at (min (k / 100 + 1) (length xs)) ≤ at (m / 100) =
          get_or_mono _ _ (x ∷ xs) h (omega arith) (omega arith) in
        omega (arith, below.1, above.0, step)
  ]

  below_hi : (k : ℕ) → k ≤ length xs * 100 → for_k k ≤ 100 * at (length xs)
  below_hi k within =
      let bounds =
        between_bounds (at (k / 100)) (at (min (k / 100 + 1) (length xs))) (k % 100)
          (neighbours k within) (omega arith) in
      let last : at (min (k / 100 + 1) (length xs)) ≤ at (length xs) =
        get_or_mono _ _ (x ∷ xs) h (omega arith) (omega arith) in
      omega (arith, bounds.1, last)

  -- Of sorted latencies a higher percentile is at least as great, and every percentile lies between
  -- the least latency and the greatest.
  pub percentile_mono :
      (p q : ℕ)
      → p ≤ q
      → q ≤ 100
      → (100 * x ≤ percentile (x ∷ xs) p)
        × (percentile (x ∷ xs) p ≤ percentile (x ∷ xs) q)
        × (percentile (x ∷ xs) q ≤ 100 * get_or 0 (x ∷ xs) (length xs))
  unfolding percentile
  percentile_mono p q le within = (
    omega (
      arith,
      for_k_mono 0 (length xs * p) (omega arith) (mul-le-mul_left (length xs) (omega arith)),
    ),
    for_k_mono (length xs * p) (length xs * q) (mul-le-mul_left (length xs) le)
        (mul-le-mul_left (length xs) within),
    omega (arith, (below_hi (length xs * q) (mul-le-mul_left (length xs) within))),
  )
