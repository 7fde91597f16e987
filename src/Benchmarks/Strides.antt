-- ===== src/Benchmarks/Strides.antt =====
-- benchmarks/framework.py, `sync_run_phase`, with the workers of benchmarks/store and
-- benchmarks/nodes: worker `tid` takes the indices `range(tid, ops, concurrency)`.
use native.Mathlib.Nat.{
  mul-suc, mul-le-mul_left, div-add-mod, add-mod_right, mod-eq_of_lt, mod-le, mod-lt,
}
use dlstorage.Base.{
  length, length-append, refl, ℕ, zero, suc, ◌+◌, ◌/◌, ◌%◌, ◌≤◌, ◌<◌, ltb, leb, ◌==◌, ◌&&◌, List,
  [], ◌∷◌, ◌++◌, if◌then◌else◌, ◌≡◌, arith, Bool-cases, inl, inr,
}

-- `range(start, stop, step)`
unfoldable pub range_from : ℕ → ℕ → ℕ → ℕ → List ℕ
range_from zero start stop step = []
range_from (suc fuel) start stop step =
    let rest = range_from fuel (start + step) stop step in
    if ltb start stop then start ∷ rest else []

-- A step is one at least, so `stop` turns are enough.
abbrev pub range : ℕ → ℕ → ℕ → List ℕ
range start stop step = range_from stop start stop step

-- The indices that the workers below `tids` take.
unfoldable pub taken : ℕ → ℕ → ℕ → List ℕ
taken zero ops concurrency = []
taken (suc tid) ops concurrency = taken tid ops concurrency ++ range tid ops concurrency

-- How often an index is in a list.
abbrev pub count : ℕ → List ℕ → ℕ
count a [] = 0
count a (x ∷ xs) = if x == a then suc (count a xs) else count a xs

-- The results of the workers as they come in.
unfoldable pub sync_run_phase : List (List ℕ × ℕ) → List ℕ × ℕ
sync_run_phase [] = ([], 0)
sync_run_phase ((lats, errs) ∷ results) =
    let (latencies, errors) = sync_run_phase results in (lats ++ latencies, errs + errors)

count-append : (a : ℕ) (xs ys : List ℕ) → count a (xs ++ ys) ≡ count a xs + count a ys
count-append a [] ys = omega arith
count-append a (x ∷ xs) ys = ground (arith, count-append a xs ys)

-- Two numbers with the same remainder are equal, or a whole step apart.
step_apart : (n s a : ℕ) → 0 < n → a % n ≡ s % n → s < a → s + n ≤ a
step_apart n s a pos same lt = elim (Bool-cases (leb (a / n) (s / n))) [
  | inl below ↦
      let le : a / n ≤ s / n = ground (arith, below) in
      absurd (omega (arith, div-add-mod a n, div-add-mod s n, mul-le-mul_left n le, same))
  | inr above ↦
      let le : suc (s / n) ≤ a / n = ground (arith, above) in
      omega (arith, div-add-mod a n, div-add-mod s n, mul-le-mul_left n le, mul-suc n (s / n), same)
]

count-range_from :
    (fuel s stop n a : ℕ)
    → 0 < n
    → stop ≤ s + fuel
    → count a (range_from fuel s stop n)
      ≡ (if leb s a && (ltb a stop && (a % n == s % n)) then 1 else 0)
unfolding range_from
count-range_from zero s stop n a pos enough = ground arith
count-range_from (suc fuel) s stop n a pos enough = ground (
  arith,
  count-range_from fuel (s + n) stop n a pos (omega arith),
  add-mod_right s n,
  step_apart n s a pos,
)

count-taken :
    (tids ops n a : ℕ)
    → 0 < n
    → tids ≤ n
    → count a (taken tids ops n) ≡ (if ltb a ops && ltb (a % n) tids then 1 else 0)
unfolding taken
count-taken zero ops n a pos le = ground arith
count-taken (suc tid) ops n a pos le = ground (
  arith,
  count-append a (taken tid ops n) (range tid ops n),
  count-taken tid ops n a pos (omega arith),
  count-range_from ops tid ops n a pos (omega arith),
  mod-eq_of_lt {n = tid} {m = n} (omega arith),
  mod-le a n,
)

-- The workers share the indices out: each index below `ops` is taken once, by one worker, and no
-- other index is taken.
pub count-taken_all : (ops n a : ℕ) → 0 < n → count a (taken n ops n) ≡ (if ltb a ops then 1 else 0)
count-taken_all ops n a pos = ground (arith, count-taken n ops n a pos (omega arith), mod-lt a pos)

-- What the workers have recorded together.
abbrev pub recorded : List (List ℕ × ℕ) → ℕ
recorded [] = 0
recorded ((lats, errs) ∷ results) = length lats + errs + recorded results

-- No result is lost, in whatever order the workers end.
sync_run_phase-recorded :
    (results : List (List ℕ × ℕ))
    → length (sync_run_phase results).0 + (sync_run_phase results).1 ≡ recorded results
unfolding sync_run_phase
sync_run_phase-recorded [] = refl
sync_run_phase-recorded ((lats, errs) ∷ results) =
    omega (arith, sync_run_phase-recorded results, length-append lats (sync_run_phase results).0)
