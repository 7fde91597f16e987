-- ===== src/Tests/Benching.antt =====
-- The worker pools and the statistics on small inputs.
use dlstorage.Base.{ℕ, List, ◌+◌, true, false, [], ◌∷◌, length, ◌≡◌, refl, arith}
use dlstorage.Benchmarks.Workers.{Phase, advance, record_op, next, finish, Reach, here, later}
use dlstorage.Benchmarks.Runs.{countdown, Reach-called}
use dlstorage.Benchmarks.Strides.{count, taken, range_from}
use dlstorage.Benchmarks.Percentile.{percentile}

-- Two workers and two operations, the first of which ends last, and with an error.
abbrev over : Phase
over = record {
  counter = 2;
  called = 11 ∷ 10 ∷ [];
  idle = 0;
  waiting = [];
  returned = 2;
  latencies = 5 ∷ [];
  errors = 1;
}

run : Reach 2 10 2 6 over
unfolding advance record_op
run =
    later
      (later
        (later
          (later (later (later here (next refl)) (next refl)) (finish 11 [] (10 ∷ []) true 5 refl))
          (finish 10 [] [] false 9 refl))
        (next refl))
      (next refl)

Reach-called_example : (over.called ≡ countdown 10 2) × (length over.latencies + over.errors ≡ 2)
Reach-called_example = Reach-called 2 10 2 run (omega arith) refl

percentile_75 : percentile (10 ∷ 20 ∷ 50 ∷ []) 75 ≡ 3500
unfolding percentile
percentile_75 = refl

-- Two threads whose calls reach the store in turns.
abbrev mixed : List ℕ
mixed = 1 ∷ 0 ∷ 2 ∷ []

mixed-taken : (a : ℕ) → count a mixed ≡ count a (taken 2 3 2)
unfolding taken range_from
mixed-taken a = ground arith
