-- ===== src/Benchmarks/Runs.antt =====
-- Every run of the worker pool ends, with every operation made once.
use dlstorage.Base.{
  ℕ, zero, suc, ◌+◌, ◌*◌, ◌≤◌, ◌<◌, leb, Bool, true, false, Bool-cases, ◌⊎◌, inl, inr, List, [],
  ◌∷◌, ◌++◌, length, length-append, ◌≡◌, refl, ap, ◌∙◌, arith,
}
use dlstorage.Benchmarks.Workers.{Phase, advance, record_op, Step, next, finish, Reach, here, later}

-- The indices from `offset`, the last first.
abbrev pub countdown : ℕ → ℕ → List ℕ
countdown offset zero = []
countdown offset (suc n) = (offset + n) ∷ countdown offset n

module _ (ops offset concurrency : ℕ) where
  pub record Inv (n : ℕ) (p : Phase) : Type 0 where
    pub recorded : length p.latencies + p.errors + length p.waiting ≡ p.counter
    pub staff : p.idle + length p.waiting + p.returned ≡ concurrency
    pub bounded : p.counter ≤ ops
    pub over : 0 < p.returned → p.counter ≡ ops
    pub once : p.called ≡ countdown offset p.counter
    pub elapsed : n + 2 * length p.waiting + p.idle ≡ concurrency + 2 * p.counter

  advance-Inv :
      (n m : ℕ) (p : Phase)
      → p.idle ≡ suc m
      → Inv n p
      → Inv (suc n) (advance ops offset (record p { idle = m }))
  unfolding advance
  advance-Inv n m p ready inv = elim (Bool-cases (leb ops p.counter)) [
    | inl full ↦ rw full (record {
      recorded = inv.recorded;
      staff = omega (arith, inv.staff, ready);
      bounded = inv.bounded;
      over = λ _. ground (arith, full, inv.bounded);
      once = inv.once;
      elapsed = omega (arith, inv.elapsed, ready);
    })
    | inr left ↦ rw left (record {
      recorded = omega (arith, inv.recorded);
      staff = omega (arith, inv.staff, ready);
      bounded = ground (arith, left);
      over = λ some_back. absurd (not_back (inv.over some_back) left);
      once = ap (◌∷◌ (offset + p.counter)) inv.once;
      elapsed = omega (arith, inv.elapsed, ready);
    })
  ]
    where
      not_back : p.counter ≡ ops → leb ops p.counter ≡ false → ⊥
      not_back e left = ground arith

  length-middle :
      (before after : List ℕ) (i : ℕ)
      → length (before ++ (i ∷ after)) ≡ suc (length (before ++ after))
  length-middle [] after i = refl
  length-middle (b ∷ before) after i = ap suc (length-middle before after i)

  finish-Inv :
      (n i : ℕ) (before after : List ℕ) (done : Bool) (dt : ℕ) (p : Phase)
      → p.waiting ≡ before ++ (i ∷ after)
      → Inv n p
      → Inv
          (suc n)
          (record_op ops offset done dt (record p { waiting = before ++ after; idle = suc p.idle }))
  unfolding record_op
  finish-Inv n i before after done dt p at_i inv =
      let long : length p.waiting ≡ suc (length (before ++ after)) =
        ap length at_i ∙ length-middle before after i in
      elim done
        as (λ b.
          Inv (suc n) (
            record_op ops offset b dt
              (record p { waiting = before ++ after; idle = suc p.idle }))) [
                | true ↦ record {
                  recorded = omega (arith, inv.recorded, long, length-append p.latencies (dt ∷ []));
                  staff = omega (arith, inv.staff, long);
                  bounded = inv.bounded;
                  over = inv.over;
                  once = inv.once;
                  elapsed = omega (arith, inv.elapsed, long);
                }
                | false ↦ record {
                  recorded = omega (arith, inv.recorded, long);
                  staff = omega (arith, inv.staff, long);
                  bounded = inv.bounded;
                  over = inv.over;
                  once = inv.once;
                  elapsed = omega (arith, inv.elapsed, long);
                }
              ]

  Reach-Inv : {n : ℕ} {p : Phase} → Reach ops offset concurrency n p → Inv n p
  Reach-Inv here = record {
    recorded = refl;
    staff = omega arith;
    bounded = omega arith;
    over = λ h. absurd (omega arith);
    once = refl;
    elapsed = omega arith;
  }
  Reach-Inv (later {n} {p} r (next {m} ready)) = advance-Inv n m p ready (Reach-Inv r)
  Reach-Inv (later {n} {p} r (finish i before after done dt at_i)) =
      finish-Inv n i before after done dt p at_i (Reach-Inv r)

  -- Whatever the order in which the workers go on, a run is over after a fixed number of steps at
  -- most, and until every worker has returned there is a step to take.
  pub Reach_ends :
      {n : ℕ} {p : Phase}
      → Reach ops offset concurrency n p
      → (n ≤ 2 * ops + concurrency)
        × ((p.returned ≡ concurrency) ⊎ ((q : Phase) × Step ops offset p q))
  Reach_ends {n} {p} r =
      (omega (arith, (Reach-Inv r).elapsed, (Reach-Inv r).bounded), go p.idle p.waiting refl refl)
    where
      go :
          (idle : ℕ) (waiting : List ℕ)
          → p.idle ≡ idle
          → p.waiting ≡ waiting
          → (p.returned ≡ concurrency) ⊎ ((q : Phase) × Step ops offset p q)
      go (suc m) waiting e f = inr (_, next e)
      go zero (i ∷ rest) e f = inr (_, finish i [] rest true 0 f)
      go zero [] e f = inl (omega (arith, (Reach-Inv r).staff, ap length f))

  -- Once all the workers have returned, and there was one, the operation has been called once with
  -- each index of the phase, in their order, and each call has left a latency or an error.
  pub Reach-called :
      {n : ℕ} {p : Phase}
      → Reach ops offset concurrency n p
      → 0 < concurrency
      → p.returned ≡ concurrency
      → (p.called ≡ countdown offset ops) × (length p.latencies + p.errors ≡ ops)
  Reach-called {n} {p} r some_worker back =
      let inv = Reach-Inv r in
      let full : p.counter ≡ ops = inv.over (omega (arith, back)) in
      (inv.once ∙ ap (countdown offset) full, omega (arith, inv.recorded, inv.staff, full, back))
