-- ===== src/Benchmarks/Workers.antt =====
-- benchmarks/framework.py, `async_run_phase`: coroutines that share a counter. A step is what one
-- of them does between two awaits, and the event loop may take the steps in any order.
use dlstorage.Base.{ℕ, suc, ◌+◌, leb, Bool, List, [], ◌∷◌, ◌++◌, if◌then◌else◌, ◌≡◌}

-- `called` is what `op_fn` has been called with, the last call first. Of the workers, `idle` ones
-- are about to read the counter, those of `waiting` await the operation of the index, and the
-- others have returned.
pub record Phase : Type 0 where
  pub counter : ℕ
  pub called : List ℕ
  pub idle : ℕ
  pub waiting : List ℕ
  pub returned : ℕ
  pub latencies : List ℕ
  pub errors : ℕ

abbrev pub start : ℕ → Phase
start concurrency = record {
  counter = 0;
  called = [];
  idle = concurrency;
  waiting = [];
  returned = 0;
  latencies = [];
  errors = 0;
}

module _ (ops offset : ℕ) where
  -- `i = counter[0]` and what follows it, up to the await or the return.
  unfoldable pub advance : Phase → Phase
  advance p = if leb ops p.counter then record p { returned = suc p.returned } else record p {
    counter = suc p.counter;
    called = (offset + p.counter) ∷ p.called;
    waiting = (offset + p.counter) ∷ p.waiting;
  }

  -- What follows the await of `op_fn`; `dt` is the time that has passed.
  unfoldable pub record_op : Bool → ℕ → Phase → Phase
  record_op done dt p =
      if done
      then record p { latencies = p.latencies ++ (dt ∷ []) }
      else record p { errors = suc p.errors }

  pub data Step (p : Phase) : Phase → Type 0 where
    next : {m : ℕ} → p.idle ≡ suc m → Step p (advance (record p { idle = m }))
    finish :
        (i : ℕ) (before after : List ℕ) (done : Bool) (dt : ℕ)
        → p.waiting ≡ before ++ (i ∷ after)
        → Step p (record_op done dt (record p { waiting = before ++ after; idle = suc p.idle }))

  -- After so many steps.
  pub data Reach (concurrency : ℕ) : ℕ → Phase → Type 0 where
    here : Reach concurrency 0 (start concurrency)
    later : {n : ℕ} {p q : Phase} → Reach concurrency n p → Step p q → Reach concurrency (suc n) q
