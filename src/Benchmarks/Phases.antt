-- ===== src/Benchmarks/Phases.antt =====
-- benchmarks/store/multi_thread_bench.py: the workers of the SET phase and of the GET phase, on the
-- store of dlstorage/store/basic.py. A worker's times are left out.
use dlstorage.Base.{
  ℕ, zero, suc, ◌+◌, ◌<◌, ltb, ◌==◌, Text, text_eq, text_eq_self, ℤ, pos, true, none, some, List,
  [], ◌∷◌, All, if◌then◌else◌, All-map, ◌≡◌, refl, ◌∙◌, arith, Bool-cases, inl, inr,
}
use dlstorage.Dict
use dlstorage.Dict.Laws.{get-put}
use dlstorage.Types.{Value, is_some_value}
use dlstorage.Types.Decimal.{str_int}
use dlstorage.Store.{deadline}
use dlstorage.Store.Basic
use dlstorage.Store.Basic.{LocalStore, Item}
use dlstorage.Benchmarks.Strides.{range_from, range, taken, count, count-taken_all}

-- `f"k{i}"`
abbrev pub key_of : ℕ → Text
key_of i = b'k' ∷ str_int (pos i)

-- The `set` calls of the workers, in the order in which the store makes them.
unfoldable pub set_each : ℤ → Value → List ℕ → LocalStore → LocalStore
set_each now value [] s = s
set_each now value (i ∷ is) s = set_each now value is (Basic.set now (key_of i) value none s).1

-- The `get` calls of a worker, and how many of them return `None`.
unfoldable pub get_each : ℤ → List ℕ → LocalStore → ℕ × LocalStore
get_each now [] s = (0, s)
get_each now (i ∷ is) s =
    let (value, s') = Basic.get now (key_of i) s in
    let (errors, s'') = get_each now is s' in
    (if is_some_value value then errors else suc errors, s'')

module _ (value : Value) (there : is_some_value value ≡ true) where
  abbrev Holds : LocalStore → ℕ → Type 0
  Holds s i = Dict.get (key_of i) s.items ≡ some (record { value = value; expires_at = none })

  set-Holds_self :
      (now : ℤ) (i : ℕ) (s : LocalStore) → Holds (Basic.set now (key_of i) value none s).1 i
  unfolding Basic.set deadline
  set-Holds_self now i s =
      get-put (key_of i) (key_of i) _ s.items ∙ rw (text_eq_self (key_of i)) refl

  set-Holds :
      (now : ℤ) (i j : ℕ) (s : LocalStore)
      → Holds s j
      → Holds (Basic.set now (key_of i) value none s).1 j
  unfolding Basic.set deadline
  set-Holds now i j s h =
      get-put (key_of i) (key_of j) _ s.items ∙ elim (Bool-cases (text_eq (key_of i) (key_of j))) [
        | inl same ↦ rw same refl
        | inr other ↦ rw other h
      ]

  set_each-Holds :
      (now : ℤ) (is : List ℕ) (j : ℕ) (s : LocalStore)
      → Holds s j
      → Holds (set_each now value is s) j
  unfolding set_each
  set_each-Holds now [] j s h = h
  set_each-Holds now (i ∷ is) j s h = set_each-Holds now is j _ (set-Holds now i j s h)

  set_each-Holds_counted :
      (now : ℤ) (is : List ℕ) (j : ℕ) (s : LocalStore)
      → 0 < count j is
      → Holds (set_each now value is s) j
  unfolding set_each
  set_each-Holds_counted now [] j s h = absurd (omega arith)
  set_each-Holds_counted now (i ∷ is) j s h = elim (Bool-cases (i == j)) [
    | inl same ↦
        let e : i ≡ j = ground (arith, same) in
        set_each-Holds now is j _ (rw (← e) (set-Holds_self now i s))
    | inr other ↦ set_each-Holds_counted now is j _ (ground (arith, h, other))
  ]

  get_each_lem :
      (now : ℤ) (is : List ℕ) (s : LocalStore) → All (Holds s) is → get_each now is s ≡ (0, s)
  unfolding get_each Basic.get
  get_each_lem now [] s h = refl
  get_each_lem now (i ∷ is) s h = rw h.0 (rw (there, get_each_lem now is s h.1) refl)

  range_from-below :
      (fuel start stop step : ℕ) → All (λ i. i < stop) (range_from fuel start stop step)
  unfolding range_from
  range_from-below zero start stop step = tt
  range_from-below (suc fuel) start stop step = elim (Bool-cases (ltb start stop)) [
    | inl below ↦ rw below (ground (arith, below), range_from-below fuel (start + step) stop step)
    | inr above ↦ rw above tt
  ]

  -- After the SET phase, whatever the order in which the calls of its threads have reached the
  -- store, no thread of the GET phase finds a key missing, and it leaves the store as it is.
  pub get_each-set_each :
      (ops n tid : ℕ) (now later : ℤ) (order : List ℕ) (s : LocalStore)
      → 0 < n
      → ((a : ℕ) → count a order ≡ count a (taken n ops n))
      → get_each later (range tid ops n) (set_each now value order s)
        ≡ (0, set_each now value order s)
  get_each-set_each ops n tid now later order s some_thread same =
      get_each_lem later (range tid ops n) (set_each now value order s) (
        All-map _ _ (range tid ops n)
          (λ i below.
            set_each-Holds_counted now order i s
              (ground (arith, below, same i, count-taken_all ops n i some_thread)))
          (range_from-below ops tid ops n))
