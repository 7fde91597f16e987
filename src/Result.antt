-- ===== src/Result.antt =====
-- Python's exceptions, and the outcome of code that may raise one.
use dlstorage.Base.{Option, none, some}

pub data Error : Type 0 where
  key_error value_error runtime_error import_error type_error overflow_error attribute_error
        eof_error connection_error :
      Error

pub data Result {ℓ} (A : Type ℓ) : Type ℓ where
  ok : A → Result A
  raise : Error → Result A

infixl 5 ◌>>=◌
abbrev pub ◌>>=◌ {ℓ κ} : {A : Type ℓ} {B : Type κ} → Result A → (A → Result B) → Result B
ok a >>= f = f a
raise e >>= f = raise e

-- A lookup that raises where there is nothing.
abbrev pub or_raise {ℓ} : {A : Type ℓ} → Error → Option A → Result A
or_raise e none = raise e
or_raise e (some a) = ok a

-- `try: a except Exception: b`
abbrev pub catch {ℓ} : {A : Type ℓ} → A → Result A → A
catch b (ok a) = a
catch b (raise e) = b
