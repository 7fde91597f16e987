-- ===== src/Action.antt =====
-- Methods that change a state and may raise. What was changed before a raise stays changed.
use dlstorage.Base.{◌≡◌, refl}
use dlstorage.Result.{Result, ok, raise}

abbrev pub Action : Type 0 → Type 0 → Type 0
Action S A = S → Result A × S

module _ {S A : Type 0} where
  abbrev pub pure : A → Action S A
  pure a s = (ok a, s)

  abbrev pub lift : Result A → Action S A
  lift r s = (r, s)

  -- A call of a method that does not raise.
  abbrev pub call : (S → A × S) → Action S A
  call f s = let (a, s') = f s in (ok a, s')

module _ {S A B : Type 0} where
  abbrev pub continue : Result A → (A → Action S B) → Action S B
  continue (ok a) f s = f a s
  continue (raise e) f s = (raise e, s)

  infixl 5 ◌>>=◌
  abbrev pub ◌>>=◌ : Action S A → (A → Action S B) → Action S B
  ◌>>=◌ m f s = let (r, s') = m s in continue r f s'

  -- A chain that returns has a first part that returns, and a rest that returns from there.
  pub >>=-eq-ok :
      (m : Action S A) (f : A → Action S B) (s s' : S) (b : B)
      → (m >>= f) s ≡ (ok b, s')
      → (a : A) × (t : S) × (m s ≡ (ok a, t)) × (f a t ≡ (ok b, s'))
  >>=-eq-ok m f s s' b h = go (m s).0 (m s).1 refl h
    where
      go :
          (r : Result A) (t : S)
          → m s ≡ (r, t)
          → continue r f t ≡ (ok b, s')
          → (a : A) × (u : S) × (m s ≡ (ok a, u)) × (f a u ≡ (ok b, s'))
      go (ok a) t e k = (a, t, e, k)
      go (raise x) t e k = cc

-- What comes behind a part only to shape its result leaves the state of that part.
pub bind_pure_state :
    {S A B : Type 0} (m : Action S A) (f : A → B) (s : S) → ((m >>= λ a. pure (f a)) s).1 ≡ (m s).1
bind_pure_state {S} {A} m f s = go (m s).0 (m s).1
  where
    go : (r : Result A) (t : S) → (continue r (λ a. pure (f a)) t).1 ≡ t
    go (ok a) t = refl
    go (raise e) t = refl
