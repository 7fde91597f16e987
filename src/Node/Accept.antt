-- ===== src/Node/Accept.antt =====
-- dlstorage/node/sync.py, `_accept_loop`: the clients whose threads it starts.
use dlstorage.Base.{Bool, true, false, List, [], ◌∷◌, ◌++◌, ◌≡◌, refl, ap}

-- How one `accept` ends: with a client's socket, with `socket.timeout` after half a second, or with
-- another `OSError`.
pub data Accepted (C : Type 0) : Type 0 where
  client : C → Accepted C
  timed_out os_error : Accepted C

-- A round of the loop: whether `_stop` is set when it is tested, and how `accept` would then end.
abbrev pub Round : Type 0 → Type 0
Round C = Bool × Accepted C

module _ {C : Type 0} where
  abbrev pub started : C → List C × Bool → List C × Bool
  started c (cs, ended) = (c ∷ cs, ended)

  -- The clients in the order of their threads, and whether the loop has ended.
  unfoldable pub accept_loop : List (Round C) → List C × Bool
  accept_loop [] = ([], false)
  accept_loop ((true, a) ∷ rounds) = ([], true)
  accept_loop ((false, client c) ∷ rounds) = started c (accept_loop rounds)
  accept_loop ((false, timed_out) ∷ rounds) = accept_loop rounds
  accept_loop ((false, os_error) ∷ rounds) = ([], true)

  -- From a round that finds `_stop` set, nobody is served and the loop has ended, whatever came
  -- before and whoever still comes.
  pub accept_loop-stop :
      (rounds later : List (Round C)) (a : Accepted C)
      → accept_loop (rounds ++ (true, a) ∷ later) ≡ ((accept_loop rounds).0, true)
  unfolding accept_loop
  accept_loop-stop [] later a = refl
  accept_loop-stop ((true, b) ∷ rounds) later a = refl
  accept_loop-stop ((false, client c) ∷ rounds) later a =
      ap (started c) (accept_loop-stop rounds later a)
  accept_loop-stop ((false, timed_out) ∷ rounds) later a = accept_loop-stop rounds later a
  accept_loop-stop ((false, os_error) ∷ rounds) later a = refl

  abbrev calm : List C → List (Round C)
  calm [] = []
  calm (c ∷ cs) = (false, timed_out) ∷ (false, client c) ∷ calm cs

  -- While `_stop` is not set and nothing fails, every client is served, in the order in which they
  -- come, and waiting in vain for one does not end the loop.
  accept_loop-calm : (cs : List C) → accept_loop (calm cs) ≡ (cs, false)
  unfolding accept_loop
  accept_loop-calm [] = refl
  accept_loop-calm (c ∷ cs) = ap (started c) (accept_loop-calm cs)
