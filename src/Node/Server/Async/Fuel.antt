-- ===== src/Node/Server/Async/Fuel.antt =====
-- The loop that serves a client ends: every turn that goes on has read at least a header.
use dlstorage.Base.{ℕ, suc, ◌+◌, ◌<◌, ◌≤◌, Bytes, length, All, ◌≡◌}
use dlstorage.Result.{Result, ok, raise, Error}
use dlstorage.Action.{Action}
use dlstorage.Types.{Message}
use dlstorage.Wire.Stream.{stream, IsPiece}
use dlstorage.Node.Server.{Turn, turn}
use dlstorage.Node.Server.Async.{AsyncTurn}

-- That many turns end a loop, with what the last one leaves: all but the last go on, and the last
-- one raises.
pub data Ends {P N : Type 0} (turn : P → N → Result {0} Unit × P × N)
    : P → N → ℕ → P × N → Type 0 where
  stops : {p q : P} {n m : N} {e : Error} → turn p n ≡ (raise e, q, m) → Ends turn p n 1 (q, m)
  goes_on :
      {p q : P} {n m : N} {turns : ℕ} {end : P × N} {u : Unit}
      → turn p n ≡ (ok u, q, m)
      → Ends turn q m turns end
      → Ends turn p n (suc turns) end

-- A loop whose turns shorten what is left ends.
module _ {P N : Type 0} (turn : P → N → Result {0} Unit × P × N) (loop : ℕ → P → N → P × N)
    (size : P → ℕ) (Good : P → Type 0)
    (raised : (fuel : ℕ) (p q : P) (n m : N) (e : Error)
      → turn p n ≡ (raise e, q, m)
      → loop (suc fuel) p n ≡ (q, m))
    (went : (fuel : ℕ) (p q : P) (n m : N) (u : Unit)
      → turn p n ≡ (ok u, q, m)
      → loop (suc fuel) p n ≡ loop fuel q m)
    (shorter : (p q : P) (n m : N) (u : Unit)
      → Good p
      → turn p n ≡ (ok u, q, m)
      → (size q < size p) × Good q) where
  abbrev EndsSoon : ℕ → P → N → Type 0
  EndsSoon fuel p n = (turns : ℕ) × (turns ≤ suc (size p)) × Ends turn p n turns (loop fuel p n)

-- What is left after a read that returns: `n` bytes less.
abbrev Leaves : {A : Type 0} → ℕ → Bytes → Result A × Bytes → Type 0
Leaves n b (raise e, rest) = Unit
Leaves n b (ok a, rest) = length rest + n ≤ length b

module _ {N : Type 0} (dumps : Message → Bytes) (loads : Bytes → Result Message)
    (handle : Message → Action N Message) where
  -- A turn that goes on has shortened what is still to be read.
  abbrev Shortens : Bytes → AsyncTurn dumps loads handle → Type 0
  Shortens b (raise e, p, n) = Unit
  Shortens b (ok u, p, n) = length p.reader < length b

  -- A turn of the sync server that goes on has shortened it too.
  abbrev Cuts : Bytes → Turn dumps loads handle → Type 0
  Cuts b (raise e, s, n) = Unit
  Cuts b (ok u, s, n) = (length (stream s.incoming) < length b) × All IsPiece s.incoming
