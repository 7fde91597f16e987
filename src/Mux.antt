-- ===== src/Mux.antt =====
-- dlstorage/connection_pool/mux.py: many calls at once, with one thread that reads all responses.
-- A socket is a number. Each operation below is what one thread does between two points where
-- others may run; which operation comes next, and what the network does in it, is left open. The
-- `call` names the caller that waits, so that `answers` has what the callers find in `result[0]`.
pub mod Response
pub mod Flight
pub mod Reader
pub mod Counts
pub mod Ledger
pub mod Steps
pub mod Bounds
pub mod Calls
use dlstorage.Base.{
  Text, ℕ, zero, suc, ◌-◌, ltb, ◌==◌, ℤ, pos, ltb_ℤ, Bytes, from_bytes, Bool, true, false, Option,
  none, some, List, [], ◌∷◌, ◌++◌, length, take, map, if◌then◌else◌,
}
use dlstorage.Result.{Result, ok, raise}
use dlstorage.Types.{Message}
use dlstorage.Dict
use dlstorage.Dict.{Dict}
use dlstorage.Wire.{header_size}
pub use dlstorage.Mux.Response.{
  InFlight, new_flight, Recv, blocked, broken, chunk, Outcome, waiting, failed, delivered, need,
  deserialise, complete, extend,
}
unfoldable pub use dlstorage.Mux.Response.{handle_read}

-- How `execute` gets on with its socket: the request cannot be pickled or is too long for its header,
-- which raises outside of any `try`, or `sendall` raises, or it has been sent.
pub data Sending : Type 0 where
  unencoded : Sending
  undelivered : Sending
  went_out : Sending

-- A caller between `_acquire` and the hand-over of its socket
pub record Caller : Type 0 where
  pub address : Text
  pub call : ℕ

pub record Mux : Type 0 where
  -- `_idle`: the left end of each deque first
  pub idle : Dict (List ℕ)
  pub held : List (ℕ × Caller)
  -- `_reg_queue`
  pub queued : List (ℕ × InFlight)
  -- the map of the selector
  pub registered : List (ℕ × InFlight)
  -- sockets left in a selector that has been closed
  pub abandoned : List (ℕ × InFlight)
  -- sockets of callers that got an exception
  pub lost : List (ℕ × Caller)
  pub answers : List (ℕ × Option Message)
  pub opened : List ℕ
  pub running : Bool

abbrev pub init : Mux
init = record {
  idle = [];
  held = [];
  queued = [];
  registered = [];
  abandoned = [];
  lost = [];
  answers = [];
  opened = [];
  running = true;
}

abbrev pub deque_of : Option (List ℕ) → List ℕ
deque_of none = []
deque_of (some q) = q

abbrev pub idle_at : Text → Mux → List ℕ
idle_at a m = deque_of (Dict.get a m.idle)

-- `deque.pop()`: the right end
unfoldable pub pop_right : ℕ → List ℕ → ℕ × List ℕ
pop_right x [] = (x, [])
pop_right x (y ∷ l) = let (last, rest) = pop_right y l in (last, x ∷ rest)

abbrev pub put_back {ℓ} :
    {X : Type ℓ} → ℕ × X → Option (X × List (ℕ × X)) → Option (X × List (ℕ × X))
put_back entry none = none
put_back entry (some (x, rest)) = some (x, entry ∷ rest)

-- The first entry of a socket, and the others.
unfoldable pub pluck {ℓ} : {X : Type ℓ} → ℕ → List (ℕ × X) → Option (X × List (ℕ × X))
pluck s [] = none
pluck s ((t, x) ∷ l) = if t == s then some (x, l) else put_back (t, x) (pluck s l)

unfoldable pub remove_socket : ℕ → List ℕ → List ℕ
remove_socket s [] = []
remove_socket s (t ∷ l) = if t == s then l else t ∷ remove_socket s l

-- `sock.close()`
abbrev pub close : ℕ → Mux → Mux
close s m = record m { opened = remove_socket s m.opened }

unfoldable pub close_each : List ℕ → Mux → Mux
close_each [] m = m
close_each (s ∷ l) m = close_each l (close s m)

abbrev pub respond : ℕ → Option Message → Mux → Mux
respond call r m = record m { answers = (call, r) ∷ m.answers }

abbrev pub hold : ℕ → Text → ℕ → Mux → Mux
hold s a call m = record m { held = (s, record { address = a; call = call }) ∷ m.held }

-- `_acquire` with no idle socket: a connection that fails is closed again.
connect : Text → ℕ → Option ℕ → Mux → Mux
connect a call none m = respond call none m
connect a call (some s) m = hold s a call (record m { opened = s ∷ m.opened })

pub acquire_from : Text → ℕ → Option ℕ → List ℕ → Mux → Mux
acquire_from a call new [] m = connect a call new m
acquire_from a call new (s ∷ l) m =
    let (last, rest) = pop_right s l in
    hold last a call (record m { idle = Dict.put a rest m.idle })

-- `execute` up to the end of `_acquire`; `new` is the socket that a new connection would get.
unfoldable pub acquire : Text → ℕ → Option ℕ → Mux → Mux
unfolding connect acquire_from
acquire a call new m = acquire_from a call new (idle_at a m) m

pub send_held : ℕ → Sending → Option (Caller × List (ℕ × Caller)) → Mux → Mux
send_held s how none m = m
send_held s unencoded (some (c, rest)) m = record m { held = rest; lost = (s, c) ∷ m.lost }
send_held s undelivered (some (c, rest)) m =
    respond c.call none (close s (record m { held = rest }))
send_held s went_out (some (c, rest)) m = record m {
  held = rest;
  queued = m.queued ++ ((s, new_flight c.address c.call) ∷ []);
}

-- The rest of `execute` up to the wait.
unfoldable pub send : ℕ → Sending → Mux → Mux
unfolding send_held
send s how m = send_held s how (pluck s m.held) m

-- The selector drains the queue of new sockets, as long as its thread runs.
unfoldable pub register : Mux → Mux
register m =
    if m.running then record m { registered = m.registered ++ m.queued; queued = [] } else m

module _ (max_per_peer : ℤ) (loads : Bytes → Result Message) where
  -- `_return`
  unfoldable pub give_back : Text → ℕ → Mux → Mux
  give_back a s m =
      if ltb_ℤ (pos (length (idle_at a m))) max_per_peer
      then record m { idle = Dict.put a (s ∷ idle_at a m) m.idle }
      else close s m

  settle : ℕ → InFlight → Outcome → Mux → Mux
  settle s f (waiting g) m = record m { registered = (s, g) ∷ m.registered }
  settle s f failed m = respond f.call none (close s m)
  settle s f (delivered msg) m = respond f.call (some msg) (give_back f.address s m)

  pub read_entry : ℕ → Recv → Option (InFlight × List (ℕ × InFlight)) → Mux → Mux
  read_entry s r none m = m
  read_entry s r (some (f, rest)) m =
      settle s f (handle_read loads f r) (record m { registered = rest })

  -- `_handle_read` on a socket of the selector
  unfoldable pub read : ℕ → Recv → Mux → Mux
  unfolding settle read_entry
  read s r m = read_entry s r (pluck s m.registered) m

unfoldable pub close_peer : Text → Mux → Mux
close_peer a m = close_each (idle_at a m) (record m { idle = Dict.remove a m.idle })

-- The end of `_io_loop`: the waiting callers get `None`.
unfoldable pub unblock : List (ℕ × InFlight) → List (ℕ × Option Message) → List (ℕ × Option Message)
unblock [] answers = answers
unblock ((s, f) ∷ l) answers = unblock l ((f.call, none) ∷ answers)

unfoldable pub close_idle : Dict (List ℕ) → Mux → Mux
close_idle [] m = m
close_idle ((a, q) ∷ d) m = close_idle d (close_each q m)

unfoldable pub close_all : Mux → Mux
close_all m = close_idle m.idle (record m {
  idle = [];
  registered = [];
  abandoned = m.registered ++ m.abandoned;
  answers = unblock m.registered m.answers;
  running = false;
})
