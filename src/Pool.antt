-- ===== src/Pool.antt =====
-- dlstorage/connection_pool/sync.py: idle connections kept for each peer. A socket is a number;
-- `Network` stands for what the operating system and the peer do with it. The calls of the pool
-- run one after another, and closing a socket does not raise.
pub mod Async
pub mod Bounds
pub mod Ledger
pub mod Sockets
use dlstorage.Base.{
  Text, ℕ, zero, suc, ℤ, pos, negsuc, leb, Bool, true, false, Option, none, some, List, [], ◌∷◌,
  length, if◌then◌else◌,
}
use dlstorage.Result.{Result, ok, raise}
use dlstorage.Types.{NodeInfo, Message, address}
use dlstorage.Dict
use dlstorage.Dict.{Dict}
use dlstorage.Handle

pub record Network (W : Type 0) : Type 0 where
  -- a new connection, `none` being an exception; Pool/Sockets has the one of `_new_connection`
  pub connect : Text → ℤ → W → Option ℕ × W
  -- `send_message` and `recv_message` on one socket
  pub exchange : ℕ → Message → W → Result Message × W
  pub close : ℕ → W → W

-- `_queues`, the last socket that was put back in front, and the state of the network
pub record PoolState (W : Type 0) : Type 0 where
  pub queues : Dict (List ℕ)
  pub world : W

abbrev pub idle_of : Option (List ℕ) → List ℕ
idle_of none = []
idle_of (some q) = q

-- The idle sockets for an address; a missing queue is empty.
abbrev pub idle : {W : Type 0} → Text → PoolState W → List ℕ
idle a s = idle_of (Dict.get a s.queues)

-- `LifoQueue(maxsize).full()`: a size of zero or less has no bound.
abbrev pub is_full : ℤ → List ℕ → Bool
is_full (pos zero) q = false
is_full (pos (suc n)) q = leb (suc n) (length q)
is_full (negsuc n) q = false

module _ {W : Type 0} (net : Network W) (max_per_peer : ℤ) where
  abbrev pub set_idle : Text → List ℕ → PoolState W → PoolState W
  set_idle a q s = record s { queues = Dict.put a q s.queues }

  abbrev pub shut : ℕ → PoolState W → PoolState W
  shut sock s = record s { world = net.close sock s.world }

  -- `q.put_nowait(sock)`, or the close of the socket where the queue is full
  unfoldable pub put_back : Text → ℕ → PoolState W → PoolState W
  put_back a sock s =
      if is_full max_per_peer (idle a s) then shut sock s else set_idle a (sock ∷ idle a s) s

  finish : Text → ℕ → Result Message → PoolState W → Option Message × PoolState W
  finish a sock (ok response) s = (some response, put_back a sock s)
  finish a sock (raise e) s = (none, shut sock s)

  -- A request on one socket, which goes back to the queue or, after an exception, is closed.
  unfoldable pub attempt : Text → ℕ → Message → PoolState W → Option Message × PoolState W
  unfolding finish
  attempt a sock msg s =
      let (r, w) = net.exchange sock msg s.world in finish a sock r (record s { world = w })

  on_new : Text → Message → Option ℕ → PoolState W → Option Message × PoolState W
  on_new a msg none s = (none, s)
  on_new a msg (some sock) s = attempt a sock msg s

  -- A request on a new connection.
  unfoldable pub attempt_new : Text → ℤ → Message → PoolState W → Option Message × PoolState W
  unfolding on_new
  attempt_new host port msg s =
      let (sock, w) = net.connect host port s.world in
      on_new (address (record { host = host; port = port })) msg sock (record s { world = w })

  -- After an idle socket has failed, the request is tried once more on a new connection.
  abbrev pub or_retry :
      Text → ℤ → Message → Option Message × PoolState W → Option Message × PoolState W
  or_retry host port msg (some response, s) = (some response, s)
  or_retry host port msg (none, s) = attempt_new host port msg s

  from_idle : Text → Text → ℤ → Message → List ℕ → PoolState W → Option Message × PoolState W
  from_idle a host port msg [] s = attempt_new host port msg (set_idle a [] s)
  from_idle a host port msg (sock ∷ q) s =
      or_retry host port msg (attempt a sock msg (set_idle a q s))

  unfoldable pub execute : Text → ℤ → Message → PoolState W → Option Message × PoolState W
  unfolding from_idle
  execute host port msg s =
      let a = address (record { host = host; port = port }) in
      from_idle a host port msg (idle a s) s

  unfoldable pub close_each : List ℕ → W → W
  close_each [] w = w
  close_each (sock ∷ q) w = close_each q (net.close sock w)

  unfoldable pub close_peer : Text → ℤ → PoolState W → PoolState W
  close_peer host port s =
      let a = address (record { host = host; port = port }) in
      record { queues = Dict.remove a s.queues; world = close_each (idle a s) s.world }

  unfoldable pub close_queues : Dict (List ℕ) → W → W
  close_queues [] w = w
  close_queues ((a, q) ∷ qs) w = close_queues qs (close_each q w)

  unfoldable pub close_all : PoolState W → PoolState W
  unfolding close_queues
  close_all s = record { queues = []; world = close_queues s.queues s.world }

  -- The pool as the handles and gossip see it.
  abbrev pub pool : Handle.ConnectionPool (PoolState W)
  pool = record {
    execute = λ host port msg s. let (r, t) = execute host port msg s in (ok r, t);
    close_peer = close_peer;
    close_all = close_all;
  }
