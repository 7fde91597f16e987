-- ===== src/Pool/Async.antt =====
-- dlstorage/connection_pool/async_.py: the pool of the asynchronous nodes. A pair of a reader and a
-- writer is a number, as a socket is in the synchronous pool, whose state and queues are the same.
-- `is_closing` stands for `writer.is_closing()`. The calls of the pool run one after another.
pub mod Fresh
pub mod Tasks
use dlstorage.Base.{Text, ℕ, ℤ, Bool, true, false, Option, none, some, List, [], ◌∷◌, if◌then◌else◌}
use dlstorage.Result.{Result, ok, raise}
use dlstorage.Types.{Message, address}
use dlstorage.Dict
use dlstorage.Dict.{Dict}
use dlstorage.Handle
use dlstorage.Pool.{Network, PoolState, idle, set_idle, put_back, shut, close_each}

-- The loop over the queue: connections that are closing are dropped, up to the first that is not.
unfoldable pub drop_stale : (ℕ → Bool) → List ℕ → List ℕ
drop_stale stale [] = []
drop_stale stale (conn ∷ q) = if stale conn then drop_stale stale q else conn ∷ q

module _ {W : Type 0} (net : Network W) (is_closing : ℕ → W → Bool) (max_per_peer : ℤ) where
  -- The connection is put back only where it is not closing.
  abbrev pub keep : Text → ℕ → PoolState W → PoolState W
  keep a conn s = if is_closing conn s.world then s else put_back net max_per_peer a conn s

  pub finish : Text → ℕ → Result Message → PoolState W → Option Message × PoolState W
  finish a conn (ok response) s = (some response, keep a conn s)
  finish a conn (raise e) s = (none, shut net max_per_peer conn s)

  -- A request on one connection.
  unfoldable pub attempt : Text → ℕ → Message → PoolState W → Option Message × PoolState W
  unfolding finish
  attempt a conn msg s =
      let (r, w) = net.exchange conn msg s.world in finish a conn r (record s { world = w })

  pub on_new : Text → Message → Option ℕ → PoolState W → Option Message × PoolState W
  on_new a msg none s = (none, s)
  on_new a msg (some conn) s = attempt a conn msg s

  -- A request on a new connection.
  unfoldable pub attempt_new : Text → ℤ → Message → PoolState W → Option Message × PoolState W
  unfolding on_new
  attempt_new host port msg s =
      let (conn, w) = net.connect host port s.world in
      on_new (address (record { host = host; port = port })) msg conn (record s { world = w })

  -- After a connection of the queue has failed, the request is tried once more on a new one.
  abbrev pub or_retry :
      Text → ℤ → Message → Option Message × PoolState W → Option Message × PoolState W
  or_retry host port msg (some response, s) = (some response, s)
  or_retry host port msg (none, s) = attempt_new host port msg s

  pub from_queue : Text → Text → ℤ → Message → List ℕ → PoolState W → Option Message × PoolState W
  from_queue a host port msg [] s = attempt_new host port msg (set_idle net max_per_peer a [] s)
  from_queue a host port msg (conn ∷ q) s =
      or_retry host port msg (attempt a conn msg (set_idle net max_per_peer a q s))

  unfoldable pub execute : Text → ℤ → Message → PoolState W → Option Message × PoolState W
  unfolding from_queue
  execute host port msg s =
      let a = address (record { host = host; port = port }) in
      from_queue a host port msg (drop_stale (λ conn. is_closing conn s.world) (idle a s)) s

  unfoldable pub close_peer : Text → ℤ → PoolState W → PoolState W
  close_peer host port s =
      let a = address (record { host = host; port = port }) in
      record {
        queues = Dict.remove a s.queues;
        world = close_each net max_per_peer (idle a s) s.world;
      }

  pub close_queues : Dict (List ℕ) → W → W
  close_queues [] w = w
  close_queues ((a, q) ∷ qs) w = close_queues qs (close_each net max_per_peer q w)

  unfoldable pub close_all : PoolState W → PoolState W
  unfolding close_queues
  close_all s = record { queues = []; world = close_queues s.queues s.world }

  -- The pool as the handles and gossip see it.
  abbrev pub pool : Handle.ConnectionPool (PoolState W)
  pool = record {
    execute = λ host port msg s. let (r, t) = execute host port msg s in (ok r, t);
    close_peer = close_peer;
    close_all = close_all;
  }
