-- ===== src/Tests/Pools.antt =====
-- The connection pool on small inputs.
use dlstorage.Base.{
  Bool, true, false, text_eq, codes, ℕ, zero, suc, pos, none, some, List, [], ◌∷◌, ◌-◌, ◌≡◌, refl,
  arith,
}
use dlstorage.Result.{Result, ok, raise, eof_error, key_error}
use dlstorage.Types.{address, Message, MessageType}
use dlstorage.Pool.{Network, PoolState, execute, close_peer, close_all}
use dlstorage.Pool.Bounds.{IsBounded, execute-IsBounded}
use dlstorage.Pool.Sockets.{Sockets, network}
use dlstorage.Pool.Ledger.{IsCount, execute-opened}
use dlstorage.Mux.{remove_socket}
use dlstorage.Mux.Counts.{one, count, count_idle}
use dlstorage.Pool.Async
use dlstorage.Pool.Async.{drop_stale}
use dlstorage.Pool.Async.Fresh.{execute-sync}

-- The world counts the open sockets. Socket 0 is stale, every other one is answered.
abbrev exchange : ℕ → Message → ℕ → dlstorage.Result.Result Message × ℕ
exchange zero msg w = (raise eof_error, w)
exchange (suc n) msg w = (ok msg, w)

abbrev counting : Network ℕ
counting = record {
  connect = λ host port w. (some 5, suc w);
  exchange = exchange;
  close = λ sock w. pred w;
}
  where
    pred : ℕ → ℕ
    pred zero = zero
    pred (suc n) = n

abbrev ping : Message
ping = record { type = MessageType.ping; payload = none }

-- The socket on top of the queue is stale.
abbrev two_idle : PoolState ℕ
two_idle = record { queues = (codes "a:1", 0 ∷ 3 ∷ []) ∷ []; world = 2 }

abbrev no_idle : PoolState ℕ
no_idle = record { queues = []; world = 0 }

execute-IsBounded_example :
    IsBounded 2 (execute counting (pos 2) (codes "a") (pos 1) ping no_idle).1
    × IsBounded 2 (close_peer counting (pos 2) (codes "a") (pos 1) no_idle)
    × IsBounded 2 (close_all counting (pos 2) no_idle)
unfolding dlstorage.Dict.get
execute-IsBounded_example =
    execute-IsBounded counting 1 (codes "a") (pos 1) ping no_idle (λ a. omega arith)

-- Connection 0 is closing, and never answers.
abbrev zero_closes : ℕ → ℕ → Bool
zero_closes zero w = true
zero_closes (suc n) w = false

open_after :
    (conn : ℕ) (msg response : Message) (w : ℕ)
    → (exchange conn msg w).0 ≡ ok response
    → zero_closes conn (exchange conn msg w).1 ≡ false
open_after zero msg response w e = absurd cc
open_after (suc n) msg response w e = refl

execute-sync_example :
    (Async.execute counting zero_closes (pos 2) (codes "a") (pos 1) ping two_idle
      ≡ execute counting
          (pos 2)
          (codes "a")
          (pos 1)
          ping
          (record two_idle { queues = (codes "a:1", 3 ∷ []) ∷ [] }))
    × (Async.close_peer counting zero_closes (pos 2) (codes "a") (pos 1) two_idle
        ≡ close_peer counting (pos 2) (codes "a") (pos 1) two_idle)
    × (Async.close_all counting zero_closes (pos 2) two_idle ≡ close_all counting (pos 2) two_idle)
unfolding dlstorage.Dict.get dlstorage.Dict.put address text_eq dlstorage.Types.Decimal.str_int
    drop_stale
execute-sync_example =
    execute-sync counting zero_closes (pos 2) open_after (codes "a") (pos 1) ping two_idle

-- The number of the next socket, and the open ones. Nobody listens, and socket 0 is stale.
abbrev dead_end : Sockets (ℕ × List ℕ)
dead_end = record {
  create = λ w. (w.0, (suc w.0, w.0 ∷ w.1));
  connect = λ sock host port w. (false, w);
  exchange = λ sock msg w. ((exchange sock msg 0).0, w);
  close = λ sock w. (w.0, remove_socket sock w.1);
  collect = λ sock w. (w.0, remove_socket sock w.1);
}

remove_socket-count :
    (k sock : ℕ) (l : List ℕ) → count k (remove_socket sock l) ≡ count k l - one k sock
unfolding remove_socket
remove_socket-count k sock [] = omega arith
remove_socket-count k sock (t ∷ l) = ground (arith, remove_socket-count k sock l)

abbrev open_in : ℕ → ℕ × List ℕ → ℕ
open_in k w = count k w.1

dead_end-IsCount : IsCount dead_end open_in
dead_end-IsCount = record {
  creates = λ k w. refl;
  connects = λ k sock host port w. refl;
  exchanges = λ k sock msg w. refl;
  closes = λ k sock w. remove_socket-count k sock w.1;
  collects = λ k sock w. remove_socket-count k sock w.1;
}

abbrev stale_idle : PoolState (ℕ × List ℕ)
stale_idle = record { queues = (codes "a:1", 0 ∷ 3 ∷ []) ∷ []; world = (4, 3 ∷ 0 ∷ []) }

execute-opened_example :
    (open_in 0 (execute (network dead_end) (pos 2) (codes "a") (pos 1) ping stale_idle).1.world
      ≡ count_idle 0
          (execute (network dead_end) (pos 2) (codes "a") (pos 1) ping stale_idle).1.queues)
    × (open_in 0 (close_all (network dead_end) (pos 2) stale_idle).world ≡ 0)
execute-opened_example =
    execute-opened dead_end (pos 2) open_in dead_end-IsCount (codes "a") (pos 1) ping stale_idle 0
      refl
