-- ===== src/Pool/Async/Tasks.antt =====
-- dlstorage/connection_pool/async_.py, many calls at once: what each task does to the pool between
-- two of its awaits. A queue is an object of its own, which a call keeps while it waits, whatever
-- becomes of `_queues` meanwhile. A connection is a number, and is closing where it is not open.
pub mod Queues
pub mod Places
pub mod Moves
pub mod Steps
use dlstorage.Base.{
  Text, ℕ, suc, ltb, ◌==◌, ℤ, Bool, not, Option, none, some, List, [], ◌∷◌, if◌then◌else◌,
}
use dlstorage.Dict
use dlstorage.Dict.{Dict}
use dlstorage.Pool.{is_full}
use dlstorage.Pool.Async.{drop_stale}
use dlstorage.Mux.{pluck, remove_socket}
use dlstorage.Mux.Counts.{count}

pub record Tasks : Type 0 where
  -- `_queues`: the number of the queue of each address
  pub queues : Dict ℕ
  pub content : ℕ → List ℕ
  -- the number of the next queue
  pub next : ℕ
  -- connections that a call is using, with the call's queue
  pub lent : List (ℕ × ℕ)
  -- connections of calls that have been cancelled
  pub lost : List ℕ
  pub opened : List ℕ

abbrev pub init : Tasks
init = record { queues = []; content = λ q. []; next = 0; lent = []; lost = []; opened = [] }

abbrev pub is_open : ℕ → Tasks → Bool
is_open conn s = ltb 0 (count conn s.opened)

abbrev pub fill : ℕ → List ℕ → Tasks → Tasks
fill q l s = record s { content = λ p. if p == q then l else s.content p }

-- `writer.close()`, or the end of the connection
abbrev pub close : ℕ → Tasks → Tasks
close conn s = record s { opened = remove_socket conn s.opened }

-- `_queue`
abbrev pub queue_of : Text → Option ℕ → Tasks → ℕ × Tasks
queue_of a (some q) s = (q, s)
queue_of a none s =
    (s.next, record (fill s.next [] s) { queues = Dict.put a s.next s.queues; next = suc s.next })

abbrev pub take_from : ℕ → List ℕ → Tasks → Tasks
take_from q [] s = fill q [] s
take_from q (conn ∷ rest) s = record (fill q rest s) { lent = (conn, q) ∷ s.lent }

abbrev pub take : ℕ → Tasks → Tasks
take q s = take_from q (drop_stale (λ conn. not (is_open conn s)) (s.content q)) s

-- `execute` up to its first await: with a connection of the queue, or none
unfoldable pub begin : Text → Tasks → Tasks
begin a s = let (q, t) = queue_of a (Dict.get a s.queues) s in take q t

-- A call whose queue is `q` has got a new connection.
unfoldable pub connected : ℕ → ℕ → Tasks → Tasks
connected q conn s = record s { lent = (conn, q) ∷ s.lent; opened = conn ∷ s.opened }

module _ (max_per_peer : ℤ) where
  abbrev pub give_back : ℕ → ℕ → Tasks → Tasks
  give_back q conn s =
      if is_full max_per_peer (s.content q) then close conn s else fill q (conn ∷ s.content q) s

  pub respond_lent : ℕ → Option (ℕ × List (ℕ × ℕ)) → Tasks → Tasks
  respond_lent conn none s = s
  respond_lent conn (some (q, rest)) s =
      let t : Tasks = record s { lent = rest } in if is_open conn s then give_back q conn t else t

  -- The response has come on the connection.
  unfoldable pub respond : ℕ → Tasks → Tasks
  unfolding respond_lent
  respond conn s = respond_lent conn (pluck conn s.lent) s

pub fail_lent : ℕ → Option (ℕ × List (ℕ × ℕ)) → Tasks → Tasks
fail_lent conn none s = s
fail_lent conn (some (q, rest)) s = close conn (record s { lent = rest })

-- The request has failed on the connection.
unfoldable pub fail : ℕ → Tasks → Tasks
unfolding fail_lent
fail conn s = fail_lent conn (pluck conn s.lent) s

pub cancel_lent : ℕ → Option (ℕ × List (ℕ × ℕ)) → Tasks → Tasks
cancel_lent conn none s = s
cancel_lent conn (some (q, rest)) s = record s { lent = rest; lost = conn ∷ s.lost }

-- The task is cancelled while it waits: `CancelledError` is no `Exception`.
unfoldable pub cancel : ℕ → Tasks → Tasks
unfolding cancel_lent
cancel conn s = cancel_lent conn (pluck conn s.lent) s

unfoldable pub close_each : List ℕ → Tasks → Tasks
close_each [] s = s
close_each (conn ∷ l) s = close_each l (close conn s)

abbrev pub close_queue : ℕ → Tasks → Tasks
close_queue q s = close_each (s.content q) (fill q [] s)

abbrev pub close_found : Text → Option ℕ → Tasks → Tasks
close_found a none s = s
close_found a (some q) s = close_queue q (record s { queues = Dict.remove a s.queues })

unfoldable pub close_peer : Text → Tasks → Tasks
close_peer a s = close_found a (Dict.get a s.queues) s

unfoldable pub close_queues : Dict ℕ → Tasks → Tasks
close_queues [] s = s
close_queues ((a, q) ∷ d) s = close_queues d (close_queue q s)

unfoldable pub close_all : Tasks → Tasks
close_all s = close_queues s.queues (record s { queues = [] })
