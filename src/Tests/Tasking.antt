-- ===== src/Tests/Tasking.antt =====
-- Tasks that share the asynchronous pool, on a small input.
use dlstorage.Base.{codes, text_eq, pos, [], ◌∷◌, length, ◌≤◌, ◌≡◌, refl, arith}
use dlstorage.Dict
use dlstorage.Mux.Counts.{count}
use dlstorage.Pool.Async.Tasks.{Tasks, init, begin, connected, respond, close_peer}
use dlstorage.Pool.Async.Tasks.Places.{places}
use dlstorage.Pool.Async.Tasks.Steps.{
  Reach, start, later, begins, connects, responds, closes_peer, Reach-places,
}

-- The queue of a call is taken out of the pool while the call waits for its response.
abbrev begun : Tasks
begun = begin (codes "a:1") init

abbrev waiting_call : Tasks
waiting_call = connected 0 5 begun

abbrev closed_peer : Tasks
closed_peer = close_peer (codes "a:1") waiting_call

abbrev given_back : Tasks
given_back = respond (pos 2) 5 closed_peer

given_back-Reach : Reach 1 given_back
unfolding begin Dict.get dlstorage.Pool.Async.drop_stale
given_back-Reach =
    later
      (later (later (later start (begins (codes "a:1"))) (connects 0 5 (omega arith) refl))
        (closes_peer (codes "a:1")))
      (responds 5)

-- The connection stays open, in a queue that no address has any more.
given_back-detached : (given_back.content 0 ≡ 5 ∷ []) × (given_back.queues ≡ [])
unfolding begin connected respond close_peer dlstorage.Pool.Async.Tasks.close_each Dict.get Dict.put
    Dict.remove text_eq dlstorage.Mux.pluck dlstorage.Pool.Async.drop_stale
given_back-detached = (refl, refl)

Reach-places_example :
    (places 5 given_back ≤ 1)
    × (count 5 given_back.opened ≤ places 5 given_back)
    × (length (given_back.content 0) ≤ 2)
Reach-places_example = Reach-places 5 0 given_back-Reach
