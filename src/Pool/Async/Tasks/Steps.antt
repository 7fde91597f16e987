-- ===== src/Pool/Async/Tasks/Steps.antt =====
-- What the tasks of a process do to the asynchronous pool, one after another, and what holds then.
use dlstorage.Base.{
  Text, ℕ, suc, ◌≤◌, ◌<◌, pos, Option, none, some, [], ◌∷◌, length, ◌≡◌, refl, arith,
}
use dlstorage.Dict
use dlstorage.Dict.{Dict}
use dlstorage.Mux.Counts.{count}
use dlstorage.Pool.Async.Tasks.{
  Tasks, init, fill, close, begin, connected, respond, fail, cancel, close_queue, close_found,
  close_peer, close_queues, close_all,
}
use dlstorage.Pool.Async.Tasks.Queues.{AreKnown, AreKnown-remove, get-AreKnown}
use dlstorage.Pool.Async.Tasks.Places.{places, IsTidy, begin-IsTidy, connected-IsTidy}
use dlstorage.Pool.Async.Tasks.Moves.{
  fail-IsTidy, cancel-IsTidy, close-IsTidy, respond-IsTidy, close_queue-IsTidy, same-close_each,
}

pub data Step (n : ℕ) (s : Tasks) : Tasks → Type 0 where
  begins : (a : Text) → Step n s (begin a s)
  -- a call of any queue that there is may get a new connection
  connects : (q conn : ℕ) → q < s.next → places conn s ≡ 0 → Step n s (connected q conn s)
  responds : (conn : ℕ) → Step n s (respond (pos (suc n)) conn s)
  fails : (conn : ℕ) → Step n s (fail conn s)
  cancels : (conn : ℕ) → Step n s (cancel conn s)
  -- the other end, or the transport, closes a connection
  ends : (conn : ℕ) → Step n s (close conn s)
  closes_peer : (a : Text) → Step n s (close_peer a s)
  closes_all : Step n s (close_all s)

pub data Reach (n : ℕ) : Tasks → Type 0 where
  start : Reach n init
  later : {s t : Tasks} → Reach n s → Step n s t → Reach n t

close_peer-IsTidy : (n : ℕ) (a : Text) (s : Tasks) → IsTidy n s → IsTidy n (close_peer a s)
unfolding close_peer
close_peer-IsTidy n a s t = go (Dict.get a s.queues) refl
  where
    go : (o : Option ℕ) → Dict.get a s.queues ≡ o → IsTidy n (close_found a o s)
    go none e = t
    go (some q) e =
        close_queue-IsTidy n q (record s { queues = Dict.remove a s.queues })
          (get-AreKnown s.next q a s.queues t.queues_known e)
          (record {
            placed = t.placed;
            once = t.once;
            short = t.short;
            lent_known = t.lent_known;
            queues_known = AreKnown-remove s.next a s.queues t.queues_known;
          })

close_queues-IsTidy :
    (n : ℕ) (d : Dict ℕ) (s : Tasks) → AreKnown s.next d → IsTidy n s → IsTidy n (close_queues d s)
unfolding close_queues
close_queues-IsTidy n [] s known t = t
close_queues-IsTidy n ((a, q) ∷ d) s known t =
    close_queues-IsTidy n d (close_queue q s)
      (rw (same-close_each (s.content q) (fill q [] s)) (known.1))
      (close_queue-IsTidy n q s known.0 t)

Step-IsTidy : {n : ℕ} {s t : Tasks} → Step n s t → IsTidy (suc n) s → IsTidy (suc n) t
unfolding close_all
Step-IsTidy {n} {s} (begins a) h = begin-IsTidy (suc n) a s h
Step-IsTidy {n} {s} (connects q conn known fresh) h =
    connected-IsTidy (suc n) q conn s known fresh h
Step-IsTidy {n} {s} (responds conn) h = respond-IsTidy n conn s h
Step-IsTidy {n} {s} (fails conn) h = fail-IsTidy (suc n) conn s h
Step-IsTidy {n} {s} (cancels conn) h = cancel-IsTidy (suc n) conn s h
Step-IsTidy {n} {s} (ends conn) h = close-IsTidy (suc n) conn s h
Step-IsTidy {n} {s} (closes_peer a) h = close_peer-IsTidy (suc n) a s h
Step-IsTidy {n} {s} closes_all h =
    close_queues-IsTidy (suc n) s.queues (record s { queues = [] }) h.queues_known
      (record {
        placed = h.placed;
        once = h.once;
        short = h.short;
        lent_known = h.lent_known;
        queues_known = tt;
      })

Reach-IsTidy : {n : ℕ} {s : Tasks} → Reach n s → IsTidy (suc n) s
Reach-IsTidy start = record {
  placed = λ k. omega arith;
  once = λ k. omega arith;
  short = λ q. omega arith;
  lent_known = tt;
  queues_known = tt;
}
Reach-IsTidy (later r step) = Step-IsTidy step (Reach-IsTidy r)

-- Whatever the tasks do between their awaits, and in whatever order, cancellations included, a
-- connection is never at two places of the pool at once, so that no two calls share one, every open
-- connection is in a queue, with a call, or left by a call that was cancelled, and no queue is
-- longer than the maximum, where that is greater than zero.
pub Reach-places :
    {n : ℕ} {s : Tasks} (k q : ℕ)
    → Reach n s
    → (places k s ≤ 1) × (count k s.opened ≤ places k s) × (length (s.content q) ≤ suc n)
Reach-places k q r = let t = Reach-IsTidy r in (t.once k, t.placed k, t.short q)
