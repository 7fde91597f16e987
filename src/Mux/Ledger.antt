-- ===== src/Mux/Ledger.antt =====
-- Who has which socket: each open socket is in one place of the pool, whatever the threads do.
use dlstorage.Base.{
  Text, ℕ, ◌+◌, ◌≤◌, ℤ, pos, ltb_ℤ, Bytes, Bool, true, false, Option, none, some, List, [], ◌∷◌,
  length, if◌then◌else◌, ◌≡◌, ap, arith,
}
use dlstorage.Result.{Result}
use dlstorage.Types.{Message}
use dlstorage.Dict
use dlstorage.Dict.{Dict}
use dlstorage.Dict.Laws.{IsDistinct, put-IsDistinct, remove-IsDistinct}
use dlstorage.Mux.{
  Sending, unencoded, undelivered, went_out, InFlight, new_flight, Mux, Caller, Recv, Outcome,
  waiting, failed, delivered, idle_at, respond, close, close_each, close_idle, close_peer,
  close_all, connect, acquire_from, send_held, register, give_back, settle, read_entry, handle_read,
  pop_right, pluck,
}
use dlstorage.Mux.Counts.{
  one, count, count_fst, count_idle, weigh-append, count-pop_right, weigh-pluck,
  count-remove_socket, count_idle-put, count_idle-remove,
}

-- The places where a socket can be.
abbrev pub places : ℕ → Mux → ℕ
places k m =
    count_idle k m.idle
    + count_fst k m.held
    + count_fst k m.queued
    + count_fst k m.registered
    + count_fst k m.abandoned
    + count_fst k m.lost

-- Every open socket is in one place of the pool, or among those that `extra` counts, and nothing
-- else is in a place.
pub record Owes (extra : ℕ → ℕ) (m : Mux) : Type 0 where
  pub distinct : IsDistinct m.idle
  pub owned : (k : ℕ) → count k m.opened ≡ places k m + extra k
  pub once : (k : ℕ) → count k m.opened ≤ 1

abbrev pub IsLedger : Mux → Type 0
IsLedger = Owes (λ k. 0)

close-Owes :
    (s : ℕ) (extra : ℕ → ℕ) (m : Mux) → Owes (λ k. one k s + extra k) m → Owes extra (close s m)
close-Owes s extra m o = record {
  distinct = o.distinct;
  owned = λ k. omega (arith, o.owned k, count-remove_socket k s m.opened there);
  once = λ k. omega (arith, o.once k, count-remove_socket k s m.opened there);
}
  where
    there : 1 ≤ count s m.opened
    there = ground (arith, o.owned s)

close_each-Owes :
    (l : List ℕ) (extra : ℕ → ℕ) (m : Mux)
    → Owes (λ k. count k l + extra k) m
    → Owes extra (close_each l m)
unfolding close_each
close_each-Owes [] extra m o = record {
  distinct = o.distinct;
  owned = λ k. omega (arith, o.owned k);
  once = o.once;
}
close_each-Owes (s ∷ l) extra m o = close_each-Owes l extra (close s m) (
    close-Owes s (λ k. count k l + extra k) m
      (record { distinct = o.distinct; owned = λ k. omega (arith, o.owned k); once = o.once }))

close_idle-IsLedger :
    (d : Dict (List ℕ)) (m : Mux) → Owes (λ k. count_idle k d) m → IsLedger (close_idle d m)
unfolding close_idle
close_idle-IsLedger [] m o = o
close_idle-IsLedger ((a, q) ∷ d) m o =
    close_idle-IsLedger d (close_each q m) (close_each-Owes q (λ k. count_idle k d) m o)

-- A new connection gets a number that no open socket has.
abbrev pub IsFresh : Option ℕ → Mux → Type 0
IsFresh none m = Unit
IsFresh (some s) m = count s m.opened ≡ 0

fresh_once : (s k n : ℕ) (l : List ℕ) → count s l ≡ 0 → count k l ≤ 1 → count k (s ∷ l) ≤ 1
fresh_once s k n l f h = ground (arith, f, h)

pub acquire_from-IsLedger :
    (a : Text) (call : ℕ) (new : Option ℕ) (q : List ℕ) (m : Mux)
    → idle_at a m ≡ q
    → IsFresh new m
    → IsLedger m
    → IsLedger (acquire_from a call new q m)
unfolding acquire_from connect
acquire_from-IsLedger a call none [] m e f o = record {
  distinct = o.distinct;
  owned = o.owned;
  once = o.once;
}
acquire_from-IsLedger a call (some s) [] m e f o = record {
  distinct = o.distinct;
  owned = λ k. omega (arith, o.owned k);
  once = λ k. fresh_once s k 0 m.opened f (o.once k);
}
acquire_from-IsLedger a call new (s ∷ l) m e f o = record {
  distinct = put-IsDistinct a (pop_right s l).1 m.idle o.distinct;
  owned = λ k.
      let put = count_idle-put k a (pop_right s l).1 m.idle in
      let same = ap (count k) e in omega (arith, o.owned k, put, same, count-pop_right k s l);
  once = o.once;
}

pub send_held-IsLedger :
    (s : ℕ) (how : Sending) (o : Option (Caller × List (ℕ × Caller))) (m : Mux)
    → pluck s m.held ≡ o
    → IsLedger m
    → IsLedger (send_held s how o m)
unfolding send_held
send_held-IsLedger s how none m e o = o
send_held-IsLedger s went_out (some (c, rest)) m e o = record {
  distinct = o.distinct;
  owned = λ k.
      let put = weigh-append (λ t x. one k t) m.queued ((s, new_flight c.address c.call) ∷ []) in
      omega (arith, o.owned k, weigh-pluck (λ t x. one k t) s m.held c rest e, put);
  once = o.once;
}
send_held-IsLedger s unencoded (some (c, rest)) m e o = record {
  distinct = o.distinct;
  owned = λ k. omega (arith, o.owned k, weigh-pluck (λ t x. one k t) s m.held c rest e);
  once = o.once;
}
send_held-IsLedger s undelivered (some (c, rest)) m e o =
    let closed =
      close-Owes s (λ k. 0) (record m { held = rest })
        (record {
          distinct = o.distinct;
          owned = λ k. omega (arith, o.owned k, weigh-pluck (λ t x. one k t) s m.held c rest e);
          once = o.once;
        }) in
    record { distinct = closed.distinct; owned = closed.owned; once = closed.once }

if-IsLedger : (b : Bool) (x y : Mux) → IsLedger x → IsLedger y → IsLedger (if b then x else y)
if-IsLedger true x y hx hy = hx
if-IsLedger false x y hx hy = hy

pub register-IsLedger : (m : Mux) → IsLedger m → IsLedger (register m)
unfolding register
register-IsLedger m o =
    if-IsLedger m.running _ m
      (record {
        distinct = o.distinct;
        owned = λ k. omega (arith, o.owned k, weigh-append (λ t x. one k t) m.registered m.queued);
        once = o.once;
      })
      o

responded : (call : ℕ) (r : Option Message) (m : Mux) → IsLedger m → IsLedger (respond call r m)
responded call r m o = record { distinct = o.distinct; owned = o.owned; once = o.once }

module _ (max_per_peer : ℤ) (loads : Bytes → Result Message) where
  give_back-IsLedger :
      (a : Text) (s : ℕ) (m : Mux)
      → Owes (λ k. one k s + 0) m
      → IsLedger (give_back max_per_peer loads a s m)
  unfolding give_back
  give_back-IsLedger a s m o =
      if-IsLedger (ltb_ℤ (pos (length (idle_at a m))) max_per_peer) _ (close s m)
        (record {
          distinct = put-IsDistinct a (s ∷ idle_at a m) m.idle o.distinct;
          owned = λ k. omega (arith, o.owned k, count_idle-put k a (s ∷ idle_at a m) m.idle);
          once = o.once;
        })
        (close-Owes s (λ k. 0) m o)

  settle-IsLedger :
      (s : ℕ) (f : InFlight) (x : Outcome) (m : Mux)
      → Owes (λ k. one k s + 0) m
      → IsLedger (settle max_per_peer loads s f x m)
  unfolding settle
  settle-IsLedger s f (waiting g) m o = record {
    distinct = o.distinct;
    owned = λ k. omega (arith, o.owned k);
    once = o.once;
  }
  settle-IsLedger s f failed m o = responded f.call none (close s m) (close-Owes s (λ k. 0) m o)
  settle-IsLedger s f (delivered msg) m o =
      responded f.call (some msg) (give_back max_per_peer loads f.address s m)
        (give_back-IsLedger f.address s m o)

  pub read_entry-IsLedger :
      (s : ℕ) (r : Recv) (o : Option (InFlight × List (ℕ × InFlight))) (m : Mux)
      → pluck s m.registered ≡ o
      → IsLedger m
      → IsLedger (read_entry max_per_peer loads s r o m)
  unfolding read_entry
  read_entry-IsLedger s r none m e o = o
  read_entry-IsLedger s r (some (f, rest)) m e o =
      settle-IsLedger s f (handle_read loads f r) (record m { registered = rest })
        (record {
          distinct = o.distinct;
          owned =
              λ k. omega (arith, o.owned k, weigh-pluck (λ t x. one k t) s m.registered f rest e);
          once = o.once;
        })

pub close_peer-IsLedger : (a : Text) (m : Mux) → IsLedger m → IsLedger (close_peer a m)
unfolding close_peer
close_peer-IsLedger a m o =
    close_each-Owes (idle_at a m) (λ k. 0) (record m { idle = Dict.remove a m.idle })
      (record {
        distinct = remove-IsDistinct a m.idle o.distinct;
        owned = λ k. omega (arith, o.owned k, count_idle-remove k a m.idle o.distinct);
        once = o.once;
      })

pub close_all-IsLedger : (m : Mux) → IsLedger m → IsLedger (close_all m)
unfolding close_all
close_all-IsLedger m o = close_idle-IsLedger m.idle _ (record {
  distinct = tt;
  owned = λ k. omega (arith, o.owned k, weigh-append (λ t x. one k t) m.registered m.abandoned);
  once = o.once;
})
