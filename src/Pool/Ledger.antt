-- ===== src/Pool/Ledger.antt =====
-- Which sockets are open, one by one: the idle ones, and no other.
use dlstorage.Base.{
  Text, text_eq, ℕ, ◌+◌, ◌-◌, ℤ, Bool, true, false, Option, none, some, List, [], ◌∷◌, ◌≡◌, refl,
  ap, ◌∙◌, arith, Bool-cases, inl, inr,
}
use dlstorage.Result.{Result, ok, raise}
use dlstorage.Types.{Message, address}
use dlstorage.Dict
use dlstorage.Dict.{Dict}
use dlstorage.Mux.Counts.{one, count, count_idle}
use dlstorage.Pool.{
  PoolState, idle, idle_of, is_full, put_back, finish, attempt, on_new, attempt_new, or_retry,
  from_idle, execute, close_each, close_queues, close_all,
}
use dlstorage.Pool.Sockets.{Sockets, new_connection, network}

idle_put :
    (k : ℕ) (a : Text) (q : List ℕ) (d : Dict (List ℕ))
    → count_idle k (Dict.put a q d) + count k (idle_of (Dict.get a d)) ≡ count_idle k d + count k q
unfolding Dict.put Dict.get
idle_put k a q [] = omega arith
idle_put k a q ((b, r) ∷ d) = elim (Bool-cases (text_eq b a)) [
  | inl same ↦ rw same (omega arith)
  | inr other ↦ let rest = idle_put k a q d in rw other (omega (arith, rest))
]

-- `opened k` is 1 where the socket `k` is open and 0 where it is not: a new socket, whose number no
-- open one has, is open, and a socket that is closed, or that nothing refers to any longer, is open
-- no more, if it was; nothing else opens or closes a socket.
pub record IsCount {W : Type 0} (os : Sockets W) (opened : ℕ → W → ℕ) : Type 0 where
  pub creates : (k : ℕ) (w : W) → opened k (os.create w).1 ≡ one k (os.create w).0 + opened k w
  pub connects :
      (k sock : ℕ) (host : Text) (port : ℤ) (w : W)
      → opened k (os.connect sock host port w).1 ≡ opened k w
  pub exchanges :
      (k sock : ℕ) (msg : Message) (w : W) → opened k (os.exchange sock msg w).1 ≡ opened k w
  pub closes : (k sock : ℕ) (w : W) → opened k (os.close sock w) ≡ opened k w - one k sock
  pub collects : (k sock : ℕ) (w : W) → opened k (os.collect sock w) ≡ opened k w - one k sock

module _ {W : Type 0} (os : Sockets W) (max_per_peer : ℤ) (opened : ℕ → W → ℕ)
    (count_of : IsCount os opened) where
  -- The socket `k` is open as often as it is idle, and `n` times more.
  abbrev Accounts : ℕ → ℕ → PoolState W → Type 0
  Accounts k n s = opened k s.world ≡ count_idle k s.queues + n

  put_back-Accounts :
      (k : ℕ) (a : Text) (sock : ℕ) (s : PoolState W)
      → Accounts k (one k sock) s
      → Accounts k 0 (put_back (network os) max_per_peer a sock s)
  unfolding put_back
  put_back-Accounts k a sock s h = elim (Bool-cases (is_full max_per_peer (idle a s))) [
    | inl full ↦ let closed = count_of.closes k sock s.world in rw full (omega (arith, h, closed))
    | inr free ↦
        let put = idle_put k a (sock ∷ idle a s) s.queues in rw free (omega (arith, h, put))
  ]

  finish-Accounts :
      (k : ℕ) (a : Text) (sock : ℕ) (r : Result Message) (s : PoolState W)
      → Accounts k (one k sock) s
      → Accounts k 0 (finish (network os) max_per_peer a sock r s).1
  unfolding finish
  finish-Accounts k a sock (ok response) s h = put_back-Accounts k a sock s h
  finish-Accounts k a sock (raise e) s h =
      let closed = count_of.closes k sock s.world in omega (arith, h, closed)

  attempt-Accounts :
      (k : ℕ) (a : Text) (sock : ℕ) (msg : Message) (s : PoolState W)
      → Accounts k (one k sock) s
      → Accounts k 0 (attempt (network os) max_per_peer a sock msg s).1
  unfolding attempt
  attempt-Accounts k a sock msg s h =
      finish-Accounts k a sock _ _ (count_of.exchanges k sock msg s.world ∙ h)

  attempt_new-Accounts :
      (k : ℕ) (host : Text) (port : ℤ) (msg : Message) (s : PoolState W)
      → Accounts k 0 s
      → Accounts k 0 (attempt_new (network os) max_per_peer host port msg s).1
  unfolding attempt_new new_connection on_new
  attempt_new-Accounts k host port msg s h = go done refl
    where
      sock : ℕ
      sock = (os.create s.world).0

      made : W
      made = (os.create s.world).1

      done : Bool
      done = (os.connect sock host port made).0

      go :
          (b : Bool)
          → done ≡ b
          → Accounts k 0 (attempt_new (network os) max_per_peer host port msg s).1
      go true e =
          let created = count_of.creates k s.world in
          let connected = count_of.connects k sock host port made in
          rw e (
            attempt-Accounts k (address (record { host = host; port = port })) sock msg
              (record s { world = (os.connect sock host port made).1 })
              (omega (arith, h, created, connected)))
      go false e =
          let created = count_of.creates k s.world in
          let connected = count_of.connects k sock host port made in
          let collected = count_of.collects k sock (os.connect sock host port made).1 in
          rw e (omega (arith, h, created, connected, collected))

  or_retry-Accounts :
      (k : ℕ) (host : Text) (port : ℤ) (msg : Message) (x : Option Message × PoolState W)
      → Accounts k 0 x.1
      → Accounts k 0 (or_retry (network os) max_per_peer host port msg x).1
  or_retry-Accounts k host port msg (some response, s) h = h
  or_retry-Accounts k host port msg (none, s) h = attempt_new-Accounts k host port msg s h

  from_idle-Accounts :
      (k : ℕ) (a host : Text) (port : ℤ) (msg : Message) (q : List ℕ) (s : PoolState W)
      → idle a s ≡ q
      → Accounts k 0 s
      → Accounts k 0 (from_idle (network os) max_per_peer a host port msg q s).1
  unfolding from_idle
  from_idle-Accounts k a host port msg [] s e h =
      let put = idle_put k a [] s.queues in
      let none_idle = ap (count k) e in
      attempt_new-Accounts k host port msg _ (omega (arith, h, put, none_idle))
  from_idle-Accounts k a host port msg (sock ∷ q) s e h =
      let put = idle_put k a q s.queues in
      let one_more = ap (count k) e in
      or_retry-Accounts k host port msg _
        (attempt-Accounts k a sock msg _ (omega (arith, h, put, one_more)))

  close_each-opened :
      (k : ℕ) (q : List ℕ) (w : W)
      → opened k (close_each (network os) max_per_peer q w) ≡ opened k w - count k q
  unfolding close_each
  close_each-opened k [] w = omega arith
  close_each-opened k (sock ∷ q) w =
      let rest = close_each-opened k q (os.close sock w) in
      let closed = count_of.closes k sock w in omega (arith, rest, closed)

  close_queues-opened :
      (k : ℕ) (d : Dict (List ℕ)) (w : W)
      → opened k (close_queues (network os) max_per_peer d w) ≡ opened k w - count_idle k d
  unfolding close_queues
  close_queues-opened k [] w = omega arith
  close_queues-opened k ((a, q) ∷ d) w =
      let rest = close_queues-opened k d (close_each (network os) max_per_peer q w) in
      let closed = close_each-opened k q w in omega (arith, rest, closed)

  -- Where the open sockets are the idle ones of the queues, each as often as it is there, it is so
  -- after a request as well, whether it succeeds, fails, or is tried a second time, and whether or
  -- not its connections are made; and `close_all` leaves no socket open. It is assumed of the
  -- sockets that each operation opens and closes no other than its own, and that a socket which the
  -- code drops without closing it is closed by the language.
  pub execute-opened :
      (host : Text) (port : ℤ) (msg : Message) (s : PoolState W) (k : ℕ)
      → opened k s.world ≡ count_idle k s.queues
      → (opened k (execute (network os) max_per_peer host port msg s).1.world
          ≡ count_idle k (execute (network os) max_per_peer host port msg s).1.queues)
        × (opened k (close_all (network os) max_per_peer s).world ≡ 0)
  unfolding execute close_all
  execute-opened host port msg s k h =
      let a = address (record { host = host; port = port }) in
      let kept = from_idle-Accounts k a host port msg (idle a s) s refl (omega (arith, h)) in
      let closed = close_queues-opened k s.queues s.world in
      (omega (arith, kept), omega (arith, closed, h))
