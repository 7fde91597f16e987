-- ===== src/Pool/Bounds.antt =====
-- The number of idle sockets that the pool keeps for a peer.
use dlstorage.Base.{
  Text, text_eq, ℕ, suc, ℤ, pos, leb, ◌≤◌, Option, none, some, List, [], ◌∷◌, length, arith,
  Bool-cases, inl, inr,
}
use dlstorage.Result.{Result, ok, raise}
use dlstorage.Types.{Message, address}
use dlstorage.Dict
use dlstorage.Dict.Laws.{get-put, get-remove}
use dlstorage.Pool.{
  Network, PoolState, idle, idle_of, set_idle, put_back, finish, attempt, on_new, attempt_new,
  or_retry, from_idle, execute, close_peer, close_all,
}

-- No peer has more than `n` idle sockets.
abbrev pub IsBounded : {W : Type 0} → ℕ → PoolState W → Type 0
IsBounded n s = (a : Text) → length (idle a s) ≤ n

module _ {W : Type 0} (net : Network W) (n : ℕ) where
  set_idle-IsBounded :
      (a : Text) (q : List ℕ) (s : PoolState W)
      → length q ≤ suc n
      → IsBounded (suc n) s
      → IsBounded (suc n) (set_idle net (pos (suc n)) a q s)
  set_idle-IsBounded a q s short h k = elim (Bool-cases (text_eq a k)) [
    | inl same ↦ rw (get-put a k q s.queues, same) short
    | inr other ↦ rw (get-put a k q s.queues, other) (h k)
  ]

  put_back-IsBounded :
      (a : Text) (sock : ℕ) (s : PoolState W)
      → IsBounded (suc n) s
      → IsBounded (suc n) (put_back net (pos (suc n)) a sock s)
  unfolding put_back
  put_back-IsBounded a sock s h = elim (Bool-cases (leb (suc n) (length (idle a s)))) [
    | inl full ↦ rw full h
    | inr free ↦ rw free (set_idle-IsBounded a (sock ∷ idle a s) s (ground (arith, free)) h)
  ]

  finish-IsBounded :
      (a : Text) (sock : ℕ) (r : Result Message) (s : PoolState W)
      → IsBounded (suc n) s
      → IsBounded (suc n) (finish net (pos (suc n)) a sock r s).1
  unfolding finish
  finish-IsBounded a sock (ok response) s h = put_back-IsBounded a sock s h
  finish-IsBounded a sock (raise e) s h = h

  attempt-IsBounded :
      (a : Text) (sock : ℕ) (msg : Message) (s : PoolState W)
      → IsBounded (suc n) s
      → IsBounded (suc n) (attempt net (pos (suc n)) a sock msg s).1
  unfolding attempt
  attempt-IsBounded a sock msg s h = finish-IsBounded a sock _ _ h

  attempt_new-IsBounded :
      (host : Text) (port : ℤ) (msg : Message) (s : PoolState W)
      → IsBounded (suc n) s
      → IsBounded (suc n) (attempt_new net (pos (suc n)) host port msg s).1
  unfolding attempt_new
  attempt_new-IsBounded host port msg s h = go (net.connect host port s.world).0
    where
      go :
          (sock : Option ℕ)
          → IsBounded
              (suc n)
              (on_new net
                (pos (suc n))
                (address (record { host = host; port = port }))
                msg
                sock
                (record s { world = (net.connect host port s.world).1 })).1
      go none = h
      go (some sock) = attempt-IsBounded _ sock msg _ h

  or_retry-IsBounded :
      (host : Text) (port : ℤ) (msg : Message) (x : Option Message × PoolState W)
      → IsBounded (suc n) x.1
      → IsBounded (suc n) (or_retry net (pos (suc n)) host port msg x).1
  or_retry-IsBounded host port msg (some response, s) h = h
  or_retry-IsBounded host port msg (none, s) h = attempt_new-IsBounded host port msg s h

  from_idle-IsBounded :
      (a host : Text) (port : ℤ) (msg : Message) (q : List ℕ) (s : PoolState W)
      → length q ≤ suc n
      → IsBounded (suc n) s
      → IsBounded (suc n) (from_idle net (pos (suc n)) a host port msg q s).1
  unfolding from_idle
  from_idle-IsBounded a host port msg [] s short h =
      attempt_new-IsBounded host port msg _ (set_idle-IsBounded a [] s short h)
  from_idle-IsBounded a host port msg (sock ∷ q) s short h =
      or_retry-IsBounded host port msg _
        (attempt-IsBounded a sock msg _ (set_idle-IsBounded a q s (omega arith) h))

  -- The pool never keeps more idle sockets for a peer than its maximum, where that is greater than
  -- zero: whatever a request meets, it leaves no more than that, and so do the closing methods.
  pub execute-IsBounded :
      (host : Text) (port : ℤ) (msg : Message) (s : PoolState W)
      → IsBounded (suc n) s
      → IsBounded (suc n) (execute net (pos (suc n)) host port msg s).1
        × IsBounded (suc n) (close_peer net (pos (suc n)) host port s)
        × IsBounded (suc n) (close_all net (pos (suc n)) s)
  unfolding execute close_peer close_all
  execute-IsBounded host port msg s h = (
    from_idle-IsBounded (address (record { host = host; port = port })) host port msg _ s (h _) h,
    λ a. removed a,
    λ a. none_left a,
  )
    where
      removed :
          (a : Text)
          → length (
              idle_of
                (Dict.get a (Dict.remove (address (record { host = host; port = port })) s.queues)))
            ≤ suc n
      removed a = elim (Bool-cases (text_eq (address (record { host = host; port = port })) a)) [
        | inl same ↦
            rw (get-remove (address (record { host = host; port = port })) a s.queues, same)
              (omega arith)
        | inr other ↦
            rw (get-remove (address (record { host = host; port = port })) a s.queues, other) (h a)
      ]

      none_left : (a : Text) → length (idle_of (Dict.get {V = List ℕ} a [])) ≤ suc n
      none_left a = unfold Dict.get in omega arith
