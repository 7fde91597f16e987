-- ===== src/Pool/Async/Fresh.antt =====
-- The asynchronous pool against the synchronous one: which connections it uses again.
use dlstorage.Base.{
  Text, text_eq_self, ℕ, ℤ, Bool, false, Option, none, some, List, [], ◌∷◌, ◌≡◌, refl, ap, ◌∙◌, sym,
}
use dlstorage.Result.{Result, ok, raise}
use dlstorage.Types.{Message, address}
use dlstorage.Dict.{Dict}
use dlstorage.Dict.Laws.{get-put, put-put}
use dlstorage.Pool
use dlstorage.Pool.{Network, PoolState, idle, set_idle}
use dlstorage.Pool.Async
use dlstorage.Pool.Async.{drop_stale}

module _ {W : Type 0} (net : Network W) (is_closing : ℕ → W → Bool) (max_per_peer : ℤ)
    -- A connection on which a response has just come is not closing.
    (open_after : (conn : ℕ) (msg response : Message) (w : W)
      → (net.exchange conn msg w).0 ≡ ok response
      → is_closing conn (net.exchange conn msg w).1 ≡ false) where
  attempt-sync :
      (a : Text) (conn : ℕ) (msg : Message) (s : PoolState W)
      → Async.attempt net is_closing max_per_peer a conn msg s
        ≡ Pool.attempt net max_per_peer a conn msg s
  unfolding Async.attempt Async.finish Pool.attempt Pool.finish
  attempt-sync a conn msg s = go (net.exchange conn msg s.world).0 refl
    where
      go :
          (r : Result Message)
          → (net.exchange conn msg s.world).0 ≡ r
          → Async.attempt net is_closing max_per_peer a conn msg s
            ≡ Pool.attempt net max_per_peer a conn msg s
      go (ok response) e = rw (e, open_after conn msg response s.world e) refl
      go (raise err) e = rw e refl

  attempt_new-sync :
      (host : Text) (port : ℤ) (msg : Message) (s : PoolState W)
      → Async.attempt_new net is_closing max_per_peer host port msg s
        ≡ Pool.attempt_new net max_per_peer host port msg s
  unfolding Async.attempt_new Async.on_new Pool.attempt_new Pool.on_new
  attempt_new-sync host port msg s = go (net.connect host port s.world).0 refl
    where
      go :
          (c : Option ℕ)
          → (net.connect host port s.world).0 ≡ c
          → Async.attempt_new net is_closing max_per_peer host port msg s
            ≡ Pool.attempt_new net max_per_peer host port msg s
      go none e = rw e refl
      go (some conn) e = rw e (attempt-sync _ conn msg _)

  from_queue-sync :
      (a host : Text) (port : ℤ) (msg : Message) (q : List ℕ) (s : PoolState W)
      → Async.from_queue net is_closing max_per_peer a host port msg q s
        ≡ Pool.from_idle net max_per_peer a host port msg q s
  unfolding Async.from_queue Pool.from_idle
  from_queue-sync a host port msg [] s = attempt_new-sync host port msg _
  from_queue-sync a host port msg (conn ∷ q) s =
      retry (Async.attempt net is_closing max_per_peer a conn msg (set_idle net max_per_peer a q s))
        _ (attempt-sync a conn msg (set_idle net max_per_peer a q s))
    where
      retry :
          (x y : Option Message × PoolState W)
          → x ≡ y
          → Async.or_retry net is_closing max_per_peer host port msg x
            ≡ Pool.or_retry net max_per_peer host port msg y
      retry (some response, t) y e = rw⁻¹ e refl
      retry (none, t) y e = rw⁻¹ e (attempt_new-sync host port msg t)

  set_idle-again :
      (a : Text) (q r : List ℕ) (s : PoolState W)
      → set_idle net max_per_peer a q (set_idle net max_per_peer a r s)
        ≡ set_idle net max_per_peer a q s
  set_idle-again a q r s = ap (λ qs. record s { queues = qs }) (put-put a q r s.queues)

  from_idle-again :
      (a host : Text) (port : ℤ) (msg : Message) (q r : List ℕ) (s : PoolState W)
      → Pool.from_idle net max_per_peer a host port msg q (set_idle net max_per_peer a r s)
        ≡ Pool.from_idle net max_per_peer a host port msg q s
  unfolding Pool.from_idle
  from_idle-again a host port msg [] r s = rw (set_idle-again a [] r s) refl
  from_idle-again a host port msg (conn ∷ q) r s = rw (set_idle-again a q r s) refl

  close_queues-sync :
      (qs : Dict (List ℕ)) (w : W)
      → Async.close_queues net is_closing max_per_peer qs w
        ≡ Pool.close_queues net max_per_peer qs w
  unfolding Async.close_queues Pool.close_queues
  close_queues-sync [] w = refl
  close_queues-sync ((a, q) ∷ qs) w = close_queues-sync qs (Pool.close_each net max_per_peer q w)

  -- Where a connection on which a response has just come is not closing, a request to the
  -- asynchronous pool does what it does to the synchronous pool from whose queue for that peer the
  -- closing connections on top have been taken off. `close_peer` and `close_all` do the same to both.
  pub execute-sync :
      (host : Text) (port : ℤ) (msg : Message) (s : PoolState W)
      → let a = address (record { host = host; port = port }) in
        let stale : ℕ → Bool = λ conn. is_closing conn s.world in
        (Async.execute net is_closing max_per_peer host port msg s
          ≡ Pool.execute net max_per_peer host port msg
              (set_idle net max_per_peer a (drop_stale stale (idle a s)) s))
        × (Async.close_peer net is_closing max_per_peer host port s
            ≡ Pool.close_peer net max_per_peer host port s)
        × (Async.close_all net is_closing max_per_peer s ≡ Pool.close_all net max_per_peer s)
  unfolding Async.execute Pool.execute Async.close_peer Pool.close_peer Async.close_all
      Pool.close_all
  execute-sync host port msg s =
      let a = address (record { host = host; port = port }) in
      let q = drop_stale (λ conn. is_closing conn s.world) (idle a s) in
      (
        from_queue-sync a host port msg q s
            ∙ sym (
                rw (get-put a a q s.queues, text_eq_self a)
                  (from_idle-again a host port msg q q s)),
        refl,
        ap (λ w. record { queues = []; world = w }) (close_queues-sync s.queues s.world),
      )
