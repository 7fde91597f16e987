-- ===== src/Node/Storage/Agree.antt =====
-- The sync and the async node write alike.
use dlstorage.Base.{Text, ℤ, Bytes, Bool, false, Option, List, [], ◌∷◌, any, ◌≡◌, ap, ◌∙◌, arith}
use dlstorage.Action.{Action, pure, ◌>>=◌, >>=-eq-ok}
use dlstorage.Result.{Result, ok, raise}
use dlstorage.Types.{NodeInfo, Value}
use dlstorage.Handle.{ReplicaHandle}
use dlstorage.Node.Storage.{
  StorageNode, make_handles, call_all, gather, is_true, candidates, set, async_set, set_on,
  async_set_on, delete, async_delete, delete_on, async_delete_on,
}

any_ok : Result (List Bool) → Bool
any_ok (ok rs) = any (λ r. r) rs
any_ok (raise e) = false

-- Where the loop over the replicas ends without an exception, `gather` leaves the same state and
-- has a result that is `True` exactly if the loop has one.
gather-call_all :
    {S : Type 0} (f : ReplicaHandle S → Action S Bool) (hs : List (ReplicaHandle S)) (s : S)
    (rs : List Bool) (s' : S)
    → call_all f hs s ≡ (ok rs, s')
    → ((gather f hs s).1 ≡ s') × (any is_true (gather f hs s).0 ≡ any (λ r. r) rs)
unfolding call_all gather any_ok
gather-call_all f [] s rs s' h = (ap (λ p. p.1) h, ap (λ p. any_ok p.0) h)
gather-call_all {S} f (x ∷ hs) s rs s' h =
    let (b, t, at_x, k) = >>=-eq-ok (f x) _ s s' rs h in
    let (bs, u, at_hs, j) = >>=-eq-ok (call_all f hs) _ t s' rs k in
    let (same, anys) = gather-call_all f hs t bs u at_hs in
    let got : rs ≡ b ∷ bs = cc in
    let last : u ≡ s' = cc in rw (at_x) (same ∙ last, rw got (ground (arith, anys)))

-- The branch of a non-empty list of replicas, in both versions.
gather-any :
    {S : Type 0} (f : ReplicaHandle S → Action S Bool) (hs : List (ReplicaHandle S)) (s s' : S)
    (b : Bool)
    → (call_all f hs >>= λ rs. pure (any (λ r. r) rs)) s ≡ (ok b, s')
    → ◌≡◌ {A = Result Bool × S} (ok (any is_true (gather f hs s).0), (gather f hs s).1) (ok b, s')
gather-any f hs s s' b h =
    let (rs, t, at_hs, k) = >>=-eq-ok (call_all f hs) _ s s' b h in
    let (same, anys) = gather-call_all f hs s rs t at_hs in cc (ap ok anys, same, k)

module _ {S : Type 0} (sha256 : Text → Bytes) (node : StorageNode S) where
  set_on-agree :
      (key : Text) (value : Value) (ttl : Option ℤ) (ts : ℤ) (ns : List NodeInfo) (s s' : S)
      (b : Bool)
      → set_on sha256 node key value ttl ts ns s ≡ (ok b, s')
      → async_set_on sha256 node key value ttl ts ns s ≡ (ok b, s')
  unfolding set_on async_set_on
  set_on-agree key value ttl ts [] s s' b h = h
  set_on-agree key value ttl ts (n ∷ ns) s s' b h =
      gather-any (λ x. x.set key value ttl ts) (make_handles node (n ∷ ns)) s s' b h

  delete_on-agree :
      (key : Text) (ts : ℤ) (ns : List NodeInfo) (s s' : S) (b : Bool)
      → delete_on sha256 node key ts ns s ≡ (ok b, s')
      → async_delete_on sha256 node key ts ns s ≡ (ok b, s')
  unfolding delete_on async_delete_on
  delete_on-agree key ts [] s s' b h = h
  delete_on-agree key ts (n ∷ ns) s s' b h =
      gather-any (λ x. x.delete key ts) (make_handles node (n ∷ ns)) s s' b h

  -- Where a `set` of the sync node returns, that of the async node, whose calls run one after the
  -- other, returns the same and leaves the same state.
  pub async_set-agree :
      (key : Text) (value : Value) (ttl : Option ℤ) (ts : ℤ) (s s' : S) (b : Bool)
      → set sha256 node key value ttl ts s ≡ (ok b, s')
      → async_set sha256 node key value ttl ts s ≡ (ok b, s')
  unfolding set async_set
  async_set-agree key value ttl ts = set_on-agree key value ttl ts (candidates sha256 node key)

  -- Where a `delete` of the sync node returns, that of the async node, whose calls run one after
  -- the other, returns the same and leaves the same state.
  pub async_delete-agree :
      (key : Text) (ts : ℤ) (s s' : S) (b : Bool)
      → delete sha256 node key ts s ≡ (ok b, s')
      → async_delete sha256 node key ts s ≡ (ok b, s')
  unfolding delete async_delete
  async_delete-agree key ts = delete_on-agree key ts (candidates sha256 node key)
