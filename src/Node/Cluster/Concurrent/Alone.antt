-- ===== src/Node/Cluster/Concurrent/Alone.antt =====
-- A call that runs alone, as a thread of its own, does what the operation of the node does.
use mathlib.Core.Path.{subst}
use dlstorage.Base.{Text, ℤ, Bytes, Bool, none, List, [], ◌∷◌, any, ◌≡◌, ◌≢◌, ap, sym, ◌∙◌}
use dlstorage.Types.{NodeInfo}
use dlstorage.Ring.{RendezvousRing, get_nodes}
use dlstorage.Result.{ok}
use dlstorage.Action.{continue, pure, ◌>>=◌, bind_pure_state}
use dlstorage.Node.Storage.{call_all, make_handles, set, delete, set_on, delete_on}
use dlstorage.Node.Cluster.{World, Clocks, node_of}
use dlstorage.Node.Cluster.Through.{handle, handle-set, handle-delete}
use dlstorage.Node.Cluster.Single.Refine.{cons_of_ne_nil}
use dlstorage.Node.Cluster.Concurrent.{
  Work, setting, deleting, work_key, work_info, call_of, Running, acted, start, Step, acts, Reach,
  here, later,
}

module _ (ring : RendezvousRing) (replication : ℤ) (c : Clocks) (work : Work) where
  -- A thread in front of its replicas, with no other beside it.
  abbrev at_left : List NodeInfo → World → Running
  at_left left w = record { world = w; threads = record { work = work; left = left } ∷ [] }

  Reach-step :
      {s t u : Running}
      → Step ring replication s t
      → Reach ring replication t u
      → Reach ring replication s u
  Reach-step first here = later here first
  Reach-step first (later r st) = later (Reach-step first r) st

  returns :
      (v : Work) (n : NodeInfo) (w : World)
      → let p = call_of v (handle c (work_info v) ring replication (work_key v) n) w in
        (b : Bool) × (p ≡ (ok b, p.1))
  returns (setting info key value ts) n w =
      let (b, called, _) = handle-set c info ring replication key n value none ts w in
      (b, ap (λ p. (p.0, acted ring replication c (setting info key value ts) n w)) called)
  returns (deleting info key ts) n w = (
    _,
    ap (λ p. (p.0, acted ring replication c (deleting info key ts) n w))
        (handle-delete c info ring replication key n ts w),
  )

  -- The loop over the handles of the replicas, one after the other.
  call_all-Reach :
      (ns : List NodeInfo) (w : World)
      → Reach ring replication (at_left ns w) (
          at_left []
            (call_all
              (call_of work)
              (make_handles (node_of c (work_info work) ring replication) ns)
              w).1)
  unfolding call_all
  call_all-Reach [] w = here
  call_all-Reach (n ∷ ns) w =
      let (b, returned) = returns work n w in
      let rest =
        call_all (call_of work) (make_handles (node_of c (work_info work) ring replication) ns) in
      subst
        (λ p.
          Reach ring replication (at_left (n ∷ ns) w)
            (at_left [] (continue p.0 (λ r. rest >>= λ rs. pure (r ∷ rs)) p.1).1))
        (sym returned)
        (rw (bind_pure_state rest (λ rs. b ∷ rs) (acted ring replication c work n w)) (
          Reach-step (acts c [] [] work [] ns n w)
            (call_all-Reach ns (acted ring replication c work n w))))

-- What a node does in a call.
abbrev pub call_alone : (Text → Bytes) → RendezvousRing → ℤ → Clocks → Work → World → World
call_alone sha256 ring replication c (setting info key value ts) w =
    (set sha256 (node_of c info ring replication) key value none ts w).1
call_alone sha256 ring replication c (deleting info key ts) w =
    (delete sha256 (node_of c info ring replication) key ts w).1

module _ (sha256 : Text → Bytes) (ring : RendezvousRing) (replication : ℤ) (c : Clocks) where
  call_alone-call_all :
      (work : Work) (w : World) (m : NodeInfo) (ns : List NodeInfo)
      → get_nodes sha256 (work_key work) replication ring ≡ m ∷ ns
      → call_alone sha256 ring replication c work w
        ≡ (call_all
            (call_of work)
            (make_handles (node_of c (work_info work) ring replication) (m ∷ ns))
            w).1
  unfolding set delete set_on delete_on
  call_alone-call_all (setting info key value ts) w m ns split =
      ap (λ l. (set_on sha256 (node_of c info ring replication) key value none ts l w).1) split
      ∙ bind_pure_state
          (call_all (λ h. h.set key value none ts)
            (make_handles (node_of c info ring replication) (m ∷ ns)))
          (any (λ r. r)) w
  call_alone-call_all (deleting info key ts) w m ns split =
      ap (λ l. (delete_on sha256 (node_of c info ring replication) key ts l w).1) split
      ∙ bind_pure_state
          (call_all (λ h. h.delete key ts)
            (make_handles (node_of c info ring replication) (m ∷ ns)))
          (any (λ r. r)) w

  -- A call that no other comes between leaves the world that `set` or `delete` of its node leaves.
  pub call-Reach :
      (work : Work) (w : World)
      → get_nodes sha256 (work_key work) replication ring ≢ []
      → Reach ring replication (start sha256 ring replication (work ∷ []) w) (record {
        world = call_alone sha256 ring replication c work w;
        threads = record { work = work; left = [] } ∷ [];
      })
  call-Reach work w routed =
      let (m, ns, split) =
        cons_of_ne_nil (get_nodes sha256 (work_key work) replication ring) routed in
      rw (split, call_alone-call_all work w m ns split)
        (call_all-Reach ring replication c work (m ∷ ns) w)
