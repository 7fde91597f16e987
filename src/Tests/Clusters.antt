-- ===== src/Tests/Clusters.antt =====
-- Whole clusters on small inputs.
use dlstorage.Base.{
  ℕ, pos, Text, codes, text_eq, from_bytes, true, false, none, some, List, [], ◌∷◌, length, All,
  ◌≡◌, ◌≢◌, refl, arith, ap,
}
use dlstorage.Dict
use dlstorage.Types.{NodeInfo, null}
use dlstorage.Ring.{get_nodes}
use dlstorage.Ring.Route.{get_nodes-top}
use dlstorage.Store.Lww
use dlstorage.Node.Cluster.{Clocks}
use dlstorage.Node.Cluster.Single.{
  Call, set_call, delete_call, get_call, cluster_reads, single_reads,
}
use dlstorage.Node.Cluster.Single.Refine.{cluster_reads-single_reads}
use dlstorage.Node.Cluster.Traced
use dlstorage.Node.Cluster.Traced.{Site, IsTraced}
use dlstorage.Node.Cluster.Traced.Runs.{reads-IsTraced}
use dlstorage.Node.Storage.{set}
use dlstorage.Node.Cluster.{node_of}
use dlstorage.Node.Cluster.Expired.{reads-set_over}
use dlstorage.Tests.Samples.{toy_digest, node_a, node_b, node_c, ring_abc, seven}

abbrev x_key : Text
x_key = codes "x"

-- The clocks of the nodes differ.
abbrev skewed : Clocks
skewed = record { now = λ n. if_node n; clock = λ n. pos 1 }
  where
    if_node : NodeInfo → dlstorage.Base.ℤ
    if_node n = pos (length n.host)

-- The late write is older than the deletion.
abbrev calls : List Call
calls =
    set_call skewed node_a x_key seven (pos 4)
    ∷ get_call skewed node_b x_key
    ∷ delete_call skewed node_c x_key (pos 6)
    ∷ set_call skewed node_b x_key seven (pos 5)
    ∷ get_call skewed node_a x_key
    ∷ []

routed : (k : Text) → get_nodes toy_digest k (pos 2) ring_abc ≢ []
routed k none_left =
    let (rest, perm, long, _, _) = get_nodes-top toy_digest k 2 ring_abc in
    omega (arith, long, ap length none_left)

cluster_reads-single_reads_example :
    cluster_reads toy_digest ring_abc (pos 2) calls (λ n. Lww.init) ≡ single_reads calls Lww.init
cluster_reads-single_reads_example =
    cluster_reads-single_reads toy_digest ring_abc (pos 2) routed calls
      (omega arith, (tt, (omega arith, (omega arith, (tt, tt)))))

single_reads-calls : single_reads calls Lww.init ≡ seven ∷ null ∷ []
unfolding single_reads Lww.set Lww.get Lww.get_versioned Lww.delete Dict.get Dict.put text_eq
    dlstorage.Store.deadline
single_reads-calls = refl

-- `node_a` reaches `node_b` only.
abbrev half : Site
half = record {
  up = λ n. text_eq n.host node_b.host;
  clocks = skewed;
  info = node_a;
  ring = ring_abc;
  replication = pos 2;
}

-- `node_c` reaches nobody, and answers from itself.
abbrev apart : Site
apart = record half { up = λ n. false; info = node_c }

abbrev amiss : List Traced.Call
amiss =
    Traced.set_call half x_key seven (some (pos 3)) (pos 4)
    ∷ Traced.get_call apart x_key
    ∷ Traced.delete_call apart x_key (pos 6)
    ∷ Traced.get_call half x_key
    ∷ []

reads-IsTraced_example : IsTraced toy_digest amiss [] (λ n. Lww.init)
reads-IsTraced_example = reads-IsTraced toy_digest amiss

-- Monotonic clocks at the moment of the write, and long after it.
abbrev early : Clocks
early = record { now = λ n. pos 0; clock = λ n. pos 1 }

abbrev late : Clocks
late = record { now = λ n. pos 10; clock = λ n. pos 1 }

reads-set_over_example :
    All
      (λ found. found ≡ null)
      (cluster_reads toy_digest ring_abc
        (pos 2)
        (get_call late node_a x_key ∷ get_call late node_c x_key ∷ [])
        (set toy_digest
          (node_of early node_b ring_abc (pos 2))
          x_key
          seven
          (some (pos 3))
          (pos 4)
          (λ n. Lww.init)).1)
unfolding get_nodes dlstorage.Ring.Rank.sort_by dlstorage.Ring.score from_bytes
    dlstorage.Types.address dlstorage.Types.Decimal.str_int Dict.get dlstorage.Store.deadline
    dlstorage.Base.◌+ℤ◌
reads-set_over_example =
    reads-set_over toy_digest x_key seven (pos 3) (pos 4) early node_b ring_abc (pos 2) node_c
      (node_b ∷ []) (λ n. Lww.init) ((late, node_a) ∷ (late, node_c) ∷ []) refl (refl, (refl, tt))
      ((refl, (refl, tt)), ((refl, (refl, tt)), tt))
