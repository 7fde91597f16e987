-- ===== src/Tests/Together.antt =====
-- Calls that run at the same time on a small cluster.
use dlstorage.Base.{
  Text, pos, pos_part, codes, from_bytes, List, [], ◌∷◌, length, ◌≡◌, ◌≢◌, refl, ap, arith,
}
use dlstorage.Types.{NodeInfo, address, Value, null}
use dlstorage.Ring.{get_nodes, score}
use dlstorage.Ring.Route.{get_nodes-top}
use dlstorage.Store.Lww
use dlstorage.Store.Lww.Converge.{apply_all}
use dlstorage.Node.Storage.{get}
use dlstorage.Node.Cluster.{World, Clocks, node_of}
use dlstorage.Node.Cluster.Concurrent.{
  Work, setting, deleting, work_ts, write_of, Thread, Running, acted, start, acts, asks, Reach,
  here, later,
}
use dlstorage.Node.Cluster.Concurrent.Runs.{get-single}
use dlstorage.Node.Cluster.Through.{handle}
use dlstorage.Tests.Pairs.{pair_injective}
use dlstorage.Tests.Samples.{toy_digest, node_a, node_b, node_c, ring_abc, seven}

abbrev x_key : Text
x_key = codes "x"

abbrev clocks : Clocks
clocks = record { now = λ n. pos 0; clock = λ n. pos 1 }

-- The deletion is newer than the write.
abbrev written : Work
written = setting node_a x_key seven (pos 5)

abbrev deleted : Work
deleted = deleting node_b x_key (pos 6)

-- The deletion comes first at `node_b`, and second at `node_c`.
abbrev first : World
first = acted ring_abc (pos 2) clocks deleted node_b (λ n. Lww.init)

abbrev second : World
second = acted ring_abc (pos 2) clocks written node_c first

abbrev asked : World
asked = ((handle clocks node_a ring_abc (pos 2) x_key node_c).get_versioned x_key second).1

abbrev third : World
third = acted ring_abc (pos 2) clocks deleted node_c asked

abbrev left_to : Work → List NodeInfo → Thread
left_to work left = record { work = work; left = left }

abbrev ended : Running
ended = record {
  world = acted ring_abc (pos 2) clocks written node_b third;
  threads = left_to written [] ∷ left_to deleted [] ∷ [];
}

run :
    Reach ring_abc
      (pos 2)
      (start toy_digest ring_abc (pos 2) (written ∷ deleted ∷ []) (λ n. Lww.init))
      ended
unfolding get_nodes dlstorage.Ring.Rank.sort_by score from_bytes address
    dlstorage.Types.Decimal.str_int
run =
    later
      (later
        (later
          (later
            (later here (
              acts clocks (left_to written (node_c ∷ node_b ∷ []) ∷ []) [] deleted (node_c ∷ []) []
                node_b (λ n. Lww.init)))
            (acts clocks [] (left_to deleted (node_c ∷ []) ∷ []) written [] (node_b ∷ []) node_c
              first))
          (asks clocks node_a x_key node_c second
            (left_to written (node_b ∷ []) ∷ left_to deleted (node_c ∷ []) ∷ [])))
        (acts clocks (left_to written (node_b ∷ []) ∷ []) [] deleted [] [] node_c asked))
      (acts clocks [] (left_to deleted [] ∷ []) written [] [] node_b third)

routed : (k : Text) → get_nodes toy_digest k (pos 2) ring_abc ≢ []
routed k none_left =
    let (rest, perm, long, _, _) = get_nodes-top toy_digest k 2 ring_abc in
    omega (arith, long, ap length none_left)

get-single_example : get toy_digest (node_of clocks node_a ring_abc (pos 2)) x_key ended.world ≡ (
  (Lww.get (pos 0) x_key (
      apply_all
        (write_of (pos 0) (pos 1) written ∷ write_of (pos 0) (pos 1) deleted ∷ [])
        Lww.init)).0,
  ended.world,
)
get-single_example =
    get-single toy_digest ring_abc (pos 2) (written ∷ deleted ∷ []) ended routed
      (λ v w mv mw keys times.
        pair_injective Work-set work_ts written deleted (λ e. omega (arith, ap pos_part e)) v w mv
          mw times)
      (omega arith, (omega arith, tt)) run (refl, (refl, tt)) clocks node_a x_key (pos 0) (pos 1)
  where
    Work-set : IsSet Work
    Work-set = hlevel
