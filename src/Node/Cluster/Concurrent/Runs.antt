-- ===== src/Node/Cluster/Concurrent/Runs.antt =====
-- What is read once calls that ran at the same time have ended.
use mathlib.Core.Path.{subst}
use dlstorage.Base.{
  Text, ℤ, pos, ◌≤ℤ◌, Bytes, true, Option, none, List, [], ◌∷◌, All, map-All, All-mem, All-both,
  All-map, map, any, loop, ◌≡◌, ◌≢◌, refl, ap, sym, ◌∙◌, arith,
}
use dlstorage.Dict
use dlstorage.Types.{NodeInfo, node_eq}
use dlstorage.Types.Address.{node_eq_iff}
use dlstorage.Ring.{RendezvousRing, get_nodes}
use dlstorage.Store.Lww
use dlstorage.Store.Lww.{Entry, value_of}
use dlstorage.Store.Lww.Writes.{entry_at}
use dlstorage.Store.Lww.Converge.{apply_all, absorb, entry_at-apply_all}
use dlstorage.Node.Storage.{get}
use dlstorage.Node.Cluster.{Clocks, node_of}
use dlstorage.Node.Cluster.Lasting.{IsLasting, seen, get_versioned_lasting, read_resolve-seen}
use dlstorage.Node.Cluster.Single.Refine.{cons_of_ne_nil}
use dlstorage.Node.Cluster.Concurrent.{Work, work_ts, write_of, Running, begin_call, start, Reach}
use dlstorage.Node.Cluster.Concurrent.Settle.{IsTieFree, settle, settle-done, settle-start}
use dlstorage.Node.Cluster.Concurrent.Kept.{Inv, Reach-Inv}

module _ (now clock : ℤ) (works : List Work) where
  -- The entry of a single store after the calls.
  abbrev left_behind : Text → Option Entry
  left_behind k = loop (absorb k) (map (write_of now clock) works) none

  get-left_behind :
      (k : Text)
      → IsLasting (left_behind k)
      → (Lww.get now k (apply_all (map (write_of now clock) works) Lww.init)).0
        ≡ value_of (seen (left_behind k))
  unfolding Lww.get Dict.get
  get-left_behind k lasting =
      let at_k = entry_at-apply_all (map (write_of now clock) works) k Lww.init in
      ap (λ p. value_of p.0) (get_versioned_lasting now k _ (subst IsLasting (sym at_k) lasting))
      ∙ ap (λ o. value_of (seen o)) at_k

any-node_eq : (ns : List NodeInfo) → All (λ n. any (λ m. node_eq m n) ns ≡ true) ns
any-node_eq [] = tt
any-node_eq (m ∷ ns) = (
  rw ((node_eq_iff m m).1 refl) refl,
  All-map _ _ ns (λ n found. ground (arith, found)) (any-node_eq ns),
)

module _ (sha256 : Text → Bytes) (ring : RendezvousRing) (replication : ℤ) (works : List Work)
    (now clock : ℤ) (s : Running) (free : IsTieFree works)
    (timed : All (λ v. pos 0 ≤ℤ work_ts v) works)
    (reach : Reach ring replication (start sha256 ring replication works (λ n. Lww.init)) s)
    (done : All (λ t. t.left ≡ []) s.threads) where
  ended :
      Inv ring replication now clock works
        (λ n k. settle now clock n k (map (begin_call sha256 ring replication) works) none)
        s
  unfolding Dict.get
  ended = Reach-Inv ring replication now clock works _ free reach (record {
    settled = λ n k. refl;
    known =
        map-All (begin_call sha256 ring replication) _ works
          (All-both _ _ works (All-mem works) timed);
    lasting = λ n k. tt;
  })

  replicas-left_behind :
      (k : Text)
      → All
          (λ n.
            (entry_at k (s.world n) ≡ left_behind now clock works k)
            × IsLasting (left_behind now clock works k))
          (get_nodes sha256 k replication ring)
  replicas-left_behind k =
      All-map _ _ (get_nodes sha256 k replication ring)
        (λ n kept.
          let same : entry_at k (s.world n) ≡ left_behind now clock works k =
            sym (settle-done now clock n k s.threads (entry_at k (s.world n)) done)
            ∙ ended.settled n k
            ∙ settle-start now clock n k sha256 ring replication works none kept in
          (same, subst IsLasting same (ended.lasting n k)))
        (any-node_eq (get_nodes sha256 k replication ring))

-- Calls of `set` and `delete` run at the same time, at any nodes and with any clocks, each going to
-- its replicas in any order, and reads ask replicas meanwhile. Once all the calls have gone to all
-- their replicas, a read at any node returns what it returns from a single store that has received
-- the calls one after another, and the read changes nothing. The nodes all answer, route alike, start
-- empty, and give every key a replica; two different calls on one key have different timestamps, none
-- of them negative, and no value has a time to live.
pub get-single :
    (sha256 : Text → Bytes) (ring : RendezvousRing) (replication : ℤ) (works : List Work)
    (s : Running)
    → ((k : Text) → get_nodes sha256 k replication ring ≢ [])
    → IsTieFree works
    → All (λ v. pos 0 ≤ℤ work_ts v) works
    → Reach ring replication (start sha256 ring replication works (λ n. Lww.init)) s
    → All (λ t. t.left ≡ []) s.threads
    → (c : Clocks) (info : NodeInfo) (key : Text) (now clock : ℤ)
    → get sha256 (node_of c info ring replication) key s.world
      ≡ ((Lww.get now key (apply_all (map (write_of now clock) works) Lww.init)).0, s.world)
unfolding get
get-single sha256 ring replication works s routed free timed reach done c info key now clock =
    let (m, ns, split) = cons_of_ne_nil (get_nodes sha256 key replication ring) (routed key) in
    let o = left_behind now clock works key in
    let held : All (λ n. (entry_at key (s.world n) ≡ o) × IsLasting o) (m ∷ ns) =
      subst (All (λ n. (entry_at key (s.world n) ≡ o) × IsLasting o)) split (
        replicas-left_behind sha256 ring replication works now clock s free timed reach done key) in
    rw split (
      read_resolve-seen c info ring replication key o held.0.1 m ns s.world
        (All-map _ _ (m ∷ ns) (λ n h. h.0) held)
      ∙ ap (λ v. (v, s.world)) (sym (get-left_behind now clock works key held.0.1)))
