-- ===== src/Node/Cluster/Single/Refine.antt =====
-- The reads of the cluster are those of the single store.
use mathlib.Core.Path.{subst}
use dlstorage.Base.{
  Text, text_eq, text_eq_iff, text_eq_self, ℤ, pos, ◌≤ℤ◌, Bytes, Option, none, some, List, [], ◌∷◌,
  All, All-map, if◌then◌else◌, ◌≡◌, ◌≢◌, refl, ap, sym, ◌∙◌, Bool-cases, inl, inr,
}
use dlstorage.Dict
use dlstorage.Types.{NodeInfo, Value}
use dlstorage.Ring.{RendezvousRing}
use dlstorage.Store.{deadline}
use dlstorage.Store.Lww
use dlstorage.Store.Lww.{LocalLwwStore, Entry, live, tombstone, value_of}
use dlstorage.Store.Lww.Writes.{entry_at, merge, merge_idem, entry_at-set, entry_at-delete}
use dlstorage.Node.Storage.{set, delete, get}
use dlstorage.Node.Cluster.{World, Clocks, node_of}
use dlstorage.Node.Cluster.Through.{handle-set, handle-delete}
use dlstorage.Node.Cluster.Visits.{visit, call_all-visit, visit_other, visit_lem}
use dlstorage.Node.Cluster.Lasting.{
  IsLasting, merge-IsLasting, seen, get_versioned_lasting, read_resolve-seen,
}
use dlstorage.Node.Cluster.Single.{
  Call, set_call, delete_call, get_call, IsTimed, single_reads, cluster_reads, replicas,
}

pub cons_of_ne_nil {ℓ} : {A : Type ℓ} (l : List A) → l ≢ [] → (x : A) × (xs : List A) × (l ≡ x ∷ xs)
cons_of_ne_nil [] h = absurd (h refl)
cons_of_ne_nil (x ∷ xs) h = (x, xs, refl)

abbrev stored : Value → ℤ → Entry
stored value ts = record { slot = live value; expires_at = none; ts = ts }

abbrev buried : ℤ → Entry
buried ts = record { slot = tombstone; expires_at = none; ts = ts }

module _ (sha256 : Text → Bytes) (ring : RendezvousRing) (replication : ℤ) where
  abbrev replicas_of : Text → List NodeInfo
  replicas_of = replicas sha256 ring replication

  -- Every replica of a key holds what the store holds for it.
  pub record Sim (w : World) (s : LocalLwwStore) : Type 0 where
    pub agree : (k : Text) → All (λ n. entry_at k (w n) ≡ entry_at k s) (replicas_of k)
    pub lasting : (k : Text) → IsLasting (entry_at k s)

  -- A write to the replicas and the same write to the store.
  Sim-visit :
      (act : NodeInfo → LocalLwwStore → LocalLwwStore) (key : Text)
      (merged : Option Entry → Option Entry)
      → ((n : NodeInfo) (k : Text) (s : LocalLwwStore)
          → entry_at k (act n s)
            ≡ (if text_eq key k then merged (entry_at key s) else entry_at k s))
      → ((o : Option Entry) → merged (merged o) ≡ merged o)
      → ((o : Option Entry) → IsLasting o → IsLasting (merged o))
      → (info : NodeInfo) (w : World) (s : LocalLwwStore) → Sim w s
      → Sim (visit act (replicas_of key) w) (act info s)
  Sim-visit act key merged acts again lasts info w s sim = record {
    agree = agree_at;
    lasting = λ k. elim (Bool-cases (text_eq key k)) [
      | inl same ↦ rw (acts info k s, same) (lasts _ (sim.lasting key))
      | inr other ↦ rw (acts info k s, other) (sim.lasting k)
    ];
  }
    where
      at_key :
          All
            (λ n. entry_at key (visit act (replicas_of key) w n) ≡ entry_at key (act info s))
            (replicas_of key)
      at_key =
          All-map _ _ (replicas_of key)
            (λ n e. e ∙ sym (acts info key s ∙ rw (text_eq_self key) refl))
            (visit_lem act key merged acts again (entry_at key s) (replicas_of key) w
              (sim.agree key))

      agree_at :
          (k : Text)
          → All
              (λ n. entry_at k (visit act (replicas_of key) w n) ≡ entry_at k (act info s))
              (replicas_of k)
      agree_at k = elim (Bool-cases (text_eq key k)) [
        | inl same ↦
            subst
              (λ x.
                All (λ n. entry_at x (visit act (replicas_of key) w n) ≡ entry_at x (act info s))
                  (replicas_of x))
              ((text_eq_iff key k).0 same) at_key
        | inr other ↦
            All-map _ _ (replicas_of k)
              (λ n e.
                visit_other act key merged acts again k n (replicas_of key) w other
                ∙ e
                ∙ sym (acts info k s ∙ rw other refl))
              (sim.agree k)
      ]

  module _ (routed : (k : Text) → replicas_of k ≢ []) where
    set-visit :
        (c : Clocks) (info : NodeInfo) (key : Text) (value : Value) (ts : ℤ) (w : World)
        → (set sha256 (node_of c info ring replication) key value none ts w).1
          ≡ visit
              (λ n t. (Lww.set (c.now n) (c.clock n) key value none (some ts) t).1)
              (replicas_of key)
              w
    unfolding set
    set-visit c info key value ts w =
        let (m, ns, split) = cons_of_ne_nil (replicas_of key) (routed key) in
        let (bs, visited) =
          call_all-visit _ c info ring replication key (λ h. h.set key value none ts)
            (λ n v.
              let (b, at_n, _) = handle-set c info ring replication key n value none ts v in
              (b, at_n))
            (m ∷ ns) w in
        rw (split, visited) refl

    delete-visit :
        (c : Clocks) (info : NodeInfo) (key : Text) (ts : ℤ) (w : World)
        → (delete sha256 (node_of c info ring replication) key ts w).1
          ≡ visit (λ n t. (Lww.delete (c.clock n) key (some ts) t).1) (replicas_of key) w
    unfolding delete
    delete-visit c info key ts w =
        let (m, ns, split) = cons_of_ne_nil (replicas_of key) (routed key) in
        let (bs, visited) =
          call_all-visit _ c info ring replication key (λ h. h.delete key ts)
            (λ n v. (_, handle-delete c info ring replication key n ts v)) (m ∷ ns) w in
        rw (split, visited) refl

    Sim-set :
        (c : Clocks) (info : NodeInfo) (key : Text) (value : Value) (ts : ℤ) (w : World)
        (s : LocalLwwStore)
        → pos 0 ≤ℤ ts
        → Sim w s
        → Sim
            (set sha256 (node_of c info ring replication) key value none ts w).1
            (Lww.set (c.now info) (c.clock info) key value none (some ts) s).1
    unfolding deadline
    Sim-set c info key value ts w s timed sim = rw (set-visit c info key value ts w) (
        Sim-visit (λ n t. (Lww.set (c.now n) (c.clock n) key value none (some ts) t).1) key
          (merge (stored value ts))
          (λ n k t. entry_at-set (c.now n) (c.clock n) key k value none (some ts) t)
          (merge_idem (stored value ts)) (λ o. merge-IsLasting (stored value ts) o refl timed) info
          w s sim)

    Sim-delete :
        (c : Clocks) (info : NodeInfo) (key : Text) (ts : ℤ) (w : World) (s : LocalLwwStore)
        → pos 0 ≤ℤ ts
        → Sim w s
        → Sim
            (delete sha256 (node_of c info ring replication) key ts w).1
            (Lww.delete (c.clock info) key (some ts) s).1
    Sim-delete c info key ts w s timed sim = rw (delete-visit c info key ts w) (
        Sim-visit (λ n t. (Lww.delete (c.clock n) key (some ts) t).1) key (merge (buried ts))
          (λ n k t. entry_at-delete (c.clock n) key k (some ts) t) (merge_idem (buried ts))
          (λ o. merge-IsLasting (buried ts) o refl timed) info w s sim)

    get-Sim :
        (c : Clocks) (info : NodeInfo) (key : Text) (w : World) (s : LocalLwwStore)
        → Sim w s
        → (get sha256 (node_of c info ring replication) key w
            ≡ (value_of (seen (entry_at key s)), w))
          × (Lww.get (c.now info) key s ≡ (value_of (seen (entry_at key s)), s))
    unfolding get Lww.get
    get-Sim c info key w s sim =
        let (m, ns, split) = cons_of_ne_nil (replicas_of key) (routed key) in
        let same : All (λ n. entry_at key (w n) ≡ entry_at key s) (m ∷ ns) =
          subst (All (λ n. entry_at key (w n) ≡ entry_at key s)) split (sim.agree key) in
        (
          rw split (
              read_resolve-seen c info ring replication key (entry_at key s) (sim.lasting key) m ns
                w same),
          rw (get_versioned_lasting (c.now info) key s (sim.lasting key)) refl,
        )

    reads-Sim :
        (calls : List Call) (w : World) (s : LocalLwwStore)
        → All IsTimed calls
        → Sim w s
        → cluster_reads sha256 ring replication calls w ≡ single_reads calls s
    unfolding cluster_reads single_reads
    reads-Sim [] w s timed sim = refl
    reads-Sim (set_call c info key value ts ∷ calls) w s timed sim =
        reads-Sim calls _ _ timed.1 (Sim-set c info key value ts w s timed.0 sim)
    reads-Sim (delete_call c info key ts ∷ calls) w s timed sim =
        reads-Sim calls _ _ timed.1 (Sim-delete c info key ts w s timed.0 sim)
    reads-Sim (get_call c info key ∷ calls) w s timed sim =
        let (far, near) = get-Sim c info key w s sim in
        rw (far, near)
          (ap (◌∷◌ (value_of (seen (entry_at key s)))) (reads-Sim calls w s timed.1 sim))

    -- The cluster is one store: whatever calls of `set`, `delete` and `get` its nodes receive, in
    -- whatever order and at whatever nodes, the reads return what they would return from a single
    -- store that receives the same calls. The nodes all answer, route alike, start empty, and give
    -- every key a replica; no value has a time to live, and no timestamp is negative. The clocks of
    -- the nodes need not agree.
    pub cluster_reads-single_reads :
        (calls : List Call)
        → All IsTimed calls
        → cluster_reads sha256 ring replication calls (λ n. Lww.init) ≡ single_reads calls Lww.init
    unfolding Dict.get
    cluster_reads-single_reads calls timed =
        reads-Sim calls (λ n. Lww.init) Lww.init timed
          (record { agree = λ k. All_refl k (replicas_of k); lasting = λ k. tt })
      where
        All_refl :
            (k : Text) (ns : List NodeInfo)
            → All (λ n. entry_at k Lww.init ≡ entry_at k Lww.init) ns
        All_refl k [] = tt
        All_refl k (n ∷ ns) = (refl, All_refl k ns)
