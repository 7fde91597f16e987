-- ===== src/Node/Cluster/Expired.antt =====
-- What is read of a value whose time to live has passed at its replicas.
use mathlib.Core.Path.{subst}
use dlstorage.Base.{
  Text, text_eq_self, ℤ, Bytes, true, Option, none, some, List, [], ◌∷◌, All, All-map, map, loop,
  ◌≡◌, ◌⊎◌, refl, ap, sym, ◌∙◌, Bool-cases, inl, inr,
}
use dlstorage.Types.{NodeInfo, node_eq, Value, null}
use dlstorage.Ring.{RendezvousRing, get_nodes}
use dlstorage.Store.{deadline, is_past}
use dlstorage.Store.Lww
use dlstorage.Store.Lww.{Versioned}
use dlstorage.Store.Lww.Writes.{entry_at}
use dlstorage.Store.Lww.Reads.{entry_at-get_versioned, get_versioned-eq-view}
use dlstorage.Consistency.Lww.{Best, no_best, consider, chosen, pick, collect, read_resolve}
use dlstorage.Node.Handles.Remote.{seen_remotely}
use dlstorage.Node.Storage.{make_handles, get, get_from, set}
use dlstorage.Result.{catch}
use dlstorage.Node.Cluster.{World, Clocks, place, node_of}
use dlstorage.Node.Cluster.Through.{handle-get}
use dlstorage.Node.Cluster.ReadBack.{IsFresh, IsStored, write_every}
use dlstorage.Node.Cluster.Single.{get_call, cluster_reads}

-- The time to live that began at the write has passed at the replica when it is read.
abbrev pub IsOver : ℤ → Clocks → Clocks → NodeInfo → Type 0
IsOver ttl c d n = is_past (d.now n) (deadline (c.now n) (some ttl)) ≡ true

pick_missing : (rs : List (Option Versioned)) → All (λ r. r ≡ none) rs → pick rs ≡ null
unfolding pick
pick_missing rs h = ap chosen (unmoved rs no_best h)
  where
    unmoved :
        (os : List (Option Versioned)) (best : Best)
        → All (λ r. r ≡ none) os
        → loop consider os best ≡ best
    unmoved [] best k = refl
    unmoved (o ∷ os) best k = rw k.0 (unmoved os best k.1)

module _ (key : Text) (value : Value) (ttl ts : ℤ) (c : Clocks) where
  -- The replica has the value, or a read has dropped it.
  abbrev IsGone : World → NodeInfo → Type 0
  IsGone w n = (entry_at key (w n) ≡ none) ⊎ IsStored key value (some ttl) ts c w n

  module _ (d : Clocks) (info : NodeInfo) (ring : RendezvousRing) (replication : ℤ) where
    read_over :
        (n : NodeInfo) (w : World)
        → IsGone w n
        → IsOver ttl c d n
        → ((Lww.get_versioned (d.now n) key (w n)).0 ≡ none)
          × (entry_at key (Lww.get_versioned (d.now n) key (w n)).1 ≡ none)
    read_over n w (inl dropped) over = (
      get_versioned-eq-view (d.now n) key (w n) ∙ rw dropped refl,
      entry_at-get_versioned (d.now n) key key (w n) ∙ rw (text_eq_self key, dropped) refl,
    )
    read_over n w (inr stored) over = (
      get_versioned-eq-view (d.now n) key (w n) ∙ rw (stored, over) refl,
      entry_at-get_versioned (d.now n) key key (w n) ∙ rw (text_eq_self key, stored, over) refl,
    )

    abbrev after_get : NodeInfo → World → World
    after_get m w = place m (Lww.get_versioned (d.now m) key (w m)).1 w

    IsGone-after_get :
        (m n : NodeInfo) (w : World)
        → IsGone w m
        → IsOver ttl c d m
        → IsGone w n
        → IsGone (after_get m w) n
    unfolding place
    IsGone-after_get m n w at_m over at_n = elim (Bool-cases (node_eq m n)) [
      | inl same ↦ inl (rw same (read_over m w at_m over).1)
      | inr other ↦ rw other at_n
    ]

    collect_over :
        (ns : List NodeInfo) (w : World)
        → All (IsGone w) ns
        → All (IsOver ttl c d) ns
        → let (rs, w') = collect key (make_handles (node_of d info ring replication) ns) w in
          All (λ r. r ≡ none) rs × ((n : NodeInfo) → IsGone w n → IsGone w' n)
    unfolding collect
    collect_over [] w gone over = (tt, λ n h. h)
    collect_over (m ∷ ns) w gone over =
        let (r, called, which) = handle-get d info ring replication key m w in
        let nothing = (read_over m w gone.0 over.0).0 in
        let unseen : r ≡ none = elim which [
          | inl near ↦ near ∙ nothing
          | inr far ↦ far ∙ ap seen_remotely nothing
        ] in
        let (rest, kept) =
          collect_over ns (after_get m w)
            (All-map (IsGone w) (IsGone (after_get m w)) ns
              (λ n h. IsGone-after_get m n w gone.0 over.0 h) gone.1)
            over.1 in
        subst
          (λ p.
            let after = collect key (make_handles (node_of d info ring replication) ns) p.1 in
            All (λ o. o ≡ none) (catch none p.0 ∷ after.0)
            × ((n : NodeInfo) → IsGone w n → IsGone after.1 n))
          (sym called) ((unseen, rest), λ n h. kept n (IsGone-after_get m n w gone.0 over.0 h))

  module _ (sha256 : Text → Bytes) (ring : RendezvousRing) (replication : ℤ) (m : NodeInfo)
      (ns : List NodeInfo) (routed : get_nodes sha256 key replication ring ≡ m ∷ ns) where
    abbrev IsMissed : Value × World → Type 0
    IsMissed (found, w) = (found ≡ null) × All (IsGone w) (m ∷ ns)

    get_over :
        (d : Clocks) (info : NodeInfo) (w : World)
        → All (IsGone w) (m ∷ ns)
        → All (IsOver ttl c d) (m ∷ ns)
        → IsMissed (get sha256 (node_of d info ring replication) key w)
    unfolding get get_from read_resolve
    get_over d info w gone over =
        let (nothing, kept) = collect_over d info ring replication (m ∷ ns) w gone over in
        subst (λ l. IsMissed (get_from sha256 (node_of d info ring replication) key l w))
          (sym routed) (pick_missing _ nothing, All-map _ _ (m ∷ ns) kept gone)

    reads_over :
        (readers : List (Clocks × NodeInfo)) (w : World)
        → All (IsGone w) (m ∷ ns)
        → All (λ r. All (IsOver ttl c r.0) (m ∷ ns)) readers
        → All
            (λ found. found ≡ null)
            (cluster_reads sha256 ring replication (map (λ r. get_call r.0 r.1 key) readers) w)
    unfolding cluster_reads
    reads_over [] w gone over = tt
    reads_over (r ∷ readers) w gone over =
        let (nothing, kept) = get_over r.0 r.1 w gone over.0 in
        (nothing, reads_over readers _ kept over.1)

-- A node writes a key with a time to live to its replicas, none of which has anything newer for it.
-- Once that time has passed at every replica, every read at any node returns `None`, however often
-- the key is read, until another write: what the replicas held before does not come back. The nodes
-- all answer and route alike, and need not agree on the time.
pub reads-set_over :
    (sha256 : Text → Bytes) (key : Text) (value : Value) (ttl ts : ℤ) (c : Clocks) (info : NodeInfo)
    (ring : RendezvousRing) (replication : ℤ) (m : NodeInfo) (ns : List NodeInfo) (w : World)
    (readers : List (Clocks × NodeInfo))
    → get_nodes sha256 key replication ring ≡ m ∷ ns
    → All (IsFresh key ts w) (m ∷ ns)
    → All (λ r. All (IsOver ttl c r.0) (m ∷ ns)) readers
    → All
        (λ found. found ≡ null)
        (cluster_reads sha256 ring replication
          (map (λ r. get_call r.0 r.1 key) readers)
          (set sha256 (node_of c info ring replication) key value (some ttl) ts w).1)
unfolding set
reads-set_over sha256 key value ttl ts c info ring replication m ns w readers routed fresh over =
    let (bs, w', written, stored, _, _) =
      write_every key value (some ttl) ts c info ring replication (m ∷ ns) w fresh in
    rw (routed, written)
      (reads_over key value ttl ts c sha256 ring replication m ns routed readers w'
        (All-map _ _ (m ∷ ns) (λ n h. inr h) stored) over)
