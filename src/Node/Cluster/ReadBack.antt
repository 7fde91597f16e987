-- ===== src/Node/Cluster/ReadBack.antt =====
-- What one node of the cluster writes, every node reads back.
use dlstorage.Base.{
  Text, text_eq_self, ℤ, pos, ◌≤ℤ◌, Bytes, Bool, true, false, Option, some, List, [], ◌∷◌, All,
  All-map, any, if◌then◌else◌, ◌≡◌, ◌≢◌, refl, ap, ◌∙◌, arith, Bool-cases, inl, inr,
}
use dlstorage.Result.{ok}
use dlstorage.Types.{NodeInfo, node_eq, Value}
use dlstorage.Types.Address.{node_eq_iff}
use dlstorage.Ring.{RendezvousRing, get_nodes}
use dlstorage.Store.{deadline, is_past}
use dlstorage.Store.Lww
use dlstorage.Store.Lww.{LocalLwwStore, Entry, live, Versioned, is_newer}
use dlstorage.Store.Lww.Writes.{entry_at, set_entry, entry_at-set}
use dlstorage.Store.Lww.Reads.{entry_at-get_versioned, get_versioned-eq-view}
use dlstorage.Consistency.Lww.{collect, read_resolve}
use dlstorage.Consistency.Lww.Newest.{IsNotNewer, pick_newest}
use dlstorage.Node.Storage.{StorageNode, make_handles, call_all, get, set}
use dlstorage.Node.Cluster.{World, Clocks, place, node_of}
use dlstorage.Node.Cluster.Through.{handle-set, handle-get_live}

-- The replica holds nothing for the key that is newer than the write.
abbrev pub IsFresh : Text → ℤ → World → NodeInfo → Type 0
IsFresh key ts w n = is_newer (entry_at key (w n)) ts ≡ false

-- A time to live that began at the write has not passed at the replica when it is read.
abbrev pub IsCurrent : Option ℤ → Clocks → Clocks → NodeInfo → Type 0
IsCurrent ttl c d n = is_past (d.now n) (deadline (c.now n) ttl) ≡ false

module _ (key : Text) (value : Value) (ttl : Option ℤ) (ts : ℤ) (c : Clocks) where
  -- The entry that the write leaves at a replica.
  abbrev pub written : NodeInfo → Entry
  written n = set_entry (c.now n) (c.clock n) value ttl (some ts)

  abbrev pub IsStored : World → NodeInfo → Type 0
  IsStored w n = entry_at key (w n) ≡ some (written n)

  abbrev pub after_set : NodeInfo → World → World
  after_set m w = place m (Lww.set (c.now m) (c.clock m) key value ttl (some ts) (w m)).1 w

  pub entry_at-after_set :
      (m n : NodeInfo) (w : World)
      → IsFresh key ts w m
      → entry_at key (after_set m w n)
        ≡ (if node_eq m n then some (written n) else entry_at key (w n))
  unfolding place
  entry_at-after_set m n w fresh = elim (Bool-cases (node_eq m n)) [
    | inl same ↦ rw same (
        entry_at-set (c.now m) (c.clock m) key key value ttl (some ts) (w m)
        ∙ rw (text_eq_self key, fresh) (ap (λ x. some (written x)) ((node_eq_iff m n).0 same)))
    | inr other ↦ rw other refl
  ]

  IsFresh-after_set :
      (m n : NodeInfo) (w : World)
      → IsFresh key ts w m
      → IsFresh key ts w n
      → IsFresh key ts (after_set m w) n
  IsFresh-after_set m n w at_m at_n = rw (entry_at-after_set m n w at_m) (ground (arith, at_n))

  pub IsStored-after_set :
      (m n : NodeInfo) (w : World) → IsFresh key ts w m → IsStored w n → IsStored (after_set m w) n
  IsStored-after_set m n w at_m at_n = rw (entry_at-after_set m n w at_m) (ground (arith, at_n))

  module _ (info : NodeInfo) (ring : RendezvousRing) (replication : ℤ) where
    abbrev pub writer : StorageNode World
    writer = node_of c info ring replication

    pub write_every :
        (ns : List NodeInfo) (w : World)
        → All (IsFresh key ts w) ns
        → (bs : List Bool) × (w' : World) × (call_all
              (λ h. h.set key value ttl ts)
              (make_handles writer ns)
              w
            ≡ (ok bs, w'))
          × All (IsStored w') ns
          × ((n : NodeInfo) → IsStored w n → IsStored w' n)
          × (ns ≢ [] → any (λ b. b) bs ≡ true)
    unfolding call_all
    write_every [] w fresh = ([], w, refl, tt, (λ n h. h), λ h. absurd (h refl))
    write_every (m ∷ ns) w fresh =
        let (b, at_m, success) = handle-set c info ring replication key m value ttl ts w in
        let w1 = after_set m w in
        let rest_fresh : All (IsFresh key ts w1) ns =
          All-map (IsFresh key ts w) (IsFresh key ts w1) ns
            (λ n h. IsFresh-after_set m n w fresh.0 h) fresh.1 in
        let (bs, w', at_ns, stored, kept, _) = write_every ns w1 rest_fresh in
        let here : IsStored w1 m =
          entry_at-after_set m m w fresh.0 ∙ rw ((node_eq_iff m m).1 refl) refl in
        (
          b ∷ bs,
          w',
          rw (at_m, at_ns) refl,
          (kept m here, stored),
          (λ n h. kept n (IsStored-after_set m n w fresh.0 h)),
          λ _. rw (success fresh.0) refl,
        )

  module _ (d : Clocks) (info : NodeInfo) (ring : RendezvousRing) (replication : ℤ) where
    abbrev reader : StorageNode World
    reader = node_of d info ring replication

    abbrev after_get : NodeInfo → World → World
    after_get m w = place m (Lww.get_versioned (d.now m) key (w m)).1 w

    get_versioned_written :
        (n : NodeInfo) (w : World)
        → IsStored w n
        → IsCurrent ttl c d n
        → (Lww.get_versioned (d.now n) key (w n)).0 ≡ some (value, ts, false)
    get_versioned_written n w stored current =
        get_versioned-eq-view (d.now n) key (w n) ∙ rw (stored, current) refl

    IsStored-after_get :
        (m n : NodeInfo) (w : World)
        → IsStored w m
        → IsCurrent ttl c d m
        → IsStored w n
        → IsStored (after_get m w) n
    unfolding place
    IsStored-after_get m n w at_m current at_n = elim (Bool-cases (node_eq m n)) [
      | inl same ↦ rw same (
          entry_at-get_versioned (d.now m) key key (w m)
          ∙ rw (text_eq_self key, at_m, current)
              (ap (λ x. some (written x)) ((node_eq_iff m n).0 same)))
      | inr other ↦ rw other at_n
    ]

    read_every :
        (ns : List NodeInfo) (w : World)
        → All (IsStored w) ns
        → All (IsCurrent ttl c d) ns
        → All (IsNotNewer ts) (collect key (make_handles reader ns) w).0
    unfolding collect
    read_every [] w stored current = tt
    read_every (m ∷ ns) w stored current =
        let found =
          handle-get_live d info ring replication key m value ts w
            (get_versioned_written m w stored.0 current.0) in
        let rest : All (IsStored (after_get m w)) ns =
          All-map (IsStored w) (IsStored (after_get m w)) ns
            (λ n h. IsStored-after_get m n w stored.0 current.0 h) stored.1 in
        rw found (omega arith, read_every ns (after_get m w) rest current.1)

    read_first :
        (m : NodeInfo) (ns : List NodeInfo) (w : World)
        → pos 0 ≤ℤ ts
        → All (IsStored w) (m ∷ ns)
        → All (IsCurrent ttl c d) (m ∷ ns)
        → (read_resolve key (make_handles reader (m ∷ ns)) w).0 ≡ value
    unfolding read_resolve collect
    read_first m ns w positive stored current =
        let found =
          handle-get_live d info ring replication key m value ts w
            (get_versioned_written m w stored.0 current.0) in
        let rest : All (IsStored (after_get m w)) ns =
          All-map (IsStored w) (IsStored (after_get m w)) ns
            (λ n h. IsStored-after_get m n w stored.0 current.0 h) stored.1 in
        rw found (
          pick_newest [] _ value ts false positive tt
            (read_every ns (after_get m w) rest current.1))

-- A node writes a key to the replicas that its ring gives, none of which has anything newer for
-- it. The write reports success, and whichever node reads the key next, routing it to the same
-- replicas, gets the value, as long as the time to live has passed at none of them. The timestamp
-- is not negative, and the nodes need not agree on the time.
pub get-set :
    (sha256 : Text → Bytes) (key : Text) (value : Value) (ttl : Option ℤ) (ts : ℤ) (c d : Clocks)
    (writer_info reader_info : NodeInfo) (ring ring' : RendezvousRing) (replication : ℤ)
    (m : NodeInfo) (ns : List NodeInfo) (w : World)
    → get_nodes sha256 key replication ring ≡ m ∷ ns
    → get_nodes sha256 key replication ring' ≡ m ∷ ns
    → pos 0 ≤ℤ ts
    → All (IsFresh key ts w) (m ∷ ns)
    → All (IsCurrent ttl c d) (m ∷ ns)
    → ((set sha256 (node_of c writer_info ring replication) key value ttl ts w).0 ≡ ok true)
      × ((get sha256
            (node_of d reader_info ring' replication)
            key
            (set sha256 (node_of c writer_info ring replication) key value ttl ts w).1).0
          ≡ value)
unfolding get set
get-set sha256 key value ttl ts c d writer_info reader_info ring ring' replication m ns w routed
      routed' positive fresh current =
    let (bs, w', at_all, stored, kept, success) =
      write_every key value ttl ts c writer_info ring replication (m ∷ ns) w fresh in
    rw (routed, routed', at_all)
      (
        ap ok (success (λ e. cc)),
        read_first key value ttl ts c d reader_info ring' replication m ns w' positive stored
            current,
      )
