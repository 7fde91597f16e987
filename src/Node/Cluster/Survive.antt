-- ===== src/Node/Cluster/Survive.antt =====
-- A read after a write that some of the replicas have missed.
use dlstorage.Base.{
  Text, text_eq_self, ℤ, pos, ltb_ℤ, ◌≤ℤ◌, Bytes, Bool, true, false, Option, none, some, List, [],
  ◌∷◌, All, All-map, any, ◌&&◌, ◌≡◌, ◌⊎◌, refl, ap, sym, ◌∙◌, arith, Bool-cases, inl, inr,
}
use dlstorage.Result.{ok}
use dlstorage.Types.{NodeInfo, node_eq, Value}
use dlstorage.Types.Address.{node_eq_iff}
use dlstorage.Ring.{RendezvousRing, get_nodes}
use dlstorage.Store.Lww
use mathlib.Core.Path.{subst}
use dlstorage.Store.{is_past}
use dlstorage.Store.Lww.{Slot, live, tombstone, is_live, LocalLwwStore, Entry, Versioned, is_newer}
use dlstorage.Store.Lww.Writes.{entry_at}
use dlstorage.Store.Lww.Reads.{entry_at-get_versioned, get_versioned-eq-view, after_read, view}
use dlstorage.Consistency.Lww.{collect, read_resolve}
use dlstorage.Consistency.Lww.Newest.{IsOlder}
use dlstorage.Consistency.Lww.Missed.{IsAnswer, HasExact, pick_exact}
use dlstorage.Node.Storage.{make_handles, get, set}
use dlstorage.Node.Handles.Remote.{seen_remotely}
use dlstorage.Node.Cluster.{World, Clocks, place}
use dlstorage.Node.Cluster.Through.{handle-get_live, handle-get}
use dlstorage.Node.Cluster.ReadBack.{IsCurrent, IsStored, written}
use dlstorage.Node.Cluster.Outage.{cut_off, reaches, handle_reached, handle_cut}
use dlstorage.Node.Cluster.Partial.{IsPast, IsCopy, IsLeft, write_some}

module _ (key : Text) (value : Value) (ttl : Option ℤ) (ts : ℤ) (c d : Clocks) where
  abbrev after_get : NodeInfo → World → World
  after_get m w = place m (Lww.get_versioned (d.now m) key (w m)).1 w

  view-IsOlder : (now : ℤ) (o : Option Entry) → IsPast ts o → IsOlder ts (view now o)
  view-IsOlder now none h = tt
  view-IsOlder now (some e) h = go e.slot refl
    where
      go : (slot : Slot) → e.slot ≡ slot → IsOlder ts (view now (some e))
      go tombstone at_slot = rw at_slot h
      go (live v) at_slot = elim (Bool-cases (is_past now e.expires_at)) [
        | inl past ↦ rw (at_slot, past) tt
        | inr current ↦ rw (at_slot, current) h
      ]

  seen-IsOlder : (r : Option Versioned) → IsOlder ts r → IsOlder ts (seen_remotely r)
  seen-IsOlder none h = tt
  seen-IsOlder (some (v, t, false)) h = h
  seen-IsOlder (some (v, t, true)) h = elim (Bool-cases (ltb_ℤ (pos 0) t)) [
    | inl positive ↦ rw positive h
    | inr negative ↦ rw negative tt
  ]

  answer-IsOlder :
      {o : Option Versioned} (r : Option Versioned)
      → IsOlder ts o
      → (r ≡ o) ⊎ (r ≡ seen_remotely o)
      → IsOlder ts r
  answer-IsOlder r h (inl e) = rw e h
  answer-IsOlder {o} r h (inr e) = rw e (seen-IsOlder o h)

  after_read-IsPast : (now : ℤ) (o : Option Entry) → IsPast ts o → IsPast ts (after_read now o)
  after_read-IsPast now none h = tt
  after_read-IsPast now (some e) h = elim (Bool-cases (is_live e && is_past now e.expires_at)) [
    | inl gone ↦ rw gone tt
    | inr kept ↦ rw kept h
  ]

  -- A read keeps the write, and what is older than it.
  IsStored-after_get :
      (m n : NodeInfo) (w : World)
      → IsCurrent ttl c d n
      → IsStored key value ttl ts c w n
      → IsStored key value ttl ts c (after_get m w) n
  unfolding place
  IsStored-after_get m n w current stored = elim (Bool-cases (node_eq m n)) [
    | inl same ↦ rw same (
        entry_at-get_versioned (d.now m) key key (w m)
        ∙ rw (text_eq_self key) (
            ap (λ x. after_read (d.now x) (entry_at key (w x))) ((node_eq_iff m n).0 same)
            ∙ rw (stored, current) refl))
    | inr other ↦ rw other stored
  ]

  IsPast-after_get :
      (m n : NodeInfo) (w : World)
      → IsPast ts (entry_at key (w n))
      → IsPast ts (entry_at key (after_get m w n))
  unfolding place
  IsPast-after_get m n w past = elim (Bool-cases (node_eq m n)) [
    | inl same ↦
        let here : IsPast ts (entry_at key (w m)) =
          subst (λ x. IsPast ts (entry_at key (w x))) (sym ((node_eq_iff m n).0 same)) past in
        rw (same, entry_at-get_versioned (d.now m) key key (w m), text_eq_self key)
          (after_read-IsPast (d.now m) (entry_at key (w m)) here)
    | inr other ↦ rw other past
  ]

  module _ (up up' : NodeInfo → Bool) (writer_info reader_info : NodeInfo) (ring : RendezvousRing)
      (replication : ℤ) where
    abbrev IsLeftBy : World → NodeInfo → Type 0
    IsLeftBy = IsLeft key value ttl ts c up writer_info ring replication

    IsLeft-after_get :
        (m n : NodeInfo) (w : World)
        → IsCurrent ttl c d n
        → IsLeftBy w n
        → IsLeftBy (after_get m w) n
    IsLeft-after_get m n w current (inl stored, there) = (
      inl (IsStored-after_get m n w current stored),
      λ h. IsStored-after_get m n w current (there h),
    )
    IsLeft-after_get m n w current (inr past, there) =
        (inr (IsPast-after_get m n w past), λ h. IsStored-after_get m n w current (there h))

    get_versioned_past :
        (m : NodeInfo) (w : World)
        → IsPast ts (entry_at key (w m))
        → IsOlder ts (Lww.get_versioned (d.now m) key (w m)).0
    get_versioned_past m w past =
        rw (get_versioned-eq-view (d.now m) key (w m)) (view-IsOlder (d.now m) _ past)

    -- The replicas that both nodes reach.
    abbrev is_common : NodeInfo → Bool
    is_common n = reaches up writer_info n && reaches up' reader_info n

    abbrev asked : List NodeInfo → World → List (Option Versioned)
    asked ns w = (collect key (make_handles (cut_off up' d reader_info ring replication) ns) w).0

    keep_left :
        (m : NodeInfo) (ns : List NodeInfo) (w : World)
        → All (IsLeftBy w) ns
        → All (IsCurrent ttl c d) ns
        → All (IsLeftBy (after_get m w)) ns
    keep_left m [] w left current = tt
    keep_left m (n ∷ ns) w left current =
        (IsLeft-after_get m n w current.0 left.0, keep_left m ns w left.1 current.1)

    -- A replica with only something older is not one that the writer reached.
    elsewhere :
        (m : NodeInfo) (ns : List NodeInfo) (w : World)
        → IsPast ts (entry_at key (w m))
        → (reaches up writer_info m ≡ true → IsStored key value ttl ts c w m)
        → any is_common (m ∷ ns) ≡ true
        → any is_common ns ≡ true
    elsewhere m ns w past stored h = elim (Bool-cases (reaches up writer_info m)) [
      | inl reached ↦ absurd (
          let impossible : IsPast ts (some (written key value ttl ts c m)) =
            subst (IsPast ts) (stored reached) past in
          omega (arith, impossible))
      | inr cut ↦ ground (arith, h, cut)
    ]

    read_some :
        (ns : List NodeInfo) (w : World)
        → All (IsLeftBy w) ns
        → All (IsCurrent ttl c d) ns
        → All (IsAnswer value ts) (asked ns w)
          × (any is_common ns ≡ true → HasExact value ts (asked ns w))
    unfolding collect
    read_some [] w left current = (tt, λ h. absurd cc)
    read_some (m ∷ ns) w left current = elim (Bool-cases (reaches up' reader_info m)) [
      | inl reached ↦
          let (answers, there) =
            read_some ns (after_get m w) (keep_left m ns w left.1 current.1) current.1 in
          let same =
            (handle_reached up' d reader_info ring replication key m value ttl ts w reached).1 in
          elim left.0.0 [
            | inl stored ↦
                let found =
                  same
                  ∙ handle-get_live d reader_info ring replication key m value ts w
                      (get_versioned-eq-view (d.now m) key (w m) ∙ rw (stored, current.0) refl) in
                rw found ((inl refl, answers), λ h. inl refl)
            | inr past ↦
                let (r, at_m, which) = handle-get d reader_info ring replication key m w in
                let found = same ∙ at_m in
                let older : IsOlder ts r = answer-IsOlder r (get_versioned_past m w past) which in
                rw found ((inr older, answers), λ h. inr (there (elsewhere m ns w past left.0.1 h)))
          ]
      | inr cut ↦
          let (answers, there) = read_some ns w left.1 current.1 in
          rw ((handle_cut up' d reader_info ring replication key m value ttl ts w cut).1)
            ((inr tt, answers), λ h. inr (there (ground (arith, h, cut))))
    ]

any_first :
    (p q : NodeInfo → Bool) (ns : List NodeInfo) → any (λ n. p n && q n) ns ≡ true → any p ns ≡ true
any_first p q [] h = absurd cc
any_first p q (n ∷ ns) h = elim (Bool-cases (p n)) [
  | inl reached ↦ rw reached refl
  | inr cut ↦ rw cut (any_first p q ns (ground (arith, h, cut)))
]

-- A write that reaches one replica is not lost. A node writes a key, reaching only some of the
-- replicas, all of which hold something older for it or nothing. The write reports success, and a
-- node that reads the key next, reaching only some of the same replicas, gets the value, where both
-- reach a replica in common and the time to live has passed at none of them. The timestamp is
-- not negative, and the nodes need not agree on the time.
pub get-set_missed :
    (sha256 : Text → Bytes) (key : Text) (value : Value) (ttl : Option ℤ) (ts : ℤ) (c d : Clocks)
    (up up' : NodeInfo → Bool) (writer_info reader_info : NodeInfo) (ring ring' : RendezvousRing)
    (replication : ℤ) (m : NodeInfo) (ns : List NodeInfo) (w : World)
    → get_nodes sha256 key replication ring ≡ m ∷ ns
    → get_nodes sha256 key replication ring' ≡ m ∷ ns
    → pos 0 ≤ℤ ts
    → All (λ n. IsPast ts (entry_at key (w n))) (m ∷ ns)
    → All (IsCurrent ttl c d) (m ∷ ns)
    → any (λ n. reaches up writer_info n && reaches up' reader_info n) (m ∷ ns) ≡ true
    → ((set sha256 (cut_off up c writer_info ring replication) key value ttl ts w).0 ≡ ok true)
      × ((get sha256
            (cut_off up' d reader_info ring' replication)
            key
            (set sha256 (cut_off up c writer_info ring replication) key value ttl ts w).1).0
          ≡ value)
unfolding get set read_resolve
get-set_missed sha256 key value ttl ts c d up up' writer_info reader_info ring ring' replication m
      ns w routed routed' positive past current common =
    let copies : All (IsCopy key value ttl ts c w) (m ∷ ns) =
      All-map _ _ (m ∷ ns) (λ n h. inr h) past in
    let (bs, w', at_all, left, copied, kept, success) =
      write_some key value ttl ts c up writer_info ring replication (m ∷ ns) w copies in
    let (answers, there) =
      read_some key value ttl ts c d up up' writer_info reader_info ring' replication (m ∷ ns) w'
        left current in
    rw (routed, routed', at_all)
      (
        ap ok (
            success (any_first (reaches up writer_info) (reaches up' reader_info) (m ∷ ns) common)),
        pick_exact value ts _ positive answers (there common),
      )
