-- ===== src/Node/Cluster/Visits.antt =====
-- A write that goes to the replicas one after the other, as it shows in their entries.
use dlstorage.Base.{
  Text, text_eq, text_eq_self, ℤ, Bool, false, Option, List, [], ◌∷◌, All, All-map, if◌then◌else◌,
  ◌≡◌, ◌⊎◌, refl, ap, ◌∙◌, Bool-cases, inl, inr,
}
use dlstorage.Result.{ok}
use dlstorage.Action.{Action}
use dlstorage.Types.{NodeInfo, node_eq}
use dlstorage.Types.Address.{node_eq_iff}
use dlstorage.Handle.{ReplicaHandle}
use dlstorage.Ring.{RendezvousRing}
use dlstorage.Store.Lww.{LocalLwwStore, Entry}
use dlstorage.Store.Lww.Writes.{entry_at}
use dlstorage.Node.Storage.{call_all, make_handles}
use dlstorage.Node.Cluster.{World, Clocks, place, node_of}
use dlstorage.Node.Cluster.Through.{handle}

-- Each node of the list does `act` to its store.
unfoldable pub visit : (NodeInfo → LocalLwwStore → LocalLwwStore) → List NodeInfo → World → World
visit act [] w = w
visit act (m ∷ ns) w = visit act ns (place m (act m (w m)) w)

module _ (act : NodeInfo → LocalLwwStore → LocalLwwStore) where
  -- A loop over the replicas whose calls all return is a visit.
  pub call_all-visit :
      (c : Clocks) (info : NodeInfo) (ring : RendezvousRing) (replication : ℤ) (key : Text)
      (f : ReplicaHandle World → Action World Bool)
      → ((n : NodeInfo) (w : World)
          → (b : Bool) × (f (handle c info ring replication key n) w
              ≡ (ok b, place n (act n (w n)) w)))
      → (ns : List NodeInfo) (w : World)
      → (bs : List Bool) × (call_all f (make_handles (node_of c info ring replication) ns) w
          ≡ (ok bs, visit act ns w))
  unfolding call_all visit
  call_all-visit c info ring replication key f calls [] w = ([], refl)
  call_all-visit c info ring replication key f calls (m ∷ ns) w =
      let (b, at_m) = calls m w in
      let (bs, at_ns) =
        call_all-visit c info ring replication key f calls ns (place m (act m (w m)) w) in
      (b ∷ bs, rw (at_m, at_ns) refl)

  -- A write to `key` that makes `merged o` of the entry `o`, and does no more the second time.
  module _ (key : Text) (merged : Option Entry → Option Entry)
      (acts : (n : NodeInfo) (k : Text) (s : LocalLwwStore)
        → entry_at k (act n s) ≡ (if text_eq key k then merged (entry_at key s) else entry_at k s))
      (again : (o : Option Entry) → merged (merged o) ≡ merged o) where
    pub visit_other :
        (k : Text) (n : NodeInfo) (ns : List NodeInfo) (w : World)
        → text_eq key k ≡ false
        → entry_at k (visit act ns w n) ≡ entry_at k (w n)
    unfolding visit place
    visit_other k n [] w other = refl
    visit_other k n (m ∷ ns) w other =
        visit_other k n ns (place m (act m (w m)) w) other ∙ elim (Bool-cases (node_eq m n)) [
          | inl same ↦
              rw same
                (acts m k (w m) ∙ rw other (ap (λ x. entry_at k (w x)) ((node_eq_iff m n).0 same)))
          | inr apart ↦ rw apart refl
        ]

    -- Before the write, or after it.
    abbrev IsEither : Option Entry → World → NodeInfo → Type 0
    IsEither o w n = (entry_at key (w n) ≡ o) ⊎ (entry_at key (w n) ≡ merged o)

    act_either :
        (o : Option Entry) (n : NodeInfo) (w : World)
        → IsEither o w n
        → entry_at key (act n (w n)) ≡ merged o
    act_either o n w (inl before) = acts n key (w n) ∙ rw (text_eq_self key, before) refl
    act_either o n w (inr after) = acts n key (w n) ∙ rw (text_eq_self key, after) (again o)

    IsMerged-place :
        (o : Option Entry) (m n : NodeInfo) (w : World)
        → IsEither o w m
        → entry_at key (w n) ≡ merged o
        → entry_at key (place m (act m (w m)) w n) ≡ merged o
    unfolding place
    IsMerged-place o m n w at_m at_n = elim (Bool-cases (node_eq m n)) [
      | inl same ↦ rw same (act_either o m w at_m)
      | inr apart ↦ rw apart at_n
    ]

    IsEither-place :
        (o : Option Entry) (m n : NodeInfo) (w : World)
        → IsEither o w m
        → IsEither o w n
        → IsEither o (place m (act m (w m)) w) n
    unfolding place
    IsEither-place o m n w at_m at_n = elim (Bool-cases (node_eq m n)) [
      | inl same ↦ inr (rw same (act_either o m w at_m))
      | inr apart ↦ rw apart at_n
    ]

    visit_kept :
        (o : Option Entry) (n : NodeInfo) (ns : List NodeInfo) (w : World)
        → All (IsEither o w) ns
        → entry_at key (w n) ≡ merged o
        → entry_at key (visit act ns w n) ≡ merged o
    unfolding visit
    visit_kept o n [] w h at_n = at_n
    visit_kept o n (m ∷ ns) w h at_n =
        visit_kept o n ns (place m (act m (w m)) w)
          (All-map _ _ ns (λ x k. IsEither-place o m x w h.0 k) h.1)
          (IsMerged-place o m n w h.0 at_n)

    visit_each :
        (o : Option Entry) (ns : List NodeInfo) (w : World)
        → All (IsEither o w) ns
        → All (λ n. entry_at key (visit act ns w n) ≡ merged o) ns
    unfolding visit
    visit_each o [] w h = tt
    visit_each o (m ∷ ns) w h =
        let w1 = place m (act m (w m)) w in
        let rest : All (IsEither o w1) ns =
          All-map _ _ ns (λ x k. IsEither-place o m x w h.0 k) h.1 in
        let here : entry_at key (w1 m) ≡ merged o =
          unfold place in rw ((node_eq_iff m m).1 refl) (act_either o m w h.0) in
        (visit_kept o m ns w1 rest here, visit_each o ns w1 rest)

    -- Replicas that agree on the key before the write agree on it afterwards.
    pub visit_lem :
        (o : Option Entry) (ns : List NodeInfo) (w : World)
        → All (λ n. entry_at key (w n) ≡ o) ns
        → All (λ n. entry_at key (visit act ns w n) ≡ merged o) ns
    visit_lem o ns w h = visit_each o ns w (All-map _ _ ns (λ n e. inl e) h)
