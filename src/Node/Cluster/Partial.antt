-- ===== src/Node/Cluster/Partial.antt =====
-- A write that some of the replicas miss.
use dlstorage.Base.{
  Text, ℤ, ◌<ℤ◌, Bool, true, false, Option, none, some, List, [], ◌∷◌, All, All-map, any, ◌≡◌, ◌⊎◌,
  refl, ◌∙◌, arith, Bool-cases, inl, inr,
}
use dlstorage.Result.{ok}
use dlstorage.Types.{NodeInfo, node_eq, Value}
use dlstorage.Types.Address.{node_eq_iff}
use dlstorage.Ring.{RendezvousRing}
use dlstorage.Store.Lww.{Entry, is_newer}
use dlstorage.Store.Lww.Writes.{entry_at}
use dlstorage.Node.Storage.{make_handles, call_all}
use dlstorage.Node.Cluster.{World, Clocks}
use dlstorage.Node.Cluster.Through.{handle-set}
use dlstorage.Node.Cluster.ReadBack.{
  IsFresh, IsStored, after_set, entry_at-after_set, IsStored-after_set,
}
use dlstorage.Node.Cluster.Outage.{cut_off, reaches, handle_reached, handle_cut}

-- What is stored is older than `ts`, or nothing.
abbrev pub IsPast : ℤ → Option Entry → Type 0
IsPast ts none = Unit
IsPast ts (some e) = e.ts <ℤ ts

module _ (key : Text) (value : Value) (ttl : Option ℤ) (ts : ℤ) (c : Clocks) where
  -- The replica has the write, or only something older for the key.
  abbrev pub IsCopy : World → NodeInfo → Type 0
  IsCopy w n = IsStored key value ttl ts c w n ⊎ IsPast ts (entry_at key (w n))

  IsCopy-IsFresh : (w : World) (n : NodeInfo) → IsCopy w n → IsFresh key ts w n
  IsCopy-IsFresh w n (inl stored) = rw stored (ground arith)
  IsCopy-IsFresh w n (inr past) = not_newer (entry_at key (w n)) past
    where
      not_newer : (o : Option Entry) → IsPast ts o → is_newer o ts ≡ false
      not_newer none h = refl
      not_newer (some e) h = ground arith

  IsCopy-after_set :
      (m n : NodeInfo) (w : World)
      → IsFresh key ts w m
      → IsCopy w n
      → IsCopy (after_set key value ttl ts c m w) n
  IsCopy-after_set m n w fresh (inl stored) =
      inl (IsStored-after_set key value ttl ts c m n w fresh stored)
  IsCopy-after_set m n w fresh (inr past) = elim (Bool-cases (node_eq m n)) [
    | inl same ↦ inl (entry_at-after_set key value ttl ts c m n w fresh ∙ rw same refl)
    | inr other ↦ inr (rw (entry_at-after_set key value ttl ts c m n w fresh, other) past)
  ]

  module _ (up : NodeInfo → Bool) (info : NodeInfo) (ring : RendezvousRing) (replication : ℤ) where
    -- After the write: a replica that the writer reaches has it.
    abbrev pub IsLeft : World → NodeInfo → Type 0
    IsLeft w n = IsCopy w n × (reaches up info n ≡ true → IsStored key value ttl ts c w n)

    pub write_some :
        (ns : List NodeInfo) (w : World)
        → All (IsCopy w) ns
        → (bs : List Bool) × (w' : World) × (call_all
              (λ h. h.set key value ttl ts)
              (make_handles (cut_off up c info ring replication) ns)
              w
            ≡ (ok bs, w'))
          × All (IsLeft w') ns
          × ((n : NodeInfo) → IsCopy w n → IsCopy w' n)
          × ((n : NodeInfo) → IsStored key value ttl ts c w n → IsStored key value ttl ts c w' n)
          × (any (reaches up info) ns ≡ true → any (λ b. b) bs ≡ true)
    unfolding call_all
    write_some [] w copies = ([], w, refl, tt, (λ n h. h), (λ n h. h), λ h. absurd cc)
    write_some (m ∷ ns) w copies = elim (Bool-cases (reaches up info m)) [
      | inl reached ↦
          let fresh = IsCopy-IsFresh w m copies.0 in
          let (b, at_m, success) = handle-set c info ring replication key m value ttl ts w in
          let through =
            (handle_reached up c info ring replication key m value ttl ts w reached).0 ∙ at_m in
          let w1 = after_set key value ttl ts c m w in
          let rest : All (IsCopy w1) ns =
            All-map (IsCopy w) (IsCopy w1) ns (λ n h. IsCopy-after_set m n w fresh h) copies.1 in
          let (bs, w', at_ns, left, copied, kept, _) = write_some ns w1 rest in
          let here : IsStored key value ttl ts c w1 m =
            entry_at-after_set key value ttl ts c m m w fresh
            ∙ rw ((node_eq_iff m m).1 refl) refl in
          (
            b ∷ bs,
            w',
            rw (through, at_ns) refl,
            ((inl (kept m here), λ _. kept m here), left),
            (λ n h. copied n (IsCopy-after_set m n w fresh h)),
            (λ n h. kept n (IsStored-after_set key value ttl ts c m n w fresh h)),
            λ _. rw (success fresh) refl,
          )
      | inr cut ↦
          let (bs, w', at_ns, left, copied, kept, success) = write_some ns w copies.1 in
          (
            false ∷ bs,
            w',
            rw ((handle_cut up c info ring replication key m value ttl ts w cut).0, at_ns) refl,
            ((copied m copies.0, λ h. absurd cc), left),
            copied,
            kept,
            λ h. success (ground (arith, h, cut)),
          )
    ]
