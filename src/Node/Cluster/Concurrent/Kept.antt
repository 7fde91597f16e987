-- ===== src/Node/Cluster/Concurrent/Kept.antt =====
-- What holds while calls run at the same time.
use mathlib.Core.Path.{subst}
use mathlib.Core.List.{Mem}
use dlstorage.Base.{
  Text, text_eq, ℤ, pos, ◌≤ℤ◌, Option, none, List, ◌∷◌, ◌++◌, All, All-append, append-All, All-map,
  ◌≡◌, refl, ap, sym, ◌∙◌, Bool-cases, inl, inr,
}
use dlstorage.Types.{NodeInfo, node_eq}
use dlstorage.Types.Address.{node_eq_iff}
use dlstorage.Ring.{RendezvousRing}
use dlstorage.Store.{deadline}
use dlstorage.Store.Lww
use dlstorage.Store.Lww.{Entry, value_of}
use dlstorage.Store.Lww.Writes.{entry_at}
use dlstorage.Store.Lww.Converge.{apply, absorb, entry_at-apply}
use dlstorage.Node.Cluster.{World, Clocks, place}
use dlstorage.Node.Cluster.Through.{handle, handle-set, handle-delete, handle-get}
use dlstorage.Node.Cluster.Lasting.{IsLasting, merge-IsLasting, get_versioned_lasting, place_self}
use dlstorage.Node.Cluster.Concurrent.{
  Work, setting, deleting, work_key, work_info, work_ts, call_of, write_of, Thread, Running, Step,
  acts, asks, Reach, here, later,
}
use dlstorage.Node.Cluster.Concurrent.Settle.{
  IsTieFree, absorb_work, absorb_at, settle, settle-step,
}

-- A write by one node to the store of another.
entry_at-place :
    (now clock : ℤ) (n : NodeInfo) (k : Text) (work : Work) (m : NodeInfo) (now_m clock_m : ℤ)
    (w : World)
    → entry_at k (place m (apply (write_of now_m clock_m work) (w m)) w n)
      ≡ absorb_at now clock n k work m (entry_at k (w n))
unfolding place deadline
entry_at-place now clock n k work m now_m clock_m w = elim (Bool-cases (node_eq m n)) [
  | inr apart ↦ rw apart refl
  | inl same ↦ rw same (
      entry_at-apply (write_of now_m clock_m work) k (w m)
      ∙ alike work (entry_at k (w m))
      ∙ ap (λ x. absorb_work now clock n k work (entry_at k (w x))) ((node_eq_iff m n).0 same))
]
  where
    alike :
        (v : Work) (o : Option Entry)
        → absorb k (write_of now_m clock_m v) o ≡ absorb_work now clock n k v o
    alike (setting info key value ts) o = refl
    alike (deleting info key ts) o = refl

module _ (ring : RendezvousRing) (replication : ℤ) where
  -- A call that goes to a replica is the write to its store.
  pub call_of-apply :
      (c : Clocks) (work : Work) (m : NodeInfo) (w : World)
      → (call_of work (handle c (work_info work) ring replication (work_key work) m) w).1
        ≡ place m (apply (write_of (c.now m) (c.clock m) work) (w m)) w
  unfolding apply
  call_of-apply c (setting info key value ts) m w =
      let (b, called, _) = handle-set c info ring replication key m value none ts w in
      ap (λ p. p.1) called
  call_of-apply c (deleting info key ts) m w =
      ap (λ p. p.1) (handle-delete c info ring replication key m ts w)

  module _ (now clock : ℤ) (works : List Work) (goal : NodeInfo → Text → Option Entry) where
    -- A call that is one of those, at a time that is not negative.
    abbrev pub IsKnown : Thread → Type 0
    IsKnown t = Mem t.work works × (pos 0 ≤ℤ work_ts t.work)

    -- What the entries become is settled from the start, and none has a deadline.
    pub record Inv (s : Running) : Type 0 where
      pub settled :
          (n : NodeInfo) (k : Text)
          → settle now clock n k s.threads (entry_at k (s.world n)) ≡ goal n k
      pub known : All IsKnown s.threads
      pub lasting : (n : NodeInfo) (k : Text) → IsLasting (entry_at k (s.world n))

    module _ (free : IsTieFree works) where
      absorb_at-IsLasting :
          (n : NodeInfo) (k : Text) (v : Work) (m : NodeInfo) (o : Option Entry)
          → pos 0 ≤ℤ work_ts v
          → IsLasting o
          → IsLasting (absorb_at now clock n k v m o)
      unfolding deadline
      absorb_at-IsLasting n k v m o positive h = elim (Bool-cases (node_eq m n)) [
        | inr apart ↦ rw apart h
        | inl same ↦ rw same (go v positive)
      ]
        where
          go : (u : Work) → pos 0 ≤ℤ work_ts u → IsLasting (absorb_work now clock n k u o)
          go (setting info key value ts) at_u = elim (Bool-cases (text_eq key k)) [
            | inr other ↦ rw other h
            | inl here_k ↦ rw here_k (merge-IsLasting _ o refl at_u h)
          ]
          go (deleting info key ts) at_u = elim (Bool-cases (text_eq key k)) [
            | inr other ↦ rw other h
            | inl here_k ↦ rw here_k (merge-IsLasting _ o refl at_u h)
          ]

      Step-Inv : {s t : Running} → Step ring replication s t → Inv s → Inv t
      Step-Inv (acts c before after work ls rs m w) inv =
          let (known, known_here) =
            All-append IsKnown before (record { work = work; left = ls ++ (m ∷ rs) } ∷ after)
              inv.known in
          let entry : (n : NodeInfo) (k : Text) → _ =
            λ n k. entry_at-place now clock n k work m (c.now m) (c.clock m) w in
          rw (call_of-apply c work m w) (record {
            settled = λ n k.
                ap
                  (settle now clock n k
                    (before ++ (record { work = work; left = ls ++ rs } ∷ after)))
                  (entry n k)
                ∙ sym (
                    settle-step now clock n k works free work known_here.0.0 m before after ls rs
                      (entry_at k (w n))
                      (All-map IsKnown (λ t. Mem t.work works) before (λ t h. h.0) known))
                ∙ inv.settled n k;
            known = append-All IsKnown before _ known known_here;
            lasting = λ n k. subst IsLasting (sym (entry n k)) (
                absorb_at-IsLasting n k work m (entry_at k (w n)) known_here.0.1 (inv.lasting n k));
          })
      Step-Inv (asks c info key m w threads) inv =
          let (r, called, _) = handle-get c info ring replication key m w in
          let kept : place m (Lww.get_versioned (c.now m) key (w m)).1 w ≡ w =
            ap (λ p. place m p.1 w) (get_versioned_lasting (c.now m) key (w m) (inv.lasting m key))
            ∙ place_self m w in
          rw (ap (λ p. p.1) called ∙ kept) inv

      pub Reach-Inv : {s t : Running} → Reach ring replication s t → Inv s → Inv t
      Reach-Inv here inv = inv
      Reach-Inv (later r st) inv = Step-Inv st (Reach-Inv r inv)
