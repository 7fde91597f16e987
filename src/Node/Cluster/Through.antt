-- ===== src/Node/Cluster/Through.antt =====
-- A call through a handle of the cluster is a call on the replica's store.
use dlstorage.Base.{
  Text, ℤ, Bool, true, false, Option, some, ◌⊎◌, ◌≡◌, refl, ap, ◌∙◌, Bool-cases, inl, inr,
}
use dlstorage.Result.{ok}
use dlstorage.Types.{NodeInfo, node_eq, Value}
use dlstorage.Types.Address.{node_eq_iff}
use dlstorage.Ring.{RendezvousRing}
use dlstorage.Store.Lww
use dlstorage.Store.Lww.{Versioned, is_newer}
use dlstorage.Store.Lww.Writes.{entry_at}
use dlstorage.Handle.{ReplicaHandle}
use mathlib.Core.Path.{subst}
use dlstorage.Node.Dispatcher.{dispatch}
use dlstorage.Node.Handles.{local_handle, remote_handle}
use dlstorage.Node.Handles.Remote.{
  connected, remote-get_versioned, remote-set, remote-delete, seen_remotely,
}
use dlstorage.Node.Storage.{make_handle}
use dlstorage.Node.Cluster.{World, Clocks, place, node_of, local_at, network}

module _ (c : Clocks) (info : NodeInfo) (ring : RendezvousRing) (replication : ℤ) (key : Text) where
  abbrev pub handle : NodeInfo → ReplicaHandle World
  handle n = make_handle (node_of c info ring replication) n

  remote-set_at :
      (n : NodeInfo) (value : Value) (ttl : Option ℤ) (ts : ℤ) (w : World)
      → (remote_handle n (network c)).set key value ttl ts w
        ≡ (ok true, place n (Lww.set (c.now n) (c.clock n) key value ttl (some ts) (w n)).1 w)
  remote-set_at n value ttl ts w =
      via_pool
      ∙ ap (λ p. (p.0, place n p.1 w)) (remote-set (c.now n) (c.clock n) n key value ttl ts (w n))
    where
      via_pool : (remote_handle n (network c)).set key value ttl ts w ≡ (
          let (r, s) =
            (remote_handle n (connected (c.now n) (c.clock n))).set key value ttl ts (w n) in
          (r, place n s w))
      via_pool = unfold remote_handle dispatch in refl

  -- Whichever handle the node has for a replica, a write through it is a `set` on the replica.
  pub handle-set :
      (n : NodeInfo) (value : Value) (ttl : Option ℤ) (ts : ℤ) (w : World)
      → (b : Bool) × ((handle n).set key value ttl ts w
          ≡ (ok b, place n (Lww.set (c.now n) (c.clock n) key value ttl (some ts) (w n)).1 w))
        × (is_newer (entry_at key (w n)) ts ≡ false → b ≡ true)
  handle-set n value ttl ts w = elim (Bool-cases (node_eq n info)) [
    | inl own ↦ (
      (Lww.set (c.now n) (c.clock n) key value ttl (some ts) (w n)).0,
      rw own (
          subst
            (λ m. (local_at c m).set key value ttl ts w ≡ (
              ok (Lww.set (c.now n) (c.clock n) key value ttl (some ts) (w n)).0,
              place n (Lww.set (c.now n) (c.clock n) key value ttl (some ts) (w n)).1 w,
            ))
            ((node_eq_iff n info).0 own) (unfold local_handle in refl)),
      λ fresh. unfold Lww.set in rw fresh,
    )
    | inr other ↦ (true, rw other (remote-set_at n value ttl ts w), λ fresh. refl)
  ]

  remote-delete_at :
      (n : NodeInfo) (ts : ℤ) (w : World)
      → (remote_handle n (network c)).delete key ts w ≡ (
        ok (Lww.delete (c.clock n) key (some ts) (w n)).0,
        place n (Lww.delete (c.clock n) key (some ts) (w n)).1 w,
      )
  unfolding local_handle
  remote-delete_at n ts w =
      via_pool ∙ ap (λ p. (p.0, place n p.1 w)) (remote-delete (c.now n) (c.clock n) n key ts (w n))
    where
      via_pool : (remote_handle n (network c)).delete key ts w ≡ (
          let (r, s) = (remote_handle n (connected (c.now n) (c.clock n))).delete key ts (w n) in
          (r, place n s w))
      via_pool = unfold remote_handle dispatch in refl

  -- A delete through either handle is a `delete` on the replica, with its report.
  pub handle-delete :
      (n : NodeInfo) (ts : ℤ) (w : World)
      → (handle n).delete key ts w ≡ (
        ok (Lww.delete (c.clock n) key (some ts) (w n)).0,
        place n (Lww.delete (c.clock n) key (some ts) (w n)).1 w,
      )
  handle-delete n ts w = elim (Bool-cases (node_eq n info)) [
    | inl own ↦ rw own (
        subst
          (λ m. (local_at c m).delete key ts w ≡ (
            ok (Lww.delete (c.clock n) key (some ts) (w n)).0,
            place n (Lww.delete (c.clock n) key (some ts) (w n)).1 w,
          ))
          ((node_eq_iff n info).0 own) (unfold local_handle in refl))
    | inr other ↦ rw other (remote-delete_at n ts w)
  ]

  remote-get_at :
      (n : NodeInfo) (w : World)
      → (remote_handle n (network c)).get_versioned key w ≡ (
        ok (seen_remotely (Lww.get_versioned (c.now n) key (w n)).0),
        place n (Lww.get_versioned (c.now n) key (w n)).1 w,
      )
  remote-get_at n w =
      via_pool
      ∙ ap (λ p. (p.0, place n p.1 w)) (remote-get_versioned (c.now n) (c.clock n) n key (w n))
    where
      via_pool : (remote_handle n (network c)).get_versioned key w ≡ (
          let (r, s) =
            (remote_handle n (connected (c.now n) (c.clock n))).get_versioned key (w n) in
          (r, place n s w))
      via_pool = unfold remote_handle dispatch in refl

  -- Through either handle a live value at the replica is seen as it is.
  pub handle-get_live :
      (n : NodeInfo) (value : Value) (ts : ℤ) (w : World)
      → (Lww.get_versioned (c.now n) key (w n)).0 ≡ some (value, ts, false)
      → (handle n).get_versioned key w
        ≡ (ok (some (value, ts, false)), place n (Lww.get_versioned (c.now n) key (w n)).1 w)
  handle-get_live n value ts w h = elim (Bool-cases (node_eq n info)) [
    | inl own ↦ rw own (
        subst
          (λ m.
            (local_at c m).get_versioned key w
            ≡ (ok (some (value, ts, false)), place n (Lww.get_versioned (c.now n) key (w n)).1 w))
          ((node_eq_iff n info).0 own)
          (unfold local_handle in
            ap (λ r. (ok r, place n (Lww.get_versioned (c.now n) key (w n)).1 w)) h))
    | inr other ↦ rw other (
        remote-get_at n w
        ∙ ap (λ r. (ok (seen_remotely r), place n (Lww.get_versioned (c.now n) key (w n)).1 w)) h)
  ]

  -- Through either handle a read is one on the replica's store, whose answer may be that of the
  -- remote reader.
  pub handle-get :
      (n : NodeInfo) (w : World)
      → (r : Option Versioned) × ((handle n).get_versioned key w
          ≡ (ok r, place n (Lww.get_versioned (c.now n) key (w n)).1 w))
        × ((r ≡ (Lww.get_versioned (c.now n) key (w n)).0)
            ⊎ (r ≡ seen_remotely (Lww.get_versioned (c.now n) key (w n)).0))
  handle-get n w = elim (Bool-cases (node_eq n info)) [
    | inl own ↦ (
      (Lww.get_versioned (c.now n) key (w n)).0,
      rw own (
          subst
            (λ m. (local_at c m).get_versioned key w ≡ (
              ok (Lww.get_versioned (c.now n) key (w n)).0,
              place n (Lww.get_versioned (c.now n) key (w n)).1 w,
            ))
            ((node_eq_iff n info).0 own) (unfold local_handle in refl)),
      inl refl,
    )
    | inr other ↦ (
      seen_remotely (Lww.get_versioned (c.now n) key (w n)).0,
      rw other (remote-get_at n w),
      inr refl,
    )
  ]
