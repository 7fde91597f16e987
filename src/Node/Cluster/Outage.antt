-- ===== src/Node/Cluster/Outage.antt =====
-- A cluster in which a node reaches only some of the others: to the rest no connection can be made.
use dlstorage.Base.{
  Text, ℤ, Bool, true, false, ◌||◌, Option, none, if◌then◌else◌, ◌≡◌, refl, arith, Bool-cases, inl,
  inr,
}
use dlstorage.Result.{ok}
use dlstorage.Types.{NodeInfo, node_eq, Value}
use dlstorage.Ring.{RendezvousRing}
use dlstorage.Handle.{ConnectionPool, ReplicaHandle}
use dlstorage.Node.Handles.{remote_handle}
use dlstorage.Node.Storage.{StorageNode, make_handle}
use dlstorage.Node.Cluster.{World, Clocks, node_of, network}

abbrev pub faulty : (NodeInfo → Bool) → Clocks → ConnectionPool World
faulty up c = record (network c) {
  execute = λ host port msg w.
      if up (record { host = host; port = port })
      then (network c).execute host port msg w
      else (ok none, w);
}

abbrev pub cut_off : (NodeInfo → Bool) → Clocks → NodeInfo → RendezvousRing → ℤ → StorageNode World
cut_off up c info ring replication = record (node_of c info ring replication) { pool = faulty up c }

-- The node itself, and the peers that it reaches.
abbrev pub reaches : (NodeInfo → Bool) → NodeInfo → NodeInfo → Bool
reaches up info n = node_eq n info || up n

module _ (up : NodeInfo → Bool) (c : Clocks) (info : NodeInfo) (ring : RendezvousRing)
    (replication : ℤ) (key : Text) where
  abbrev pub handle : NodeInfo → ReplicaHandle World
  handle n = make_handle (cut_off up c info ring replication) n

  abbrev pub sound_handle : NodeInfo → ReplicaHandle World
  sound_handle n = make_handle (node_of c info ring replication) n

  pub handle_reached :
      (n : NodeInfo) (value : Value) (ttl : Option ℤ) (ts : ℤ) (w : World)
      → reaches up info n ≡ true
      → ((handle n).set key value ttl ts w ≡ (sound_handle n).set key value ttl ts w)
        × ((handle n).get_versioned key w ≡ (sound_handle n).get_versioned key w)
        × ((handle n).delete key ts w ≡ (sound_handle n).delete key ts w)
  unfolding remote_handle
  handle_reached n value ttl ts w h = elim (Bool-cases (node_eq n info)) [
    | inl own ↦ rw own (refl, refl, refl)
    | inr other ↦
        let reached : up n ≡ true = ground (arith, h, other) in
        rw (other, reached) (refl, refl, refl)
  ]

  pub handle_cut :
      (n : NodeInfo) (value : Value) (ttl : Option ℤ) (ts : ℤ) (w : World)
      → reaches up info n ≡ false
      → ((handle n).set key value ttl ts w ≡ (ok false, w))
        × ((handle n).get_versioned key w ≡ (ok none, w))
        × ((handle n).delete key ts w ≡ (ok false, w))
  unfolding remote_handle
  handle_cut n value ttl ts w h =
      let other : node_eq n info ≡ false = ground (arith, h) in
      let cut : up n ≡ false = ground (arith, h, other) in rw (other, cut) (refl, refl, refl)
