-- ===== src/Tests/Samples.antt =====
-- The data of the tests.
use dlstorage.Base.{pos, Text, codes, Bytes, [], ◌∷◌, some, none}
use dlstorage.Types.{NodeInfo, Value, int}
use dlstorage.Ring.{RendezvousRing}
use dlstorage.Store.Lww.{LocalLwwStore, live, tombstone}

-- A digest that is the text itself.
abbrev pub toy_digest : Text → Bytes
toy_digest t = t

abbrev pub node_a : NodeInfo
node_a = record { host = codes "a"; port = pos 1 }

abbrev pub node_b : NodeInfo
node_b = record { host = codes "b"; port = pos 1 }

abbrev pub node_c : NodeInfo
node_c = record { host = codes "c"; port = pos 1 }

abbrev pub ring_ab : RendezvousRing
ring_ab = record { members = node_a ∷ node_b ∷ [] }

abbrev pub ring_ba : RendezvousRing
ring_ba = record { members = node_b ∷ node_a ∷ [] }

abbrev pub ring_abc : RendezvousRing
ring_abc = record { members = node_c ∷ node_a ∷ node_b ∷ [] }

abbrev pub seven : Value
seven = int (pos 7)

-- A value without a deadline, one with the deadline 10, and a tombstone.
abbrev pub stocked : LocalLwwStore
stocked = record {
  entries =
      (codes "x", record { slot = live seven; expires_at = none; ts = pos 5 })
      ∷ (codes "y", record { slot = live seven; expires_at = some (pos 10); ts = pos 6 })
      ∷ (codes "z", record { slot = tombstone; expires_at = none; ts = pos 7 })
      ∷ [];
}
