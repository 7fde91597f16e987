-- ===== src/Tests/Nodes.antt =====
-- Handles and nodes on small inputs.
use dlstorage.Base.{
  Bool, false, pos, Text, codes, text_eq, from_bytes, true, none, [], ◌∷◌, ◌++◌, ◌≡◌, refl, arith,
}
use dlstorage.Dict
use dlstorage.Result.{ok, raise, connection_error}
use dlstorage.Types.{MessageType, NodeInfo, node_eq, Value, null, address}
use dlstorage.Ring.{get_nodes, score}
use dlstorage.Store.Lww
use dlstorage.Store.Lww.{LocalLwwStore, Versioned, init}
use dlstorage.Handle.{ReplicaHandle}
use dlstorage.Consistency.Fhw.{read_resolve, read_resolve_first_hit, nobody, miss}
use dlstorage.Node.Handles.{local_handle}
use dlstorage.Node.Storage.{StorageNode, get, set}
use dlstorage.Node.Cluster.{World, Clocks, node_of}
use dlstorage.Node.Cluster.Outage.{cut_off}
use dlstorage.Node.Cluster.Survive.{get-set_missed}
use dlstorage.Node.Cluster.ReadBack.{get-set}
use dlstorage.Tests.Samples.{toy_digest, node_a, node_b, node_c, ring_ab, ring_ba, stocked, seven}

abbrev x_key : Text
x_key = codes "x"

abbrev z_key : Text
z_key = codes "z"

abbrev local : ReplicaHandle LocalLwwStore
local = local_handle (pos 1) (pos 1)

abbrev broken : ReplicaHandle LocalLwwStore
broken = record local { get_versioned = λ key s. (raise connection_error, s) }

read_resolve_first_hit_example :
    read_resolve x_key ((broken ∷ []) ++ (local ∷ broken ∷ [])) stocked ≡ (seven, stocked)
unfolding local_handle Lww.get_versioned Dict.get text_eq
read_resolve_first_hit_example =
    read_resolve_first_hit x_key (broken ∷ []) (broken ∷ []) local stocked stocked seven
      (miss refl nobody) refl

abbrev empty_world : World
empty_world n = init

abbrev at_two : Clocks
at_two = record { now = λ n. pos 2; clock = λ n. pos 2 }

abbrev at_nine : Clocks
at_nine = record { now = λ n. pos 9; clock = λ n. pos 9 }

get-set_example :
    ((set toy_digest (node_of at_two node_a ring_ab (pos 2)) x_key seven none (pos 4) empty_world).0
      ≡ ok true)
    × ((get toy_digest
          (node_of at_nine node_c ring_ba (pos 2))
          x_key
          (set toy_digest
            (node_of at_two node_a ring_ab (pos 2))
            x_key
            seven
            none
            (pos 4)
            empty_world).1).0
        ≡ seven)
unfolding get_nodes dlstorage.Ring.Rank.sort_by score from_bytes address
    dlstorage.Types.Decimal.str_int Dict.get dlstorage.Store.deadline
get-set_example =
    get-set toy_digest x_key seven none (pos 4) at_two at_nine node_a node_c ring_ab ring_ba (pos 2)
      node_b (node_a ∷ []) empty_world refl refl (omega arith) (refl, (refl, tt)) (refl, (refl, tt))

-- The writer reaches no other node, and the reader only the writer.
abbrev nobody_else : NodeInfo → Bool
nobody_else n = false

abbrev only_a : NodeInfo → Bool
only_a n = node_eq n node_a

get-set_missed_example :
    ((set toy_digest
        (cut_off nobody_else at_two node_a ring_ab (pos 2))
        x_key
        seven
        none
        (pos 4)
        empty_world).0
      ≡ ok true)
    × ((get toy_digest
          (cut_off only_a at_nine node_c ring_ba (pos 2))
          x_key
          (set toy_digest
            (cut_off nobody_else at_two node_a ring_ab (pos 2))
            x_key
            seven
            none
            (pos 4)
            empty_world).1).0
        ≡ seven)
unfolding get_nodes dlstorage.Ring.Rank.sort_by score from_bytes address node_eq text_eq
    dlstorage.Types.Decimal.str_int Dict.get dlstorage.Store.deadline
get-set_missed_example =
    get-set_missed toy_digest x_key seven none (pos 4) at_two at_nine nobody_else only_a node_a
      node_c ring_ab ring_ba (pos 2) node_b (node_a ∷ []) empty_world refl refl (omega arith)
      (tt, (tt, tt)) (refl, (refl, tt)) refl

abbrev lone : StorageNode World
lone = node_of at_two node_a ring_ab (pos 2)

lone_set : (set toy_digest lone x_key seven none (pos 4) empty_world).0 ≡ ok true
unfolding get_nodes dlstorage.Ring.Rank.sort_by score from_bytes address
    dlstorage.Types.Decimal.str_int Dict.get dlstorage.Store.deadline
lone_set =
    (get-set toy_digest x_key seven none (pos 4) at_two at_nine node_a node_a ring_ab ring_ab
      (pos 2) node_b (node_a ∷ []) empty_world refl refl (omega arith) (refl, (refl, tt))
      (refl, (refl, tt))).0
