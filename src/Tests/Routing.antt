-- ===== src/Tests/Routing.antt =====
-- Addresses, the ring and the resolvers on small inputs.
use mathlib.Core.List.{Perm}
use mathlib.Core.List.Perm
use native.Mathlib.Decide.{ℕ_discrete}
use dlstorage.Base.{
  ℤ, pos, ◌≤◌, min, Text, codes, text_eq, from_bytes, true, false, Option, none, some, List, [],
  ◌∷◌, ◌++◌, length, ◌≡◌, refl, arith, All,
}
use dlstorage.Result.{ok, raise, value_error}
use dlstorage.Types.{
  NodeInfo, Value, null, address, node_eq, from_address, message_from_dict, message_to_dict,
  message_type, MessageType,
}
use dlstorage.Types.Address.{from_address-address}
use dlstorage.Ring.{RendezvousRing, get_nodes, get_node, score, remove, add, differs, is_member}
use dlstorage.Ring.Rank.Laws.{IsDescending}
use dlstorage.Ring.Route.{get_nodes-top, get_nodes-perm, get_nodes-remove}
use dlstorage.Store.Lww.{Versioned}
use dlstorage.Consistency.Lww.{pick}
use dlstorage.Consistency.Lww.Newest.{pick_newest}
use dlstorage.Tests.Pairs.{pair_injective}
use dlstorage.Tests.Samples.{toy_digest, node_a, node_b, ring_ab, ring_ba, ring_abc, seven}

address-node_a : address node_a ≡ codes "a:1"
unfolding address dlstorage.Types.Decimal.str_int
address-node_a = refl

no_port : from_address (codes "localhost") ≡ raise value_error
unfolding from_address dlstorage.Types.rsplit
no_port = refl

from_address-address_example : from_address (address node_a) ≡ ok node_a
from_address-address_example = from_address-address node_a

abbrev some_key : Text
some_key = codes "k"

route_ab : get_nodes toy_digest some_key (pos 1) ring_ab ≡ node_b ∷ []
unfolding get_nodes dlstorage.Ring.Rank.sort_by score from_bytes address
    dlstorage.Types.Decimal.str_int
route_ab = refl

get_nodes-top_example :
    (rest : List NodeInfo) × Perm
      (get_nodes toy_digest some_key (pos 2) ring_abc ++ rest)
      ring_abc.members
    × (length (get_nodes toy_digest some_key (pos 2) ring_abc) ≡ min 2 (length ring_abc.members))
    × IsDescending (score toy_digest some_key) (get_nodes toy_digest some_key (pos 2) ring_abc)
    × All
        (λ a. All (λ b. score toy_digest some_key b ≤ score toy_digest some_key a) rest)
        (get_nodes toy_digest some_key (pos 2) ring_abc)
get_nodes-top_example = get_nodes-top toy_digest some_key 2 ring_abc

NodeInfo-set : IsSet NodeInfo
NodeInfo-set = hlevel ℕ_discrete

get_nodes-perm_example :
    get_nodes toy_digest some_key (pos 1) ring_ab ≡ get_nodes toy_digest some_key (pos 1) ring_ba
unfolding score from_bytes address dlstorage.Types.Decimal.str_int
get_nodes-perm_example =
    get_nodes-perm toy_digest some_key (pos 1) ring_ab ring_ba (Perm.swap node_b node_a [])
      (pair_injective NodeInfo-set (score toy_digest some_key) node_a node_b (omega arith))

get_nodes-remove_example :
    get_nodes toy_digest some_key (pos 1) (remove node_a ring_ab)
    ≡ get_nodes toy_digest some_key (pos 1) ring_ab
unfolding get_nodes dlstorage.Ring.Rank.sort_by score from_bytes address
    dlstorage.Types.Decimal.str_int node_eq text_eq
get_nodes-remove_example = get_nodes-remove toy_digest some_key 1 node_a ring_ab (refl, tt)

abbrev old_answer : Option Versioned
old_answer = some (null, pos 1, true)

abbrev new_answer : Option Versioned
new_answer = some (seven, pos 2, false)

pick_newest_example : pick (old_answer ∷ none ∷ new_answer ∷ old_answer ∷ []) ≡ seven
pick_newest_example =
    pick_newest (old_answer ∷ none ∷ []) (old_answer ∷ []) seven (pos 2) false (omega arith)
      (omega arith, (tt, tt)) (omega arith, tt)

abbrev stamp_of : Option Versioned → ℤ
stamp_of none = pos 0
stamp_of (some v) = v.1

Answer-set : IsSet (Option Versioned)
Answer-set = hlevel

unsome : (a b : Versioned) → some a ≡ some b → a ≡ b
unsome a b e = cc
