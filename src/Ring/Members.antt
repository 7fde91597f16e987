-- ===== src/Ring/Members.antt =====
-- Membership in the ring is by address, and each member stands once.
use dlstorage.Base.{
  true, false, List, [], ◌∷◌, filter, if◌then◌else◌, ◌≡◌, arith, Bool-cases, inl, inr,
}
use dlstorage.Types.{NodeInfo, node_eq}
use dlstorage.Types.Address.{node_eq_iff}
use dlstorage.Ring.{RendezvousRing, is_member, add, remove, differs}

-- No node stands twice.
abbrev pub IsSetOfNodes : List NodeInfo → Type 0
IsSetOfNodes [] = Unit
IsSetOfNodes (m ∷ ms) = (is_member m ms ≡ false) × IsSetOfNodes ms

pub is_member-filter :
    (n k : NodeInfo) (ms : List NodeInfo)
    → is_member k (filter (differs n) ms) ≡ (if node_eq n k then false else is_member k ms)
unfolding is_member
is_member-filter n k [] = ground arith
is_member-filter n k (m ∷ ms) =
    ground (arith, is_member-filter n k ms, node_eq_iff m n, node_eq_iff m k, node_eq_iff n k)

-- After `add` exactly the members before and the added node are members, after `remove` exactly
-- the members before other than the removed node.
pub is_member-add-remove :
    (n k : NodeInfo) (r : RendezvousRing)
    → (is_member k (add n r).members ≡ (if node_eq n k then true else is_member k r.members))
      × (is_member k (remove n r).members ≡ (if node_eq n k then false else is_member k r.members))
unfolding add remove is_member
is_member-add-remove n k r = (ground (arith, node_eq_iff n k), is_member-filter n k r.members)

pub IsSetOfNodes-filter :
    (n : NodeInfo) (ms : List NodeInfo) → IsSetOfNodes ms → IsSetOfNodes (filter (differs n) ms)
IsSetOfNodes-filter n [] h = tt
IsSetOfNodes-filter n (m ∷ ms) h = elim (Bool-cases (node_eq m n)) [
  | inl same ↦ rw same (IsSetOfNodes-filter n ms h.1)
  | inr other ↦
      rw other (ground (arith, is_member-filter n m ms, h.0), IsSetOfNodes-filter n ms h.1)
]

-- Joining and leaving keep each member once.
pub add-remove-IsSetOfNodes :
    (n : NodeInfo) (r : RendezvousRing)
    → IsSetOfNodes r.members
    → IsSetOfNodes (add n r).members × IsSetOfNodes (remove n r).members
unfolding add remove
add-remove-IsSetOfNodes n r h = (
  elim (Bool-cases (is_member n r.members)) [ inl old ↦ rw old h | inr new ↦ rw new (new, h) ],
  IsSetOfNodes-filter n r.members h,
)
