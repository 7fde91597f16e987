-- ===== src/Ring.antt =====
-- dlstorage/ring/rendezvous.py: highest-random-weight hashing over a set of nodes.
-- `sha256` stands for `hashlib.sha256(text.encode()).digest()`. A Python set has no order that the
-- program chooses, so the nodes are a list in whatever order iteration gives, each once.
pub mod Rank
pub mod Members
pub mod Route
use dlstorage.Base.{
  ℕ, ◌-◌, suc, Text, ℤ, pos, negsuc, Bytes, from_bytes, Bool, true, false, not, Option, none, some,
  List, [], ◌∷◌, ◌++◌, take, length, filter, any, if◌then◌else◌,
}
use dlstorage.Types.{NodeInfo, address, node_eq}
use Rank.{sort_by, max_by}

pub record RendezvousRing : Type 0 where
  pub members : List NodeInfo

abbrev pub init : RendezvousRing
init = record { members = [] }

-- `node in nodes`
unfoldable pub is_member : NodeInfo → List NodeInfo → Bool
is_member n [] = false
is_member n (m ∷ ms) = if node_eq m n then true else is_member n ms

-- `self._nodes.add(node)`
unfoldable pub add : NodeInfo → RendezvousRing → RendezvousRing
add n r = if is_member n r.members then r else record r { members = n ∷ r.members }

abbrev pub differs : NodeInfo → NodeInfo → Bool
differs n m = not (node_eq m n)

-- `self._nodes.discard(node)`
unfoldable pub remove : NodeInfo → RendezvousRing → RendezvousRing
remove n r = record r { members = filter (differs n) r.members }

unfoldable pub nodes : RendezvousRing → List NodeInfo
nodes r = r.members

-- `len(ring)`
unfoldable pub count : RendezvousRing → ℕ
count r = length r.members

-- `l[:n]`, where a negative `n` counts from the end
abbrev pub slice_to {ℓ} : {A : Type ℓ} → ℤ → List A → List A
slice_to (pos n) l = take n l
slice_to (negsuc n) l = take (length l - suc n) l

module _ (sha256 : Text → Bytes) where
  -- `_score`
  unfoldable pub score : Text → NodeInfo → ℕ
  score key n = from_bytes (sha256 (address n ++ (b':' ∷ key)))

  max_of : Text → List NodeInfo → Option NodeInfo
  max_of key [] = none
  max_of key (m ∷ ms) = some (max_by (score key) m ms)

  unfoldable pub get_node : Text → RendezvousRing → Option NodeInfo
  unfolding max_of
  get_node key r = max_of key r.members

  ranked_to : Text → ℤ → List NodeInfo → List NodeInfo
  ranked_to key n [] = []
  ranked_to key n (m ∷ ms) = slice_to n (sort_by (score key) (m ∷ ms))

  unfoldable pub get_nodes : Text → ℤ → RendezvousRing → List NodeInfo
  unfolding ranked_to
  get_nodes key n r = ranked_to key n r.members
