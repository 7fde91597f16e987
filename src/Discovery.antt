-- ===== src/Discovery.antt =====
-- dlstorage/discovery: where a node learns of its first peers. `getaddrinfo` stands for
-- `socket.getaddrinfo`, as the first components of the socket addresses that it returns, `none`
-- being a `gaierror`; `resolver` for `dns.resolver.resolve(name, "SRV")`, as the targets and ports
-- of the answers, `none` being a missing package.
pub mod Hosts
use dlstorage.Base.{
  Text, text_eq, ℕ, ℤ, Bool, true, false, ◌==◌, Option, none, some, List, [], ◌∷◌, ◌++◌, map,
  filter, if◌then◌else◌,
}
use dlstorage.Result.{Result, ok, raise, runtime_error, import_error, ◌>>=◌}
use dlstorage.Types.{NodeInfo, from_address}
use dlstorage.Ring.{is_member, differs}

-- `GossipDiscovery`: a seed, and the set of the peers that gossip has found
pub record GossipDiscovery : Type 0 where
  pub seed : NodeInfo
  pub peers : List NodeInfo

pub data Discovery : Type 0 where
  -- `StaticDiscovery`: a fixed list
  static : List NodeInfo → Discovery
  -- `ARecordDiscovery`: a host name and a port
  a_record : Text → ℤ → Discovery
  -- `DNSDiscovery`: a service name
  dns : Text → Discovery
  gossip : GossipDiscovery → Discovery

-- `[NodeInfo.from_address(p) for p in peers]`
unfoldable pub from_addresses : List Text → Result (List NodeInfo)
from_addresses [] = ok []
from_addresses (p ∷ ps) = do n ← from_address p; ns ← from_addresses ps; ok (n ∷ ns)

unfoldable pub init_static : List Text → Result Discovery
unfolding from_addresses
init_static peers = do ns ← from_addresses peers; ok (static ns)

unfoldable pub init_gossip : Text → Result GossipDiscovery
init_gossip seed = do n ← from_address seed; ok (record { seed = n; peers = [] })

-- Whether `GossipDiscovery.add_peer` finds the peer new, and what it leaves.
unfoldable pub add_peer : NodeInfo → GossipDiscovery → Bool × GossipDiscovery
add_peer p d = if is_member p d.peers then (false, d) else (true, record d { peers = p ∷ d.peers })

unfoldable pub remove_peer : NodeInfo → GossipDiscovery → GossipDiscovery
remove_peer p d = record d { peers = filter (differs p) d.peers }

-- `ip in seen`
unfoldable pub is_seen : Text → List Text → Bool
is_seen t [] = false
is_seen t (u ∷ us) = if text_eq u t then true else is_seen t us

-- The loop over the resolved addresses: each address once, where it comes first.
unfoldable pub unseen : List Text → List Text → List Text
unfolding is_seen
unseen seen [] = []
unseen seen (ip ∷ ips) =
    let new = unseen (ip ∷ seen) ips in
    let old = unseen seen ips in if is_seen ip seen then old else ip ∷ new

abbrev pub host_at : ℤ → Text → NodeInfo
host_at port ip = record { host = ip; port = port }

unfoldable pub resolved_hosts : ℤ → Option (List Text) → Result (List NodeInfo)
resolved_hosts port none = raise runtime_error
resolved_hosts port (some ips) = ok (map (host_at port) (unseen [] ips))

-- `target.rstrip(".")`
unfoldable pub rstrip_dots : Text → Text
rstrip_dots [] = []
rstrip_dots (c ∷ cs) = drop_dot c (rstrip_dots cs)
  where
    drop_dot : ℕ → Text → Text
    drop_dot c [] = if c == b'.' then [] else c ∷ []
    drop_dot c (d ∷ ds) = c ∷ d ∷ ds

abbrev pub service : Text × ℤ → NodeInfo
service (target, port) = record { host = rstrip_dots target; port = port }

unfoldable pub services : Text → Option (Text → Result (List (Text × ℤ))) → Result (List NodeInfo)
services name none = raise import_error
services name (some resolve) = do answers ← resolve name; ok (map service answers)

module _ (getaddrinfo : Text → ℤ → Option (List Text))
    (resolver : Option (Text → Result (List (Text × ℤ)))) where
  unfoldable pub get_peers : Discovery → Result (List NodeInfo)
  unfolding resolved_hosts services
  get_peers (static peers) = ok peers
  get_peers (a_record hostname port) = resolved_hosts port (getaddrinfo hostname port)
  get_peers (dns name) = services name resolver
  get_peers (gossip d) = ok (d.peers ++ (d.seed ∷ []))
