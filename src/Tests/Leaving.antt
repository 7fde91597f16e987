-- ===== src/Tests/Leaving.antt =====
-- A node that has left a small town.
use dlstorage.Base.{false, [], ◌∷◌, text_eq, ◌≡◌, refl}
use dlstorage.Types.{node_eq, address}
use dlstorage.Ring.{is_member}
use dlstorage.Discovery.{gossip}
use dlstorage.Gossip.{gossip_with, announce_join}
use dlstorage.Gossip.Peers.{Town, town}
use dlstorage.Gossip.Departed.{locally, start, later, exchanges, starts, joins}
use dlstorage.Gossip.Departed.Away.{IsUnknown, stays_away}
use dlstorage.Node.Server.{start_ring}
use dlstorage.Tests.Samples.{node_a, node_b, node_c, ring_ab}

-- `node_c` is the seed of every discovery, and in no ring.
abbrev without_c : Town
without_c = λ n. record {
  ring = ring_ab;
  discovery = gossip (record { seed = node_c; peers = [] });
  pool = tt;
}

abbrev asked : Town
asked = locally node_a (gossip_with node_a town node_c) without_c

-- `node_b` starts and finds `node_a`.
abbrev started : Town
started = locally node_b (λ s. record s { ring = start_ring node_b (node_a ∷ []) s.ring }) asked

abbrev joined : Town
joined = locally node_b (λ s. (announce_join node_b town s).1) started

unknown : IsUnknown node_c without_c
unfolding is_member node_eq text_eq address dlstorage.Types.Decimal.str_int
unknown n other = refl

apart : node_eq node_b node_c ≡ false
unfolding node_eq text_eq address dlstorage.Types.Decimal.str_int
apart = refl

not_found : is_member node_c (node_a ∷ []) ≡ false
unfolding is_member node_eq text_eq address dlstorage.Types.Decimal.str_int
not_found = refl

stays_away_example : IsUnknown node_c joined
stays_away_example = stays_away node_c without_c joined unknown (
    later (later (later start (exchanges node_a node_c)) (starts node_b (node_a ∷ []) not_found))
      (joins node_b apart))
