-- ===== src/Gossip/Departed/Away.antt =====
-- A node that the others do not know stays unknown until it announces itself.
use dlstorage.Base.{
  true, false, not, ◌&&◌, ◌||◌, some, List, [], ◌∷◌, map, filter, ◌≡◌, refl, ap, sym, ◌∙◌, arith,
  Bool-cases, inl, inr,
}
use dlstorage.Result.{ok}
use dlstorage.Types.{NodeInfo, node_eq, to_dict, from_dict, field_of}
use dlstorage.Types.Address.{node_eq_iff}
use dlstorage.Ring.{RendezvousRing, is_member, differs, add}
use dlstorage.Ring.Members.{is_member-add-remove}
use dlstorage.Handle.{ConnectionPool}
use dlstorage.Gossip.{
  State, gossip_with, evict, announce_join, announce_leave, broadcast, others, absorb, meet, learn,
  settle, list_message, handle_message,
}
use dlstorage.Gossip.Announce.{announcement, farewell, handle_message_announced}
use dlstorage.Gossip.Learned.{gossip_with_lem, list_of}
use dlstorage.Gossip.Peers.{Town, town, silent, tell, send_all-tell_each, announce-town}
use dlstorage.Gossip.Departed.{
  locally, Step, exchanges, evicts, ends, starts, joins, leaves, told_join, told_leave, Reach,
  start, later,
}
use dlstorage.Node.Server.{add_all, start_ring}

-- No node but `k` has `k` in its ring.
abbrev pub IsUnknown : NodeInfo → Town → Type 0
IsUnknown k w = (n : NodeInfo) → node_eq n k ≡ false → is_member k (w n).ring.members ≡ false

-- The loop over the peers of a reply leaves the pool alone.
absorb-pool :
    {S : Type 0} (info : NodeInfo) (pool : ConnectionPool S) (known ns : List NodeInfo)
    (s : State S)
    → ((absorb info pool known (map to_dict ns) s).0 ≡ ok tt)
      × ((absorb info pool known (map to_dict ns) s).1.pool ≡ s.pool)
unfolding absorb to_dict from_dict
absorb-pool info pool known [] s = (refl, refl)
absorb-pool info pool known (n ∷ ns) s =
    let (done, rest) = absorb-pool info pool known ns (meet info pool known n s) in
    (done, rest ∙ met)
  where
    met : (meet info pool known n s).pool ≡ s.pool
    met = elim (Bool-cases (differs info n && not (is_member n known))) [
      | inl new ↦ rw new (unfold learn in refl)
      | inr old ↦ rw old refl
    ]

settle-pool :
    (info peer : NodeInfo) (ns : List NodeInfo) (s : State Town)
    → (settle info town peer (ok (some (list_of info town peer ns))) s).pool ≡ s.pool
unfolding settle field_of
settle-pool info peer ns s =
    let (done, same) = absorb-pool info town s.ring.members (filter (differs peer) ns) s in
    rw done same

-- The request for a list changes nothing at the peer.
told_list :
    (info peer : NodeInfo) (w : Town) (n : NodeInfo)
    → ((tell (list_message info town) peer w).0 ≡ ok (list_of info town peer (w peer).ring.members))
      × (((tell (list_message info town) peer w).1 n).ring ≡ (w n).ring)
unfolding handle_message
told_list info peer w n = (
  refl,
  elim (Bool-cases (node_eq peer n)) [
    | inl same ↦ rw same (ap (λ x. (w x).ring) ((node_eq_iff peer n).0 same))
    | inr other ↦ rw other refl
  ],
)

-- An exchange of `a` with a peer.
exchange :
    (a peer k n : NodeInfo) (s : State Town)
    → (is_member k (gossip_with a town peer s).ring.members ≡ (
        is_member k s.ring.members
        || (is_member k (s.pool peer).ring.members && (differs a k && differs peer k))))
      × (((gossip_with a town peer s).pool n).ring ≡ (s.pool n).ring)
unfolding gossip_with handle_message
exchange a peer k n s = (
  gossip_with_lem a town peer k silent s (s.pool peer) (s.pool peer)
      (list_of a town peer (s.pool peer).ring.members) (tell (list_message a town) peer s.pool).1
      refl refl,
  ap (λ w. (w n).ring)
        (settle-pool a peer (s.pool peer).ring.members
          (record s { pool = (tell (list_message a town) peer s.pool).1 }))
      ∙ (told_list a peer s.pool n).1,
)

-- What `a` does leaves `k` unknown, where it does not put `k` into its ring or into another's.
locally-IsUnknown :
    (a k : NodeInfo) (f : State Town → State Town) (w : Town)
    → IsUnknown k w
    → let s : State Town = record { ring = (w a).ring; discovery = (w a).discovery; pool = w } in
      (node_eq a k ≡ false → is_member k (f s).ring.members ≡ false)
      → ((n : NodeInfo) → node_eq n k ≡ false → is_member k ((f s).pool n).ring.members ≡ false)
      → IsUnknown k (locally a f w)
locally-IsUnknown a k f w unknown own others_too n other = elim (Bool-cases (node_eq a n)) [
  | inl same ↦ rw same (own (ap (λ x. node_eq x k) ((node_eq_iff a n).0 same) ∙ other))
  | inr apart ↦ rw apart (others_too n other)
]

unknown_at_peer :
    (a peer k : NodeInfo) (w : Town)
    → IsUnknown k w
    → (is_member k (w peer).ring.members && (differs a k && differs peer k)) ≡ false
unknown_at_peer a peer k w unknown = elim (Bool-cases (node_eq peer k)) [
  | inl same ↦
      let back : node_eq k peer ≡ true =
        (node_eq_iff k peer).1 (sym ((node_eq_iff peer k).0 same)) in
      rw back (ground arith)
  | inr apart ↦ rw (unknown peer apart) refl
]

-- A broadcast leaves the sender's ring as it is.
broadcast-ring :
    (a : NodeInfo) (s : State Town)
    → ((announce_join a town s).1.ring ≡ s.ring) × ((announce_leave a town s).1.ring ≡ s.ring)
unfolding announce_join announce_leave broadcast
broadcast-ring a s = (
  ap (λ p. p.1.ring) (send_all-tell_each a (announcement a) (others a town s.ring.members) s),
  ap (λ p. p.1.ring) (send_all-tell_each a (farewell a) (others a town s.ring.members) s),
)

-- A start brings only the peers that it finds into the ring, and the node itself.
add_all-absent :
    (k : NodeInfo) (found : List NodeInfo) (ring : RendezvousRing)
    → is_member k found ≡ false
    → is_member k ring.members ≡ false
    → is_member k (add_all found ring).members ≡ false
unfolding add_all is_member
add_all-absent k [] ring absent h = h
add_all-absent k (p ∷ ps) ring absent h =
    add_all-absent k ps (add p ring) (ground (arith, absent))
      ((is_member-add-remove p k ring).0 ∙ ground (arith, absent, h))

start_ring-absent :
    (a k : NodeInfo) (found : List NodeInfo) (ring : RendezvousRing)
    → node_eq a k ≡ false
    → is_member k found ≡ false
    → is_member k ring.members ≡ false
    → is_member k (start_ring a found ring).members ≡ false
unfolding start_ring
start_ring-absent a k found ring other absent h =
    (is_member-add-remove a k (add_all found ring)).0
    ∙ ground (arith, other, add_all-absent k found ring absent h)

-- One node is told of `a`.
told-IsUnknown :
    (a k n : NodeInfo) (w : Town)
    → IsUnknown k w
    → (node_eq a k ≡ false → IsUnknown k (tell (announcement a) n w).1)
      × IsUnknown k (tell (farewell a) n w).1
told-IsUnknown a k n w unknown = (
  λ apart m other. elim (Bool-cases (node_eq n m)) [
    | inl same ↦ rw same (
        (handle_message_announced n silent a k (w n)).0
        ∙ ground
            (arith, apart, unknown n (ap (λ x. node_eq x k) ((node_eq_iff n m).0 same) ∙ other)))
    | inr away ↦ rw away (unknown m other)
  ],
  λ m other. elim (Bool-cases (node_eq n m)) [
    | inl same ↦ rw same (
        (handle_message_announced n silent a k (w n)).1
        ∙ ground (arith, unknown n (ap (λ x. node_eq x k) ((node_eq_iff n m).0 same) ∙ other)))
    | inr away ↦ rw away (unknown m other)
  ],
)

Step-IsUnknown : {k : NodeInfo} {w v : Town} → Step k w v → IsUnknown k w → IsUnknown k v
Step-IsUnknown {k} {w} (exchanges a peer) unknown =
    locally-IsUnknown a k (gossip_with a town peer) w unknown
      (λ other.
        (exchange a peer k a _).0 ∙ rw (unknown a other, unknown_at_peer a peer k w unknown) refl)
      (λ n other. ap (λ r. is_member k r.members) (exchange a peer k n _).1 ∙ unknown n other)
Step-IsUnknown {k} {w} (evicts a peer) unknown =
    locally-IsUnknown a k (evict a town peer) w unknown
      (λ other.
        unfold evict in
        (is_member-add-remove peer k (w a).ring).1 ∙ ground (arith, unknown a other))
      (λ n other. unfold evict in unknown n other)
Step-IsUnknown {k} {w} (ends a) unknown =
    locally-IsUnknown a k (λ s. record s { ring = record { members = [] } }) w unknown
      (λ other. unfold is_member in refl) unknown
Step-IsUnknown {k} {w} (starts a found absent) unknown =
    locally-IsUnknown a k (λ s. record s { ring = start_ring a found s.ring }) w unknown
      (λ other. start_ring-absent a k found (w a).ring other absent (unknown a other)) unknown
Step-IsUnknown {k} {w} (joins a apart) unknown =
    locally-IsUnknown a k (λ s. (announce_join a town s).1) w unknown
      (λ other. ap (λ r. is_member k r.members) (broadcast-ring a _).0 ∙ unknown a other)
      (λ n other. (announce-town a _ k n).1 ∙ ground (arith, apart, unknown n other))
Step-IsUnknown {k} {w} (leaves a) unknown =
    locally-IsUnknown a k (λ s. (announce_leave a town s).1) w unknown
      (λ other. ap (λ r. is_member k r.members) (broadcast-ring a _).1 ∙ unknown a other)
      (λ n other. (announce-town a _ k n).3 ∙ ground (arith, unknown n other))
Step-IsUnknown {k} {w} (told_join a n apart) unknown = (told-IsUnknown a k n w unknown).0 apart
Step-IsUnknown {k} {w} (told_leave a n) unknown = (told-IsUnknown a k n w unknown).1

-- A node that no other node has in its ring stays out of all their rings, the seed of their
-- discoveries included, whatever lists they and it exchange, whoever else joins, leaves or ends,
-- whomever an announcement or a farewell reaches, and whichever peers do not answer, as long as it
-- does not announce itself and is not among the peers that the discovery of a starting node finds.
pub stays_away : (k : NodeInfo) (w v : Town) → IsUnknown k w → Reach k w v → IsUnknown k v
stays_away k w v unknown start = unknown
stays_away k w v unknown (later {v = u} r st) = Step-IsUnknown st (stays_away k w u unknown r)
