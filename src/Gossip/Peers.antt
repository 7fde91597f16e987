-- ===== src/Gossip/Peers.antt =====
-- Joining and leaving among peers that all answer: the message of one node, and what every other
-- node makes of it.
use dlstorage.Base.{
  Bool, true, false, none, some, List, [], ◌∷◌, any, ◌&&◌, if◌then◌else◌, ◌≡◌, refl, ap, ◌∙◌, arith,
  Bool-cases, inl, inr, Option,
}
use dlstorage.Result.{Result, ok, raise}
use dlstorage.Types.{NodeInfo, node_eq, Message}
use dlstorage.Types.Address.{node_eq_iff}
use dlstorage.Ring.{is_member}
use dlstorage.Handle.{ConnectionPool}
use dlstorage.Node.Handles.Remote.{delivered}
use dlstorage.Gossip.{
  State, handle_message, send_all, broadcast, announce_join, announce_leave, others,
}
use dlstorage.Gossip.Announce.{announcement, farewell, handle_message_announced}

-- The rings and the discoveries of the nodes. Handling a message, a node opens no connection.
abbrev pub Town : Type 0
Town = NodeInfo → State Unit

abbrev pub silent : ConnectionPool Unit
silent = record {
  execute = λ host port msg s. (ok none, s);
  close_peer = λ host port s. s;
  close_all = λ s. s;
}

-- A request to a peer runs `handle_message` there.
abbrev pub tell : Message → NodeInfo → Town → Result Message × Town
tell msg n w =
    let (r, s) = handle_message n silent msg (w n) in (r, λ m. if node_eq n m then s else w m)

abbrev pub town : ConnectionPool Town
town = record {
  execute = λ host port msg w.
      let (r, w') = tell msg (record { host = host; port = port }) w in (delivered r, w');
  close_peer = λ host port w. w;
  close_all = λ w. w;
}

pub tell_each : Message → List NodeInfo → Town → Town
tell_each msg [] w = w
tell_each msg (p ∷ ps) w = tell_each msg ps (tell msg p w).1

delivered-ok : (r : Result Message) → (m : Option Message) × (delivered r ≡ ok m)
delivered-ok (ok m) = (some m, refl)
delivered-ok (raise e) = (none, refl)

module _ (info : NodeInfo) where
  pub send_all-tell_each :
      (msg : Message) (ps : List NodeInfo) (s : State Town)
      → send_all info town msg ps s ≡ (ok tt, record s { pool = tell_each msg ps s.pool })
  unfolding send_all tell_each
  send_all-tell_each msg [] s = refl
  send_all-tell_each msg (p ∷ ps) s =
      let (m, got) = delivered-ok (tell msg p s.pool).0 in
      rw got (send_all-tell_each msg ps (record s { pool = (tell msg p s.pool).1 }))

  -- A message that puts `k` into a ring or takes it out, as `kept` says.
  module _ (msg : Message) (k : NodeInfo) (kept : Bool → Bool)
      (handled : (n : NodeInfo) (s : State Unit)
        → is_member k (handle_message n silent msg s).1.ring.members
          ≡ kept (is_member k s.ring.members))
      (again : (b : Bool) → kept (kept b) ≡ kept b) where
    tell_each-member :
        (ps : List NodeInfo) (p : NodeInfo) (w : Town)
        → is_member k (tell_each msg ps w p).ring.members ≡ (
            if any (λ n. node_eq n p) ps
            then kept (is_member k (w p).ring.members)
            else is_member k (w p).ring.members)
    unfolding tell_each
    tell_each-member [] p w = refl
    tell_each-member (n ∷ ns) p w = elim (Bool-cases (node_eq n p)) [
      | inr other ↦ tell_each-member ns p (tell msg n w).1 ∙ rw other refl
      | inl same ↦
          let told : is_member k ((tell msg n w).1 p).ring.members
              ≡ kept (is_member k (w p).ring.members) =
            rw same (
              handled n (w n)
              ∙ ap (λ x. kept (is_member k (w x).ring.members)) ((node_eq_iff n p).0 same)) in
          tell_each-member ns p (tell msg n w).1
          ∙ rw (told, same) (twice (any (λ m. node_eq m p) ns) (is_member k (w p).ring.members))
    ]
      where
        twice : (b old : Bool) → (if b then kept (kept old) else kept old) ≡ kept old
        twice true old = again old
        twice false old = refl

  -- Where every member that a message goes to is up and handles it: a node that announces itself is
  -- afterwards in the ring of every other member of its own ring,
  -- and one that takes its leave is in none of theirs. The announcing does not raise, the other
  -- members of those rings stay as they are, and so do the rings of all who are not told.
  pub announce-town :
      (s : State Town) (k p : NodeInfo)
      → let told = any (λ n. node_eq n p) (others info town s.ring.members) in
        let old = is_member k (s.pool p).ring.members in
        let (r, t) = announce_join info town s in
        let (r', t') = announce_leave info town s in
        (r ≡ ok tt)
        × (is_member k (t.pool p).ring.members ≡ (if told && node_eq info k then true else old))
        × (r' ≡ ok tt)
        × (is_member k (t'.pool p).ring.members ≡ (if told && node_eq info k then false else old))
  unfolding announce_join announce_leave broadcast
  announce-town s k p =
      let ps = others info town s.ring.members in
      let told = any (λ n. node_eq n p) ps in
      let old = is_member k (s.pool p).ring.members in
      rw (send_all-tell_each (announcement info) ps s, send_all-tell_each (farewell info) ps s)
        (
          refl,
          tell_each-member (announcement info) k (λ b. if node_eq info k then true else b)
                (λ n t. (handle_message_announced n silent info k t).0) (λ b. ground arith) ps p
                s.pool
              ∙ regroup told (node_eq info k) true old,
          refl,
          tell_each-member (farewell info) k (λ b. if node_eq info k then false else b)
                (λ n t. (handle_message_announced n silent info k t).1) (λ b. ground arith) ps p
                s.pool
              ∙ regroup told (node_eq info k) false old,
        )
    where
      regroup :
          (told same new old : Bool)
          → (if told then (if same then new else old) else old)
            ≡ (if told && same then new else old)
      regroup true same new old = refl
      regroup false same new old = refl
