-- ===== src/Node/Cluster/Lasting.antt =====
-- Entries with no time to live, and how they are read.
use mathlib.Core.Path.{subst, fun_ext}
use dlstorage.Base.{
  Text, ℤ, pos, ltb_ℤ, ◌≤ℤ◌, Bool, true, false, Option, none, some, List, [], ◌∷◌, All, All-map,
  loop, length, suc, if◌then◌else◌, ◌≡◌, ◌⊎◌, refl, ap, ◌∙◌, arith, Bool-cases, Option-cases, inl,
  inr,
}
use dlstorage.Types.{NodeInfo, node_eq, Value, null}
use dlstorage.Types.Address.{node_eq_iff}
use dlstorage.Ring.{RendezvousRing}
use dlstorage.Store.Lww
use dlstorage.Store.Lww.{LocalLwwStore, Entry, Slot, live, tombstone, Versioned, value_of}
use dlstorage.Store.Lww.Writes.{entry_at, merge}
use dlstorage.Store.Lww.Reads.{view}
use dlstorage.Consistency.Lww.{Best, no_best, consider, chosen, pick, collect, read_resolve}
use dlstorage.Consistency.Lww.Newest.{IsNotNewer, pick_newest}
use dlstorage.Node.Handles.Remote.{seen_remotely}
use dlstorage.Node.Storage.{make_handles}
use dlstorage.Node.Cluster.{World, Clocks, place, node_of}
use dlstorage.Node.Cluster.Through.{handle-get}

-- No deadline, and a timestamp that is not negative.
abbrev pub IsLasting : Option Entry → Type 0
IsLasting none = Unit
IsLasting (some e) = (e.expires_at ≡ none) × (pos 0 ≤ℤ e.ts)

-- A write with no time to live leaves such an entry.
pub merge-IsLasting :
    (e : Entry) (o : Option Entry)
    → e.expires_at ≡ none
    → pos 0 ≤ℤ e.ts
    → IsLasting o
    → IsLasting (merge e o)
merge-IsLasting e none never timed h = (never, timed)
merge-IsLasting e (some f) never timed h = elim (Bool-cases (ltb_ℤ e.ts f.ts)) [
  | inl newer ↦ rw newer h
  | inr older ↦ rw older (never, timed)
]

-- What every reader sees of such an entry.
abbrev pub seen : Option Entry → Option Versioned
seen o = view (pos 0) o

view-seen : (now : ℤ) (o : Option Entry) → IsLasting o → view now o ≡ seen o
view-seen now none h = refl
view-seen now (some e) h = go e.slot refl
  where
    go : (slot : Slot) → e.slot ≡ slot → view now (some e) ≡ seen (some e)
    go tombstone at_slot = rw at_slot refl
    go (live value) at_slot = rw (at_slot, h.0) refl

pub get_versioned_lasting :
    (now : ℤ) (key : Text) (s : LocalLwwStore)
    → IsLasting (entry_at key s)
    → Lww.get_versioned now key s ≡ (seen (entry_at key s), s)
unfolding Lww.get_versioned
get_versioned_lasting now key s h = elim (Option-cases (entry_at key s)) [
  | inl missing ↦ rw missing refl
  | inr (e, at_key) ↦ let lasting = subst IsLasting at_key h in ground (arith, at_key, lasting.0)
]

pub place_self : (n : NodeInfo) (w : World) → place n (w n) w ≡ w
unfolding place
place_self n w = fun_ext (λ m. elim (Bool-cases (node_eq n m)) [
  | inl same ↦ rw same (ap w ((node_eq_iff n m).0 same))
  | inr apart ↦ rw apart refl
])

-- A replica's answer to a read, local or remote.
abbrev pub IsSeen : Option Entry → Option Versioned → Type 0
IsSeen o r = (r ≡ seen o) ⊎ (r ≡ seen_remotely (seen o))

abbrev IsVoid : Option Versioned → Type 0
IsVoid none = Unit
IsVoid (some (value, ts, is_tombstone)) = is_tombstone ≡ true

chosen_void :
    (rs : List (Option Versioned)) (best : Best)
    → All IsVoid rs
    → chosen best ≡ null
    → chosen (loop consider rs best) ≡ null
chosen_void [] best h c = c
chosen_void (none ∷ rs) best h c = chosen_void rs best h.1 c
chosen_void (some (value, ts, dead) ∷ rs) best h c =
    chosen_void rs (consider (some (value, ts, dead)) best) h.1 (ground (arith, h.0))

seen-IsVoid : (r : Option Versioned) (e : Entry) → e.slot ≡ tombstone → IsSeen (some e) r → IsVoid r
seen-IsVoid r e dead (inl same) = rw (same, dead) refl
seen-IsVoid r e dead (inr same) = rw (same, dead) (far (ltb_ℤ (pos 0) e.ts))
  where
    far : (b : Bool) → IsVoid (if b then some (null, e.ts, true) else none)
    far true = refl
    far false = tt

seen-IsNotNewer :
    (r : Option Versioned) (e : Entry) (value : Value)
    → e.slot ≡ live value
    → e.expires_at ≡ none
    → IsSeen (some e) r
    → r ≡ some (value, e.ts, false)
seen-IsNotNewer r e value alive lasting (inl same) = same ∙ rw (alive, lasting) refl
seen-IsNotNewer r e value alive lasting (inr same) = same ∙ rw (alive, lasting) refl

-- Where all the replicas hold the same entry, the resolver picks its value.
pub pick-seen :
    (o : Option Entry) (r : Option Versioned) (rs : List (Option Versioned))
    → IsLasting o
    → All (IsSeen o) (r ∷ rs)
    → pick (r ∷ rs) ≡ value_of (seen o)
unfolding pick
pick-seen none r rs h answers =
    chosen_void (r ∷ rs) no_best (All-map (IsSeen none) IsVoid (r ∷ rs) missing answers) refl
  where
    missing : (x : Option Versioned) → IsSeen none x → IsVoid x
    missing x (inl same) = rw same tt
    missing x (inr same) = rw same tt
pick-seen (some e) r rs h answers = go e.slot refl
  where
    go : (slot : Slot) → e.slot ≡ slot → pick (r ∷ rs) ≡ value_of (seen (some e))
    go tombstone dead =
        chosen_void (r ∷ rs) no_best
          (All-map (IsSeen (some e)) IsVoid (r ∷ rs) (λ x. seen-IsVoid x e dead) answers) refl
        ∙ rw dead refl
    go (live value) alive =
        let first = seen-IsNotNewer r e value alive h.0 answers.0 in
        rw (first) (
          pick_newest [] rs value e.ts false h.1 tt (
            All-map (IsSeen (some e)) (IsNotNewer e.ts) rs
              (λ x a. rw (seen-IsNotNewer x e value alive h.0 a) (omega arith)) answers.1)
          ∙ rw (alive, h.0) refl)

module _ (d : Clocks) (info : NodeInfo) (ring : RendezvousRing) (replication : ℤ) (key : Text)
    (o : Option Entry) (h : IsLasting o) where
  collect-IsSeen :
      (ns : List NodeInfo) (w : World)
      → All (λ n. entry_at key (w n) ≡ o) ns
      → (rs : List (Option Versioned)) × (collect key
            (make_handles (node_of d info ring replication) ns)
            w
          ≡ (rs, w))
        × All (IsSeen o) rs
        × (length rs ≡ length ns)
  unfolding collect
  collect-IsSeen [] w same = ([], refl, tt, refl)
  collect-IsSeen (m ∷ ns) w same =
      let (r, at_m, which) = handle-get d info ring replication key m w in
      let here : Lww.get_versioned (d.now m) key (w m) ≡ (seen o, w m) =
        get_versioned_lasting (d.now m) key (w m) (rw same.0 h) ∙ ap (λ x. (seen x, w m)) same.0 in
      let unmoved : place m (Lww.get_versioned (d.now m) key (w m)).1 w ≡ w =
        ap (λ p. place m p.1 w) here ∙ place_self m w in
      let (rs, at_ns, rest, long) = collect-IsSeen ns w same.1 in
      let answer : IsSeen o r =
        subst (λ x. (r ≡ x) ⊎ (r ≡ seen_remotely x)) (ap (λ p. p.0) here) which in
      (r ∷ rs, rw (at_m, unmoved, at_ns) refl, (answer, rest), ap suc long)

  -- A read of replicas that agree returns what they hold and changes nothing.
  pub read_resolve-seen :
      (m : NodeInfo) (ns : List NodeInfo) (w : World)
      → All (λ n. entry_at key (w n) ≡ o) (m ∷ ns)
      → read_resolve key (make_handles (node_of d info ring replication) (m ∷ ns)) w
        ≡ (value_of (seen o), w)
  unfolding read_resolve
  read_resolve-seen m ns w same =
      let (rs, collected, answers, long) = collect-IsSeen (m ∷ ns) w same in
      ap (λ p. (pick p.0, p.1)) collected ∙ ap (λ v. (v, w)) (picked rs answers long)
    where
      picked :
          (rs : List (Option Versioned))
          → All (IsSeen o) rs
          → length rs ≡ suc (length ns)
          → pick rs ≡ value_of (seen o)
      picked [] answers long = absurd (omega arith)
      picked (r ∷ rs) answers long = pick-seen o r rs h answers
