-- ===== src/Node/Cluster/Traced/Seen.antt =====
-- What a reader is told, and what the resolver makes of it, has been set.
use mathlib.Core.Path.{subst}
use dlstorage.Base.{
  Text, ℤ, pos, ltb_ℤ, true, false, Option, none, some, List, [], ◌∷◌, All, loop, ◌||◌, ◌≡◌, ◌⊎◌,
  refl, arith, Bool-cases, inl, inr,
}
use dlstorage.Types.{null}
use dlstorage.Store.{is_past}
use dlstorage.Store.Lww
use dlstorage.Store.Lww.{LocalLwwStore, Entry, Slot, live, tombstone, Versioned, value_of, is_newer}
use dlstorage.Store.Lww.Writes.{entry_at}
use dlstorage.Store.Lww.Reads.{view, get_versioned-eq-view}
use dlstorage.Consistency.Lww.{Best, no_best, consider, chosen, pick}
use dlstorage.Node.Handles.Remote.{seen_remotely}
use dlstorage.Node.Cluster.Traced.{History, WasSet}
use dlstorage.Node.Cluster.Traced.Sources.{IsHeld, IsSourced}

-- What a reader is told: nothing, a tombstone, or a value that has been set.
abbrev pub IsSeen : Text → History → Option Versioned → Type 0
IsSeen key h none = Unit
IsSeen key h (some (value, ts, dead)) = (dead ≡ true) ⊎ (value ≡ null) ⊎ WasSet key value h

view-IsSeen :
    (now : ℤ) (key : Text) (h : History) (o : Option Entry)
    → IsHeld key h o
    → IsSeen key h (view now o)
view-IsSeen now key h none held = tt
view-IsSeen now key h (some e) held = go e.slot refl held
  where
    go : (slot : Slot) → e.slot ≡ slot → IsHeld key h (some e) → IsSeen key h (view now (some e))
    go tombstone dead held = rw dead (inl refl)
    go (live value) alive held = elim (Bool-cases (is_past now e.expires_at)) [
      | inl past ↦ rw (alive, past) tt
      | inr current ↦
          let was : WasSet key value h =
            subst
              (λ slot. elim slot as (λ s. Type 0) [ tombstone ↦ Unit | live v ↦ WasSet key v h ])
              alive held in
          rw (alive, current) (inr (inr was))
    ]

seen_remotely-IsSeen :
    (key : Text) (h : History) (r : Option Versioned)
    → IsSeen key h r
    → IsSeen key h (seen_remotely r)
seen_remotely-IsSeen key h none seen = tt
seen_remotely-IsSeen key h (some (value, ts, false)) seen = seen
seen_remotely-IsSeen key h (some (value, ts, true)) seen = elim (Bool-cases (ltb_ℤ (pos 0) ts)) [
  | inl positive ↦ rw positive (inl refl)
  | inr negative ↦ rw negative tt
]

pub get_versioned-IsSeen :
    (now : ℤ) (key : Text) (h : History) (s : LocalLwwStore) (r : Option Versioned)
    → IsSourced h s
    → (r ≡ (Lww.get_versioned now key s).0) ⊎ (r ≡ seen_remotely (Lww.get_versioned now key s).0)
    → IsSeen key h r
get_versioned-IsSeen now key h s r held which = elim which [
  | inl same ↦ rw same near
  | inr same ↦ rw same (seen_remotely-IsSeen key h (Lww.get_versioned now key s).0 near)
]
  where
    near : IsSeen key h (Lww.get_versioned now key s).0
    near = rw (get_versioned-eq-view now key s) (view-IsSeen now key h (entry_at key s) (held key))

consider-IsSeen :
    (key : Text) (h : History) (rs : List (Option Versioned)) (best : Best)
    → All (IsSeen key h) rs
    → IsSeen key h (some (best.value, best.ts, best.is_tombstone))
    → let b = loop consider rs best in IsSeen key h (some (b.value, b.ts, b.is_tombstone))
consider-IsSeen key h [] best seen b = b
consider-IsSeen key h (none ∷ rs) best seen b = consider-IsSeen key h rs best seen.1 b
consider-IsSeen key h (some (value, ts, dead) ∷ rs) best seen b =
    consider-IsSeen key h rs (consider (some (value, ts, dead)) best) seen.1
      (elim (Bool-cases (ltb_ℤ best.ts ts)) [
        | inl newer ↦ rw newer seen.0
        | inr older ↦ rw older b
      ])

-- The resolver makes no value up.
pub pick-IsSeen :
    (key : Text) (h : History) (rs : List (Option Versioned))
    → All (IsSeen key h) rs
    → (pick rs ≡ null) ⊎ WasSet key (pick rs) h
unfolding pick
pick-IsSeen key h rs seen =
    go (loop consider rs no_best) (consider-IsSeen key h rs no_best seen (inr (inl refl)))
  where
    go :
        (b : Best)
        → IsSeen key h (some (b.value, b.ts, b.is_tombstone))
        → (chosen b ≡ null) ⊎ WasSet key (chosen b) h
    go b (inl dead) = inl (ground (arith, dead))
    go b (inr (inl nothing)) = inl (ground (arith, nothing))
    go b (inr (inr was)) = elim (Bool-cases (ltb_ℤ b.ts (pos 0) || b.is_tombstone)) [
      | inl void ↦ inl (rw void refl)
      | inr shown ↦ inr (rw shown was)
    ]

pub value_of-IsSeen :
    (key : Text) (h : History) (r : Option Versioned)
    → IsSeen key h r
    → (value_of r ≡ null) ⊎ WasSet key (value_of r) h
value_of-IsSeen key h none seen = inl refl
value_of-IsSeen key h (some (value, ts, true)) seen = inl refl
value_of-IsSeen key h (some (value, ts, false)) (inr seen) = seen
value_of-IsSeen key h (some (value, ts, false)) (inl alive) = ground (arith, alive)
