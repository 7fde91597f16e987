-- ===== src/Node/Cluster/Traced/Runs.antt =====
-- Runs of calls on a cluster in which anything may be amiss.
use dlstorage.Base.{Text, Bytes, Option, none, some, List, [], ◌∷◌, refl, inl, inr}
use dlstorage.Types.{Value}
use dlstorage.Dict
use dlstorage.Ring.{get_nodes}
use dlstorage.Store.Lww
use dlstorage.Store.Lww.{Versioned, LocalLwwStore, value_of, Entry, Slot, live, tombstone}
use dlstorage.Store.Lww.Writes.{entry_at}
use dlstorage.Node.Storage.{set, delete, get}
use dlstorage.Node.Cluster.{World}
use dlstorage.Node.Cluster.Traced.{Call, set_call, delete_call, get_call, History, WasSet, IsTraced}
use dlstorage.Node.Cluster.Traced.Sources.{IsHeld, AllSourced}
use dlstorage.Node.Cluster.Traced.Calls.{set_on-AllSourced, delete_on-AllSourced, get_from-IsSound}

-- The stores stay sourced when more has been set.
more-IsHeld :
    (key k : Text) (value : Value) (h : History) (o : Option Entry)
    → IsHeld k h o
    → IsHeld k ((key, value) ∷ h) o
more-IsHeld key k value h none held = tt
more-IsHeld key k value h (some e) held = go e.slot held
  where
    go :
        (slot : Slot)
        → elim slot as (λ s. Type 0) [ tombstone ↦ Unit | live v ↦ WasSet k v h ]
        → elim slot as (λ s. Type 0) [ tombstone ↦ Unit | live v ↦ WasSet k v ((key, value) ∷ h) ]
    go tombstone held = tt
    go (live v) held = inr held

-- However the calls on a cluster run, a read returns nothing or a value that has been set for its
-- key before.
calls-IsTraced :
    (sha256 : Text → Bytes) (calls : List Call) (h : History) (w : World)
    → AllSourced h w
    → IsTraced sha256 calls h w
unfolding set delete get
calls-IsTraced sha256 [] h w held = tt
calls-IsTraced sha256 (set_call x key value ttl ts ∷ calls) h w held =
    calls-IsTraced sha256 calls ((key, value) ∷ h) _ (
      set_on-AllSourced sha256 x key ((key, value) ∷ h) value ttl ts w
        (get_nodes sha256 key x.replication x.ring) (inl (refl, refl))
        (λ n k. more-IsHeld key k value h (entry_at k (w n)) (held n k)))
calls-IsTraced sha256 (delete_call x key ts ∷ calls) h w held =
    calls-IsTraced sha256 calls h _
      (delete_on-AllSourced sha256 x key h ts w (get_nodes sha256 key x.replication x.ring) held)
calls-IsTraced sha256 (get_call x key ∷ calls) h w held =
    let (good, last) =
      get_from-IsSound sha256 x key h w (get_nodes sha256 key x.replication x.ring) held in
    (good, calls-IsTraced sha256 calls h _ last)

-- Calls on a cluster that starts empty, at any nodes, with any clocks, rings, times to live and
-- timestamps, and with whichever peers out of reach: every read returns `None` or a value that an
-- earlier call set for the same key.
pub reads-IsTraced :
    (sha256 : Text → Bytes) (calls : List Call) → IsTraced sha256 calls [] (λ n. Lww.init)
unfolding Dict.get
reads-IsTraced sha256 calls = calls-IsTraced sha256 calls [] (λ n. Lww.init) (λ n k. tt)
