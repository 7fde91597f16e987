-- ===== src/Node/Cluster/Traced/Calls.antt =====
-- Calls in any circumstances keep every stored value one that has been set.
use mathlib.Core.Path.{subst}
use dlstorage.Base.{
  any, Text, ℤ, Bytes, Bool, Option, none, List, [], ◌∷◌, All, map, ◌≡◌, ◌⊎◌, refl, sym, ◌∙◌,
  Bool-cases, inl, inr,
}
use dlstorage.Result.{Result, ok, raise, catch}
use dlstorage.Action.{Action, continue, pure, ◌>>=◌, bind_pure_state}
use dlstorage.Types.{NodeInfo, Value, null}
use dlstorage.Handle.{ReplicaHandle}
use dlstorage.Store.Lww
use dlstorage.Store.Lww.{Versioned, LocalLwwStore, value_of, Entry, Slot, live, tombstone}
use dlstorage.Consistency.Lww.{collect, read_resolve}
use dlstorage.Node.Handles.{local_handle}
use dlstorage.Node.Storage.{call_all, set_on, get_from, delete_on, make_handles}
use dlstorage.Node.Cluster.{World}
use dlstorage.Node.Cluster.Through.{handle-set, handle-delete, handle-get}
use dlstorage.Node.Cluster.Outage.{reaches, handle, handle_reached, handle_cut}
use dlstorage.Node.Cluster.Traced.{Site, node_at, History, WasSet}
use dlstorage.Node.Cluster.Traced.Sources.{
  AllSourced, place-AllSourced, set-IsSourced, delete-IsSourced, get-IsSourced,
}
use dlstorage.Node.Cluster.Traced.Seen.{IsSeen, get_versioned-IsSeen, pick-IsSeen, value_of-IsSeen}

abbrev handle_at : Site → Text → NodeInfo → ReplicaHandle World
handle_at x key = handle x.up x.clocks x.info x.ring x.replication key

-- A loop of calls, each of which keeps a property of the world, keeps it, whether one raises or not.
call_all-keeps :
    (P : World → Type 0) (f : ReplicaHandle World → Action World Bool)
    (handle_of : NodeInfo → ReplicaHandle World)
    → ((n : NodeInfo) (w : World) → P w → P (f (handle_of n) w).1)
    → (ns : List NodeInfo) (w : World) → P w
    → P (call_all f (map handle_of ns) w).1
unfolding call_all
call_all-keeps P f handle_of keep [] w h = h
call_all-keeps P f handle_of keep (n ∷ ns) w h =
    go (f (handle_of n) w).0 (f (handle_of n) w).1 (keep n w h)
      (λ v k. call_all-keeps P f handle_of keep ns v k)
  where
    go :
        (r : Result Bool) (v : World)
        → P v
        → ((v : World) → P v → P (call_all f (map handle_of ns) v).1)
        → P (continue r (λ b. call_all f (map handle_of ns) >>= λ bs. pure (b ∷ bs)) v).1
    go (ok b) v k rest =
        rw (bind_pure_state (call_all f (map handle_of ns)) (λ bs. b ∷ bs) v) (rest v k)
    go (raise e) v k rest = k

module _ (sha256 : Text → Bytes) (x : Site) (key : Text) (h : History) where
  set-AllSourced_at :
      (value : Value) (ttl : Option ℤ) (ts : ℤ)
      → WasSet key value h
      → (n : NodeInfo) (w : World) → AllSourced h w
      → AllSourced h ((handle_at x key n).set key value ttl ts w).1
  set-AllSourced_at value ttl ts was n w held = elim (Bool-cases (reaches x.up x.info n)) [
    | inr cut ↦
        rw (handle_cut x.up x.clocks x.info x.ring x.replication key n value ttl ts w cut).0 held
    | inl reached ↦
        let (b, called, _) = handle-set x.clocks x.info x.ring x.replication key n value ttl ts w in
        rw
          ((handle_reached x.up x.clocks x.info x.ring x.replication key n value ttl ts w reached).0
            ∙ called)
          (place-AllSourced h n _ w
            (set-IsSourced (x.clocks.now n) (x.clocks.clock n) key value ttl ts h (w n) was
              (held n))
            held)
  ]

  delete-AllSourced_at :
      (ts : ℤ) (n : NodeInfo) (w : World)
      → AllSourced h w
      → AllSourced h ((handle_at x key n).delete key ts w).1
  delete-AllSourced_at ts n w held = elim (Bool-cases (reaches x.up x.info n)) [
    | inr cut ↦
        rw (handle_cut x.up x.clocks x.info x.ring x.replication key n null none ts w cut).2 held
    | inl reached ↦
        rw
          ((handle_reached x.up x.clocks x.info x.ring x.replication key n null none ts w reached).2
            ∙ handle-delete x.clocks x.info x.ring x.replication key n ts w)
          (place-AllSourced h n _ w (delete-IsSourced (x.clocks.clock n) key ts h (w n) (held n))
            held)
  ]

  get_at :
      (n : NodeInfo) (w : World)
      → AllSourced h w
      → (r : Option Versioned) × (w' : World) × ((handle_at x key n).get_versioned key w
          ≡ (ok r, w'))
        × IsSeen key h r
        × AllSourced h w'
  get_at n w held = elim (Bool-cases (reaches x.up x.info n)) [
    | inr cut ↦ (
      none,
      w,
      (handle_cut x.up x.clocks x.info x.ring x.replication key n null none (x.replication) w
          cut).1,
      tt,
      held,
    )
    | inl reached ↦
        let (r, called, which) = handle-get x.clocks x.info x.ring x.replication key n w in
        (
          r,
          _,
          (handle_reached x.up x.clocks x.info x.ring x.replication key n null none (x.replication)
                w reached).1
              ∙ called,
          get_versioned-IsSeen (x.clocks.now n) key h (w n) r (held n) which,
          place-AllSourced h n _ w (get-IsSourced (x.clocks.now n) key h (w n) (held n)) held,
        )
  ]

  collect_at :
      (ns : List NodeInfo) (w : World)
      → AllSourced h w
      → All (IsSeen key h) (collect key (make_handles (node_at x) ns) w).0
        × AllSourced h (collect key (make_handles (node_at x) ns) w).1
  unfolding collect
  collect_at [] w held = (tt, held)
  collect_at (n ∷ ns) w held =
      let (r, w', called, seen, held') = get_at n w held in
      let (rest, last) = collect_at ns w' held' in
      subst
        (λ p.
          let after = collect key (make_handles (node_at x) ns) p.1 in
          All (IsSeen key h) (catch none p.0 ∷ after.0) × AllSourced h after.1)
        (sym called) ((seen, rest), last)

  pub set_on-AllSourced :
      (value : Value) (ttl : Option ℤ) (ts : ℤ) (w : World) (ns : List NodeInfo)
      → WasSet key value h
      → AllSourced h w
      → AllSourced h (set_on sha256 (node_at x) key value ttl ts ns w).1
  unfolding set_on local_handle
  set_on-AllSourced value ttl ts w [] was held =
      place-AllSourced h x.info _ w
        (set-IsSourced (x.clocks.now x.info) (x.clocks.clock x.info) key value ttl ts h (w x.info)
          was (held x.info))
        held
  set_on-AllSourced value ttl ts w (n ∷ ns) was held =
      rw
        (bind_pure_state
          (call_all (λ r. r.set key value ttl ts) (make_handles (node_at x) (n ∷ ns)))
          (any (λ r. r)) w)
        (call_all-keeps (AllSourced h) (λ r. r.set key value ttl ts) (handle_at x key)
          (set-AllSourced_at value ttl ts was) (n ∷ ns) w held)

  pub delete_on-AllSourced :
      (ts : ℤ) (w : World) (ns : List NodeInfo)
      → AllSourced h w
      → AllSourced h (delete_on sha256 (node_at x) key ts ns w).1
  unfolding delete_on local_handle
  delete_on-AllSourced ts w [] held =
      place-AllSourced h x.info _ w
        (delete-IsSourced (x.clocks.clock x.info) key ts h (w x.info) (held x.info)) held
  delete_on-AllSourced ts w (n ∷ ns) held =
      rw
        (bind_pure_state (call_all (λ r. r.delete key ts) (make_handles (node_at x) (n ∷ ns)))
          (any (λ r. r)) w)
        (call_all-keeps (AllSourced h) (λ r. r.delete key ts) (handle_at x key)
          (delete-AllSourced_at ts) (n ∷ ns) w held)

  -- What a read shows, and that it keeps the stores sourced.
  abbrev pub IsSound : Value × World → Type 0
  IsSound (value, w) = ((value ≡ null) ⊎ WasSet key value h) × AllSourced h w

  pub get_from-IsSound :
      (w : World) (ns : List NodeInfo)
      → AllSourced h w
      → IsSound (get_from sha256 (node_at x) key ns w)
  unfolding get_from read_resolve Lww.get
  get_from-IsSound w [] held =
      let now : ℤ = x.clocks.now x.info in
      let s : LocalLwwStore = w x.info in
      (
        value_of-IsSeen key h (Lww.get_versioned now key s).0 (
            get_versioned-IsSeen now key h s (Lww.get_versioned now key s).0 (held x.info)
              (inl refl)),
        place-AllSourced h x.info _ w (get-IsSourced now key h s (held x.info)) held,
      )
  get_from-IsSound w (n ∷ ns) held =
      let (seen, last) = collect_at (n ∷ ns) w held in (pick-IsSeen key h _ seen, last)
