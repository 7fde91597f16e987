-- ===== src/Node/Cluster/Concurrent/Settle.antt =====
-- What an entry becomes once the calls that run have gone to all their replicas.
use mathlib.Core.List.{Mem}
use dlstorage.Base.{
  Text, text_eq, text_eq_iff, Bytes, ℤ, Bool, true, false, Option, List, [], ◌∷◌, ◌++◌, All, map,
  any, loop, if◌then◌else◌, ◌≡◌, refl, ap, sym, ◌∙◌, Bool-cases, inl, inr,
}
use dlstorage.Types.{NodeInfo, node_eq}
use dlstorage.Store.Lww.{Entry}
use dlstorage.Store.Lww.Converge.{write_key, write_entry, absorb, absorb_comm, absorb_idem}
use dlstorage.Node.Cluster.Concurrent.{
  Work, setting, deleting, Thread, work_key, work_ts, write_of, begin_call,
}
use dlstorage.Ring.{RendezvousRing, get_nodes}

-- Two different calls on one key have different timestamps.
abbrev pub IsTieFree : List Work → Type 0
IsTieFree works =
    (v w : Work)
    → Mem v works
    → Mem w works
    → work_key v ≡ work_key w
    → work_ts v ≡ work_ts w
    → v ≡ w

write_key-write_of : (now clock : ℤ) (w : Work) → write_key (write_of now clock w) ≡ work_key w
write_key-write_of now clock (setting info key value ts) = refl
write_key-write_of now clock (deleting info key ts) = refl

write_ts-write_of : (now clock : ℤ) (w : Work) → (write_entry (write_of now clock w)).ts ≡ work_ts w
write_ts-write_of now clock (setting info key value ts) = refl
write_ts-write_of now clock (deleting info key ts) = refl

-- The entry of the node `n` for the key `k`, in a run whose single store has the given clocks.
module _ (now clock : ℤ) (n : NodeInfo) (k : Text) where
  abbrev pub absorb_work : Work → Option Entry → Option Entry
  absorb_work work o = absorb k (write_of now clock work) o

  abbrev pub absorb_at : Work → NodeInfo → Option Entry → Option Entry
  absorb_at work m o = if node_eq m n then absorb_work work o else o

  unfoldable pub settle_thread : Thread → Option Entry → Option Entry
  settle_thread t o = loop (absorb_at t.work) t.left o

  unfoldable pub settle : List Thread → Option Entry → Option Entry
  settle ts o = loop settle_thread ts o

  absorb_work_idem :
      (w : Work) (o : Option Entry) → absorb_work w (absorb_work w o) ≡ absorb_work w o
  absorb_work_idem w o = absorb_idem k (write_of now clock w) o

  absorb_work_comm :
      (works : List Work) (v w : Work) (o : Option Entry)
      → IsTieFree works
      → Mem v works
      → Mem w works
      → absorb_work v (absorb_work w o) ≡ absorb_work w (absorb_work v o)
  absorb_work_comm works v w o h mv mw =
      absorb_comm k (write_of now clock v) (write_of now clock w) o (λ key ts.
        ap (write_of now clock) (
          h v w mv mw (sym (write_key-write_of now clock v) ∙ key ∙ write_key-write_of now clock w)
            (sym (write_ts-write_of now clock v) ∙ ts ∙ write_ts-write_of now clock w)))

  absorb_at_comm :
      (works : List Work) (v w : Work) (a b : NodeInfo) (o : Option Entry)
      → IsTieFree works
      → Mem v works
      → Mem w works
      → absorb_at v a (absorb_at w b o) ≡ absorb_at w b (absorb_at v a o)
  absorb_at_comm works v w a b o h mv mw = elim (Bool-cases (node_eq a n)) [
    | inr other ↦ rw other refl
    | inl at_a ↦ elim (Bool-cases (node_eq b n)) [
      | inr other ↦ rw other refl
      | inl at_b ↦ rw (at_a, at_b) (absorb_work_comm works v w o h mv mw)
    ]
  ]

  -- A step of one call passes the steps of the calls before it.
  module _ (works : List Work) (h : IsTieFree works) (v : Work) (mv : Mem v works)
      (a : NodeInfo) where
    visits_comm :
        (w : Work) (left : List NodeInfo) (o : Option Entry)
        → Mem w works
        → loop (absorb_at w) left (absorb_at v a o) ≡ absorb_at v a (loop (absorb_at w) left o)
    visits_comm w [] o mw = refl
    visits_comm w (b ∷ left) o mw =
        ap (loop (absorb_at w) left) (absorb_at_comm works w v b a o h mw mv)
        ∙ visits_comm w left (absorb_at w b o) mw

    visits_middle :
        (ls rs : List NodeInfo) (o : Option Entry)
        → loop (absorb_at v) (ls ++ (a ∷ rs)) o ≡ loop (absorb_at v) (ls ++ rs) (absorb_at v a o)
    visits_middle [] rs o = refl
    visits_middle (b ∷ ls) rs o =
        visits_middle ls rs (absorb_at v b o)
        ∙ ap (loop (absorb_at v) (ls ++ rs)) (absorb_at_comm works v v a b o h mv mv)

    -- What the entry becomes does not depend on when a step is taken.
    pub settle-step :
        (before after : List Thread) (ls rs : List NodeInfo) (o : Option Entry)
        → All (λ t. Mem t.work works) before
        → settle (before ++ (record { work = v; left = ls ++ (a ∷ rs) } ∷ after)) o
          ≡ settle (before ++ (record { work = v; left = ls ++ rs } ∷ after)) (absorb_at v a o)
    unfolding settle settle_thread
    settle-step [] after ls rs o known = ap (settle after) (visits_middle ls rs o)
    settle-step (t ∷ before) after ls rs o known =
        settle-step before after ls rs (settle_thread t o) known.1
        ∙ ap (settle (before ++ (record { work = v; left = ls ++ rs } ∷ after)))
            (sym (visits_comm t.work t.left o known.0))

  -- Calls that have gone to all their replicas change nothing more.
  pub settle-done :
      (ts : List Thread) (o : Option Entry) → All (λ t. t.left ≡ []) ts → settle ts o ≡ o
  unfolding settle settle_thread
  settle-done [] o done = refl
  settle-done (t ∷ ts) o done = rw done.0 (settle-done ts o done.1)

  -- A call that has still to go to the node changes its entry once, however often it goes there.
  visits-any :
      (w : Work) (left : List NodeInfo) (o : Option Entry)
      → loop (absorb_at w) left o ≡ (if any (λ m. node_eq m n) left then absorb_work w o else o)
  visits-any w [] o = refl
  visits-any w (m ∷ left) o =
      visits-any w left (absorb_at w m o) ∙ elim (Bool-cases (node_eq m n)) [
        | inr other ↦ rw other refl
        | inl same ↦ rw same (elim (Bool-cases (any (λ b. node_eq b n) left)) [
          | inr once ↦ rw once refl
          | inl again ↦ rw again (absorb_work_idem w o)
        ])
      ]

  -- A call that has gone nowhere yet.
  settle_begun :
      (replicas : Text → List NodeInfo) (w : Work) (o : Option Entry)
      → any (λ m. node_eq m n) (replicas k) ≡ true
      → loop (absorb_at w) (replicas (work_key w)) o ≡ absorb_work w o
  settle_begun replicas w o kept =
      visits-any w (replicas (work_key w)) o
      ∙ elim (Bool-cases (text_eq (write_key (write_of now clock w)) k)) [
        | inr other ↦ rw other (if_same (any (λ m. node_eq m n) (replicas (work_key w))))
        | inl same ↦
            let at_k : work_key w ≡ k =
              sym (write_key-write_of now clock w)
              ∙ (text_eq_iff (write_key (write_of now clock w)) k).0 same in
            rw (at_k, kept) refl
      ]
    where
      if_same : (b : Bool) → (if b then o else o) ≡ o
      if_same true = refl
      if_same false = refl

  -- Calls that begin, at a replica of the key: it is to receive them all.
  pub settle-start :
      (sha256 : Text → Bytes) (ring : RendezvousRing) (replication : ℤ) (works : List Work)
      (o : Option Entry)
      → any (λ m. node_eq m n) (get_nodes sha256 k replication ring) ≡ true
      → settle (map (begin_call sha256 ring replication) works) o
        ≡ loop (absorb k) (map (write_of now clock) works) o
  unfolding settle settle_thread
  settle-start sha256 ring replication [] o kept = refl
  settle-start sha256 ring replication (w ∷ works) o kept =
      settle-start sha256 ring replication works _ kept
      ∙ ap (loop (absorb k) (map (write_of now clock) works))
          (settle_begun (λ key. get_nodes sha256 key replication ring) w o kept)
