-- ===== src/Store/Lww/Arrivals.antt =====
-- The same calls at several replicas, where each reads its own clocks: the deadlines of the entries
-- are each replica's own, and the rest of what they hold comes out alike.
use mathlib.Core.List.{Mem, Perm}
use dlstorage.Base.{
  Text, text_eq, ℤ, Option, none, some, List, [], ◌∷◌, map, loop, loop-perm, ◌≡◌, refl, sym, ap,
  ◌∙◌, Bool-cases, inl, inr,
}
use dlstorage.Types.{Value}
use dlstorage.Store.Lww.{Entry, LocalLwwStore, live, tombstone, is_newer}
use dlstorage.Store.Lww.Writes.{entry_at, merge, merge_idem}
use dlstorage.Store.Lww.Converge.{
  Write, set_write, delete_write, apply_all, absorb, take_at, take_at_comm, entry_at-apply_all,
}

-- A call as a node sends it to each of the replicas.
pub data Call : Type 0 where
  set_call : Text → Value → Option ℤ → ℤ → Call
  delete_call : Text → ℤ → Call

abbrev pub call_key : Call → Text
call_key (set_call k value ttl ts) = k
call_key (delete_call k ts) = k

-- What the call writes, but for the deadline.
abbrev pub call_entry : Call → Entry
call_entry (set_call k value ttl ts) = record { slot = live value; expires_at = none; ts = ts }
call_entry (delete_call k ts) = record { slot = tombstone; expires_at = none; ts = ts }

-- A call that reaches a replica, where the clocks show `now` and `clock`.
pub record Arrival : Type 0 where
  pub now : ℤ
  pub clock : ℤ
  pub call : Call

abbrev pub write_of : Arrival → Write
write_of a = elim a.call [
  | set_call k value ttl ts ↦ set_write a.now a.clock k value ttl (some ts)
  | delete_call k ts ↦ delete_write a.clock k (some ts)
]

abbrev pub calls_of : List Arrival → List Call
calls_of arrived = map (λ a. a.call) arrived

abbrev pub received : List Arrival → LocalLwwStore → LocalLwwStore
received arrived s = apply_all (map write_of arrived) s

-- An entry without its deadline.
abbrev pub undated : Option Entry → Option Entry
undated none = none
undated (some e) = some (record e { expires_at = none })

-- Two different calls on one key carry different timestamps.
abbrev pub IsTieFree : List Call → Type 0
IsTieFree cs =
    (c d : Call)
    → Mem c cs
    → Mem d cs
    → call_key c ≡ call_key d
    → (call_entry c).ts ≡ (call_entry d).ts
    → c ≡ d

abbrev pub take_call : Text → Call → Option Entry → Option Entry
take_call j c r = take_at j (call_key c) (call_entry c) r

pub take_call_comm :
    (cs : List Call) (j : Text) (c d : Call) (r : Option Entry)
    → IsTieFree cs
    → Mem c cs
    → Mem d cs
    → take_call j c (take_call j d r) ≡ take_call j d (take_call j c r)
take_call_comm cs j c d r free mc md =
    take_at_comm j (call_key c) (call_key d) (call_entry c) (call_entry d) r
      (λ keys stamps. ap call_entry (free c d mc md keys stamps))

pub take_call_idem :
    (j : Text) (c : Call) (r : Option Entry) → take_call j c (take_call j c r) ≡ take_call j c r
take_call_idem j c r = elim (Bool-cases (text_eq (call_key c) j)) [
  | inl at_j ↦ rw at_j (merge_idem (call_entry c) r)
  | inr other ↦ rw other refl
]

undated-merge :
    (e : Entry) (o : Option Entry)
    → undated (merge e o) ≡ merge (record e { expires_at = none }) (undated o)
undated-merge e none = refl
undated-merge e (some f) = elim (Bool-cases (is_newer (some f) e.ts)) [
  | inl newer ↦ rw newer refl
  | inr older ↦ rw older refl
]

pub undated-absorb :
    (j : Text) (a : Arrival) (o : Option Entry)
    → undated (absorb j (write_of a) o) ≡ take_call j a.call (undated o)
undated-absorb j a o = go a.call
  where
    go :
        (c : Call)
        → undated (absorb j (write_of (record a { call = c })) o) ≡ take_call j c (undated o)
    go (set_call k value ttl ts) = elim (Bool-cases (text_eq k j)) [
      | inl at_j ↦ rw at_j (undated-merge _ o)
      | inr other ↦ rw other refl
    ]
    go (delete_call k ts) = elim (Bool-cases (text_eq k j)) [
      | inl at_j ↦ rw at_j (undated-merge _ o)
      | inr other ↦ rw other refl
    ]

undated-loop :
    (arrived : List Arrival) (j : Text) (o : Option Entry)
    → undated (loop (absorb j) (map write_of arrived) o)
      ≡ loop (take_call j) (calls_of arrived) (undated o)
undated-loop [] j o = refl
undated-loop (a ∷ arrived) j o =
    undated-loop arrived j (absorb j (write_of a) o)
    ∙ ap (loop (take_call j) (calls_of arrived)) (undated-absorb j a o)

pub undated-received :
    (arrived : List Arrival) (j : Text) (s : LocalLwwStore)
    → undated (entry_at j (received arrived s))
      ≡ loop (take_call j) (calls_of arrived) (undated (entry_at j s))
undated-received arrived j s =
    ap undated (entry_at-apply_all (map write_of arrived) j s)
    ∙ undated-loop arrived j (entry_at j s)

-- Two replicas that hold the same at a key, but for its deadline, and receive the same `set` and
-- `delete` calls, each in its own order and with its own clocks, hold the same value or tombstone
-- with the same timestamp there afterwards, but perhaps with other deadlines. The calls carry their
-- timestamps, as those of the nodes do, different calls on one key have different ones, and nothing
-- is read or purged in between.
pub received-perm :
    (vs ws : List Arrival) (s t : LocalLwwStore) (j : Text)
    → Perm (calls_of vs) (calls_of ws)
    → IsTieFree (calls_of vs)
    → undated (entry_at j s) ≡ undated (entry_at j t)
    → undated (entry_at j (received vs s)) ≡ undated (entry_at j (received ws t))
received-perm vs ws s t j p free same =
    undated-received vs j s
    ∙ loop-perm (take_call j) Option_Entry-set (calls_of vs) (calls_of ws) (undated (entry_at j s))
        p (λ c d mc md r. take_call_comm (calls_of vs) j c d r free mc md)
    ∙ ap (loop (take_call j) (calls_of ws)) same
    ∙ sym (undated-received ws j t)
  where
    Option_Entry-set : IsSet (Option Entry)
    Option_Entry-set = hlevel
