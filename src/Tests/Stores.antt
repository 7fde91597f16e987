-- ===== src/Tests/Stores.antt =====
-- The stores on small inputs.
use mathlib.Core.List.Perm
use mathlib.Core.Quot.{Quot}
use dlstorage.Base.{
  pos, Text, codes, text_eq, true, false, none, some, List, [], ◌∷◌, ◌≡◌, refl, arith, is_in, map,
}
use dlstorage.Dict
use dlstorage.Types.{Value, null}
use dlstorage.Store.Basic
use dlstorage.Store.Basic.Refine
use dlstorage.Store.Basic.Refine.{Timed}
use dlstorage.Store.Lww
use dlstorage.Store.Lww.{
  LocalLwwStore, Entry, live, tombstone, set, get, get_versioned, delete, keys, scan, scan_keys,
  purge_expired, flush_keys, is_expired, init,
}
use dlstorage.Store.Lww.Invariant.{IsValid}
use dlstorage.Store.Lww.Writes.{entry_at}
use dlstorage.Store.Lww.Converge.{Write, delete_write, apply_all}
use dlstorage.Store.Lww.Arrivals.{
  Call, set_call, delete_call, call_entry, Arrival, received, undated, IsTieFree, received-perm,
}
use dlstorage.Store.Lww.Reads.{stale_set_refused, scan_lem}
use dlstorage.Store.Lww.Replica
use dlstorage.Node.Background.{Event, wake, read, write, reads, requests}
use dlstorage.Node.Background.Unseen.{reads-requests}
use dlstorage.Tests.Pairs.{pair_injective}
use dlstorage.Tests.Samples.{stocked, seven}

abbrev x_key : Text
x_key = codes "x"

abbrev y_key : Text
y_key = codes "y"

stocked-IsValid : IsValid stocked
unfolding Dict.get text_eq
stocked-IsValid = (refl, (refl, (refl, tt)))

keys-stocked : keys (pos 9) stocked ≡ x_key ∷ y_key ∷ []
unfolding keys Dict.select
keys-stocked = refl

expired-stocked : (get (pos 11) y_key stocked).0 ≡ null
unfolding get get_versioned Dict.get text_eq
expired-stocked = refl

abbrev put_call : Call
put_call = set_call x_key seven (some (pos 4)) (pos 1)

abbrev drop_call : Call
drop_call = delete_call x_key (pos 2)

abbrev drop_x : Write
drop_x = delete_write (pos 0) x_key (some (pos 2))

-- The clocks of two replicas.
abbrev here : Call → Arrival
here c = record { now = pos 0; clock = pos 0; call = c }

abbrev there : Call → Arrival
there c = record { now = pos 3; clock = pos 8; call = c }

two_calls-IsTieFree : IsTieFree (put_call ∷ drop_call ∷ [])
two_calls-IsTieFree = λ c d mc md _ same.
    pair_injective Call-set (λ u. (call_entry u).ts) put_call drop_call (λ e. cc) c d mc md same
  where
    Call-set : IsSet Call
    Call-set = hlevel

received-perm_example :
    undated (entry_at x_key (received (here put_call ∷ here drop_call ∷ []) init))
    ≡ undated (entry_at x_key (received (there drop_call ∷ there put_call ∷ []) init))
received-perm_example =
    received-perm (here put_call ∷ here drop_call ∷ []) (there drop_call ∷ there put_call ∷ []) init
      init x_key (Perm.swap drop_call put_call []) two_calls-IsTieFree refl

-- A write that is older than a delete comes late.
stale_set_refused_example :
    set (pos 0) (pos 0) x_key seven none (some (pos 1)) (apply_all (drop_x ∷ []) init)
    ≡ (false, apply_all (drop_x ∷ []) init)
stale_set_refused_example =
    stale_set_refused drop_x [] init (pos 0) (pos 0) seven none (some (pos 1)) (omega arith)

scan_lem_example :
    (map (λ x. x.0) (scan (pos 9) [] stocked) ≡ scan_keys (pos 9) [] stocked)
    × ((k : Text) (value : Value)
        → Dict.get k (scan (pos 9) [] stocked) ≡ some value
        → (is_in [] k ≡ true) × ((get (pos 9) k stocked).0 ≡ value))
scan_lem_example = scan_lem (pos 9) [] stocked stocked-IsValid

abbrev session : List Timed
session =
    record { now = pos 0; clock = pos 1; request = Refine.Request.set x_key seven (some (pos 5)) }
    ∷ record { now = pos 2; clock = pos 3; request = Refine.Request.delete x_key }
    ∷ record { now = pos 3; clock = pos 3; request = Refine.Request.get x_key }
    ∷ []

-- A value that lives for two ticks is written, purged after its deadline, and then read.
abbrev purged_between : List Event
purged_between =
    write (pos 1) (pos 5) x_key seven (some (pos 2)) none ∷ wake (pos 4) ∷ read (pos 5) x_key ∷ []

reads-requests_example : reads purged_between init ≡ reads (requests purged_between) init
unfolding Dict.get
reads-requests_example =
    reads-requests purged_between (pos 0) (pos 0) init
      (ground arith, (ground arith, (ground arith, tt))) tt (λ k. refl)
