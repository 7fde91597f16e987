-- ===== src/Consistency/Lww.antt =====
-- dlstorage/consistency/lww.py: the answer with the greatest timestamp wins.
pub mod Newest
pub mod Missed
use dlstorage.Base.{
  ℤ, pos, negsuc, ltb_ℤ, Text, Bool, true, false, ◌||◌, Option, none, some, List, [], ◌∷◌, loop,
  map, if◌then◌else◌, ◌≡◌, refl, ap,
}
use dlstorage.Result.{Result, ok, raise, catch}
use dlstorage.Types.{Value, null}
use dlstorage.Store.Lww.{Versioned}
use dlstorage.Handle.{ReplicaHandle, Answer, returned, raised, cancelled}

-- The first loop of `read_resolve`: every replica is asked, and an exception counts as no answer.
unfoldable pub collect :
    {S : Type 0} → Text → List (ReplicaHandle S) → S → List (Option Versioned) × S
collect key [] s = ([], s)
collect key (h ∷ hs) s =
    let (r, s') = h.get_versioned key s in
    let (results, s'') = collect key hs s' in (catch none r ∷ results, s'')

-- `best_value, best_ts, best_tombstone`
pub record Best : Type 0 where
  pub value : Value
  pub ts : ℤ
  pub is_tombstone : Bool

abbrev pub no_best : Best
no_best = record { value = null; ts = negsuc 0; is_tombstone = false }

-- The body of the second loop.
abbrev pub consider : Option Versioned → Best → Best
consider none best = best
consider (some (value, ts, is_tombstone)) best =
    if ltb_ℤ best.ts ts
    then record { value = value; ts = ts; is_tombstone = is_tombstone }
    else best

-- `None if (best_ts < 0 or best_tombstone) else best_value`
abbrev pub chosen : Best → Value
chosen best = if ltb_ℤ best.ts (pos 0) || best.is_tombstone then null else best.value

unfoldable pub pick : List (Option Versioned) → Value
pick results = chosen (loop consider results no_best)

unfoldable pub read_resolve : {S : Type 0} → Text → List (ReplicaHandle S) → S → Value × S
unfolding collect
read_resolve key hs s = let (results, s') = collect key hs s in (pick results, s')

-- The inner `get_versioned` of the async version: an `Exception` becomes `None`.
guarded : Answer (Option Versioned) → Answer (Option Versioned)
guarded (returned r) = returned r
guarded raised = returned none
guarded cancelled = cancelled

consider_answer : Answer (Option Versioned) → Best → Best
consider_answer (returned r) best = consider r best
consider_answer raised best = best
consider_answer cancelled best = best

-- The async version, from what `gather` hands back: one answer for each replica, in their order.
unfoldable pub async_read_resolve : List (Answer (Option Versioned)) → Value
unfolding guarded consider_answer
async_read_resolve answers = chosen (loop consider_answer (map guarded answers) no_best)

-- What an answer is worth to the sync version.
abbrev pub worth : Answer (Option Versioned) → Option Versioned
worth (returned r) = r
worth raised = none
worth cancelled = none

loop-answers :
    (answers : List (Answer (Option Versioned))) (best : Best)
    → loop consider_answer (map guarded answers) best ≡ loop consider (map worth answers) best
unfolding guarded consider_answer
loop-answers [] best = refl
loop-answers (returned r ∷ answers) best = loop-answers answers (consider r best)
loop-answers (raised ∷ answers) best = loop-answers answers best
loop-answers (cancelled ∷ answers) best = loop-answers answers best

-- The async resolver returns what the sync one picks from the same answers, a replica that raised
-- or was cancelled counting as one with no entry.
pub async_read_resolve-eq-pick :
    (answers : List (Answer (Option Versioned)))
    → async_read_resolve answers ≡ pick (map worth answers)
unfolding pick async_read_resolve
async_read_resolve-eq-pick answers = ap chosen (loop-answers answers no_best)
