-- ===== src/Consistency/Fhw.antt =====
-- dlstorage/consistency/fhw.py: the first replica that has a live value decides.
use dlstorage.Base.{Text, Option, none, some, List, [], ◌∷◌, ◌++◌, if◌then◌else◌, ◌≡◌, refl}
use dlstorage.Result.{Result, ok, raise}
use dlstorage.Types.{Value, null}
use dlstorage.Store.Lww.{Versioned}
use dlstorage.Handle.{ReplicaHandle, Answer, returned, raised, cancelled}

-- The value that ends the loop: that of an answer which is neither `None` nor a tombstone.
abbrev pub live_value : Result (Option Versioned) → Option Value
live_value (raise e) = none
live_value (ok none) = none
live_value (ok (some (value, ts, is_tombstone))) = if is_tombstone then none else some value

-- The early return of the loop.
abbrev settle : {S : Type 0} → Option Value → S → Value × S → Value × S
settle (some value) s rest = (value, s)
settle none s rest = rest

unfoldable pub read_resolve : {S : Type 0} → Text → List (ReplicaHandle S) → S → Value × S
read_resolve key [] s = (null, s)
read_resolve key (h ∷ hs) s =
    let (r, s') = h.get_versioned key s in settle (live_value r) s' (read_resolve key hs s')

-- The async version awaits one replica after the other; a cancellation ends it with no value.
unfoldable pub async_read_resolve : List (Answer (Option Versioned)) → Answer Value
async_read_resolve [] = returned null
async_read_resolve (cancelled ∷ answers) = cancelled
async_read_resolve (raised ∷ answers) = async_read_resolve answers
async_read_resolve (returned none ∷ answers) = async_read_resolve answers
async_read_resolve (returned (some (value, ts, is_tombstone)) ∷ answers) =
    let rest = async_read_resolve answers in if is_tombstone then rest else returned value

-- The replicas of the list, asked in turn from `s` to `s'`, have no live value for the key.
pub data Misses {S : Type 0} (key : Text) : List (ReplicaHandle S) → S → S → Type 0 where
  nobody : {s : S} → Misses key [] s s
  miss :
      {h : ReplicaHandle S} {hs : List (ReplicaHandle S)} {s s' : S}
      → live_value (h.get_versioned key s).0 ≡ none
      → Misses key hs (h.get_versioned key s).1 s'
      → Misses key (h ∷ hs) s s'

-- Behind replicas that have no live value, the first that has one gives the result, and no
-- replica after it is asked: the state is that after its answer.
pub read_resolve_first_hit :
    {S : Type 0} (key : Text) (before after : List (ReplicaHandle S)) (h : ReplicaHandle S)
    (s s' : S) (value : Value)
    → Misses key before s s'
    → live_value (h.get_versioned key s').0 ≡ some value
    → read_resolve key (before ++ (h ∷ after)) s ≡ (value, (h.get_versioned key s').1)
unfolding read_resolve
read_resolve_first_hit key [] after h s s' value nobody hit = rw hit
read_resolve_first_hit key (_ ∷ before) after h s s' value (miss none_here m) hit =
    rw none_here (read_resolve_first_hit key before after h _ s' value m hit)

-- Where no replica has a live value the result is `None`, after all have been asked.
pub read_resolve_no_hit :
    {S : Type 0} (key : Text) (hs : List (ReplicaHandle S)) (s s' : S)
    → Misses key hs s s'
    → read_resolve key hs s ≡ (null, s')
unfolding read_resolve
read_resolve_no_hit key [] s s' nobody = refl
read_resolve_no_hit key (_ ∷ hs) s s' (miss none_here m) =
    rw none_here (read_resolve_no_hit key hs _ s' m)
