-- ===== src/Consistency/Lww/Newest.antt =====
-- Which answer the last-write-wins resolver picks.
use mathlib.Core.List.{Mem, Perm}
use mathlib.Core.Path.{subst}
use dlstorage.Base.{
  ℤ, ℤ-discrete, lt→ltb_ℤ, le→ltb_ℤ, eq_of_parts, pos, ◌≤ℤ◌, ◌<ℤ◌, Bool, Option, none, some, List,
  [], ◌∷◌, ◌++◌, loop, loop-perm, All, if◌then◌else◌, ◌≡◌, refl, ap, arith, ◌∙◌,
}
use dlstorage.Types.{Value, null}
use dlstorage.Store.Lww.{Versioned}
use dlstorage.Consistency.Lww.{Best, no_best, consider, chosen, pick}

abbrev pub IsOlder : ℤ → Option Versioned → Type 0
IsOlder ts none = Unit
IsOlder ts (some (value, ts', is_tombstone)) = ts' <ℤ ts

abbrev pub IsNotNewer : ℤ → Option Versioned → Type 0
IsNotNewer ts none = Unit
IsNotNewer ts (some (value, ts', is_tombstone)) = ts' ≤ℤ ts

loop-stays :
    (rs : List (Option Versioned)) (best : Best)
    → All (IsNotNewer best.ts) rs
    → loop consider rs best ≡ best
loop-stays [] best h = refl
loop-stays (none ∷ rs) best h = loop-stays rs best h.1
loop-stays (some (value, ts, dead) ∷ rs) best h =
    rw (le→ltb_ℤ best.ts ts h.0) (loop-stays rs best h.1)

loop-below :
    (ts : ℤ) (rs : List (Option Versioned)) (best : Best)
    → best.ts <ℤ ts
    → All (IsOlder ts) rs
    → (loop consider rs best).ts <ℤ ts
loop-below ts [] best b h = b
loop-below ts (none ∷ rs) best b h = loop-below ts rs best b h.1
loop-below ts (some r ∷ rs) best b h =
    loop-below ts rs (consider (some r) best) (still_below (r.1) h.0) h.1
  where
    still_below : (t : ℤ) → t <ℤ ts → (consider (some (r.0, t, r.2)) best).ts <ℤ ts
    still_below t lt = ground arith

consider_newer :
    (value : Value) (ts : ℤ) (dead : Bool) (best : Best)
    → best.ts <ℤ ts
    → consider (some (value, ts, dead)) best
      ≡ record { value = value; ts = ts; is_tombstone = dead }
consider_newer value ts dead best h = rw (lt→ltb_ℤ best.ts ts h)

loop-append :
    (xs ys : List (Option Versioned)) (best : Best)
    → loop consider (xs ++ ys) best ≡ loop consider ys (loop consider xs best)
loop-append [] ys best = refl
loop-append (x ∷ xs) ys best = loop-append xs ys (consider x best)

-- The first of the answers with the greatest timestamp decides, where that timestamp is not
-- negative: its value is the result, or `None` where it is a tombstone.
pub pick_newest :
    (before after : List (Option Versioned)) (value : Value) (ts : ℤ) (is_tombstone : Bool)
    → pos 0 ≤ℤ ts
    → All (IsOlder ts) before
    → All (IsNotNewer ts) after
    → pick (before ++ (some (value, ts, is_tombstone) ∷ after))
      ≡ (if is_tombstone then null else value)
unfolding pick
pick_newest before after value ts is_tombstone h older not_newer =
    let best = loop consider before no_best in
    let below = loop-below ts before no_best (omega arith) older in
    let newest : Best = record { value = value; ts = ts; is_tombstone = is_tombstone } in
    ap chosen (loop-append before (some (value, ts, is_tombstone) ∷ after) no_best)
    ∙ ap (λ b. chosen (loop consider after b)) (consider_newer value ts is_tombstone best below)
    ∙ ap chosen (loop-stays after newest not_newer)
    ∙ rw (le→ltb_ℤ ts (pos 0) h) refl

-- Where no replica answers with a timestamp of zero or more, the result is `None`.
pub pick_nothing : (rs : List (Option Versioned)) → All (IsOlder (pos 0)) rs → pick rs ≡ null
unfolding pick
pick_nothing rs h =
    let best = loop consider rs no_best in
    rw (lt→ltb_ℤ best.ts (pos 0) (loop-below (pos 0) rs no_best (omega arith) h)) refl

-- No two different answers have the same timestamp.
abbrev pub IsTieFree : List (Option Versioned) → Type 0
IsTieFree rs = (a b : Versioned) → Mem (some a) rs → Mem (some b) rs → a.1 ≡ b.1 → a ≡ b

consider_comm :
    (a b : Option Versioned) (best : Best)
    → ((x y : Versioned) → a ≡ some x → b ≡ some y → x.1 ≡ y.1 → x ≡ y)
    → consider a (consider b best) ≡ consider b (consider a best)
consider_comm none b best h = refl
consider_comm (some a) none best h = refl
consider_comm (some a) (some b) best h = elim (ℤ-discrete a.1 b.1) [
  | yes same ↦ rw (h a b refl refl same)
  | no differ ↦ ground (arith, eq_of_parts a.1 b.1, differ)
]

-- The resolver does not depend on the order of the answers, where no two different ones have the
-- same timestamp.
pub pick-perm : (rs rs' : List (Option Versioned)) → Perm rs rs' → IsTieFree rs → pick rs ≡ pick rs'
unfolding pick
pick-perm rs rs' p h = ap chosen (
    loop-perm consider Best-set rs rs' no_best p (λ a b ma mb best.
      consider_comm a b best (λ x y at_a at_b same.
        h x y (subst (λ o. Mem o rs) at_a ma) (subst (λ o. Mem o rs) at_b mb) same)))
  where
    Best-set : IsSet Best
    Best-set = hlevel
