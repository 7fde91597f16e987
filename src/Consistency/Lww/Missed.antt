-- ===== src/Consistency/Lww/Missed.antt =====
-- Answers of replicas some of which have missed a write.
use dlstorage.Base.{
  ℤ, pos, lt→ltb_ℤ, le→ltb_ℤ, ◌≤ℤ◌, ◌<ℤ◌, false, Option, none, some, List, [], ◌∷◌, loop, All, ◌⊎◌,
  ◌≡◌, refl, ap, arith, ◌∙◌, inl, inr,
}
use dlstorage.Types.{Value}
use dlstorage.Store.Lww.{Versioned}
use dlstorage.Consistency.Lww.{Best, no_best, consider, chosen, pick}
use dlstorage.Consistency.Lww.Newest.{IsOlder}

module _ (value : Value) (ts : ℤ) where
  abbrev pub write_answer : Option Versioned
  write_answer = some (value, ts, false)

  -- The write itself, or something older.
  abbrev pub IsAnswer : Option Versioned → Type 0
  IsAnswer r = (r ≡ write_answer) ⊎ IsOlder ts r

  abbrev pub HasExact : List (Option Versioned) → Type 0
  HasExact [] = ⊥
  HasExact (r ∷ rs) = (r ≡ write_answer) ⊎ HasExact rs

  abbrev write_best : Best
  write_best = record { value = value; ts = ts; is_tombstone = false }

  consider_exact :
      (best : Best)
      → (best ≡ write_best) ⊎ (best.ts <ℤ ts)
      → consider write_answer best ≡ write_best
  consider_exact best (inl same) = rw (same, le→ltb_ℤ ts ts (omega arith)) refl
  consider_exact best (inr below) = rw (lt→ltb_ℤ best.ts ts below) refl

  consider_older :
      (r : Option Versioned) (best : Best)
      → IsOlder ts r
      → (best ≡ write_best → consider r best ≡ write_best)
        × (best.ts <ℤ ts → (consider r best).ts <ℤ ts)
  consider_older none best h = (λ same. same, λ below. below)
  consider_older (some (v, t, dead)) best h =
      (λ same. rw (same, le→ltb_ℤ ts t (omega (arith, h))) refl, λ below. ground arith)

  loop-settled :
      (rs : List (Option Versioned)) → All IsAnswer rs → loop consider rs write_best ≡ write_best
  loop-settled [] h = refl
  loop-settled (r ∷ rs) (inl e, h) =
      rw (e, consider_exact write_best (inl refl)) (loop-settled rs h)
  loop-settled (r ∷ rs) (inr older, h) =
      rw ((consider_older r write_best older).0 refl) (loop-settled rs h)

  loop-finds :
      (rs : List (Option Versioned)) (best : Best)
      → best.ts <ℤ ts
      → All IsAnswer rs
      → HasExact rs
      → loop consider rs best ≡ write_best
  loop-finds [] best below h there = absurd there
  loop-finds (r ∷ rs) best below (inl e, h) there =
      rw (e, consider_exact best (inr below)) (loop-settled rs h)
  loop-finds (r ∷ rs) best below (inr older, h) (inl e) =
      rw (e, consider_exact best (inr below)) (loop-settled rs h)
  loop-finds (r ∷ rs) best below (inr older, h) (inr there) =
      loop-finds rs (consider r best) ((consider_older r best older).1 below) h there

  -- Where each replica answers with the write or with something older, and one at least with the
  -- write, the resolver returns its value.
  pub pick_exact :
      (rs : List (Option Versioned)) → pos 0 ≤ℤ ts → All IsAnswer rs → HasExact rs → pick rs ≡ value
  unfolding pick
  pick_exact rs positive h there =
      ap chosen (loop-finds rs no_best (omega arith) h there)
      ∙ rw (le→ltb_ℤ ts (pos 0) positive) refl
