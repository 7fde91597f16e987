-- ===== src/Node/Background/Twins.antt =====
-- An entry of a store that is purged from time to time, beside the entry of one that is not.
use dlstorage.Base.{
  Text, ℤ, ◌≤ℤ◌, ◌<ℤ◌, true, false, Option, none, some, if◌then◌else◌, ◌≡◌, ◌⊎◌, refl, ◌&&◌,
  Bool-cases, arith, inl, inr,
}
use dlstorage.Dict.Laws.{holds}
use dlstorage.Store.{is_past}
use dlstorage.Store.Lww.{Entry, is_newer, is_expired, is_live}
use dlstorage.Store.Lww.Writes.{merge}
use dlstorage.Store.Lww.Reads.{view, after_read}

-- The same entry on both sides, or one that was due at the time `t` and has been purged; and it is
-- no newer than `m`.
abbrev pub IsTwin : ℤ → ℤ → Text → Option Entry → Option Entry → Type 0
IsTwin t m k o purged =
    ((purged ≡ o) ⊎ ((purged ≡ none) × (holds (is_expired t k) o ≡ true))) × (is_newer o m ≡ false)

pub wake-IsTwin :
    (t now m : ℤ) (k : Text) (o purged : Option Entry)
    → t ≤ℤ now
    → IsTwin t m k o purged
    → IsTwin now m k o (if holds (is_expired now k) purged then none else purged)
wake-IsTwin t now m k none purged h (inl same, old) = rw same (inl refl, old)
wake-IsTwin t now m k none purged h (inr (gone, due), old) = rw gone (inl refl, old)
wake-IsTwin t now m k (some e) purged h (inl same, old) =
    rw same (elim (Bool-cases (is_expired now k e)) [
      | inl due ↦ rw due (inr (refl, refl), old)
      | inr kept ↦ rw kept (inl refl, old)
    ])
wake-IsTwin t now m k (some e) purged h (inr (gone, due), old) =
    rw gone (inr (refl, ground arith), old)

unchanged :
    (now m : ℤ) (o : Option Entry) → is_newer o m ≡ false → is_newer (after_read now o) m ≡ false
unchanged now m none old = refl
unchanged now m (some e) old = ground arith

pub read-IsTwin :
    (t now m : ℤ) (k : Text) (o purged : Option Entry)
    → t <ℤ now
    → IsTwin t m k o purged
    → (view now purged ≡ view now o) × IsTwin t m k (after_read now o) (after_read now purged)
read-IsTwin t now m k o purged h (inl same, old) = rw same (refl, (inl refl, unchanged now m o old))
read-IsTwin t now m k none purged h (inr (gone, due), old) = absurd cc
read-IsTwin t now m k (some e) purged h (inr (gone, due), old) =
    let past : (is_live e && is_past now e.expires_at) ≡ true = ground arith in
    let unseen : view now (some e) ≡ none = ground arith in
    rw (gone, unseen, past) (refl, (inl refl, refl))

merged :
    (m : ℤ) (e : Entry) (o : Option Entry)
    → m ≤ℤ e.ts
    → is_newer o m ≡ false
    → is_newer (merge e o) e.ts ≡ false
merged m e none h old = ground arith
merged m e (some f) h old = ground arith

pub write-IsTwin :
    (t m : ℤ) (k : Text) (e : Entry) (o purged : Option Entry)
    → m ≤ℤ e.ts
    → IsTwin t m k o purged
    → IsTwin t e.ts k (merge e o) (merge e purged)
write-IsTwin t m k e o purged h (inl same, old) = rw same (inl refl, merged m e o h old)
write-IsTwin t m k e none purged h (inr (gone, due), old) = absurd cc
write-IsTwin t m k e (some f) purged h (inr (gone, due), old) =
    let older : is_newer (some f) e.ts ≡ false = ground arith in
    rw (gone, older) (inl refl, ground arith)

pub later-IsTwin :
    (t m n : ℤ) (k : Text) (o purged : Option Entry)
    → m ≤ℤ n
    → IsTwin t m k o purged
    → IsTwin t n k o purged
later-IsTwin t m n k none purged h (same, old) = (same, refl)
later-IsTwin t m n k (some e) purged h (same, old) = (same, ground arith)
