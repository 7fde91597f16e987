-- ===== src/Pool/Async/Tasks/Queues.antt =====
-- How often a connection stands in the queues of the pool.
use dlstorage.Base.{
  Text, text_eq, ℕ, zero, suc, ◌+◌, ◌-◌, ◌≤◌, ◌<◌, ◌==◌, Bool, false, Option, none, some, List, [],
  ◌∷◌, length, if◌then◌else◌, ◌≡◌, refl, ap, arith, Bool-cases, inl, inr,
}
use dlstorage.Dict
use dlstorage.Dict.{Dict}
use dlstorage.Pool.Async.{drop_stale}
use dlstorage.Mux.{pluck, put_back, remove_socket}
use dlstorage.Mux.Counts.{one, count}

-- The sum of `f` below `n`.
abbrev pub sum_below : ℕ → (ℕ → ℕ) → ℕ
sum_below zero f = 0
sum_below (suc n) f = f n + sum_below n f

abbrev pub updated : ℕ → List ℕ → (ℕ → List ℕ) → ℕ → List ℕ
updated q l g p = if p == q then l else g p

pub sum_above :
    (k n q : ℕ) (l : List ℕ) (g : ℕ → List ℕ)
    → n ≤ q
    → sum_below n (λ p. count k (updated q l g p)) ≡ sum_below n (λ p. count k (g p))
sum_above k zero q l g h = refl
sum_above k (suc n) q l g h =
    let other : (n == q) ≡ false = ground arith in
    let rest = sum_above k n q l g (omega arith) in rw other (omega (arith, rest))

pub sum_updated :
    (k n q : ℕ) (l : List ℕ) (g : ℕ → List ℕ)
    → q < n
    → sum_below n (λ p. count k (updated q l g p)) + count k (g q)
      ≡ sum_below n (λ p. count k (g p)) + count k l
sum_updated k zero q l g h = absurd (omega arith)
sum_updated k (suc n) q l g h = elim (Bool-cases (n == q)) [
  | inl same ↦
      let n_q : n ≡ q = ground (arith, same) in
      let rest = sum_above k n q l g (omega (arith, n_q)) in
      let here : count k (g n) ≡ count k (g q) = ap (λ x. count k (g x)) n_q in
      rw same (omega (arith, rest, here))
  | inr other ↦
      let below : q < n = ground (arith, other) in
      let rest = sum_updated k n q l g below in rw other (omega (arith, rest))
]

pub count-remove : (k c : ℕ) (l : List ℕ) → count k (remove_socket c l) ≡ count k l - one k c
unfolding remove_socket
count-remove k c [] = ground arith
count-remove k c (t ∷ l) = ground (arith, count-remove k c l)

pub count-drop_stale :
    (k : ℕ) (stale : ℕ → Bool) (l : List ℕ)
    → (count k (drop_stale stale l) ≤ count k l)
      × (stale k ≡ false → count k (drop_stale stale l) ≡ count k l)
unfolding drop_stale
count-drop_stale k stale [] = (omega arith, λ h. refl)
count-drop_stale k stale (c ∷ l) = elim (Bool-cases (stale c)) [
  | inl gone ↦
      let (less, same) = count-drop_stale k stale l in
      rw gone (
        omega (arith, less),
        λ kept. elim (Bool-cases (c == k)) [
          | inl at_k ↦
              let c_k : c ≡ k = ground (arith, at_k) in
              let both : stale c ≡ stale k = ap stale c_k in absurd cc
          | inr other ↦ rw other (omega (arith, same kept))
        ],
      )
  | inr kept ↦ rw kept (omega arith, λ h. refl)
]

pub length-drop_stale : (stale : ℕ → Bool) (l : List ℕ) → length (drop_stale stale l) ≤ length l
unfolding drop_stale
length-drop_stale stale [] = omega arith
length-drop_stale stale (c ∷ l) = elim (Bool-cases (stale c)) [
  | inl gone ↦ rw gone (omega (arith, length-drop_stale stale l))
  | inr kept ↦ rw kept (omega arith)
]

-- The queues of loans, and of addresses, are queues that there are.
abbrev pub AreKnown {ℓ} : {X : Type ℓ} → ℕ → List (X × ℕ) → Type 0
AreKnown n [] = Unit
AreKnown n ((x, q) ∷ l) = (q < n) × AreKnown n l

pub AreKnown-suc {ℓ} : {X : Type ℓ} (n : ℕ) (l : List (X × ℕ)) → AreKnown n l → AreKnown (suc n) l
AreKnown-suc n [] h = tt
AreKnown-suc n ((x, q) ∷ l) h = (omega (arith, h.0), AreKnown-suc n l h.1)

pub AreKnown-put :
    (n q : ℕ) (a : Text) (d : Dict ℕ) → q < n → AreKnown n d → AreKnown n (Dict.put a q d)
unfolding Dict.put
AreKnown-put n q a [] below h = (below, tt)
AreKnown-put n q a ((b, p) ∷ d) below h = elim (Bool-cases (text_eq b a)) [
  | inl same ↦ rw same (below, h.1)
  | inr other ↦ rw other (h.0, AreKnown-put n q a d below h.1)
]

pub AreKnown-remove : (n : ℕ) (a : Text) (d : Dict ℕ) → AreKnown n d → AreKnown n (Dict.remove a d)
unfolding Dict.remove
AreKnown-remove n a [] h = tt
AreKnown-remove n a ((b, p) ∷ d) h = elim (Bool-cases (text_eq b a)) [
  | inl same ↦ rw same (AreKnown-remove n a d h.1)
  | inr other ↦ rw other (h.0, AreKnown-remove n a d h.1)
]

pub get-AreKnown : (n q : ℕ) (a : Text) (d : Dict ℕ) → AreKnown n d → Dict.get a d ≡ some q → q < n
unfolding Dict.get
get-AreKnown n q a [] h e = absurd cc
get-AreKnown n q a ((b, p) ∷ d) h e = elim (Bool-cases (text_eq b a)) [
  | inl same ↦ let here : some p ≡ some q = rw same at e in let p_q : p ≡ q = cc in rw⁻¹ p_q (h.0)
  | inr other ↦ get-AreKnown n q a d h.1 (rw other at e)
]

-- What is taken out of a list of loans, and what is left of it.
abbrev pub OutIsKnown : ℕ → Option (ℕ × List (ℕ × ℕ)) → Type 0
OutIsKnown n none = Unit
OutIsKnown n (some (q, rest)) = (q < n) × AreKnown n rest

put_back-OutIsKnown :
    (n t p : ℕ) (o : Option (ℕ × List (ℕ × ℕ)))
    → p < n
    → OutIsKnown n o
    → OutIsKnown n (put_back (t, p) o)
put_back-OutIsKnown n t p none below h = tt
put_back-OutIsKnown n t p (some (q, rest)) below h = (h.0, (below, h.1))

pub pluck-OutIsKnown : (n c : ℕ) (l : List (ℕ × ℕ)) → AreKnown n l → OutIsKnown n (pluck c l)
unfolding pluck
pluck-OutIsKnown n c [] h = tt
pluck-OutIsKnown n c ((t, p) ∷ l) h = elim (Bool-cases (t == c)) [
  | inl same ↦ rw same h
  | inr other ↦ rw other (put_back-OutIsKnown n t p (pluck c l) h.0 (pluck-OutIsKnown n c l h.1))
]
