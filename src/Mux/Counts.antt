-- ===== src/Mux/Counts.antt =====
-- How often a socket stands in each place of the pool.
use dlstorage.Base.{
  Text, text_eq, text_eq_iff, ℕ, ◌+◌, ◌≤◌, ◌==◌, Option, none, some, List, [], ◌∷◌, ◌++◌,
  if◌then◌else◌, ◌≡◌, refl, ap, ◌∙◌, arith, Bool-cases, inl, inr,
}
use dlstorage.Dict
use dlstorage.Dict.{Dict}
use dlstorage.Dict.Laws.{IsDistinct}
use dlstorage.Mux.{pop_right, pluck, put_back, remove_socket, deque_of}

-- 1 for the socket itself.
abbrev pub one : ℕ → ℕ → ℕ
one k s = if s == k then 1 else 0

abbrev pub count : ℕ → List ℕ → ℕ
count k [] = 0
count k (s ∷ l) = one k s + count k l

-- The sum of the weights of the entries.
abbrev pub weigh {ℓ} : {X : Type ℓ} → (ℕ → X → ℕ) → List (ℕ × X) → ℕ
weigh w [] = 0
weigh w ((s, x) ∷ l) = w s x + weigh w l

abbrev pub count_fst {ℓ} : {X : Type ℓ} → ℕ → List (ℕ × X) → ℕ
count_fst k = weigh (λ s x. one k s)

abbrev pub count_idle : ℕ → Dict (List ℕ) → ℕ
count_idle k [] = 0
count_idle k ((a, q) ∷ d) = count k q + count_idle k d

pub weigh-append {ℓ} :
    {X : Type ℓ} (w : ℕ → X → ℕ) (l m : List (ℕ × X)) → weigh w (l ++ m) ≡ weigh w l + weigh w m
weigh-append w [] m = omega arith
weigh-append w ((s, x) ∷ l) m = omega (arith, weigh-append w l m)

pub count-pop_right :
    (k s : ℕ) (l : List ℕ)
    → one k (pop_right s l).0 + count k (pop_right s l).1 ≡ one k s + count k l
unfolding pop_right
count-pop_right k s [] = refl
count-pop_right k s (t ∷ l) = omega (arith, count-pop_right k t l)

pub weigh-pluck {ℓ} :
    {X : Type ℓ} (w : ℕ → X → ℕ) (s : ℕ) (l : List (ℕ × X)) (x : X) (rest : List (ℕ × X))
    → pluck s l ≡ some (x, rest)
    → weigh w l ≡ w s x + weigh w rest
unfolding pluck
weigh-pluck w s [] x rest e = absurd (cc)
weigh-pluck {X = X} w s ((t, y) ∷ l) x rest e = elim (Bool-cases (t == s)) [
  | inl same ↦
      let here = ap after (rw same at e) in
      let t_s : t ≡ s = ground (arith, same) in ap (λ r. w r y + weigh w l) t_s ∙ here
  | inr other ↦ later (pluck s l) refl (rw other at e) (λ z r. weigh-pluck w s l z r)
]
  where
    after : Option (X × List (ℕ × X)) → ℕ
    after none = 0
    after (some (z, r)) = w s z + weigh w r

    later :
        (o : Option (X × List (ℕ × X)))
        → pluck s l ≡ o
        → put_back (t, y) o ≡ some (x, rest)
        → ((z : X) (r : List (ℕ × X)) → pluck s l ≡ some (z, r) → weigh w l ≡ w s z + weigh w r)
        → w t y + weigh w l ≡ w s x + weigh w rest
    later none p q h = absurd (cc)
    later (some (z, r)) p q h = let same = ap after q in omega (arith, h z r p, same)

pub count-remove_socket :
    (k s : ℕ) (l : List ℕ) → 1 ≤ count s l → count k (remove_socket s l) + one k s ≡ count k l
unfolding remove_socket
count-remove_socket k s [] h = absurd (omega arith)
count-remove_socket k s (t ∷ l) h = ground (arith, count-remove_socket k s l)

pub count_idle-put :
    (k : ℕ) (a : Text) (q : List ℕ) (d : Dict (List ℕ))
    → count_idle k (Dict.put a q d) + count k (deque_of (Dict.get a d)) ≡ count_idle k d + count k q
unfolding Dict.put Dict.get
count_idle-put k a q [] = omega arith
count_idle-put k a q ((b, r) ∷ d) = elim (Bool-cases (text_eq b a)) [
  | inl same ↦ rw same (omega arith)
  | inr other ↦ let rest = count_idle-put k a q d in rw other (omega (arith, rest))
]

count_idle-remove_missing :
    (k : ℕ) (a : Text) (d : Dict (List ℕ))
    → Dict.get a d ≡ none
    → count_idle k (Dict.remove a d) ≡ count_idle k d
unfolding Dict.remove Dict.get
count_idle-remove_missing k a [] h = refl
count_idle-remove_missing k a ((b, r) ∷ d) h = ground (arith, h, count_idle-remove_missing k a d)

pub count_idle-remove :
    (k : ℕ) (a : Text) (d : Dict (List ℕ))
    → IsDistinct d
    → count_idle k (Dict.remove a d) + count k (deque_of (Dict.get a d)) ≡ count_idle k d
unfolding Dict.remove Dict.get
count_idle-remove k a [] h = refl
count_idle-remove k a ((b, r) ∷ d) h = elim (Bool-cases (text_eq b a)) [
  | inl same ↦
      let e = (text_eq_iff b a).0 same in
      let missing = count_idle-remove_missing k a d (rw (← e) h.0) in
      rw same (omega (arith, missing))
  | inr other ↦ let rest = count_idle-remove k a d h.1 in rw other (omega (arith, rest))
]
