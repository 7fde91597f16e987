-- ===== src/Base/Fold.antt =====
-- A loop over a list whose steps commute does not depend on the list's order.
use mathlib.Core.Path.{◌≡◌, refl, ◌∙◌, ap, ap₂}
use mathlib.Core.Logic.{∥∥₁_elim}
use mathlib.Core.List.{List, [], ◌∷◌, Mem, mem-cons_self, mem-cons_of_mem, Perm, Permᴰ}
use mathlib.Core.List.Perm

module _ {A S : Type 0} (step : A → S → S) where
  -- `for a in l: s = step(a, s)`
  abbrev pub loop : List A → S → S
  loop [] s = s
  loop (a ∷ l) s = loop l (step a s)

  abbrev pub Commute : List A → Type 0
  Commute l = (a b : A) → Mem a l → Mem b l → (s : S) → step a (step b s) ≡ step b (step a s)

  loop-Permᴰ : {l m : List A} (s : S) → Permᴰ l m → Commute l → loop l s ≡ loop m s
  loop-Permᴰ s Permᴰ.nil h = refl
  loop-Permᴰ s (Permᴰ.cons {a = a} {l₁ = l} {l₂ = m} e p) h =
      loop-Permᴰ (step a s) p (λ x y mx my. h x y (mem-cons_of_mem a mx) (mem-cons_of_mem a my))
      ∙ ap (λ x. loop m (step x s)) e
  loop-Permᴰ s (Permᴰ.swap {a = a} {b = b} {l = l} e f) h =
      ap (loop l) (h b a (mem-cons_of_mem a mem-cons_self) mem-cons_self s)
      ∙ ap₂ (λ x y. loop l (step x (step y s))) e f
  loop-Permᴰ s (Permᴰ.trans p q) h =
      loop-Permᴰ s p h
      ∙ loop-Permᴰ s q
          (λ x y mx my. h x y ((Perm.mem_iff ∣ p ∣₁).1 mx) ((Perm.mem_iff ∣ p ∣₁).1 my))

  pub loop-perm : IsSet S → (l m : List A) (s : S) → Perm l m → Commute l → loop l s ≡ loop m s
  loop-perm set l m s p h = ∥∥₁_elim p (set _ _) (λ q. loop-Permᴰ s q h)
