-- ===== src/Tests/Pairs.antt =====
-- In a list of two elements that a key tells apart, equal keys mean equal elements.
use mathlib.Core.List.{Mem, mem-cons, not-mem-nil}
use mathlib.Core.Logic.Or
use dlstorage.Base.{[], ◌∷◌, ◌≡◌, ◌≢◌, sym, ap, ◌∙◌}

pair_elim :
    {A P : Type 0} {a x y : A} → IsProp P → Mem a (x ∷ y ∷ []) → (a ≡ x → P) → (a ≡ y → P) → P
pair_elim prop m f g =
    Or.elim prop (mem-cons.0 m) f
      (λ m'. Or.elim prop (mem-cons.0 m') g (λ none_left. absurd (not-mem-nil none_left)))

pub pair_injective :
    {A K : Type 0} (set : IsSet A) (key : A → K) (x y : A)
    → key x ≢ key y
    → (a b : A) → Mem a (x ∷ y ∷ [])
    → Mem b (x ∷ y ∷ [])
    → key a ≡ key b
    → a ≡ b
pair_injective set key x y differ a b ma mb same =
    pair_elim (set a b) ma
      (λ a_x.
        pair_elim (set a b) mb (λ b_x. a_x ∙ sym b_x)
          (λ b_y. absurd (differ (sym (ap key a_x) ∙ same ∙ ap key b_y))))
      (λ a_y.
        pair_elim (set a b) mb (λ b_x. absurd (differ (sym (ap key b_x) ∙ sym same ∙ ap key a_y)))
          (λ b_y. a_y ∙ sym b_y))
