-- ===== src/Base/Fold.antt =====
-- Folds whose steps commute do not depend on the order of the items.
use mathlib.Core.Path.{◌≡◌, refl, ap, ◌∙◌}
use mathlib.Core.List.{List, [], ◌∷◌, Permᴰ}

module _ {ℓ κ} {A : Type ℓ} {S : Type κ} where
  unfoldable pub fold_left : (A → S → S) → S → List A → S
  fold_left f s [] = s
  fold_left f s (x ∷ xs) = fold_left f (f x s) xs

  pub fold_left-Permᴰ :
      (f : A → S → S)
      → ((x y : A) (s : S) → f y (f x s) ≡ f x (f y s))
      → {xs ys : List A} → Permᴰ xs ys
      → (s : S) → fold_left f s xs ≡ fold_left f s ys
  unfolding fold_left
  fold_left-Permᴰ f c Permᴰ.nil s = refl
  fold_left-Permᴰ f c (Permᴰ.cons {a} {b} {l₁} {l₂} e p) s =
      ap (λ x. fold_left f (f x s) l₁) e ∙ fold_left-Permᴰ f c p (f b s)
  fold_left-Permᴰ f c (Permᴰ.swap {a} {b} {a'} {b'} {l} e d) s =
      ap (λ t. fold_left f t l) (c a b s ∙ ap (λ x. f x (f b s)) e ∙ ap (λ x. f b' (f x s)) d)
  fold_left-Permᴰ f c (Permᴰ.trans p q) s = fold_left-Permᴰ f c p s ∙ fold_left-Permᴰ f c q s
