-- ===== src/Base/Sort.antt =====
-- `slices.SortStableFunc` as a stable insertion sort over a Boolean comparison, and what its
-- callers need of it: the order, the items, and the order of items that compare equal.
-- `slices.SortFunc` gives some such order too; callers of it rely on no more than that.
use mathlib.Core.List.{Perm}
use mathlib.Core.List.Perm
use sub_preprocessor.Base.{
  Among, ◌⊎◌, Bool, true, false, ◌||◌, List, [], ◌∷◌, ◌≡◌, refl, ap, ◌∙◌, inl, inr, arith,
  if◌then◌else◌, All, All-map, keep, any, length, suc, Bool-cases,
}

-- What a comparison must satisfy: `a` may stand before `b`.
pub record IsOrder {ℓ} {A : Type ℓ} (leq : A → A → Bool) : Type ℓ where
  pub total : (a b : A) → leq a b ≡ false → leq b a ≡ true
  pub trans : (a b c : A) → leq a b ≡ true → leq b c ≡ true → leq a c ≡ true

module _ {ℓ} {A : Type ℓ} (leq : A → A → Bool) where
  -- put an item before the first one that it may stand before
  unfoldable pub insert : A → List A → List A
  insert x [] = x ∷ []
  insert x (y ∷ ys) = let rest = insert x ys in if leq x y then x ∷ y ∷ ys else y ∷ rest

  unfoldable pub sort : List A → List A
  unfolding insert
  sort [] = []
  sort (x ∷ xs) = insert x (sort xs)

  abbrev pub IsSorted : List A → Type ℓ
  IsSorted [] = Unit
  IsSorted (x ∷ xs) = All (λ y. leq x y ≡ true) xs × IsSorted xs

module _ {ℓ κ} {A : Type ℓ} (leq : A → A → Bool) (P : A → Type κ) where
  insert-All : (x : A) (ys : List A) → P x → All P ys → All P (insert leq x ys)
  unfolding insert
  insert-All x [] px h = (px, tt)
  insert-All x (y ∷ ys) px h = elim (Bool-cases (leq x y)) [
    | inl e ↦ let g : All P (x ∷ y ∷ ys) = (px, h) in at_head e g
    | inr e ↦ let g : All P (y ∷ insert leq x ys) = (h.0, insert-All x ys px h.1) in in_tail e g
  ]
    where
      at_head : leq x y ≡ true → All P (x ∷ y ∷ ys) → All P (insert leq x (y ∷ ys))
      at_head e g = rw e g

      in_tail : leq x y ≡ false → All P (y ∷ insert leq x ys) → All P (insert leq x (y ∷ ys))
      in_tail e g = rw e g

  -- what holds of every item holds of every item after sorting
  pub sort-All : (xs : List A) → All P xs → All P (sort leq xs)
  unfolding sort
  sort-All [] h = tt
  sort-All (x ∷ xs) h = insert-All x (sort leq xs) h.0 (sort-All xs h.1)

module _ {ℓ} {A : Type ℓ} (leq : A → A → Bool) (o : IsOrder leq) where
  insert-IsSorted : (x : A) (ys : List A) → IsSorted leq ys → IsSorted leq (insert leq x ys)
  unfolding insert
  insert-IsSorted x [] h = (tt, tt)
  insert-IsSorted x (y ∷ ys) h = elim (Bool-cases (leq x y)) [
    | inl e ↦ rw e ((e, All-map (λ z p. o.trans x y z e p) ys h.0), h)
    | inr e ↦
        rw e
          (insert-All leq (λ z. leq y z ≡ true) x ys (o.total x y e) h.0, insert-IsSorted x ys h.1)
  ]

  pub sort-IsSorted : (xs : List A) → IsSorted leq (sort leq xs)
  unfolding sort
  sort-IsSorted [] = tt
  sort-IsSorted (x ∷ xs) = insert-IsSorted x (sort leq xs) (sort-IsSorted xs)

module _ {ℓ} {A : Type ℓ} (leq : A → A → Bool) where
  insert-perm : (x : A) (ys : List A) → Perm (insert leq x ys) (x ∷ ys)
  unfolding insert
  insert-perm x [] = Perm.refl (x ∷ [])
  insert-perm x (y ∷ ys) = elim (Bool-cases (leq x y)) [
    | inl e ↦ rw e (Perm.refl (x ∷ y ∷ ys))
    | inr e ↦ rw e (Perm.trans (Perm.cons y (insert-perm x ys)) (Perm.swap x y ys))
  ]

  -- Sorting only moves the items.
  pub sort-perm : (xs : List A) → Perm (sort leq xs) xs
  unfolding sort
  sort-perm [] = Perm.refl []
  sort-perm (x ∷ xs) = Perm.trans (insert-perm x (sort leq xs)) (Perm.cons x (sort-perm xs))

  any-insert : (p : A → Bool) (x : A) (ys : List A) → any p (insert leq x ys) ≡ (p x || any p ys)
  unfolding insert any
  any-insert p x [] = refl
  any-insert p x (y ∷ ys) = ground (arith, any-insert p x ys)

  -- Sorting does not change whether some item passes a test.
  pub any-sort : (p : A → Bool) (xs : List A) → any p (sort leq xs) ≡ any p xs
  unfolding sort any
  any-sort p [] = refl
  any-sort p (x ∷ xs) = any-insert p x (sort leq xs) ∙ ap (λ b. p x || b) (any-sort p xs)

  length-insert : (x : A) (ys : List A) → length (insert leq x ys) ≡ suc (length ys)
  unfolding insert
  length-insert x [] = refl
  length-insert x (y ∷ ys) = ground (arith, length-insert x ys)

  pub length-sort : (xs : List A) → length (sort leq xs) ≡ length xs
  unfolding sort
  length-sort [] = refl
  length-sort (x ∷ xs) = length-insert x (sort leq xs) ∙ ap suc (length-sort xs)

-- A class of items that compare equal keeps its order.
module _ {ℓ} {A : Type ℓ} (leq : A → A → Bool) (p : A → Bool) where
  abbrev pub IsClass : Type ℓ
  IsClass = (a b : A) → p a ≡ true → p b ≡ true → leq a b ≡ true

  keep-insert : IsClass → (x : A) (ys : List A) → keep p (insert leq x ys) ≡ keep p (x ∷ ys)
  unfolding insert keep
  keep-insert c x [] = refl
  keep-insert c x (y ∷ ys) = ground (arith, c x y, keep-insert c x ys)

  pub keep-sort : IsClass → (xs : List A) → keep p (sort leq xs) ≡ keep p xs
  unfolding sort keep
  keep-sort c [] = refl
  keep-sort c (x ∷ xs) =
      keep-insert c x (sort leq xs) ∙ ap (λ r. if p x then x ∷ r else r) (keep-sort c xs)

module _ {A : Type 0} (leq : A → A → Bool) where
  Among-insert : (y x : A) (ys : List A) → Among y (x ∷ ys) → Among y (insert leq x ys)
  unfolding insert
  Among-insert y x [] m = m
  Among-insert y x (z ∷ zs) m = elim (Bool-cases (leq x z)) [
    | inl e ↦ rw e m
    | inr e ↦ rw e (go m (λ p. Among-insert y x zs p))
  ]
    where
      go :
          Among y (x ∷ z ∷ zs)
          → (Among y (x ∷ zs) → Among y (insert leq x zs))
          → (y ≡ z) ⊎ Among y (insert leq x zs)
      go (inl p) rest = inr (rest (inl p))
      go (inr (inl p)) rest = inl p
      go (inr (inr p)) rest = inr (rest (inr p))

  -- Every item is still there after sorting.
  pub Among-sort : (y : A) (xs : List A) → Among y xs → Among y (sort leq xs)
  unfolding sort
  Among-sort y [] m = m
  Among-sort y (x ∷ xs) (inl p) = Among-insert y x (sort leq xs) (inl p)
  Among-sort y (x ∷ xs) (inr p) = Among-insert y x (sort leq xs) (inr (Among-sort y xs p))
