-- ===== src/Stable/Best.antt =====
-- internal/stable: several proxies of one entry, such as the ports of a mierus:// link, fold their
-- outcomes onto its label, and the better outcome is kept. `foldProbeResults`, `apiCheck` and
-- `BandwidthCheck` share this shape: `if prev, ok := out[label]; !ok || better(o, prev)`.
use sub_preprocessor.Base.{
  ◌≡◌, refl, sym, ap, ◌∙◌, ◌⊎◌, inl, inr, Bool, true, false, Option, none, some, List, [], ◌∷◌,
  if◌then◌else◌, Bool-cases, Bytes, beq, beq_iff, All, Among,
}
use mathlib.Core.Path.{subst}
use mathlib.Core.List.{Permᴰ}
use mathlib.Core.List.Permᴰ
use sub_preprocessor.Base.Dict.{find, put, find-put}
use mathlib.Core.Path.{subst}

-- a preference: what `better` must be for the fold to have a meaning
pub record IsPreference {V : Type 0} (better : V → V → Bool) : Type 0 where
  pub asymm : (a b : V) → better a b ≡ true → better b a ≡ false
  pub trans : (a b c : V) → better a b ≡ false → better b c ≡ false → better a c ≡ false

module _ {V : Type 0} (better : V → V → Bool) where
  -- what is done of the outcome that the label has so far
  abbrev pub keep_over : Option V → Bytes → V → List (Bytes × V) → List (Bytes × V)
  keep_over none label v m = put beq label v m
  keep_over (some prev) label v m = if better v prev then put beq label v m else m

  unfoldable pub keep_better : Bytes → V → List (Bytes × V) → List (Bytes × V)
  unfolding find put
  keep_better label v m = keep_over (find beq label m) label v m

  unfoldable pub fold_labels : List (Bytes × V) → List (Bytes × V) → List (Bytes × V)
  unfolding keep_better
  fold_labels [] m = m
  fold_labels ((label, v) ∷ xs) m = fold_labels xs (keep_better label v m)

  -- the outcomes of one label, in order
  unfoldable pub outcomes_for : Bytes → List (Bytes × V) → List V
  outcomes_for label [] = []
  outcomes_for label ((l, v) ∷ xs) =
      let rest = outcomes_for label xs in if beq label l then v ∷ rest else rest

  -- The kept outcome is one of them, and none of them is better.
  abbrev pub IsBest : List V → V → Type 0
  IsBest vs v = Among v vs × All (λ (x : V). better x v ≡ false) vs

  better_of : V → Option V → V
  better_of v none = v
  better_of v (some prev) = if better v prev then v else prev

  pick_best : Option V → List V → Option V
  pick_best o [] = o
  pick_best o (v ∷ vs) = pick_best (some (better_of v o)) vs

  find-keep_over :
      (label l : Bytes) (v : V) (m : List (Bytes × V)) (o : Option V)
      → find beq l m ≡ o
      → find beq label (keep_over o l v m)
        ≡ (if beq label l then some (better_of v o) else find beq label m)
  unfolding better_of
  find-keep_over label l v m none e = find-put beq beq_iff l label v m
  find-keep_over label l v m (some prev) e =
      let p = find-put beq beq_iff l label v m in
      elim (Bool-cases (better v prev)) [
        | inl y ↦ rw y p
        | inr n ↦ rw n (elim (Bool-cases (beq label l)) [
          | inl same ↦ rw same (ap (λ k. find beq k m) ((beq_iff label l).0 same) ∙ e)
          | inr other ↦ rw other
        ])
      ]

  find-keep_better :
      (label l : Bytes) (v : V) (m : List (Bytes × V))
      → find beq label (keep_better l v m)
        ≡ (if beq label l then some (better_of v (find beq label m)) else find beq label m)
  unfolding keep_better
  find-keep_better label l v m =
      let p = find-keep_over label l v m (find beq l m) refl in
      elim (Bool-cases (beq label l)) [
        | inl same ↦ rw same (
            subst
              (λ (o : Option V).
                find beq label (keep_over (find beq l m) l v m) ≡ some (better_of v o))
              (ap (λ k. find beq k m) (sym ((beq_iff label l).0 same))) (rw same at p))
        | inr other ↦ rw other (rw other at p)
      ]

  find-fold_labels :
      (label : Bytes) (xs m : List (Bytes × V))
      → find beq label (fold_labels xs m) ≡ pick_best (find beq label m) (outcomes_for label xs)
  unfolding fold_labels outcomes_for pick_best
  find-fold_labels label [] m = refl
  find-fold_labels label ((l, v) ∷ xs) m =
      let ih = find-fold_labels label xs (keep_better l v m) in
      let k = find-keep_better label l v m in
      elim (Bool-cases (beq label l)) [
        | inl same ↦ rw same (ih ∙ ap (λ o. pick_best o (outcomes_for label xs)) (rw same at k))
        | inr other ↦ rw other (ih ∙ ap (λ o. pick_best o (outcomes_for label xs)) (rw other at k))
      ]

  better_irrefl : IsPreference better → (b : V) → better b b ≡ false
  better_irrefl pref b = elim (Bool-cases (better b b)) [ inl y ↦ pref.asymm b b y | inr n ↦ n ]

  pick_best-IsBest :
      IsPreference better
      → (b : V) (vs : List V) → (r : V) × (pick_best (some b) vs ≡ some r) × IsBest (b ∷ vs) r
  unfolding pick_best better_of
  pick_best-IsBest pref b [] = (b, refl, (inl refl, (better_irrefl pref b, tt)))
  pick_best-IsBest pref b (v ∷ vs) = elim (Bool-cases (better v b)) [
    | inl y ↦
        let (r, e, (m, (h, k))) = pick_best-IsBest pref v vs in
        rw y (r, e, (inr m, (pref.trans b v r (pref.asymm v b y) h, (h, k))))
    | inr n ↦
        let (r, e, (m, (h, k))) = pick_best-IsBest pref b vs in
        rw n (r, e, (skip r m, (h, (pref.trans v b r n h, k))))
  ]
    where
      skip : (r : V) → Among r (b ∷ vs) → Among r (b ∷ v ∷ vs)
      skip r (inl e) = inl e
      skip r (inr m) = inr (inr m)

  -- what a label has at the end
  abbrev pub kept : Bytes → List (Bytes × V) → Option V
  kept label xs = find beq label (fold_labels xs [])

  -- A label has no outcome kept exactly when it has no outcome, and else one of its outcomes than
  -- which none of its outcomes is better.
  pub kept-IsBest :
      IsPreference better
      → (label : Bytes) (xs : List (Bytes × V))
      → ((outcomes_for label xs ≡ []) × (kept label xs ≡ none))
        ⊎ ((r : V) × (kept label xs ≡ some r) × IsBest (outcomes_for label xs) r)
  kept-IsBest pref label xs =
      best_of (outcomes_for label xs) (kept label xs) (find-fold_labels label xs [])
    where
      best_of :
          (vs : List V) (o : Option V)
          → o ≡ pick_best (find beq label []) vs
          → ((vs ≡ []) × (o ≡ none)) ⊎ ((r : V) × (o ≡ some r) × IsBest vs r)
      best_of [] o e = unfold find pick_best in inl (refl, e)
      best_of (v ∷ vs) o e =
          unfold find pick_best better_of in
          let (r, p, best) = pick_best-IsBest pref v vs in inr (r, e ∙ p, best)

  pub open_first :
      (label : Bytes) (v : V) (x : Bytes × V) (xs : List (Bytes × V))
      → Among v (outcomes_for label (x ∷ xs))
      → ((beq label x.0 ≡ true) × (v ≡ x.1)) ⊎ Among v (outcomes_for label xs)
  unfolding outcomes_for
  open_first label v x xs m = elim (Bool-cases (beq label x.0)) [
    | inl y ↦ elim (rw y at m) [ inl e ↦ inl (y, e) | inr k ↦ inr k ]
    | inr n ↦ inr (rw n at m)
  ]

  close_first :
      (label : Bytes) (v : V) (x : Bytes × V) (xs : List (Bytes × V))
      → ((beq label x.0 ≡ true) × (v ≡ x.1)) ⊎ Among v (outcomes_for label xs)
      → Among v (outcomes_for label (x ∷ xs))
  unfolding outcomes_for
  close_first label v x xs (inl (y, e)) = rw y (inl e)
  close_first label v x xs (inr m) = elim (Bool-cases (beq label x.0)) [
    | inl y ↦ rw y (inr m)
    | inr n ↦ rw n m
  ]

  Among-outcomes_for :
      {xs ys : List (Bytes × V)}
      → Permᴰ xs ys
      → (label : Bytes) (v : V) → Among v (outcomes_for label xs)
      → Among v (outcomes_for label ys)
  Among-outcomes_for Permᴰ.nil label v m = m
  Among-outcomes_for (Permᴰ.cons {a} {b} {l₁} {l₂} e p) label v m =
      elim (open_first label v b l₁ (subst (λ c. Among v (outcomes_for label (c ∷ l₁))) e m)) [
        | inl h ↦ close_first label v b l₂ (inl h)
        | inr k ↦ close_first label v b l₂ (inr (Among-outcomes_for p label v k))
      ]
  Among-outcomes_for (Permᴰ.swap {a} {b} {a'} {b'} {l} e d) label v m =
      let n = subst (λ c. Among v (outcomes_for label (c ∷ b ∷ l))) e m in
      let k = subst (λ c. Among v (outcomes_for label (b' ∷ c ∷ l))) d n in
      elim (open_first label v b' (a' ∷ l) k) [
        | inl h ↦ close_first label v a' (b' ∷ l) (inr (close_first label v b' l (inl h)))
        | inr r ↦ elim (open_first label v a' l r) [
          | inl h ↦ close_first label v a' (b' ∷ l) (inl h)
          | inr q ↦ close_first label v a' (b' ∷ l) (inr (close_first label v b' l (inr q)))
        ]
      ]
  Among-outcomes_for (Permᴰ.trans p q) label v m =
      Among-outcomes_for q label v (Among-outcomes_for p label v m)

  All-Among : (P : V → Type 0) (vs : List V) (v : V) → Among v vs → All P vs → P v
  All-Among P [] v m h = absurd m
  All-Among P (x ∷ vs) v (inl e) h = subst P (sym e) h.0
  All-Among P (x ∷ vs) v (inr m) h = All-Among P vs v m h.1

  pub outcomes_for_each :
      (P : V → Type 0) (label : Bytes) (xs : List (Bytes × V)) (v : V)
      → All (λ (x : Bytes × V). P x.1) xs
      → Among v (outcomes_for label xs)
      → P v
  outcomes_for_each P label [] v h m = absurd (unfold outcomes_for in m)
  outcomes_for_each P label (x ∷ xs) v h m = elim (open_first label v x xs m) [
    | inl (y, e) ↦ subst P (sym e) h.0
    | inr k ↦ outcomes_for_each P label xs v h.1 k
  ]

  not-Among-nil : (vs : List V) → vs ≡ [] → (v : V) → Among v vs → ⊥
  not-Among-nil vs e v m = subst (Among v) e m

  -- If outcomes of a label of which neither is better are equal, what the label has at the end does
  -- not depend on the order in which the outcomes came.
  pub kept-Permᴰ :
      IsPreference better
      → (label : Bytes) → (xs ys : List (Bytes × V)) → Permᴰ xs ys
      → ((a b : V)
          → Among a (outcomes_for label xs)
          → Among b (outcomes_for label xs)
          → better a b ≡ false
          → better b a ≡ false
          → a ≡ b)
      → kept label xs ≡ kept label ys
  kept-Permᴰ pref label xs ys p ties =
      decide (kept-IsBest pref label xs) (kept-IsBest pref label ys)
    where
      decide :
          ((outcomes_for label xs ≡ []) × (kept label xs ≡ none))
            ⊎ ((r : V) × (kept label xs ≡ some r) × IsBest (outcomes_for label xs) r)
          → ((outcomes_for label ys ≡ []) × (kept label ys ≡ none))
            ⊎ ((r : V) × (kept label ys ≡ some r) × IsBest (outcomes_for label ys) r)
          → kept label xs ≡ kept label ys
      decide (inl (e, k)) (inl (e', k')) = k ∙ sym k'
      decide (inl (e, k)) (inr (r, k', (m, h))) =
          absurd (
            not-Among-nil (outcomes_for label xs) e r (Among-outcomes_for (Permᴰ.symm p) label r m))
      decide (inr (r, k, (m, h))) (inl (e, k')) =
          absurd (not-Among-nil (outcomes_for label ys) e r (Among-outcomes_for p label r m))
      decide (inr (r, k, (m, h))) (inr (r', k', (m', h'))) =
          let in_xs = Among-outcomes_for (Permᴰ.symm p) label r' m' in
          let in_ys = Among-outcomes_for p label r m in
          let a = All-Among (λ (x : V). better x r' ≡ false) (outcomes_for label ys) r in_ys h' in
          let b = All-Among (λ (x : V). better x r ≡ false) (outcomes_for label xs) r' in_xs h in
          k ∙ (ap some (ties r r' m in_xs a b) ∙ sym k')
