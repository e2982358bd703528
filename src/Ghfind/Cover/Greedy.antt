-- ===== src/Ghfind/Cover/Greedy.antt =====
-- internal/ghfind/cover.go: that the picks are greedy.
use sub_preprocessor.Base.{
  ℕ, zero, suc, ◌+◌, ◌≤◌, ◌<◌, ◌≡◌, refl, sym, ap, ◌∙◌, ◌⊎◌, inl, inr, false, ◌||◌, Option, none,
  some, List, [], ◌∷◌, ◌++◌, arith, ltb, ◌==◌, if◌then◌else◌, Bool-cases, if_either, some-inj,
  length, All,
}
use mathlib.Core.Path.{subst}
use sub_preprocessor.Ghfind.Cover.{holds, missing, best_from, set_at, cover_from, cover}

-- the gains of the sets that are not chosen, from the `i`-th on
abbrev pub gains : List ℕ → List ℕ → ℕ → List (List ℕ) → List ℕ
gains chosen union i [] = []
gains chosen union i (s ∷ sets) =
    if holds i chosen
    then gains chosen union (i + 1) sets
    else missing s union ∷ gains chosen union (i + 1) sets

-- what the inner loop found: what it had, or a set that is not chosen, with its gain
Found : List ℕ → List ℕ → ℕ → List (List ℕ) → Option ℕ × ℕ → Option ℕ × ℕ → Type 0
Found chosen union i sets b b' =
    (b' ≡ b)
    ⊎ ((k : ℕ) × (b'.0 ≡ some (i + k))
        × (holds (i + k) chosen ≡ false)
        × (b'.1 ≡ missing (set_at sets k) union))

Found-later :
    (chosen union : List ℕ) (i : ℕ) (s : List ℕ) (sets : List (List ℕ)) (b b' : Option ℕ × ℕ)
    → Found chosen union (i + 1) sets b b'
    → Found chosen union i (s ∷ sets) b b'
unfolding Found
Found-later chosen union i s sets b b' (inl e) = inl e
Found-later chosen union i s sets b b' (inr (k, e, free, gain)) =
    let same : i + 1 + k ≡ i + suc k = omega arith in
    inr (suc k, e ∙ ap (λ n. some n) same, ap (λ n. holds n chosen) (sym same) ∙ free, gain)

-- no gain is larger than the one found
record IsTop (gs : List ℕ) (chosen : List ℕ) (union : List ℕ) (i : ℕ) (sets : List (List ℕ))
    (b : Option ℕ × ℕ) (b' : Option ℕ × ℕ) : Type 0 where
  tops : All (λ g. g ≤ b'.1) gs
  grows : b.1 ≤ b'.1
  found : Found chosen union i sets b b'

Found-here :
    (chosen union : List ℕ) (i : ℕ) (s : List ℕ) (sets : List (List ℕ)) (b b' : Option ℕ × ℕ)
    → holds i chosen ≡ false
    → Found chosen union i (s ∷ sets) (some i, missing s union) b'
    → Found chosen union i (s ∷ sets) b b'
unfolding Found
Found-here chosen union i s sets b b' free (inl e) =
    let z : i ≡ i + 0 = omega arith in
    inr (
      0,
      ap (λ (x : Option ℕ × ℕ). x.0) e ∙ ap (λ n. some n) z,
      ap (λ n. holds n chosen) (sym z) ∙ free,
      ap (λ (x : Option ℕ × ℕ). x.1) e,
    )
Found-here chosen union i s sets b b' free (inr f) = inr f

best_from-IsTop :
    (chosen union : List ℕ) (i : ℕ) (sets : List (List ℕ)) (b : Option ℕ × ℕ)
    → IsTop (gains chosen union i sets) chosen union i sets b (best_from chosen union i sets b)
unfolding best_from Found
best_from-IsTop chosen union i [] b = record { tops = tt; grows = omega arith; found = inl refl }
best_from-IsTop chosen union i (s ∷ sets) b =
    let gain = missing s union in
    let old = best_from-IsTop chosen union (i + 1) sets b in
    let new = best_from-IsTop chosen union (i + 1) sets (some i, gain) in
    let old_best = best_from chosen union (i + 1) sets b in
    let new_best = best_from chosen union (i + 1) sets (some i, gain) in
    elim (Bool-cases (holds i chosen)) [
      | inl y ↦ rw y (record {
        tops = old.tops;
        grows = old.grows;
        found = Found-later chosen union i s sets b old_best old.found;
      })
      | inr n ↦ elim (Bool-cases (ltb b.1 gain)) [
        | inr small ↦
            let le : gain ≤ old_best.1 = ground (arith, small, old.grows) in
            rw (n, small)
              (record {
                tops = (le, old.tops);
                grows = old.grows;
                found = Found-later chosen union i s sets b old_best old.found;
              })
        | inl large ↦
            let le : b.1 ≤ new_best.1 = ground (arith, large, new.grows) in
            rw (n, large)
              (record {
                tops = (new.grows, new.tops);
                grows = le;
                found =
                    Found-here chosen union i s sets b new_best n
                      (Found-later chosen union i s sets (some i, gain) new_best new.found);
              })
      ]
    ]

-- Picks are greedy, after some that are chosen and cover a union: each is a set that is not chosen,
-- its gain is positive, at least the floor, and no smaller than that of any set that is not chosen.
abbrev pub IsGreedy : List (List ℕ) → ℕ → List ℕ → List ℕ → List ℕ → Type 0
IsGreedy sets floor chosen union [] = Unit
IsGreedy sets floor chosen union (p ∷ ps) =
    (holds p chosen ≡ false)
    × (0 < missing (set_at sets p) union)
    × (floor ≤ missing (set_at sets p) union)
    × All (λ g. g ≤ missing (set_at sets p) union) (gains chosen union 0 sets)
    × IsGreedy sets floor (p ∷ chosen) (set_at sets p ++ union) ps

cover_from-IsGreedy :
    (sets : List (List ℕ)) (floor left : ℕ) (chosen union : List ℕ)
    → IsGreedy sets floor chosen union (cover_from sets floor left chosen union)
      × (length (cover_from sets floor left chosen union) ≤ left)
unfolding cover_from Found
cover_from-IsGreedy sets floor zero chosen union = (tt, omega arith)
cover_from-IsGreedy sets floor (suc left) chosen union =
    step (best_from chosen union 0 sets (none, 0)) (best_from-IsTop chosen union 0 sets (none, 0))
      (λ p. cover_from-IsGreedy sets floor left (p ∷ chosen) (set_at sets p ++ union))
  where
    Good : List ℕ → Type 0
    Good picks = IsGreedy sets floor chosen union picks × (length picks ≤ suc left)

    next : ℕ → List ℕ
    next p = cover_from sets floor left (p ∷ chosen) (set_at sets p ++ union)

    nothing : Good []
    nothing = (tt, omega arith)

    picked :
        (p gain : ℕ)
        → IsTop (gains chosen union 0 sets) chosen union 0 sets (none, 0) (some p, gain)
        → IsGreedy sets floor (p ∷ chosen) (set_at sets p ++ union) (next p)
          × (length (next p) ≤ left)
        → (gain == 0 || ltb gain floor) ≡ false
        → Found chosen union 0 sets (none, 0) (some p, gain)
        → Good (p ∷ next p)
    picked p gain t later go (inl e) =
        let bad : some p ≡ none = ap (λ (x : Option ℕ × ℕ). x.0) e in absurd (cc)
    picked p gain t later go (inr (k, e, free, same)) =
        let at : k ≡ p = omega (arith, some-inj e) in
        let g : gain ≡ missing (set_at sets p) union =
          same ∙ ap (λ n. missing (set_at sets n) union) at in
        (
          (
            ap (λ n. holds n chosen) (some-inj e) ∙ free,
            subst (λ n. 0 < n) g (ground (arith, go)),
            subst (λ n. floor ≤ n) g (ground (arith, go)),
            subst (λ (n : ℕ). All (λ g. g ≤ n) (gains chosen union 0 sets)) g t.tops,
            later.0,
          ),
          omega (arith, later.1),
        )

    step :
        (b : Option ℕ × ℕ)
        → IsTop (gains chosen union 0 sets) chosen union 0 sets (none, 0) b
        → ((p : ℕ)
            → IsGreedy sets floor (p ∷ chosen) (set_at sets p ++ union) (next p)
              × (length (next p) ≤ left))
        → Good (elim b.0 [
          | none ↦ []
          | some best ↦ if b.1 == 0 || ltb b.1 floor then [] else best ∷ next best
        ])
    step (none, gain) t later = nothing
    step (some p, gain) t later =
        if_either Good (gain == 0 || ltb gain floor) [] (p ∷ next p) nothing
          (λ go. picked p gain t (later p) go t.found)

-- The picks are at most as many as are accepted, and greedy from the start: no set is picked
-- twice, and each adds to the union as many new hashes as any set that is left, some, and at
-- least the floor.
pub cover-IsGreedy :
    (sets : List (List ℕ)) (floor accept : ℕ)
    → IsGreedy sets floor [] [] (cover sets floor accept)
      × (length (cover sets floor accept) ≤ accept)
unfolding cover
cover-IsGreedy sets floor accept =
    if_either (λ (l : List ℕ). IsGreedy sets floor [] [] l × (length l ≤ accept))
      (accept == 0 || length sets == 0) [] (cover_from sets floor accept [] []) (tt, omega arith)
      (λ go. cover_from-IsGreedy sets floor accept [] [])
