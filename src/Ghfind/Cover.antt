-- ===== src/Ghfind/Cover.antt =====
-- internal/ghfind/cover.go: the greedy choice of sources that cover many endpoints. A hash is a
-- number of 64 bits, and the union is the list of the hashes that the picked sets hold.
pub mod Greedy
use sub_preprocessor.Base.{
  ℕ, zero, suc, ◌+◌, ◌-◌, ◌*◌, ◌/◌, ◌%◌, ◌^◌, ◌≤◌, ◌<◌, max, min, ◌≡◌, refl, sym, ap, ◌∙◌, ◌≢◌, ◌↔◌,
  ◌⊎◌, inl, inr, Bool, true, false, not, ◌&&◌, ◌||◌, Option, none, some, List, [], ◌∷◌, ◌++◌, map,
  arith, ◌>>=◌, ltb, leb, ◌==◌, if◌then◌else◌, leb→le, le→leb, ltb→lt, lt→ltb, ==_iff, tests,
  Bool-cases, Option-cases, if_either, if_passed, AllSome, AllSome-bind, bind-eq-some, some-inj,
  AllSome-all, AllSome-map, Bytes, codes, beq, beq_iff, beq_refl, has_byte, cut, cut-append,
  cut_last, split, is_space, trim_left, trim_right, trim_space, starts_with, is_digit, is_upper,
  is_lower, lower_byte, lower_byte_idem, is_ascii, to_lower, length, get_elem?, take, drop,
  length-append, keep, any, every, All, All-append, All-map, Among, length-Among,
}

-- whether an element stands in a list: the map `union`, and the slice `chosen`
unfoldable pub holds : ℕ → List ℕ → Bool
holds h [] = false
holds h (x ∷ xs) = let rest = holds h xs in if h == x then true else rest

-- `missing`
unfoldable pub missing : List ℕ → List ℕ → ℕ
unfolding holds
missing [] union = 0
missing (h ∷ set) union = let n = missing set union in if holds h union then n else n + 1

-- the inner loop of `Cover` from the `i`-th set on: `(best, bestGain)`
unfoldable pub best_from : List ℕ → List ℕ → ℕ → List (List ℕ) → Option ℕ × ℕ → Option ℕ × ℕ
unfolding missing holds
best_from chosen union i [] b = b
best_from chosen union i (s ∷ sets) b =
    let gain = missing s union in
    let same = best_from chosen union (i + 1) sets b in
    let better = best_from chosen union (i + 1) sets (some i, gain) in
    if holds i chosen then same else if ltb b.1 gain then better else same

abbrev pub set_at : List (List ℕ) → ℕ → List ℕ
set_at sets i = elim (get_elem? sets i) [ none ↦ [] | some s ↦ s ]

-- the outer loop with `left` picks left
unfoldable pub cover_from : List (List ℕ) → ℕ → ℕ → List ℕ → List ℕ → List ℕ
unfolding best_from
cover_from sets floor zero chosen union = []
cover_from sets floor (suc left) chosen union =
    let b = best_from chosen union 0 sets (none, 0) in
    elim b.0 [
      | none ↦ []
      | some best ↦
          let rest = cover_from sets floor left (best ∷ chosen) (set_at sets best ++ union) in
          if b.1 == 0 || ltb b.1 floor then [] else best ∷ rest
    ]

-- `Cover`
unfoldable pub cover : List (List ℕ) → ℕ → ℕ → List ℕ
unfolding cover_from
cover sets floor accept =
    let picks = cover_from sets floor accept [] [] in
    if accept == 0 || length sets == 0 then [] else picks
