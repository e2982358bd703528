-- ===== src/Base/Search.antt =====
-- `sort.Search`: the binary search of Go's standard library, on fuel.
use sub_preprocessor.Base.{
  ℕ, zero, suc, ◌+◌, ◌/◌, ◌≤◌, ◌<◌, Bool, true, false, ◌≡◌, inl, inr, arith, Bool-cases, ltb,
  if◌then◌else◌,
}

-- `for i < j { h := (i+j)/2; if !f(h) { i = h+1 } else { j = h } }; return i`
unfoldable pub halve : ℕ → (ℕ → Bool) → ℕ → ℕ → ℕ
halve zero f i j = i
halve (suc fuel) f i j =
    let h = (i + j) / 2 in
    let right = halve fuel f (h + 1) j in
    let left = halve fuel f i h in if ltb i j then (if f h then left else right) else i

-- `sort.Search(n, f)`; each round shortens the interval, so `n` rounds are enough.
unfoldable pub binary_search : ℕ → (ℕ → Bool) → ℕ
unfolding halve
binary_search n f = halve n f 0 n

-- `f` turns from false to true at most once below `n`.
abbrev pub IsMonotone : ℕ → (ℕ → Bool) → Type 0
IsMonotone n f = (a b : ℕ) → a ≤ b → b < n → f a ≡ true → f b ≡ true

-- `r` is the first place below `n` where `f` is true, and `n` if there is none.
pub record IsFirst (n : ℕ) (f : ℕ → Bool) (r : ℕ) : Type 0 where
  pub bounded : r ≤ n
  pub before : (k : ℕ) → k < r → f k ≡ false
  pub at : r < n → f r ≡ true

module _ (n : ℕ) (f : ℕ → Bool) (m : IsMonotone n f) where
  before_middle : (h k : ℕ) → h < n → f h ≡ false → k ≤ h → f k ≡ false
  before_middle h k lt e le = elim (Bool-cases (f k)) [
    | inl t ↦ ground (arith, m k h le lt t)
    | inr t ↦ t
  ]

  halve-IsFirst :
      (fuel i j : ℕ)
      → j ≤ i + fuel
      → i ≤ j
      → j ≤ n
      → ((k : ℕ) → k < i → f k ≡ false)
      → (j < n → f j ≡ true)
      → IsFirst n f (halve fuel f i j)
  unfolding halve
  halve-IsFirst zero i j enough le lej below above = record {
    bounded = omega arith;
    before = below;
    at = λ lt. let e : i ≡ j = omega arith in rw e (above (omega arith));
  }
  halve-IsFirst (suc fuel) i j enough le lej below above = elim (Bool-cases (ltb i j)) [
    | inr done ↦
        let e : i ≡ j = ground arith in
        rw done
          (record { bounded = omega arith; before = below; at = λ lt. rw e (above (omega arith)) })
    | inl more ↦
        let lt : i < j = ground arith in
        elim (Bool-cases (f ((i + j) / 2))) [
          | inl t ↦
              rw (more, t)
                (halve-IsFirst fuel i ((i + j) / 2) (omega arith) (omega arith) (omega arith) below
                  (λ _. t))
          | inr t ↦
              rw (more, t)
                (halve-IsFirst fuel ((i + j) / 2 + 1) j (omega arith) (omega arith) lej
                  (λ k lk. before_middle ((i + j) / 2) k (omega arith) t (omega arith)) above)
        ]
  ]

  -- On a monotone test the search finds the first place where it is true.
  pub binary_search-IsFirst : IsFirst n f (binary_search n f)
  unfolding binary_search
  binary_search-IsFirst =
      halve-IsFirst n 0 n (omega arith) (omega arith) (omega arith) (λ k lt. absurd (omega arith))
        (λ lt. absurd (omega arith))
