-- ===== src/Filter/Words.antt =====
-- The set as a whole: adding one code changes the answer for that code alone.
use sub_preprocessor.Base.{
  ℕ, zero, suc, ◌/◌, ◌%◌, ◌<◌, ◌≡◌, refl, ap, ◌∙◌, inl, inr, Bool, true, false, ◌&&◌, ◌||◌, none,
  some, [], ◌∷◌, arith, ◌==◌, Bool-cases, length, get_elem?, All,
}
use sub_preprocessor.Filter.Bits.{test_bit, test_bit-set_bit, test_bit-zero}
use sub_preprocessor.Filter.{
  CountryCode, CountrySet, none_set, has_index, is_code, index, has, add_at, add_index,
}

abbrev bit_at : CountrySet → ℕ → ℕ → Bool
bit_at s i k = elim (get_elem? s i) [ none ↦ false | some w ↦ test_bit w k ]

bit_at-add_at :
    (s : CountrySet) (i j k l : ℕ)
    → i < length s
    → bit_at (add_at s i k) j l ≡ ((i == j && l == k) || bit_at s j l)
unfolding add_at
bit_at-add_at [] i j k l h = absurd (omega arith)
bit_at-add_at (w ∷ ws) zero zero k l h = test_bit-set_bit w l k
bit_at-add_at (w ∷ ws) zero (suc j) k l h = ground arith
bit_at-add_at (w ∷ ws) (suc i) zero k l h = ground arith
bit_at-add_at (w ∷ ws) (suc i) (suc j) k l h = bit_at-add_at ws i j k l (omega arith) ∙ ground arith

pub length-add_at : (s : CountrySet) (i k : ℕ) → length (add_at s i k) ≡ length s
unfolding add_at
length-add_at [] i k = refl
length-add_at (w ∷ ws) zero k = refl
length-add_at (w ∷ ws) (suc i) k = ap suc (length-add_at ws i k)

same_place : (i j : ℕ) → (i / 64 == j / 64 && j % 64 == i % 64) ≡ (i == j)
same_place i j = ground arith

has_index-add_index :
    (s : CountrySet) (i j : ℕ)
    → length s ≡ 11
    → i < 704
    → has_index (add_index s i) j ≡ ((i == j) || has_index s j)
unfolding has_index add_index
has_index-add_index s i j e h =
    bit_at-add_at s (i / 64) (j / 64) (i % 64) (j % 64) (omega arith)
    ∙ ap (λ b. b || bit_at s (j / 64) (j % 64)) (same_place i j)

abbrev pub same_code : CountryCode → CountryCode → Bool
same_code c d = c.hi == d.hi && c.lo == d.lo

index-injective :
    (c d : CountryCode) → is_code c ≡ true → is_code d ≡ true → (index c == index d) ≡ same_code c d
index-injective c d h k = ground arith

index-lt : (c : CountryCode) → is_code c ≡ true → index c < 704
index-lt c h = ground arith

-- After adding a code, the set has what it had, and that code.
pub has-add_index :
    (s : CountrySet) (c d : CountryCode)
    → length s ≡ 11
    → is_code c ≡ true
    → has (add_index s (index c)) d ≡ (same_code c d || has s d)
unfolding has
has-add_index s c d e h = elim (Bool-cases (is_code d)) [
  | inl k ↦ rw k (
      has_index-add_index s (index c) (index d) e (index-lt c h)
      ∙ ap (λ b. b || has_index s (index d)) (index-injective c d h k))
  | inr k ↦ rw k (ground arith)
]

pub length-add_index : (s : CountrySet) (i : ℕ) → length (add_index s i) ≡ length s
unfolding add_index
length-add_index s i = length-add_at s (i / 64) (i % 64)

zero_words : (i k : ℕ) → bit_at none_set i k ≡ false
zero_words i k = go none_set i k zeros
  where
    go : (s : CountrySet) (i k : ℕ) → All (λ (w : ℕ). w ≡ 0) s → bit_at s i k ≡ false
    go [] i k h = refl
    go (w ∷ ws) zero k h = rw h.0 (test_bit-zero k)
    go (w ∷ ws) (suc i) k h = go ws i k h.1

    zeros : All (λ (w : ℕ). w ≡ 0) none_set
    zeros = omega arith

-- The empty set has no code.
pub has-none_set : (d : CountryCode) → has none_set d ≡ false
unfolding has has_index
has-none_set d = ground (arith, zero_words (index d / 64) (index d % 64))
