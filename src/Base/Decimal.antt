-- ===== src/Base/Decimal.antt =====
-- Decimal numerals: what `strconv.AppendInt` writes of a number and what its digits read back as.
use sub_preprocessor.Base.{
  ℕ, zero, suc, ◌+◌, ◌-◌, ◌*◌, ◌/◌, ◌%◌, ◌<◌, Bool, true, [], ◌∷◌, ◌++◌, ◌≡◌, refl, ap, inl, inr,
  arith, Bool-cases, ltb, if◌then◌else◌, Bytes, is_digit, every, codes,
}

-- The digits of `n`, most significant first; `fuel` bounds their number.
unfoldable pub digits : ℕ → ℕ → Bytes
digits zero n = []
digits (suc fuel) n =
    let rest = digits fuel (n / 10) in
    if ltb n 10 then (b'0' + n) ∷ [] else rest ++ (b'0' + n % 10) ∷ []

-- `strconv.AppendInt(nil, n, 10)` of a number that is not negative
unfoldable pub format : ℕ → Bytes
unfolding digits
format n = digits (n + 1) n

-- `for c in s { n = n*10 + c - '0' }` over digits
unfoldable pub value_from : ℕ → Bytes → ℕ
value_from n [] = n
value_from n (c ∷ cs) = value_from (n * 10 + (c - b'0')) cs

unfoldable pub all_digits : Bytes → Bool
unfolding every
all_digits = every (λ c. is_digit c)

pub all_digits-append :
    (s t : Bytes) → all_digits s ≡ true → all_digits t ≡ true → all_digits (s ++ t) ≡ true
unfolding all_digits
all_digits-append [] t h k = k
all_digits-append (c ∷ s) t h k = ground (arith, all_digits-append s t)

pub value_from-append :
    (s t : Bytes) (n : ℕ) → value_from n (s ++ t) ≡ value_from (value_from n s) t
unfolding value_from
value_from-append [] t n = refl
value_from-append (c ∷ s) t n = value_from-append s t (n * 10 + (c - b'0'))

digits-all_digits : (fuel n : ℕ) → all_digits (digits fuel n) ≡ true
unfolding digits all_digits
digits-all_digits zero n = refl
digits-all_digits (suc fuel) n = elim (Bool-cases (ltb n 10)) [
  | inl small ↦ rw small (ground arith)
  | inr big ↦ rw big (
      unfold all_digits in
      all_digits-append (digits fuel (n / 10)) ((b'0' + n % 10) ∷ [])
        (digits-all_digits fuel (n / 10)) (ground arith))
]

value_from-digits : (fuel n : ℕ) → n < fuel → value_from 0 (digits fuel n) ≡ n
unfolding digits value_from
value_from-digits zero n h = absurd (omega arith)
value_from-digits (suc fuel) n h = elim (Bool-cases (ltb n 10)) [
  | inl small ↦ rw small (omega arith)
  | inr big ↦
      rw
        (
          big,
          value_from-append (digits fuel (n / 10)) ((b'0' + n % 10) ∷ []) 0,
          value_from-digits fuel (n / 10) (ground arith),
        )
        (omega arith)
]

-- A numeral holds digits alone, and they read back as the number.
pub format-all_digits : (n : ℕ) → all_digits (format n) ≡ true
unfolding format
format-all_digits n = digits-all_digits (n + 1) n

pub value_from-format : (n : ℕ) → value_from 0 (format n) ≡ n
unfolding format
value_from-format n = value_from-digits (n + 1) n (omega arith)

pub format-injective : (m n : ℕ) → format m ≡ format n → m ≡ n
format-injective m n e = cc (value_from-format m, value_from-format n, ap (value_from 0) e)

format_runs : format 1203 ≡ codes "1203"
unfolding format
format_runs = refl
