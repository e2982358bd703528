-- ===== src/Stable/Label/Laws.antt =====
-- A label determines the source and the count it was built from.
use sub_preprocessor.Base.{
  ℕ, zero, suc, ◌+◌, ◌-◌, ◌/◌, ◌%◌, ◌≤◌, max, ◌≡◌, refl, sym, ap, ◌∙◌, ◌≢◌, true, false, none, some,
  [], ◌∷◌, ◌++◌, arith, some-inj, Bytes, has_byte, cut_last, is_digit, length, length-append,
}
use native.Mathlib.Numerals.{add-one}
use sub_preprocessor.Base.Decimal.{digits}
use sub_preprocessor.Base.Decimal.{
  format, all_digits, value_from, value_from-format, format-all_digits, all_digits-append,
  value_from-append,
}
use sub_preprocessor.Stable.Label.{
  zeros, count_digits, pad3, label_of, fold_mieru_name, source_of_parts, source_of_label,
}

cut_last-none : (b : ℕ) (s : Bytes) → has_byte b s ≡ false → cut_last b s ≡ none
unfolding cut_last has_byte
cut_last-none b [] h = refl
cut_last-none b (c ∷ cs) h = ground (arith, cut_last-none b cs)

cut_last_at : (b : ℕ) (s t : Bytes) → has_byte b t ≡ false → cut_last b (s ++ b ∷ t) ≡ some (s, t)
unfolding cut_last
cut_last_at b [] t h = ground (arith, cut_last-none b t h)
cut_last_at b (c ∷ cs) t h = rw (cut_last_at b cs t h)

zeros-all_digits : (n : ℕ) → all_digits (zeros n) ≡ true
unfolding zeros all_digits
zeros-all_digits zero = refl
zeros-all_digits (suc n) = zeros-all_digits n

value_from-zeros : (n : ℕ) → value_from 0 (zeros n) ≡ 0
unfolding zeros value_from
value_from-zeros zero = refl
value_from-zeros (suc n) = value_from-zeros n

pad3-all_digits : (v : ℕ) → all_digits (pad3 v) ≡ true
unfolding pad3
pad3-all_digits v =
    all_digits-append (zeros (3 - count_digits v v)) (format v)
      (zeros-all_digits (3 - count_digits v v)) (format-all_digits v)

-- The counter of a label reads back as its number.
pub value_from-pad3 : (v : ℕ) → value_from 0 (pad3 v) ≡ v
unfolding pad3
value_from-pad3 v =
    value_from-append (zeros (3 - count_digits v v)) (format v) 0
    ∙ rw value_from-zeros (value_from-format v)

digits-Lacks : (b : ℕ) (s : Bytes) → is_digit b ≡ false → all_digits s ≡ true → has_byte b s ≡ false
unfolding all_digits has_byte
digits-Lacks b [] h k = refl
digits-Lacks b (c ∷ cs) h k = ground (arith, digits-Lacks b cs h)

cut_last-label_of : (name : Bytes) (k : ℕ) → cut_last b'-' (label_of name k) ≡ some (name, pad3 k)
unfolding label_of
cut_last-label_of name k =
    cut_last_at b'-' name (pad3 k) (digits-Lacks b'-' (pad3 k) refl (pad3-all_digits k))

length-digits : (fuel n : ℕ) → n ≤ fuel → length (digits (suc fuel) n) ≡ count_digits fuel n
unfolding digits count_digits
length-digits zero n h = ground arith
length-digits (suc fuel) n h = ground (
  arith,
  length-digits fuel (n / 10),
  length-append (digits (suc fuel) (n / 10)) ((b'0' + n % 10) ∷ []),
)

length-format : (n : ℕ) → length (format n) ≡ count_digits n n
unfolding format
length-format n = rw add-one (length-digits n n (omega arith))

length-zeros : (n : ℕ) → length (zeros n) ≡ n
unfolding zeros
length-zeros zero = refl
length-zeros (suc n) = ap suc (length-zeros n)

-- The padded counter is the numeral, or three bytes wide where the numeral is shorter; its digits
-- read back as the number.
pub pad3_lem :
    (v : ℕ)
    → (length (pad3 v) ≡ max 3 (length (format v)))
      × (all_digits (pad3 v) ≡ true)
      × (value_from 0 (pad3 v) ≡ v)
unfolding pad3
pad3_lem v = (
  omega (
    arith,
    length-append (zeros (3 - count_digits v v)) (format v),
    length-zeros (3 - count_digits v v),
    length-format v,
  ),
  pad3-all_digits v,
  value_from-pad3 v,
)

pad3-ne_nil : (k : ℕ) → pad3 k ≢ []
pad3-ne_nil k e = let none_left : length (pad3 k) ≡ 0 = ap length e in omega (arith, pad3_lem k)

-- Two equal labels have the same source and the same number.
pub label_of-injective : (s t : Bytes) (j k : ℕ) → label_of s j ≡ label_of t k → (s ≡ t) × (j ≡ k)
label_of-injective s t j k e =
    let parts : some (s, pad3 j) ≡ some (t, pad3 k) =
      sym (cut_last-label_of s j) ∙ ap (cut_last b'-') e ∙ cut_last-label_of t k in
    let pairs : (s, pad3 j) ≡ (t, pad3 k) = some-inj parts in
    (
      ap (λ (p : Bytes × Bytes). p.0) pairs,
      sym (value_from-pad3 j)
          ∙ ap (λ (p : Bytes × Bytes). value_from 0 p.1) pairs
          ∙ value_from-pad3 k,
    )

-- The source read back from a label is the source it was made of, if that is not empty, whatever
-- bytes it holds.
pub source_of_label-label_of :
    (name : Bytes) (k : ℕ) → name ≢ [] → source_of_label (label_of name k) ≡ name
unfolding source_of_label
source_of_label-label_of name k ne =
    rw (cut_last-label_of name k, source_of_label)
      (go name (pad3 k) ne (pad3-ne_nil k) (pad3-all_digits k))
  where
    go :
        (s t : Bytes)
        → s ≢ []
        → t ≢ []
        → all_digits t ≡ true
        → source_of_parts (label_of name k) (s, t) ≡ s
    go [] t h g d = absurd (h refl)
    go (c ∷ s) [] h g d = absurd (g refl)
    go (c ∷ s) (x ∷ t) h g d = rw d

-- A name of the form `<label>:<port>/<protocol>` folds back onto its label, and only if it belongs
-- to a mieru proxy.
pub fold_mieru_name_lem :
    (label suffix : Bytes)
    → label ≢ []
    → has_byte b':' suffix ≡ false
    → (fold_mieru_name (label ++ b':' ∷ suffix) true ≡ label)
      × (fold_mieru_name (label ++ b':' ∷ suffix) false ≡ label ++ b':' ∷ suffix)
unfolding fold_mieru_name
fold_mieru_name_lem [] suffix ne h = absurd (ne refl)
fold_mieru_name_lem (c ∷ label) suffix ne h = (rw (cut_last_at b':' (c ∷ label) suffix h), refl)
