-- ===== src/Stable/Label.antt =====
-- internal/stable/label.go and the labels of internal/stable/merge.go: `<source>-NNN`, and the way
-- back from a label to its source and from a proxy name to its label.
pub mod Laws
use sub_preprocessor.Base.{
  ℕ, zero, suc, ◌+◌, ◌-◌, ◌*◌, ◌/◌, ◌%◌, ◌^◌, ◌≤◌, ◌<◌, max, min, ◌≡◌, refl, sym, ap, ◌∙◌, ◌≢◌, ◌↔◌,
  ◌⊎◌, inl, inr, Bool, true, false, not, ◌&&◌, ◌||◌, Option, none, some, List, [], ◌∷◌, ◌++◌, map,
  arith, ◌>>=◌, ltb, leb, ◌==◌, if◌then◌else◌, leb→le, le→leb, ltb→lt, lt→ltb, ==_iff, tests,
  Bool-cases, Option-cases, AllSome, AllSome-bind, bind-eq-some, some-inj, Bytes, codes, beq,
  beq_iff, beq_refl, has_byte, cut, cut_last, split, is_space, trim_left, trim_right, trim_space,
  starts_with, is_digit, is_upper, is_lower, lower_byte, lower_byte_idem, is_ascii, to_lower,
  length, get_elem?, take, drop, length-append, keep, any, every, All, All-append, All-map,
}
use sub_preprocessor.Base.Decimal.{format, digits, all_digits}

-- `for n := v; n >= 10; n /= 10 { digits++ }`, from one digit
unfoldable pub count_digits : ℕ → ℕ → ℕ
count_digits zero n = 1
count_digits (suc fuel) n =
    let rest = count_digits fuel (n / 10) in if ltb n 10 then 1 else rest + 1

unfoldable pub zeros : ℕ → Bytes
zeros zero = []
zeros (suc n) = b'0' ∷ zeros n

-- `appendPad3(nil, v)`; a number has fewer digits than its value plus one
unfoldable pub pad3 : ℕ → Bytes
unfolding count_digits zeros format
pad3 v = zeros (3 - count_digits v v) ++ format v

-- `labelBuf` for the `k`-th kept node of a source
unfoldable pub label_of : Bytes → ℕ → Bytes
unfolding pad3
label_of name k = name ++ b'-' ∷ pad3 k

unfoldable pub fold_mieru_name : Bytes → Bool → Bytes
unfolding cut_last
fold_mieru_name name false = name
fold_mieru_name name true = elim (cut_last b':' name) [
  | none ↦ name
  | some ([], suffix) ↦ name
  | some (c ∷ label, suffix) ↦ c ∷ label
]

-- the two tests on the tail behind the last '-': not empty, and digits alone
unfoldable pub source_of_parts : Bytes → Bytes × Bytes → Bytes
source_of_parts label ([], tail) = label
source_of_parts label (c ∷ source, []) = label
source_of_parts label (c ∷ source, d ∷ tail) = if all_digits (d ∷ tail) then c ∷ source else label

unfoldable pub source_of_label : Bytes → Bytes
unfolding cut_last source_of_parts
source_of_label label = elim (cut_last b'-' label) [
  | none ↦ label
  | some p ↦ source_of_parts label p
]

-- `entryLabel` and `mappingLabel`, on a proxy's name and type
abbrev pub entry_label : Bytes → Bytes → Bytes
entry_label name typ = fold_mieru_name name (beq typ (codes "mieru"))
