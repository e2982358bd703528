-- ===== src/Filter/Codes.antt =====
-- Lists of codes as text, the set of all codes, and the allow and deny rule.
use sub_preprocessor.Base.{
  split, ℕ, zero, suc, ◌<◌, ◌≡◌, refl, ◌∙◌, inl, inr, Bool, true, false, not, ◌&&◌, ◌||◌, Option,
  none, some, List, [], ◌∷◌, arith, if◌then◌else◌, Bool-cases, AllSome, Bytes, length, keep, any,
}
use sub_preprocessor.Netip.{Addr}
use sub_preprocessor.Filter.Bits.{test_bit}
use sub_preprocessor.Filter.{
  CountryCode, CountrySet, none_set, has_index, is_code, index, has, add_index, full_set, is_full,
  code_of, pair_code, part_code, skip_blanks, drop_blanks, add, add_all, add_parts, parse_allowed,
  permits, permitted,
}
use sub_preprocessor.Filter.Words.{same_code, has-add_index, length-add_index, has-none_set}

-- The token names the code, in either case and between blanks.
pub names : CountryCode → Bytes → Bool
names d part = elim (part_code part) [ none ↦ false | some c ↦ same_code c d ]

code_of-is_code : (a b : ℕ) → AllSome (λ c. is_code c ≡ true) (code_of a b)
unfolding code_of
code_of-is_code a b = ground arith

pair_code-is_code : (s : Bytes) → AllSome (λ c. is_code c ≡ true) (pair_code s)
unfolding pair_code
pair_code-is_code (a ∷ b ∷ []) = code_of-is_code a b
pair_code-is_code _ = tt

part_code-is_code : (part : Bytes) → AllSome (λ c. is_code c ≡ true) (part_code part)
unfolding part_code
part_code-is_code part = pair_code-is_code (drop_blanks (skip_blanks part))

length-add : (s : CountrySet) (part : Bytes) → length (add s part).0 ≡ length s
unfolding add
length-add s part = go (part_code part)
  where
    go :
        (o : Option CountryCode)
        → length
            (elim o as (λ x. CountrySet × Bool) [
              | none ↦ (s, false)
              | some c ↦ (add_index s (index c), true)
            ]).0
          ≡ length s
    go none = refl
    go (some c) = length-add_index s (index c)

has-add :
    (s : CountrySet) (part : Bytes) (d : CountryCode)
    → length s ≡ 11
    → has (add s part).0 d ≡ (names d part || has s d)
unfolding add names
has-add s part d e = go (part_code part) (part_code-is_code part)
  where
    go :
        (o : Option CountryCode)
        → AllSome (λ c. is_code c ≡ true) o
        → has
            (elim o as (λ x. CountrySet × Bool) [
              | none ↦ (s, false)
              | some c ↦ (add_index s (index c), true)
            ]).0
            d
          ≡ (elim o as (λ x. Bool) [ none ↦ false | some c ↦ same_code c d ] || has s d)
    go none h = refl
    go (some c) h = has-add_index s c d e h

has-add_all :
    (s : CountrySet) (l : List Bytes) (d : CountryCode)
    → length s ≡ 11
    → (has (add_all s l) d ≡ (any (names d) l || has s d)) × (length (add_all s l) ≡ 11)
unfolding add_all any
has-add_all s [] d e = (refl, e)
has-add_all s (part ∷ rest) d e =
    ground (arith, has-add_all (add s part).0 rest d (length-add s part ∙ e), has-add s part d e)

has-add_parts :
    (s : CountrySet) (l : List Bytes) (d : CountryCode)
    → length s ≡ 11
    → has (add_parts s l) d ≡ (any (λ part. any (names d) (split b',' part)) l || has s d)
unfolding add_parts any
has-add_parts s [] d e = refl
has-add_parts s (part ∷ rest) d e =
    let added = has-add_all s (split b',' part) d e in
    has-add_parts (add_all s (split b',' part)) rest d added.1 ∙ ground (arith, added.0)

-- The set read from a list of texts has a country exactly when some comma-separated part of some
-- text names it.
pub has-parse_allowed :
    (parts : List Bytes) (d : CountryCode)
    → has (parse_allowed parts) d ≡ any (λ part. any (names d) (split b',' part)) parts
unfolding parse_allowed
has-parse_allowed parts d = has-add_parts none_set parts d refl ∙ ground (arith, has-none_set d)

all_upto : ℕ → (ℕ → Bool) → Bool
all_upto zero p = true
all_upto (suc n) p = p n && all_upto n p

all_upto_sound : (n : ℕ) (p : ℕ → Bool) (x : ℕ) → all_upto n p ≡ true → x < n → p x ≡ true
unfolding all_upto
all_upto_sound zero p x h lt = absurd (omega arith)
all_upto_sound (suc n) p x h lt = ground (arith, all_upto_sound n p x)

full_table : all_upto 676 (has_index full_set) ≡ true
unfolding all_upto has_index test_bit
full_table = refl

-- `All()` has every code, and nothing else.
pub has-full_set : (d : CountryCode) → has full_set d ≡ is_code d
unfolding has
has-full_set d = elim (Bool-cases (is_code d)) [
  | inl k ↦ rw k (all_upto_sound 676 (has_index full_set) (index d) full_table (ground arith))
  | inr k ↦ rw k
]

-- A country code passes when the allow-list is full or has it, and the deny-list does not have
-- it; what is no code passes exactly when the allow-list is full.
pub permits_rule :
    (allowed denied : CountrySet) (c : CountryCode)
    → permits allowed denied c ≡ (
        if is_code c
        then (is_full allowed || has allowed c) && not (has denied c)
        else is_full allowed)
unfolding permits has
permits_rule allowed denied c = ground arith

-- Filtering the addresses keeps, in order, those whose country is permitted.
pub permitted-keep :
    (lookup : Addr → CountryCode) (ips : List Addr) (allowed denied : CountrySet)
    → permitted lookup ips allowed denied ≡ keep (λ ip. permits allowed denied (lookup ip)) ips
unfolding permitted keep permits
permitted-keep lookup [] allowed denied = refl
permitted-keep lookup (ip ∷ ips) allowed denied =
    ground (arith, permitted-keep lookup ips allowed denied)
