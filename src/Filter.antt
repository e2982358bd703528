-- ===== src/Filter.antt =====
-- internal/filter/filter.go: the country sets of the allow and deny lists, and the tests on them.
-- A `[11]uint64` is a list of eleven words; `Filter/Bits` reads and sets single bits of a word.
pub mod Bits
pub mod Words
pub mod Codes
pub mod Tests
use sub_preprocessor.Base.{
  split, ℕ, zero, suc, ◌+◌, ◌-◌, ◌*◌, ◌/◌, ◌%◌, ◌^◌, ◌≤◌, ◌<◌, max, min, ◌≡◌, refl, sym, ap, ◌∙◌,
  ◌≢◌, ◌↔◌, ◌⊎◌, inl, inr, Bool, true, false, not, ◌&&◌, ◌||◌, Option, none, some, List, [], ◌∷◌,
  ◌++◌, map, arith, ◌>>=◌, ltb, leb, ◌==◌, if◌then◌else◌, leb→le, le→leb, ltb→lt, lt→ltb, ==_iff,
  tests, Bool-cases, Option-cases, AllSome, AllSome-bind, bind-eq-some, some-inj, Bytes, codes, beq,
  beq_iff, beq_refl, has_byte, cut, cut_last, is_space, trim_left, trim_right, trim_space,
  starts_with, is_digit, is_upper, is_lower, lower_byte, lower_byte_idem, is_ascii, to_lower,
  length, get_elem?, take, drop, length-append, keep, any, every, All, All-append, All-map,
}
use sub_preprocessor.Netip.{Addr}
use sub_preprocessor.Filter.Bits.{test_bit, set_bit}

-- `geofeed.CountryCode`: two bytes, both 0 where no source places an address
pub record CountryCode : Type 0 where
  pub hi : ℕ
  pub lo : ℕ

abbrev pub CountrySet : Type 0
CountrySet = List ℕ

-- `var set CountrySet`
abbrev pub none_set : CountrySet
none_set = 0 ∷ 0 ∷ 0 ∷ 0 ∷ 0 ∷ 0 ∷ 0 ∷ 0 ∷ 0 ∷ 0 ∷ 0 ∷ []

-- bit `idx % 64` of word `idx / 64`
unfoldable pub has_index : CountrySet → ℕ → Bool
has_index s idx = elim (get_elem? s (idx / 64)) [ none ↦ false | some w ↦ test_bit w (idx % 64) ]

abbrev pub is_code : CountryCode → Bool
is_code c = is_upper c.hi && is_upper c.lo

abbrev pub index : CountryCode → ℕ
index c = (c.hi - b'A') * 26 + (c.lo - b'A')

unfoldable pub has : CountrySet → CountryCode → Bool
unfolding has_index
has s c = if is_code c then has_index s (index c) else false

-- `set[i/64] |= 1 << (i % 64)`
unfoldable pub add_at : CountrySet → ℕ → ℕ → CountrySet
add_at [] i k = []
add_at (w ∷ ws) zero k = set_bit w k ∷ ws
add_at (w ∷ ws) (suc i) k = w ∷ add_at ws i k

unfoldable pub add_index : CountrySet → ℕ → CountrySet
unfolding add_at
add_index s idx = add_at s (idx / 64) (idx % 64)

-- the bytes that `parseCountryPart` trims
abbrev pub is_blank : ℕ → Bool
is_blank c = c == b' ' || c == b'\t' || c == b'\n' || c == b'\r'

unfoldable pub skip_blanks : Bytes → Bytes
skip_blanks [] = []
skip_blanks (c ∷ cs) = let rest = skip_blanks cs in if is_blank c then rest else c ∷ cs

unfoldable pub drop_blanks : Bytes → Bytes
drop_blanks [] = []
drop_blanks (c ∷ cs) =
    let rest = drop_blanks cs in
    elim rest [ [] ↦ if is_blank c then [] else c ∷ [] | d ∷ ds ↦ c ∷ d ∷ ds ]

abbrev pub to_upper : ℕ → ℕ
to_upper c = if is_lower c then c - 32 else c

-- the code that two bytes stand for, in either case
unfoldable pub code_of : ℕ → ℕ → Option CountryCode
code_of a b =
    let c : CountryCode = record { hi = to_upper a; lo = to_upper b } in
    if is_code c then some c else none

-- exactly two bytes must be left after trimming
pair_code : Bytes → Option CountryCode
pair_code (a ∷ b ∷ []) = code_of a b
pair_code _ = none

unfoldable pub part_code : Bytes → Option CountryCode
unfolding pair_code code_of skip_blanks drop_blanks
part_code part = pair_code (drop_blanks (skip_blanks part))

-- `Add`, which is `parseCountryPart`: the new set, and whether the part was a code
unfoldable pub add : CountrySet → Bytes → CountrySet × Bool
unfolding part_code add_index
add s part = elim (part_code part) [ none ↦ (s, false) | some c ↦ (add_index s (index c), true) ]

unfoldable pub add_all : CountrySet → List Bytes → CountrySet
unfolding add
add_all s [] = s
add_all s (part ∷ rest) = add_all (add s part).0 rest

unfoldable pub add_parts : CountrySet → List Bytes → CountrySet
unfolding add_all split
add_parts s [] = s
add_parts s (part ∷ rest) = add_parts (add_all s (split b',' part)) rest

unfoldable pub parse_allowed : List Bytes → CountrySet
unfolding add_parts
parse_allowed = add_parts none_set

-- `All()`: ten whole words, and the bits of the last one up to ZZ
abbrev pub whole : ℕ
whole = 2 ^ 64 - 1

abbrev pub full_set : CountrySet
full_set =
    whole
    ∷ whole
    ∷ whole
    ∷ whole
    ∷ whole
    ∷ whole
    ∷ whole
    ∷ whole
    ∷ whole
    ∷ whole
    ∷ (2 ^ 36 - 1)
    ∷ []

unfoldable pub is_full : CountrySet → Bool
is_full s = beq s full_set

unfoldable pub is_empty : CountrySet → Bool
is_empty [] = true
is_empty (w ∷ ws) = let rest = is_empty ws in if not (w == 0) then false else rest

unfoldable pub permits : CountrySet → CountrySet → CountryCode → Bool
permits allowed denied country =
    if not (is_full allowed) && not (has allowed country) then false else not (has denied country)

-- `Permitted`, with the lookup that gives an address its country
unfoldable pub permitted : (Addr → CountryCode) → List Addr → CountrySet → CountrySet → List Addr
permitted lookup [] allowed denied = []
permitted lookup (ip ∷ ips) allowed denied =
    let rest = permitted lookup ips allowed denied in
    let country = lookup ip in
    if (is_full allowed || has allowed country) && not (has denied country) then ip ∷ rest else rest
