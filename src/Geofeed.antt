-- ===== src/Geofeed.antt =====
-- internal/geofeed/lookup.go: the country of an IPv4 address, by binary search and a walk back over
-- ranges that may overlap.
pub mod Words
pub mod Wide
pub mod Walk
pub mod Lookup
pub mod WideWalk
pub mod WideLookup
pub mod Tests
use sub_preprocessor.Base.{
  ℕ, zero, suc, ◌+◌, ◌-◌, ◌*◌, ◌/◌, ◌%◌, ◌^◌, ◌≤◌, ◌<◌, max, min, ◌≡◌, refl, sym, ap, ◌∙◌, ◌≢◌, ◌↔◌,
  ◌⊎◌, inl, inr, Bool, true, false, not, ◌&&◌, ◌||◌, Option, none, some, List, [], ◌∷◌, ◌++◌, map,
  arith, ◌>>=◌, ltb, leb, ◌==◌, if◌then◌else◌, leb→le, le→leb, ltb→lt, lt→ltb, ==_iff, tests,
  Bool-cases, Option-cases, AllSome, AllSome-bind, bind-eq-some, some-inj, AllSome-all, AllSome-map,
  Bytes, codes, beq, beq_iff, beq_refl, has_byte, cut, cut-append, cut_last, split, is_space,
  trim_left, trim_right, trim_space, starts_with, is_digit, is_upper, is_lower, lower_byte,
  lower_byte_idem, is_ascii, to_lower, length, get_elem?, take, drop, length-append, keep, any,
  every, All, All-append, All-map, Among,
}
use sub_preprocessor.Base.Sort.{sort}
use sub_preprocessor.Base.Search.{binary_search}
use sub_preprocessor.Netip.{Addr, v4, v6, unmap}
use sub_preprocessor.Filter.{CountryCode}

-- `Range`; `none` is an invalid address
pub record Range : Type 0 where
  pub start : Option Addr
  pub end : Option Addr
  pub country : CountryCode

-- `ipRange`
pub record GeoRange : Type 0 where
  pub first : ℕ
  pub last : ℕ
  pub country : CountryCode

-- the ranges of `newIndexedLookup` that go to its IPv4 index
unfoldable pub v4_range : Option Addr → Option Addr → CountryCode → Option GeoRange
v4_range none end country = none
v4_range (some start) none country = none
v4_range (some (v6 a)) (some end) country = none
v4_range (some (v4 a)) (some (v6 b)) country = none
v4_range (some (v4 a)) (some (v4 b)) country =
    if ltb b a then none else some (record { first = a; last = b; country = country })

abbrev pub unmapped : Option Addr → Option Addr
unmapped none = none
unmapped (some a) = some (unmap a)

unfoldable pub v4_ranges : List Range → List GeoRange
unfolding v4_range unmap
v4_ranges [] = []
v4_ranges (r ∷ rs) =
    let rest = v4_ranges rs in
    elim (v4_range (unmapped r.start) (unmapped r.end) r.country) [
      | none ↦ rest
      | some g ↦ g ∷ rest
    ]

abbrev pub starts_first : GeoRange → GeoRange → Bool
starts_first a b = leb a.first b.first

abbrev pub grown : ℕ → GeoRange → ℕ
grown max_end r = if ltb max_end r.last then r.last else max_end

-- `v4MaxEnd`, beside the ranges
unfoldable pub with_max_end : ℕ → List GeoRange → List (GeoRange × ℕ)
with_max_end max_end [] = []
with_max_end max_end (r ∷ rs) = (r, grown max_end r) ∷ with_max_end (grown max_end r) rs

-- the IPv4 index of `newIndexedLookup`
unfoldable pub new_indexed_lookup : List Range → List (GeoRange × ℕ)
unfolding v4_ranges with_max_end sort
new_indexed_lookup rs = with_max_end 0 (sort starts_first (v4_ranges rs))

-- `l.v4[i].start > ip32`
unfoldable pub starts_behind : List (GeoRange × ℕ) → ℕ → ℕ → Bool
starts_behind [] ip i = true
starts_behind (p ∷ ps) ip zero = ltb ip p.0.first
starts_behind (p ∷ ps) ip (suc i) = starts_behind ps ip i

-- the first `n` entries, last first: the order in which `idx--` visits them
unfoldable pub back_from : ℕ → List (GeoRange × ℕ) → List (GeoRange × ℕ) → List (GeoRange × ℕ)
back_from zero ps visited = visited
back_from (suc n) [] visited = visited
back_from (suc n) (p ∷ ps) visited = back_from n ps (p ∷ visited)

abbrev pub span : GeoRange → ℕ
span r = r.last - r.first

-- the last test of a round: a range that is no wider than the best one so far takes its place
abbrev pub smaller : GeoRange → Option GeoRange → Option GeoRange
smaller r none = some r
smaller r (some best) = if leb (span r) (span best) then some r else some best

-- the walk back; `best` is `found`, `bestSpan` and `country`
unfoldable pub walk : ℕ → List (GeoRange × ℕ) → Option GeoRange → Option GeoRange
walk ip [] best = best
walk ip (p ∷ ps) best =
    let passed = walk ip ps best in
    let taken = walk ip ps (smaller p.0 best) in
    if ltb p.1 ip then best else if ltb p.0.last ip then passed else taken

abbrev pub no_country : CountryCode
no_country = record { hi = 0; lo = 0 }

abbrev pub country_of : Option GeoRange → CountryCode
country_of none = no_country
country_of (some r) = r.country

-- `lookupV4`
unfoldable pub lookup_v4 : List (GeoRange × ℕ) → ℕ → CountryCode
unfolding starts_behind back_from walk binary_search
lookup_v4 index ip =
    let idx = binary_search (length index) (starts_behind index ip) in
    country_of (walk ip (back_from idx index []) none)
