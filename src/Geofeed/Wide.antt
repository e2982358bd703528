-- ===== src/Geofeed/Wide.antt =====
-- internal/geofeed/lookup.go: the country of an IPv6 address, and the lookup on either family.
use sub_preprocessor.Base.{
  ℕ, zero, suc, ◌+◌, ◌/◌, ◌%◌, ◌^◌, Bool, true, not, Option, none, some, List, [], ◌∷◌, ltb,
  if◌then◌else◌, length,
}
use sub_preprocessor.Base.Sort.{sort}
use sub_preprocessor.Base.Search.{binary_search}
use sub_preprocessor.Netip.{Addr, v4, v6, unmap}
use sub_preprocessor.Filter.{CountryCode}
use sub_preprocessor.Geofeed.{new_indexed_lookup, lookup_v4, GeoRange, Range, unmapped, no_country}
use sub_preprocessor.Geofeed.Words.{Uint128, less, sub}

-- `ip6Range`
pub record WideRange : Type 0 where
  pub first : Uint128
  pub last : Uint128
  pub country : CountryCode

-- `addrToUint128`
unfoldable pub to_words : ℕ → Uint128
to_words n = record { hi = n / 2 ^ 64; lo = n % 2 ^ 64 }

-- the ranges of `newIndexedLookup` that go to its IPv6 index
unfoldable pub v6_range : Option Addr → Option Addr → CountryCode → Option WideRange
unfolding to_words
v6_range none end country = none
v6_range (some start) none country = none
v6_range (some (v4 a)) (some end) country = none
v6_range (some (v6 a)) (some (v4 b)) country = none
v6_range (some (v6 a)) (some (v6 b)) country =
    if ltb b a
    then none
    else some (record { first = to_words a; last = to_words b; country = country })

unfoldable pub v6_ranges : List Range → List WideRange
unfolding v6_range unmap
v6_ranges [] = []
v6_ranges (r ∷ rs) =
    let rest = v6_ranges rs in
    elim (v6_range (unmapped r.start) (unmapped r.end) r.country) [
      | none ↦ rest
      | some g ↦ g ∷ rest
    ]

-- not `less b a`, as a stable sort by `less` orders
abbrev pub starts_low : WideRange → WideRange → Bool
starts_low a b = not (less b.first a.first)

abbrev pub grown6 : Uint128 → WideRange → Uint128
grown6 max_end r = if less max_end r.last then r.last else max_end

-- `v6MaxEnd`, beside the ranges
unfoldable pub with_max_end6 : Uint128 → List WideRange → List (WideRange × Uint128)
unfolding less
with_max_end6 max_end [] = []
with_max_end6 max_end (r ∷ rs) = (r, grown6 max_end r) ∷ with_max_end6 (grown6 max_end r) rs

abbrev pub zero_words : Uint128
zero_words = record { hi = 0; lo = 0 }

unfoldable pub new_indexed_lookup6 : List Range → List (WideRange × Uint128)
unfolding v6_ranges with_max_end6 sort less
new_indexed_lookup6 rs = with_max_end6 zero_words (sort starts_low (v6_ranges rs))

-- `ip128.less(l.v6[i].start)`
unfoldable pub starts_behind6 : List (WideRange × Uint128) → Uint128 → ℕ → Bool
unfolding less
starts_behind6 [] ip i = true
starts_behind6 (p ∷ ps) ip zero = less ip p.0.first
starts_behind6 (p ∷ ps) ip (suc i) = starts_behind6 ps ip i

unfoldable pub back_from6 :
    ℕ → List (WideRange × Uint128) → List (WideRange × Uint128) → List (WideRange × Uint128)
back_from6 zero ps visited = visited
back_from6 (suc n) [] visited = visited
back_from6 (suc n) (p ∷ ps) visited = back_from6 n ps (p ∷ visited)

abbrev pub span6 : WideRange → Uint128
span6 r = sub r.last r.first

abbrev pub smaller6 : WideRange → Option WideRange → Option WideRange
smaller6 r none = some r
smaller6 r (some best) = if not (less (span6 best) (span6 r)) then some r else some best

unfoldable pub walk6 : Uint128 → List (WideRange × Uint128) → Option WideRange → Option WideRange
unfolding less sub
walk6 ip [] best = best
walk6 ip (p ∷ ps) best =
    let passed = walk6 ip ps best in
    let taken = walk6 ip ps (smaller6 p.0 best) in
    if less p.1 ip then best else if less p.0.last ip then passed else taken

abbrev pub country_of6 : Option WideRange → CountryCode
country_of6 none = no_country
country_of6 (some r) = r.country

-- `lookupV6`
unfoldable pub lookup_v6 : List (WideRange × Uint128) → Uint128 → CountryCode
unfolding starts_behind6 back_from6 walk6 binary_search
lookup_v6 index ip =
    let idx = binary_search (length index) (starts_behind6 index ip) in
    country_of6 (walk6 ip (back_from6 idx index []) none)

-- `indexedLookup`
pub record Index : Type 0 where
  pub narrow_index : List (GeoRange × ℕ)
  pub wide_index : List (WideRange × Uint128)

unfoldable pub build_index : List Range → Index
unfolding new_indexed_lookup new_indexed_lookup6
build_index rs = record {
  narrow_index = new_indexed_lookup rs;
  wide_index = new_indexed_lookup6 rs;
}

unfoldable pub lookup_family : Index → Addr → CountryCode
unfolding lookup_v4 lookup_v6 to_words
lookup_family l (v4 n) = lookup_v4 l.narrow_index n
lookup_family l (v6 n) = lookup_v6 l.wide_index (to_words n)

-- the method `LookupCountry`
unfoldable pub lookup_country : Index → Addr → CountryCode
unfolding lookup_family unmap
lookup_country l ip = lookup_family l (unmap ip)

-- `Len`
unfoldable pub index_len : Index → ℕ
index_len l = length l.narrow_index + length l.wide_index
