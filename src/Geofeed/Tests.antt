-- ===== src/Geofeed/Tests.antt =====
-- internal/geofeed/lookup.go: runs of the definitions and instances of the theorems.
use sub_preprocessor.Base.{arith, All, ℕ, ◌≡◌, refl, some, List, [], ◌∷◌}
use sub_preprocessor.Base.Sort.{sort}
use sub_preprocessor.Netip.{unmap, v4, v6}
use sub_preprocessor.Filter.{CountryCode}
use sub_preprocessor.Geofeed.{
  Range, new_indexed_lookup, lookup_v4, country_of, starts_first, no_country,
}
use sub_preprocessor.Geofeed.Walk.{narrowest}
use sub_preprocessor.Geofeed.Wide.{build_index, lookup_country}
use sub_preprocessor.Geofeed.WideLookup.{lookup_country-narrowest, family_ranges, number, RangeFits}

abbrev code : ℕ → CountryCode
code n = record { hi = n; lo = n }

abbrev range : ℕ → ℕ → CountryCode → Range
range a b country = record { start = some (v4 a); end = some (v4 b); country = country }

abbrev ranges : List Range
ranges =
    range 10 100 (code 65)
    ∷ range 20 29 (code 66)
    ∷ range 50 40 (code 67)
    ∷ range 22 31 (code 68)
    ∷ record { start = some (v6 1); end = some (v6 9); country = code 69 }
    ∷ []

lookup_v4_run :
    (lookup_v4 (new_indexed_lookup ranges) 25 ≡ code 66)
    × (lookup_v4 (new_indexed_lookup ranges) 30 ≡ code 68)
    × (lookup_v4 (new_indexed_lookup ranges) 90 ≡ code 65)
    × (lookup_v4 (new_indexed_lookup ranges) 101 ≡ no_country)
unfolding lookup_v4 new_indexed_lookup
lookup_v4_run = (refl, refl, refl, refl)

ranges-fit : All RangeFits ranges
ranges-fit = omega arith

lookup_country_run :
    (lookup_country (build_index ranges) (v6 7) ≡ code 69)
    × (lookup_country (build_index ranges) (v6 281470681743385) ≡ code 66)
unfolding lookup_country build_index
lookup_country_run = (refl, refl)

lookup_country-narrowest_example :
    lookup_country (build_index ranges) (v6 7)
    ≡ country_of (
        narrowest (number (unmap (v6 7))) (sort starts_first (family_ranges ranges (unmap (v6 7)))))
lookup_country-narrowest_example = lookup_country-narrowest ranges (v6 7) ranges-fit (omega arith)
