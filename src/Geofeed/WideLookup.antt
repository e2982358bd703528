-- ===== src/Geofeed/WideLookup.antt =====
-- internal/geofeed/lookup.go: the country that is found for an address of either family.
use sub_preprocessor.Base.{
  ℕ, ◌/◌, ◌^◌, ◌<◌, ◌≡◌, refl, sym, ap, ◌∙◌, inl, inr, not, Option, none, some, List, [], ◌∷◌, map,
  arith, ltb, ◌==◌, Bool-cases, AllSome, All,
}
use sub_preprocessor.Base.Sort.{sort-IsSorted, sort-All, sort, insert}
use sub_preprocessor.Geofeed.{
  v4_ranges, v6, v4, unmapped, GeoRange, Range, starts_first, with_max_end, lookup_v4, country_of,
}
use sub_preprocessor.Geofeed.Words.{value, IsUint128, less-value}
use sub_preprocessor.Geofeed.Wide.{
  lookup_family, build_index, lookup_country, v6_range, to_words, WideRange, with_max_end6,
  lookup_v6, starts_low, v6_ranges, new_indexed_lookup6, zero_words,
}
use sub_preprocessor.Netip.{Addr, unmap}
use sub_preprocessor.Filter.{CountryCode}
use sub_preprocessor.Geofeed.Walk.{narrowest}
use sub_preprocessor.Geofeed.Lookup.{lookup_v4-narrowest, starts_first-IsOrder, lookup_v4-sorted}
use sub_preprocessor.Geofeed.WideWalk.{lookup-narrow, map-with_max_end, not-ltb, narrow, IsWide}

starts_low-narrow :
    (a b : WideRange) → IsWide a → IsWide b → starts_low a b ≡ starts_first (narrow a) (narrow b)
starts_low-narrow a b wa wb =
    ap not (less-value b.first a.first wb.first_fits wa.first_fits)
    ∙ not-ltb (value b.first) (value a.first)

map-insert :
    (x : WideRange) (ys : List WideRange)
    → IsWide x
    → All IsWide ys
    → map narrow (insert starts_low x ys) ≡ insert starts_first (narrow x) (map narrow ys)
unfolding insert
map-insert x [] w h = refl
map-insert x (y ∷ ys) w h =
    let e = starts_low-narrow x y w h.0 in
    let ih = map-insert x ys w h.1 in
    elim (Bool-cases (starts_low x y)) [
      | inl t ↦ rw (t, sym e ∙ t)
      | inr f ↦ rw (f, sym e ∙ f) (ap (λ l. narrow y ∷ l) ih)
    ]

map-sort :
    (rs : List WideRange)
    → All IsWide rs
    → map narrow (sort starts_low rs) ≡ sort starts_first (map narrow rs)
unfolding sort
map-sort [] h = refl
map-sort (r ∷ rs) h =
    map-insert r (sort starts_low rs) h.0 (sort-All starts_low IsWide rs h.1)
    ∙ ap (insert starts_first (narrow r)) (map-sort rs h.1)

-- an address of either family fits its width
abbrev pub FitsWidth : Option Addr → Type 0
FitsWidth none = Unit
FitsWidth (some (v4 a)) = a < 2 ^ 32
FitsWidth (some (v6 a)) = a < 2 ^ 128

abbrev pub RangeFits : Range → Type 0
RangeFits r = FitsWidth r.start × FitsWidth r.end

to_words-fits : (n : ℕ) → n < 2 ^ 128 → IsUint128 (to_words n)
unfolding to_words
to_words-fits n h = record { hi_fits = omega arith; lo_fits = omega arith }

value-to_words : (n : ℕ) → value (to_words n) ≡ n
unfolding to_words
value-to_words n = omega arith

v6_range-IsWide :
    (a b : Option Addr) (c : CountryCode)
    → FitsWidth a
    → FitsWidth b
    → AllSome IsWide (v6_range a b c)
unfolding v6_range
v6_range-IsWide none b c fa fb = tt
v6_range-IsWide (some (v4 a)) none c fa fb = tt
v6_range-IsWide (some (v6 a)) none c fa fb = tt
v6_range-IsWide (some (v4 a)) (some b) c fa fb = tt
v6_range-IsWide (some (v6 a)) (some (v4 b)) c fa fb = tt
v6_range-IsWide (some (v6 a)) (some (v6 b)) c fa fb = elim (Bool-cases (ltb b a)) [
  | inl y ↦ rw y tt
  | inr n ↦ rw n (record {
    first_fits = to_words-fits a fa;
    last_fits = to_words-fits b fb;
    ordered = rw (value-to_words a, value-to_words b) (ground (arith, n));
  })
]

unmapped-fits : (a : Option Addr) → FitsWidth a → FitsWidth (unmapped a)
unfolding unmap
unmapped-fits none f = f
unmapped-fits (some (v4 a)) f = f
unmapped-fits (some (v6 a)) f = elim (Bool-cases (a / 2 ^ 32 == 0xffff)) [
  | inl y ↦ rw y (omega arith)
  | inr n ↦ rw n f
]

prepend : Option WideRange → List WideRange → List WideRange
prepend o rest = elim o [ none ↦ rest | some g ↦ g ∷ rest ]

prepend-IsWide :
    (o : Option WideRange) (rest : List WideRange)
    → AllSome IsWide o
    → All IsWide rest
    → All IsWide (prepend o rest)
unfolding prepend
prepend-IsWide none rest w h = h
prepend-IsWide (some g) rest w h = (w, h)

v6_ranges-IsWide : (rs : List Range) → All RangeFits rs → All IsWide (v6_ranges rs)
unfolding v6_ranges prepend
v6_ranges-IsWide [] h = tt
v6_ranges-IsWide (r ∷ rs) h =
    prepend-IsWide (v6_range (unmapped r.start) (unmapped r.end) r.country) (v6_ranges rs)
      (v6_range-IsWide (unmapped r.start) (unmapped r.end) r.country (unmapped-fits r.start h.0.0)
        (unmapped-fits r.end h.0.1))
      (v6_ranges-IsWide rs h.1)

pub lookup_v6-narrowest :
    (rs : List Range) (n : ℕ)
    → All RangeFits rs
    → n < 2 ^ 128
    → lookup_v6 (new_indexed_lookup6 rs) (to_words n)
      ≡ country_of (narrowest n (sort starts_first (map narrow (v6_ranges rs))))
unfolding new_indexed_lookup6
lookup_v6-narrowest rs n h f =
    let wide = v6_ranges-IsWide rs h in
    let sorted = sort starts_low (v6_ranges rs) in
    let numbers = map narrow (v6_ranges rs) in
    let zero_fits : IsUint128 zero_words = record {
      hi_fits = omega arith;
      lo_fits = omega arith;
    } in
    let g =
      map-with_max_end zero_words sorted zero_fits
        (sort-All starts_low IsWide (v6_ranges rs) wide) in
    lookup-narrow (with_max_end6 zero_words sorted) (to_words n) (to_words-fits n f) g.1
    ∙ ap (λ i. lookup_v4 i (value (to_words n)))
        (g.0 ∙ ap (with_max_end 0) (map-sort (v6_ranges rs) wide))
    ∙ ap (lookup_v4 (with_max_end 0 (sort starts_first numbers))) (value-to_words n)
    ∙ lookup_v4-sorted n (sort starts_first numbers)
        (sort-IsSorted starts_first starts_first-IsOrder numbers)

-- the ranges of the family of the address, as numbers
abbrev pub family_ranges : List Range → Addr → List GeoRange
family_ranges rs (v4 n) = v4_ranges rs
family_ranges rs (v6 n) = map narrow (v6_ranges rs)

abbrev pub number : Addr → ℕ
number (v4 n) = n
number (v6 n) = n

-- If the addresses of the ranges and the one asked for fit their widths, the country found is
-- that of the narrowest indexed range of the family of the address that holds it, the first by
-- start and then by input among equally narrow ones, and the zero code if no range holds it.
pub lookup_country-narrowest :
    (rs : List Range) (ip : Addr)
    → All RangeFits rs
    → FitsWidth (some ip)
    → lookup_country (build_index rs) ip
      ≡ country_of (narrowest (number (unmap ip)) (sort starts_first (family_ranges rs (unmap ip))))
unfolding lookup_country build_index
lookup_country-narrowest rs ip h f = by_family (unmap ip) (unmapped-fits (some ip) f)
  where
    by_family :
        (a : Addr)
        → FitsWidth (some a)
        → lookup_family (build_index rs) a
          ≡ country_of (narrowest (number a) (sort starts_first (family_ranges rs a)))
    by_family (v4 n) w = lookup_v4-narrowest rs n
    by_family (v6 n) w = lookup_v6-narrowest rs n h w
