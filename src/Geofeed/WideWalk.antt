-- ===== src/Geofeed/WideWalk.antt =====
-- internal/geofeed/lookup.go: the IPv6 lookup on words is the IPv4 lookup on numbers.
use sub_preprocessor.Base.{
  ℕ, zero, suc, ◌≤◌, ◌≡◌, refl, sym, ap, ◌∙◌, inl, inr, not, Option, none, some, List, [], ◌∷◌, map,
  arith, ltb, leb, Bool-cases, AllSome, length, All,
}
use sub_preprocessor.Base.Search.{binary_search}
use sub_preprocessor.Geofeed.{
  GeoRange, with_max_end, starts_behind, back_from, smaller, walk, span, lookup_v4, country_of,
  grown,
}
use sub_preprocessor.Geofeed.Words.{
  sub-IsUint128, Uint128, less, value, IsUint128, less-value, value-sub,
}
use sub_preprocessor.Geofeed.Wide.{
  WideRange, with_max_end6, starts_behind6, back_from6, smaller6, walk6, lookup_v6, country_of6,
  grown6, span6,
}
use mathlib.Core.Path.{fun_ext}

-- the range on numbers
abbrev pub narrow : WideRange → GeoRange
narrow r = record { first = value r.first; last = value r.last; country = r.country }

pub record IsWide (r : WideRange) : Type 0 where
  pub first_fits : IsUint128 r.first
  pub last_fits : IsUint128 r.last
  pub ordered : value r.first ≤ value r.last

abbrev narrow_entry : WideRange × Uint128 → GeoRange × ℕ
narrow_entry p = (narrow p.0, value p.1)

abbrev narrow_some : Option WideRange → Option GeoRange
narrow_some none = none
narrow_some (some r) = some (narrow r)

abbrev IsEntry : WideRange × Uint128 → Type 0
IsEntry p = IsWide p.0 × IsUint128 p.1

grown-narrow :
    (m : Uint128) (r : WideRange)
    → IsUint128 m
    → IsWide r
    → (value (grown6 m r) ≡ grown (value m) (narrow r)) × IsUint128 (grown6 m r)
grown-narrow m r wm w =
    let l = less-value m r.last wm w.last_fits in
    elim (Bool-cases (less m r.last)) [
      | inl y ↦ rw (y, sym l ∙ y) (refl, w.last_fits)
      | inr n ↦ rw (n, sym l ∙ n) (refl, wm)
    ]

pub map-with_max_end :
    (m : Uint128) (rs : List WideRange)
    → IsUint128 m
    → All IsWide rs
    → (map narrow_entry (with_max_end6 m rs) ≡ with_max_end (value m) (map narrow rs))
      × All IsEntry (with_max_end6 m rs)
unfolding with_max_end with_max_end6
map-with_max_end m [] wm h = (refl, tt)
map-with_max_end m (r ∷ rs) wm h =
    let g = grown-narrow m r wm h.0 in
    let ih = map-with_max_end (grown6 m r) rs g.1 h.1 in
    (
      ap (λ l. (narrow r, value (grown6 m r)) ∷ l) ih.0
          ∙ ap (λ e. (narrow r, e) ∷ with_max_end e (map narrow rs)) g.0,
      ((h.0, g.1), ih.1),
    )

pub not-ltb : (a b : ℕ) → not (ltb a b) ≡ leb b a
not-ltb a b = ground arith

smaller-narrow :
    (r : WideRange) (best : Option WideRange)
    → IsWide r
    → AllSome IsWide best
    → narrow_some (smaller6 r best) ≡ smaller (narrow r) (narrow_some best)
smaller-narrow r none w b = refl
smaller-narrow r (some best) w b =
    let x = value-sub r.last r.first w.last_fits w.first_fits w.ordered in
    let y = value-sub best.last best.first b.last_fits b.first_fits b.ordered in
    let l =
      less-value (span6 best) (span6 r) (sub-IsUint128 best.last best.first)
        (sub-IsUint128 r.last r.first) in
    let e : not (less (span6 best) (span6 r)) ≡ leb (span (narrow r)) (span (narrow best)) =
      rw (l, x, y) (not-ltb (span (narrow best)) (span (narrow r))) in
    elim (Bool-cases (not (less (span6 best) (span6 r)))) [
      | inl z ↦ rw (z, sym e ∙ z)
      | inr z ↦ rw (z, sym e ∙ z)
    ]

smaller-IsWide :
    (r : WideRange) (best : Option WideRange)
    → IsWide r
    → AllSome IsWide best
    → AllSome IsWide (smaller6 r best)
smaller-IsWide r none w b = w
smaller-IsWide r (some best) w b = elim (Bool-cases (not (less (span6 best) (span6 r)))) [
  | inl z ↦ rw z w
  | inr z ↦ rw z b
]

walk-narrow :
    (ip : Uint128) (ps : List (WideRange × Uint128)) (best : Option WideRange)
    → IsUint128 ip
    → All IsEntry ps
    → AllSome IsWide best
    → narrow_some (walk6 ip ps best) ≡ walk (value ip) (map narrow_entry ps) (narrow_some best)
unfolding walk6 walk
walk-narrow ip [] best wi h b = refl
walk-narrow ip (p ∷ ps) best wi h b =
    let l = less-value p.1 ip h.0.1 wi in
    let k = less-value p.0.last ip h.0.0.last_fits wi in
    elim (Bool-cases (less p.1 ip)) [
      | inl y ↦ rw (y, sym l ∙ y)
      | inr n ↦ elim (Bool-cases (less p.0.last ip)) [
        | inl y ↦ rw (n, y, sym l ∙ n, sym k ∙ y) (walk-narrow ip ps best wi h.1 b)
        | inr m ↦
            rw (n, m, sym l ∙ n, sym k ∙ m)
              (walk-narrow ip ps (smaller6 p.0 best) wi h.1 (smaller-IsWide p.0 best h.0.0 b)
                ∙ ap (walk (value ip) (map narrow_entry ps)) (smaller-narrow p.0 best h.0.0 b))
      ]
    ]

starts_behind-narrow :
    (ip : Uint128) (ps : List (WideRange × Uint128)) (i : ℕ)
    → IsUint128 ip
    → All IsEntry ps
    → starts_behind6 ps ip i ≡ starts_behind (map narrow_entry ps) (value ip) i
unfolding starts_behind6 starts_behind
starts_behind-narrow ip [] i wi h = refl
starts_behind-narrow ip (p ∷ ps) zero wi h = less-value ip p.0.first wi h.0.0.first_fits
starts_behind-narrow ip (p ∷ ps) (suc i) wi h = starts_behind-narrow ip ps i wi h.1

back_from-narrow :
    (n : ℕ) (ps visited : List (WideRange × Uint128))
    → map narrow_entry (back_from6 n ps visited)
      ≡ back_from n (map narrow_entry ps) (map narrow_entry visited)
unfolding back_from6 back_from
back_from-narrow zero ps visited = refl
back_from-narrow (suc n) [] visited = refl
back_from-narrow (suc n) (p ∷ ps) visited = back_from-narrow n ps (p ∷ visited)

back_from-All :
    (n : ℕ) (ps visited : List (WideRange × Uint128))
    → All IsEntry ps
    → All IsEntry visited
    → All IsEntry (back_from6 n ps visited)
unfolding back_from6
back_from-All zero ps visited h v = v
back_from-All (suc n) [] visited h v = v
back_from-All (suc n) (p ∷ ps) visited h v = back_from-All n ps (p ∷ visited) h.1 (h.0, v)

length-narrow : (ps : List (WideRange × Uint128)) → length (map narrow_entry ps) ≡ length ps
length-narrow [] = refl
length-narrow (p ∷ ps) = let ih = length-narrow ps in omega (arith, ih)

country-narrow : (o : Option WideRange) → country_of6 o ≡ country_of (narrow_some o)
country-narrow none = refl
country-narrow (some r) = refl

pub lookup-narrow :
    (index : List (WideRange × Uint128)) (ip : Uint128)
    → IsUint128 ip
    → All IsEntry index
    → lookup_v6 index ip ≡ lookup_v4 (map narrow_entry index) (value ip)
unfolding lookup_v6 lookup_v4
lookup-narrow index ip wi h =
    let test : starts_behind6 index ip ≡ starts_behind (map narrow_entry index) (value ip) =
      fun_ext (λ i. starts_behind-narrow ip index i wi h) in
    let idx = binary_search (length index) (starts_behind6 index ip) in
    country-narrow (walk6 ip (back_from6 idx index []) none)
    ∙ ap country_of
        (walk-narrow ip (back_from6 idx index []) none wi (back_from-All idx index [] h tt) tt)
    ∙ ap (λ l. country_of (walk (value ip) l none)) (back_from-narrow idx index [])
    ∙ ap (λ k. country_of (walk (value ip) (back_from k (map narrow_entry index) []) none))
        (ap (binary_search (length index)) test
          ∙ ap (λ n. binary_search n (starts_behind (map narrow_entry index) (value ip)))
              (sym (length-narrow index)))
