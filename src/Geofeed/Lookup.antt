-- ===== src/Geofeed/Lookup.antt =====
-- internal/geofeed/lookup.go: the country that `lookupV4` finds.
use sub_preprocessor.Base.{
  ℕ, zero, suc, ◌≤◌, ◌<◌, ◌≡◌, refl, ap, ◌∙◌, ◌⊎◌, inl, inr, Bool, true, false, ◌&&◌, none, some,
  List, [], ◌∷◌, arith, ltb, leb, Bool-cases, length, keep, All, All-map, Among,
}
use sub_preprocessor.Base.Sort.{sort, IsSorted, IsOrder, sort-IsSorted}
use sub_preprocessor.Base.Search.{binary_search, binary_search-IsFirst}
use sub_preprocessor.Geofeed.{
  grown, GeoRange, Range, v4_ranges, starts_first, with_max_end, new_indexed_lookup, starts_behind,
  back_from, span, lookup_v4, country_of, no_country,
}
use sub_preprocessor.Geofeed.Walk.{
  walk-walk_all, new-IsDominated, walk_all-narrowest_to, narrowest, narrowest_to, walk_all,
}

pub starts_first-IsOrder : IsOrder starts_first
starts_first-IsOrder = record {
  trans = λ a b c x y. ground (arith, x, y);
  total = λ a b x. ground (arith, x);
}

module _ (ip : ℕ) where
  each_behind :
      (m : ℕ) (rs : List GeoRange)
      → All (λ (r : GeoRange). ip < r.first) rs
      → (i : ℕ) → starts_behind (with_max_end m rs) ip i ≡ true
  unfolding starts_behind with_max_end
  each_behind m [] h i = refl
  each_behind m (r ∷ rs) h zero = ground (arith, h.0)
  each_behind m (r ∷ rs) h (suc i) = each_behind (grown m r) rs h.1 i

  starts_behind-IsMonotone :
      (m : ℕ) (rs : List GeoRange)
      → IsSorted starts_first rs
      → (a b : ℕ) → a ≤ b
      → starts_behind (with_max_end m rs) ip a ≡ true
      → starts_behind (with_max_end m rs) ip b ≡ true
  unfolding starts_behind with_max_end
  starts_behind-IsMonotone m [] w a b le h = refl
  starts_behind-IsMonotone m (r ∷ rs) w zero zero le h = h
  starts_behind-IsMonotone m (r ∷ rs) w zero (suc b) le h =
      each_behind (grown m r) rs
        (All-map (λ (s : GeoRange) (g : starts_first r s ≡ true). ground (arith, g, h)) rs w.0) b
  starts_behind-IsMonotone m (r ∷ rs) w (suc a) zero le h = absurd (omega arith)
  starts_behind-IsMonotone m (r ∷ rs) w (suc a) (suc b) le h =
      starts_behind-IsMonotone (grown m r) rs w.1 a b (omega arith) h

  -- with every range from the `n`-th on behind the address, and none before it
  narrowest_to-narrowest :
      (m n : ℕ) (rs : List GeoRange)
      → ((k : ℕ) → k < n → starts_behind (with_max_end m rs) ip k ≡ false)
      → ((k : ℕ) → n ≤ k → starts_behind (with_max_end m rs) ip k ≡ true)
      → narrowest_to ip n rs ≡ narrowest ip rs
  unfolding narrowest_to narrowest starts_behind with_max_end
  narrowest_to-narrowest m zero [] before after = refl
  narrowest_to-narrowest m (suc n) [] before after = refl
  narrowest_to-narrowest m zero (r ∷ rs) before after =
      let ih =
        narrowest_to-narrowest (grown m r) zero rs (λ k lt. absurd (omega arith))
          (λ k le. after (suc k) (omega arith)) in
      let here = after 0 (omega arith) in ground (arith, here, ih)
  narrowest_to-narrowest m (suc n) (r ∷ rs) before after =
      let ih =
        narrowest_to-narrowest (grown m r) n rs (λ k lt. before (suc k) (omega arith))
          (λ k le. after (suc k) (omega arith)) in
      let here = before 0 (omega arith) in ground (arith, here, ih)

  length-with_max_end : (m : ℕ) (rs : List GeoRange) → length (with_max_end m rs) ≡ length rs
  unfolding with_max_end
  length-with_max_end m [] = refl
  length-with_max_end m (r ∷ rs) = let ih = length-with_max_end (grown m r) rs in omega (arith, ih)

  starts_behind_end :
      (m k : ℕ) (rs : List GeoRange)
      → length (with_max_end m rs) ≤ k
      → starts_behind (with_max_end m rs) ip k ≡ true
  unfolding starts_behind with_max_end
  starts_behind_end m k [] le = refl
  starts_behind_end m zero (r ∷ rs) le = ground arith
  starts_behind_end m (suc k) (r ∷ rs) le = starts_behind_end (grown m r) k rs (omega arith)

  pub lookup_v4-sorted :
      (rs : List GeoRange)
      → IsSorted starts_first rs
      → lookup_v4 (with_max_end 0 rs) ip ≡ country_of (narrowest ip rs)
  unfolding lookup_v4 walk_all
  lookup_v4-sorted rs w =
      let index = with_max_end 0 rs in
      let n = length index in
      let test = starts_behind index ip in
      let f =
        binary_search-IsFirst n test (λ a b le lt h. starts_behind-IsMonotone 0 rs w a b le h) in
      let idx = binary_search n test in
      let after : (k : ℕ) → idx ≤ k → starts_behind (with_max_end 0 rs) ip k ≡ true = (λ k le.
        elim (Bool-cases (ltb idx n)) [
          | inl y ↦ starts_behind-IsMonotone 0 rs w idx k le (f.at (ground (arith, y)))
          | inr z ↦ starts_behind_end 0 k rs (ground (arith, z, le))
        ]) in
      ap country_of (
        walk-walk_all ip (back_from idx index []) none (new-IsDominated idx rs)
        ∙ walk_all-narrowest_to ip 0 idx rs []
        ∙ narrowest_to-narrowest 0 idx rs f.before after)

-- The country found for an IPv4 address is that of the narrowest indexed range that holds it,
-- the first by start and then by input among equally narrow ones, and the zero code if no range
-- holds it.
pub lookup_v4-narrowest :
    (rs : List Range) (ip : ℕ)
    → lookup_v4 (new_indexed_lookup rs) ip
      ≡ country_of (narrowest ip (sort starts_first (v4_ranges rs)))
unfolding new_indexed_lookup
lookup_v4-narrowest rs ip =
    lookup_v4-sorted ip (sort starts_first (v4_ranges rs))
      (sort-IsSorted starts_first starts_first-IsOrder (v4_ranges rs))

abbrev pub holds : ℕ → GeoRange → Bool
holds ip r = leb r.first ip && leb ip r.last

-- the range holds the address, and none of the ranges that hold it is narrower
pub record IsNarrowest (ip : ℕ) (rs : List GeoRange) (r : GeoRange) : Type 0 where
  pub member : Among r (keep (holds ip) rs)
  pub least : All (λ (s : GeoRange). span r ≤ span s) (keep (holds ip) rs)

narrowest_lem :
    (ip : ℕ) (rs : List GeoRange)
    → ((narrowest ip rs ≡ none) × (keep (holds ip) rs ≡ []))
      ⊎ ((r : GeoRange) × (narrowest ip rs ≡ some r) × IsNarrowest ip rs r)
unfolding narrowest keep
narrowest_lem ip [] = inl (refl, refl)
narrowest_lem ip (r ∷ rs) = elim (Bool-cases (holds ip r)) [
  | inr n ↦ elim (narrowest_lem ip rs) [
    | inl (e, k) ↦ inl (rw n e, rw n k)
    | inr (b, e, w) ↦ inr (b, rw n e, record { member = rw n w.member; least = rw n w.least })
  ]
  | inl y ↦ elim (narrowest_lem ip rs) [
    | inl (e, k) ↦
        inr (r, rw (y, e), record { member = rw y (inl refl); least = rw (y, k) (omega arith, tt) })
    | inr (b, e, w) ↦ elim (Bool-cases (leb (span r) (span b))) [
      | inl l ↦ inr (
        r,
        rw (y, e, l),
        record {
          member = rw y (inl refl);
          least = rw y (
            omega arith,
            All-map (λ (s : GeoRange) (h : span b ≤ span s). ground (arith, l, h))
                (keep (holds ip) rs) w.least,
          );
        },
      )
      | inr l ↦ inr (
        b,
        rw (y, e, l),
        record { member = rw y (inr w.member); least = rw y (ground (arith, l), w.least) },
      )
    ]
  ]
]

-- Either no range of the IPv4 index holds the address and the code is zero, or the code is that
-- of a range that holds it and than which no range that holds it is narrower.
pub lookup_v4_lem :
    (rs : List Range) (ip : ℕ)
    → let sorted = sort starts_first (v4_ranges rs) in
      ((keep (holds ip) sorted ≡ []) × (lookup_v4 (new_indexed_lookup rs) ip ≡ no_country))
      ⊎ ((r : GeoRange) × IsNarrowest ip sorted r
          × (lookup_v4 (new_indexed_lookup rs) ip ≡ r.country))
lookup_v4_lem rs ip = elim (narrowest_lem ip (sort starts_first (v4_ranges rs))) [
  | inl (e, k) ↦ inl (k, lookup_v4-narrowest rs ip ∙ ap country_of e)
  | inr (r, e, w) ↦ inr (r, w, lookup_v4-narrowest rs ip ∙ ap country_of e)
]
