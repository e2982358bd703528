-- ===== src/Cidrset/Union.antt =====
-- `newSet`: the merged ranges are apart from one another and admit what the given ranges admit.
use sub_preprocessor.Base.{
  ℕ, suc, ◌+◌, ◌^◌, ◌≤◌, ◌<◌, max, Bool, true, ◌&&◌, ◌||◌, List, [], ◌∷◌, ◌≡◌, refl, ap, ◌∙◌, inl,
  inr, arith, leb, ◌==◌, All, All-map, any, Bool-cases,
}
use sub_preprocessor.Base.Sort.{IsOrder, IsSorted, sort, sort-All, sort-IsSorted, any-sort}
use sub_preprocessor.Cidrset.{IpRange, starts_before, max_uint32, inc32, coalesce, merged, new_set}

-- a range that `parseLine` can return
pub record IsRange (r : IpRange) : Type 0 where
  pub ordered : r.lo ≤ r.hi
  pub fits : r.hi < 2 ^ 32

-- The address lies in the range.
abbrev pub in_range : ℕ → IpRange → Bool
in_range v r = leb r.lo v && leb v r.hi

-- in order, with a gap of at least one address between any two
abbrev pub IsApart : List IpRange → Type 0
IsApart [] = Unit
IsApart (r ∷ rs) = IsRange r × All (λ (s : IpRange). r.hi + 1 < s.lo) rs × IsApart rs

starts_before-IsOrder : IsOrder starts_before
starts_before-IsOrder = record { total = λ a b h. ground arith; trans = λ a b c h k. ground arith }

abbrev StartsFrom : ℕ → List IpRange → Type 0
StartsFrom b = All (λ (s : IpRange). b ≤ s.lo)

abbrev InOrder : IpRange → List IpRange → Type 0
InOrder last rest = All (λ (s : IpRange). starts_before last s ≡ true) rest

coalesce-StartsFrom :
    (b : ℕ) (last : IpRange) (rest : List IpRange)
    → b ≤ last.lo
    → StartsFrom b rest
    → StartsFrom b (coalesce last rest)
unfolding coalesce
coalesce-StartsFrom b last [] h k = (h, tt)
coalesce-StartsFrom b last (next ∷ rest) h k = ground (
  arith,
  coalesce-StartsFrom b (record last { hi = max last.hi next.hi }) rest h k.1,
  coalesce-StartsFrom b next rest k.0 k.1,
)

coalesce-IsApart :
    (last : IpRange) (rest : List IpRange)
    → IsRange last
    → All IsRange rest
    → InOrder last rest
    → IsSorted starts_before rest
    → IsApart (coalesce last rest)
unfolding coalesce
coalesce-IsApart last [] w ws o s = (w, tt, tt)
coalesce-IsApart last (next ∷ rest) w ws o s = elim (Bool-cases (last.hi == max_uint32)) [
  | inl top ↦ rw top (w, tt, tt)
  | inr below ↦ elim (Bool-cases (leb next.lo (inc32 last.hi))) [
    | inl near ↦
        rw (below, near)
          (coalesce-IsApart (record last { hi = max last.hi next.hi }) rest
            (record { ordered = omega (arith, w.ordered); fits = omega (arith, w.fits, ws.0.fits) })
            ws.1 o.1 s.1)
    | inr far ↦
        let gap : last.hi + 1 < next.lo = ground (arith, w.fits) in
        rw (below, far)
          (
            w,
            coalesce-StartsFrom (suc (last.hi + 1)) next rest gap (
                All-map (λ (t : IpRange) (h : starts_before next t ≡ true). ground arith) rest s.0),
            coalesce-IsApart next rest ws.0 ws.1 s.0 s.1,
          )
  ]
]

-- With a range that reaches the last address, later ranges add nothing.
covered_to_end :
    (v : ℕ) (last : IpRange) (rest : List IpRange)
    → v < 2 ^ 32
    → last.hi ≡ max_uint32
    → InOrder last rest
    → in_range v last ≡ (in_range v last || any (in_range v) rest)
unfolding any
covered_to_end v last [] h e o = ground arith
covered_to_end v last (next ∷ rest) h e o = ground (arith, covered_to_end v last rest h e o.1)

any-coalesce :
    (v : ℕ) (last : IpRange) (rest : List IpRange)
    → v < 2 ^ 32
    → IsRange last
    → All IsRange rest
    → InOrder last rest
    → IsSorted starts_before rest
    → any (in_range v) (coalesce last rest) ≡ (in_range v last || any (in_range v) rest)
unfolding coalesce any
any-coalesce v last [] h w ws o s = refl
any-coalesce v last (next ∷ rest) h w ws o s = elim (Bool-cases (last.hi == max_uint32)) [
  | inl top ↦ rw top (ground (arith, covered_to_end v last (next ∷ rest) h (ground arith) o))
  | inr below ↦ elim (Bool-cases (leb next.lo (inc32 last.hi))) [
    | inl near ↦
        let wide : IpRange = record last { hi = max last.hi next.hi } in
        let joined =
          any-coalesce v wide rest h
            (record { ordered = omega (arith, w.ordered); fits = omega (arith, w.fits, ws.0.fits) })
            ws.1 o.1 s.1 in
        rw (below, near) (joined ∙ widen near (ws.0.ordered))
    | inr far ↦
        rw (below, far)
          (ap (λ b. in_range v last || b) (any-coalesce v next rest h ws.0 ws.1 s.0 s.1))
  ]
]
  where
    widen :
        leb next.lo (inc32 last.hi) ≡ true
        → next.lo ≤ next.hi
        → (in_range v (record last { hi = max last.hi next.hi }) || any (in_range v) rest)
          ≡ (in_range v last || (in_range v next || any (in_range v) rest))
    widen near le = ground (arith, o.0, w.ordered, w.fits)

merged-IsApart :
    (rs : List IpRange) → All IsRange rs → IsSorted starts_before rs → IsApart (merged rs)
unfolding merged
merged-IsApart [] w s = tt
merged-IsApart (r ∷ rs) w s = coalesce-IsApart r rs w.0 w.1 s.0 s.1

any-merged :
    (v : ℕ) (rs : List IpRange)
    → v < 2 ^ 32
    → All IsRange rs
    → IsSorted starts_before rs
    → any (in_range v) (merged rs) ≡ any (in_range v) rs
unfolding merged any
any-merged v [] h w s = refl
any-merged v (r ∷ rs) h w s = any-coalesce v r rs h w.0 w.1 s.0 s.1

-- The ranges of a set built from well-formed ranges are well formed, in order, and neither
-- overlap nor touch.
pub new_set-IsApart : (rs : List IpRange) → All IsRange rs → IsApart (new_set rs).ranges
unfolding new_set
new_set-IsApart rs w =
    merged-IsApart (sort starts_before rs) (sort-All starts_before IsRange rs w)
      (sort-IsSorted starts_before starts_before-IsOrder rs)

-- They admit the addresses that some given range admits, and no others.
pub any-new_set :
    (v : ℕ) (rs : List IpRange)
    → v < 2 ^ 32
    → All IsRange rs
    → any (in_range v) (new_set rs).ranges ≡ any (in_range v) rs
unfolding new_set
any-new_set v rs h w =
    any-merged v (sort starts_before rs) h (sort-All starts_before IsRange rs w)
      (sort-IsSorted starts_before starts_before-IsOrder rs)
    ∙ any-sort starts_before (in_range v) rs
