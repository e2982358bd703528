-- ===== src/Geofeed/Walk.antt =====
-- internal/geofeed/lookup.go: the walk back over the ranges, without its early end.
use sub_preprocessor.Base.{
  ℕ, zero, suc, ◌≤◌, ◌<◌, ◌≡◌, refl, sym, ◌∙◌, inl, inr, true, ◌&&◌, Option, none, List, [], ◌∷◌,
  arith, ltb, leb, if◌then◌else◌, Bool-cases, All, All-map,
}
use sub_preprocessor.Geofeed.{grown, GeoRange, with_max_end, back_from, smaller, walk}

abbrev Entries : Type 0
Entries = List (GeoRange × ℕ)

-- the walk without the running maximum
unfoldable pub walk_all : ℕ → Entries → Option GeoRange → Option GeoRange
walk_all ip [] best = best
walk_all ip (p ∷ ps) best =
    let passed = walk_all ip ps best in
    let taken = walk_all ip ps (smaller p.0 best) in if ltb p.0.last ip then passed else taken

-- what is visited first has the largest maximum, which no range exceeds
abbrev pub IsDominated : Entries → Type 0
IsDominated [] = Unit
IsDominated (p ∷ ps) =
    (p.0.last ≤ p.1) × All (λ (q : GeoRange × ℕ). q.0.last ≤ p.1) ps × IsDominated ps

walk_all-none :
    (ip : ℕ) (ps : Entries) (best : Option GeoRange)
    → All (λ (q : GeoRange × ℕ). q.0.last < ip) ps
    → walk_all ip ps best ≡ best
unfolding walk_all
walk_all-none ip [] best h = refl
walk_all-none ip (p ∷ ps) best h =
    let l : ltb p.0.last ip ≡ true = ground (arith, h.0) in rw l (walk_all-none ip ps best h.1)

-- The early end of the walk changes nothing.
pub walk-walk_all :
    (ip : ℕ) (ps : Entries) (best : Option GeoRange)
    → IsDominated ps
    → walk ip ps best ≡ walk_all ip ps best
unfolding walk walk_all
walk-walk_all ip [] best d = refl
walk-walk_all ip (p ∷ ps) best d = elim (Bool-cases (ltb p.1 ip)) [
  | inl y ↦
      let out = walk_all-none ip (p ∷ ps) best (
        ground (arith, y, d.0),
        All-map (λ (q : GeoRange × ℕ) (h : q.0.last ≤ p.1). ground (arith, y, h)) ps d.1,
      ) in
      rw y (sym out)
  | inr n ↦ elim (Bool-cases (ltb p.0.last ip)) [
    | inl y ↦ rw (n, y) (walk-walk_all ip ps best d.2)
    | inr m ↦ rw (n, m) (walk-walk_all ip ps (smaller p.0 best) d.2)
  ]
]

back_from-IsDominated :
    (m n : ℕ) (rs : List GeoRange) (visited : Entries)
    → All (λ (q : GeoRange × ℕ). q.0.last ≤ m) visited
    → IsDominated visited
    → IsDominated (back_from n (with_max_end m rs) visited)
unfolding back_from with_max_end
back_from-IsDominated m zero rs visited a d = d
back_from-IsDominated m (suc n) [] visited a d = d
back_from-IsDominated m (suc n) (r ∷ rs) visited a d =
    let e = grown m r in
    let b : All (λ (q : GeoRange × ℕ). q.0.last ≤ e) visited =
      All-map (λ (q : GeoRange × ℕ) (h : q.0.last ≤ m). ground (arith, h)) visited a in
    let here : r.last ≤ e = ground arith in
    back_from-IsDominated e n rs ((r, e) ∷ visited) (here, b) (here, b, d)

pub new-IsDominated :
    (n : ℕ) (rs : List GeoRange) → IsDominated (back_from n (with_max_end 0 rs) [])
new-IsDominated n rs = back_from-IsDominated 0 n rs [] tt tt

-- The narrowest of the ranges that hold the address, the first of them if several are.
unfoldable pub narrowest : ℕ → List GeoRange → Option GeoRange
narrowest ip [] = none
narrowest ip (r ∷ rs) =
    let rest = narrowest ip rs in if leb r.first ip && leb ip r.last then smaller r rest else rest

-- the same over the first `n` ranges, by their ends alone
unfoldable pub narrowest_to : ℕ → ℕ → List GeoRange → Option GeoRange
narrowest_to ip zero rs = none
narrowest_to ip (suc n) [] = none
narrowest_to ip (suc n) (r ∷ rs) =
    let rest = narrowest_to ip n rs in if ltb r.last ip then rest else smaller r rest

pub walk_all-narrowest_to :
    (ip m n : ℕ) (rs : List GeoRange) (visited : Entries)
    → walk_all ip (back_from n (with_max_end m rs) visited) none
      ≡ walk_all ip visited (narrowest_to ip n rs)
unfolding walk_all back_from with_max_end narrowest_to
walk_all-narrowest_to ip m zero rs visited = refl
walk_all-narrowest_to ip m (suc n) [] visited = refl
walk_all-narrowest_to ip m (suc n) (r ∷ rs) visited =
    let e = grown m r in walk_all-narrowest_to ip e n rs ((r, e) ∷ visited) ∙ ground arith
