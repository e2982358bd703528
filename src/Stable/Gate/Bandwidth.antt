-- ===== src/Stable/Gate/Bandwidth.antt =====
-- internal/stable/nodefilter.go: what `bandwidthFilter.apply` does with a batch.
use sub_preprocessor.Base.{
  ◌+◌, ◌*◌, ◌↔◌, map, keep, leb, not, ◌&&◌, if_both, ℕ, ◌≤◌, ◌<◌, ◌≡◌, refl, ◌⊎◌, inl, inr, Bool,
  true, false, List, [], ◌∷◌, arith, Bytes, length,
}
use sub_preprocessor.Stable.Select.{Survivor}
use sub_preprocessor.Stable.Gate.{FilterReport, breaker_trips}
use sub_preprocessor.Stable.Gate.Speed.{count_slow, BandwidthOutcome, apply_bandwidth, keep_fast}
use sub_preprocessor.Stable.Gate.Counts.{fast-slow}
use sub_preprocessor.Stable.Gate.Api.{Accounts}

-- the breaker trips: all of a batch is lost, or 95 in a hundred of a hundred or more
abbrev pub IsBroken : ℕ → ℕ → Type 0
IsBroken lost total = ((lost ≡ total) × (0 < total)) ⊎ ((100 ≤ total) × (total * 95 ≤ lost * 100))

breaker_iff : (lost total : ℕ) → (breaker_trips lost total ≡ true) ↔ IsBroken lost total
unfolding breaker_trips
breaker_iff lost total = (λ e. ground (arith, e), λ b. ground (arith, b))

not_emptied :
    (kept lost total : ℕ)
    → kept + lost ≡ total
    → breaker_trips lost total ≡ false
    → (total ≡ 0) ⊎ (0 < kept)
unfolding breaker_trips
not_emptied kept lost total e t = ground (arith, e, t)

module _ (min_mbps : ℕ) (outcomes : Bytes → BandwidthOutcome) where
  -- the survivor was reached, and measured no slower than the floor
  abbrev pub is_fast : Survivor → Bool
  is_fast s = (outcomes s.entry.label).reachable && leb min_mbps (outcomes s.entry.label).mbps

  abbrev pub with_speed : Survivor → Survivor
  with_speed s = record s { mbps = (outcomes s.entry.label).mbps }

  -- how many of a batch were not reached or too slow
  abbrev pub lost_of : List Survivor → ℕ
  lost_of ss = length (keep (λ s. not (is_fast s)) ss)

  -- what the filter may do with a batch
  abbrev pub IsFiltered : Bool → List Survivor → List Survivor → Type 0
  IsFiltered cancelled ss kept =
      ((cancelled ≡ true) × (kept ≡ ss))
      ⊎ ((cancelled ≡ false) × IsBroken (lost_of ss) (length ss) × (kept ≡ ss))
      ⊎ ((cancelled ≡ false)
          × (IsBroken (lost_of ss) (length ss) → ⊥)
          × (kept ≡ map with_speed (keep is_fast ss))
          × ((length ss ≡ 0) ⊎ (0 < length kept)))

  keep_fast_lem :
      (ss : List Survivor) → keep_fast min_mbps outcomes ss ≡ map with_speed (keep is_fast ss)
  unfolding keep_fast keep
  keep_fast_lem [] = refl
  keep_fast_lem (s ∷ ss) = let ih = keep_fast_lem ss in ground (arith, ih)

  count_slow_lem :
      (ss : List Survivor)
      → (count_slow min_mbps outcomes ss).0 + (count_slow min_mbps outcomes ss).1 ≡ lost_of ss
  unfolding count_slow keep
  count_slow_lem [] = refl
  count_slow_lem (s ∷ ss) = let ih = count_slow_lem ss in ground (arith, ih)

  -- On every branch of the bandwidth filter, the report enters the length of the batch, its kept
  -- is the length of what is returned, and kept and dropped together are what entered.
  pub apply_bandwidth-Accounts :
      (cancelled : Bool) (ss : List Survivor)
      → let r = apply_bandwidth min_mbps outcomes cancelled ss in Accounts ss r.0 r.1
  unfolding apply_bandwidth
  apply_bandwidth-Accounts cancelled ss =
      let h = fast-slow min_mbps outcomes ss in ground (arith, h)

  -- A cancelled bandwidth filter returns its batch whole, and so does one that lost all of a
  -- batch that is not empty, or 95 in a hundred of a hundred or more, where the unreached and
  -- the too slow are lost. Else it returns exactly the survivors that were reached and measured
  -- no slower than the floor, in their order with their measured speed, and empties no batch
  -- that has one.
  pub apply_bandwidth_lem :
      (cancelled : Bool) (ss : List Survivor)
      → IsFiltered cancelled ss (apply_bandwidth min_mbps outcomes cancelled ss).0
  unfolding apply_bandwidth
  apply_bandwidth_lem cancelled ss =
      let h = fast-slow min_mbps outcomes ss in
      let k = keep_fast_lem ss in
      let l = count_slow_lem ss in
      let counts = count_slow min_mbps outcomes ss in
      let Good = λ (r : List Survivor × FilterReport). IsFiltered cancelled ss r.0 in
      if_both Good cancelled _ _ (λ y. inl (y, refl))
        λ n.
          if_both Good (breaker_trips (counts.0 + counts.1) (length ss)) _ _
            (λ t. inr (inl (n, (breaker_iff (lost_of ss) (length ss)).0 (rw l at t), refl)))
            λ t.
              let on : breaker_trips (lost_of ss) (length ss) ≡ false = rw l at t in
              inr (
                inr (
                  n,
                  (λ b. let y = (breaker_iff (lost_of ss) (length ss)).1 b in cc),
                  k,
                  not_emptied _ (lost_of ss) (length ss) (omega (arith, h, l)) on,
                ))
