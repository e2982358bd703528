-- ===== src/Stable/Gate/Counts.antt =====
-- internal/stable/nodefilter.go: what the counting switches count.
use sub_preprocessor.Base.{ℕ, ◌+◌, ◌<◌, ◌≡◌, Bool, true, false, List, [], ◌∷◌, arith, Bytes, length}
use sub_preprocessor.Stable.Select.{Survivor}
use sub_preprocessor.Stable.Gate.{
  ApiFilter, Outcomes, failed_of, tally, count_one, keep_outcomes, breaker_trips,
}
use sub_preprocessor.Stable.Gate.Speed.{BandwidthOutcome, count_slow, keep_fast}

-- every survivor is kept or counted as failed
pub kept-failed :
    (f : ApiFilter) (outcomes : Outcomes) (trusted : Bool) (live : Bytes → Bool)
    (ss : List Survivor)
    → length (keep_outcomes f outcomes trusted live ss).0 + failed_of f (tally outcomes ss)
      ≡ length ss
unfolding keep_outcomes tally count_one
kept-failed f outcomes trusted live [] = ground arith
kept-failed f outcomes trusted live (s ∷ ss) =
    let ih = kept-failed f outcomes trusted live ss in ground (arith, ih)

-- every survivor is kept or counted as slow or unreachable
pub fast-slow :
    (min_mbps : ℕ) (outcomes : Bytes → BandwidthOutcome) (ss : List Survivor)
    → length (keep_fast min_mbps outcomes ss)
        + ((count_slow min_mbps outcomes ss).0 + (count_slow min_mbps outcomes ss).1)
      ≡ length ss
unfolding keep_fast count_slow
fast-slow min_mbps outcomes [] = ground arith
fast-slow min_mbps outcomes (s ∷ ss) = let ih = fast-slow min_mbps outcomes ss in ground (arith, ih)

-- a batch of which nothing failed does not trip the breaker, nor an empty one
pub quiet : (n : ℕ) → breaker_trips 0 n ≡ false
unfolding breaker_trips
quiet n = ground arith

-- the breaker trips when all of a batch failed
pub all_failed : (n : ℕ) → 0 < n → breaker_trips n n ≡ true
unfolding breaker_trips
all_failed n h = ground arith
