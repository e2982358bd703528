-- ===== src/Stable/Gate/Speed.antt =====
-- `bandwidthFilter.apply` of internal/stable/nodefilter.go: the filter on the measured speed.
use sub_preprocessor.Base.{
  ℕ, ◌+◌, Bool, not, ◌&&◌, List, [], ◌∷◌, ltb, if◌then◌else◌, Bytes, codes, length,
}
use sub_preprocessor.Stable.Select.{Survivor}
use sub_preprocessor.Stable.Gate.{
  ran, tripped, drop_unreachable, drop_slow, fresh_report, FilterReport, breaker_trips,
}

pub record BandwidthOutcome : Type 0 where
  pub server : Bytes
  pub reachable : Bool
  pub mbps : ℕ

abbrev pub too_slow : ℕ → BandwidthOutcome → Bool
too_slow min_mbps o = ltb 0 min_mbps && ltb o.mbps min_mbps

-- how many were slow, and how many unreachable
unfoldable pub count_slow : ℕ → (Bytes → BandwidthOutcome) → List Survivor → ℕ × ℕ
count_slow min_mbps outcomes [] = (0, 0)
count_slow min_mbps outcomes (s ∷ ss) =
    let (slow, unreachable) = count_slow min_mbps outcomes ss in
    let o = outcomes s.entry.label in
    if not o.reachable
    then (slow, unreachable + 1)
    else if too_slow min_mbps o
    then (slow + 1, unreachable)
    else (slow, unreachable)

unfoldable pub keep_fast : ℕ → (Bytes → BandwidthOutcome) → List Survivor → List Survivor
keep_fast min_mbps outcomes [] = []
keep_fast min_mbps outcomes (s ∷ ss) =
    let rest = keep_fast min_mbps outcomes ss in
    let o = outcomes s.entry.label in
    if not o.reachable
    then rest
    else if too_slow min_mbps o
    then rest
    else record s { mbps = o.mbps } ∷ rest

abbrev pub bandwidth_filter_name : Bytes
bandwidth_filter_name = codes "bandwidth"

-- `bandwidthFilter.apply`
unfoldable pub apply_bandwidth :
    ℕ → (Bytes → BandwidthOutcome) → Bool → List Survivor → List Survivor × FilterReport
unfolding count_slow keep_fast breaker_trips
apply_bandwidth min_mbps outcomes cancelled survivors =
    let report = fresh_report bandwidth_filter_name survivors in
    let (slow, unreachable) = count_slow min_mbps outcomes survivors in
    let kept = keep_fast min_mbps outcomes survivors in
    if cancelled
    then (survivors, report)
    else if breaker_trips (slow + unreachable) (length survivors)
    then (
      survivors,
      record report { dropped = (drop_slow, 0) ∷ (drop_unreachable, 0) ∷ []; state = tripped },
    )
    else (
      kept,
      record report {
        kept = length kept;
        dropped = (drop_slow, slow) ∷ (drop_unreachable, unreachable) ∷ [];
        state = ran;
      },
    )
