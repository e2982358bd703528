-- ===== src/Stable/Probe/Best.antt =====
-- internal/stable/prober.go: what `foldProbeResults` keeps of the positions of one label.
use sub_preprocessor.Base.{ℕ, ◌<◌, ◌≤◌, ◌≡◌, ◌⊎◌, List, Bytes, All}
use sub_preprocessor.Stable.Select.{ProbeResult}
use sub_preprocessor.Stable.Best.{outcomes_for}
use sub_preprocessor.Stable.Probe.{stage_rank, DelayAcc, ProbeNode, better_probe, labelled}

-- the results of the positions that fold onto a label, in order
abbrev pub results_for : Bytes → List (ProbeNode × DelayAcc) → List ProbeResult
results_for label positions = outcomes_for better_probe label (labelled positions)

-- no position has more successes than rounds
abbrev pub IsBounded : ℕ → List (ProbeNode × DelayAcc) → Type 0
IsBounded rounds = All (λ (p : ProbeNode × DelayAcc). p.1.succ_count ≤ rounds)

-- the result has fewer successes, or as many with a higher mean, or the same of both and no later
-- stage
abbrev pub IsNoBetter : ProbeResult → ProbeResult → Type 0
IsNoBetter r x =
    (x.successes < r.successes)
    ⊎ ((x.successes ≡ r.successes)
        × ((r.mean_ms < x.mean_ms)
            ⊎ ((x.mean_ms ≡ r.mean_ms) × (stage_rank x.stage ≤ stage_rank r.stage))))
