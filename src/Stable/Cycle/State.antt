-- ===== src/Stable/Cycle/State.antt =====
-- What a cycle of internal/stable/checker.go reads and writes, with the reports of report.go and the
-- snapshot of stable.go.
use sub_preprocessor.Base.{ℕ, ◌+◌, Bool, Option, List, ◌∷◌, Bytes}
use sub_preprocessor.Filter.{CountrySet}
use sub_preprocessor.Geoblock.{Store}
use sub_preprocessor.Stable.Merge.{Entry}
use sub_preprocessor.Stable.Dead.{DeadSet}
use sub_preprocessor.Stable.Select.{ProbeResult, Egress}
use sub_preprocessor.Stable.Publish.{Annotator}
use sub_preprocessor.Stable.Gate.{FilterReport}
use sub_preprocessor.Stable.Gate.Chain.{Prober}
use sub_preprocessor.Stable.Cycle.Sources.{SubscriptionSource, SourceReport, Answer}
use sub_preprocessor.Preprocess.{FilterRequest}
use sub_preprocessor.Stable.Cycle.Death.{RefusalReport, PrecheckReport}
use sub_preprocessor.Stable.Cycle.Accounts.{StageCounts}
use sub_preprocessor.Stable.Cycle.Egress.{TraceReport}

-- `CheckerSpec`; the filters are kept by name, and the prober is the environment's
pub record Spec : Type 0 where
  pub sources : List SubscriptionSource
  pub denied : CountrySet
  pub interval : ℕ
  pub rounds : ℕ
  pub max_fail : ℕ
  pub max_avg_ms : ℕ
  pub filters : List Bytes
  pub wants_trace : Bool
  -- which processor the policy was built with
  pub filterer : ℕ

pub record Stats : Type 0 where
  pub sources_ok : ℕ
  pub sources_total : ℕ
  pub merged : ℕ
  pub tested : ℕ
  pub kept : ℕ

pub record Snapshot : Type 0 where
  pub payload : Bytes
  pub updated_at : ℕ
  pub stats : Stats

pub record CycleReport : Type 0 where
  pub stats : Stats
  pub dead_skipped : ℕ
  pub probe_stages : StageCounts
  pub refusals : RefusalReport
  pub precheck : PrecheckReport
  pub geo_unknown : ℕ
  pub kept_countries : Bytes → ℕ
  pub sources : List SourceReport
  pub filters : List FilterReport
  pub kept_speeds : List ℕ
  pub kept_latencies : List ℕ
  pub trace : TraceReport

-- what a successful `Probe` returns, and the reports that are read after it
pub record ProbeRun : Type 0 where
  pub results : Bytes → Option ProbeResult
  pub refusals : RefusalReport
  pub precheck : PrecheckReport

-- what the world answers in one cycle; what belongs to the processor is asked of that of the spec
pub record Env : Type 0 where
  pub answer : ℕ → ℕ → FilterRequest → Answer
  pub annotator : ℕ → Option Annotator
  pub dead_clock : ℕ → ℕ
  -- `none` is an error of the probe
  pub probed : List Entry → Option ProbeRun
  pub cancelled_after_probe : Bool
  pub mark_clock : ℕ → ℕ
  pub jitter : ℕ → ℕ
  pub checks : Prober
  pub check_cancelled : ℕ → Bool
  pub check_live : ℕ → Bytes → Bool
  pub proxies : Bool
  pub can_trace : Bool
  pub traced : Bytes → Option Egress
  pub block_time : ℕ → ℕ
  pub block_written : ℕ → Bool
  pub prune_time : ℕ
  pub rows_pruned : Bool
  pub cancelled_after_filters : Bool
  pub cancelled_in_publish : Bool
  pub published_at : ℕ
  pub snapshot_saved : Bool

-- the state that cycles share: the holder, the file at the snapshot path, the two caches, and what
-- the reporter was told
pub record Worker : Type 0 where
  pub held : Option Snapshot
  pub snapshot_path : Bytes
  pub saved : Option Snapshot
  pub dead : Option DeadSet
  pub store : Option Store
  pub errors : ℕ
  pub observed : List CycleReport

-- how a cycle ends; all but `published`, `nothing_merged`, `all_dead` and `no_survivors` are errors
pub data Outcome : Type 0 where
  published nothing_merged all_dead probe_failed probe_cancelled filters_cancelled no_survivors
        publish_cancelled :
      Outcome

-- `reportError`
abbrev pub report_error : Worker → Worker
report_error w = record w { errors = w.errors + 1 }

-- `observe`
abbrev pub observe : CycleReport → Worker → Worker
observe r w = record w { observed = r ∷ w.observed }
