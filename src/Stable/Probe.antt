-- ===== src/Stable/Probe.antt =====
-- internal/stable/prober.go: the rounds of URL tests and the fold of their results. What a test
-- answers is an argument; the tests of all rounds are told in the order in which they take the lock.
pub mod Rounds
pub mod Best
pub mod Api
pub mod Precheck
pub mod Binding
pub mod Trace
pub mod Tests
use sub_preprocessor.Base.{
  ℕ, zero, suc, ◌+◌, ◌-◌, ◌*◌, ◌/◌, ◌%◌, ◌^◌, ◌≤◌, ◌<◌, max, min, ◌≡◌, refl, sym, ap, ◌∙◌, ◌≢◌, ◌↔◌,
  ◌⊎◌, inl, inr, Bool, true, false, not, ◌&&◌, ◌||◌, Option, none, some, List, [], ◌∷◌, ◌++◌, map,
  arith, ◌>>=◌, ltb, leb, ◌==◌, if◌then◌else◌, leb→le, le→leb, ltb→lt, lt→ltb, ==_iff, tests,
  Bool-cases, Option-cases, if_either, if_passed, AllSome, AllSome-bind, bind-eq-some, some-inj,
  AllSome-all, AllSome-map, Bytes, codes, beq, beq_iff, beq_refl, has_byte, cut, cut-append,
  cut_last, split, is_space, trim_left, trim_right, trim_space, starts_with, is_digit, is_upper,
  is_lower, lower_byte, lower_byte_idem, is_ascii, to_lower, length, get_elem?, take, drop,
  length-append, keep, any, every, All, All-append, All-map, Among, length-Among,
}
use sub_preprocessor.Base.Dict.{find, put}
use sub_preprocessor.Base.Fold.{fold_left}
use sub_preprocessor.Stable.Select.{
  ProbeStage, ProbeResult, unknown, condemned, connect, fetch, passed,
}
use sub_preprocessor.Stable.Best.{fold_labels}

-- `delayAcc`; its two int32 do not overflow (Probe/Rounds)
pub record DelayAcc : Type 0 where
  pub succ_count : ℕ
  pub delay_sum : ℕ
  pub acc_stage : ProbeStage

-- the order of the stages
abbrev pub stage_rank : ProbeStage → ℕ
stage_rank unknown = 0
stage_rank condemned = 1
stage_rank connect = 2
stage_rank fetch = 3
stage_rank passed = 4

-- what `URLTest` returns: a `*url.Error` somewhere in the chain, another error, or a delay
pub data UrlTest : Type 0 where
  url_error other_error : UrlTest
  answered : ℕ → UrlTest

-- `probeStage`
unfoldable pub probe_stage : UrlTest → ProbeStage
probe_stage url_error = fetch
probe_stage other_error = connect
probe_stage (answered delay) = passed

-- `if stage > a.stage { a.stage = stage }`
unfoldable pub raise : ProbeStage → ProbeStage → ProbeStage
raise stage old = if ltb (stage_rank old) (stage_rank stage) then stage else old

-- what a test of `runRound` does under the lock
unfoldable pub record_test : UrlTest → DelayAcc → DelayAcc
unfolding probe_stage raise
record_test url_error a = record a { acc_stage = raise (probe_stage url_error) a.acc_stage }
record_test other_error a = record a { acc_stage = raise (probe_stage other_error) a.acc_stage }
record_test (answered delay) a = record {
  succ_count = a.succ_count + 1;
  delay_sum = a.delay_sum + delay;
  acc_stage = raise (probe_stage (answered delay)) a.acc_stage;
}

-- the write to `accs[i]`
unfoldable pub record_at : ℕ × UrlTest → List DelayAcc → List DelayAcc
unfolding record_test
record_at (i, t) [] = []
record_at (zero, t) (a ∷ accs) = record_test t a ∷ accs
record_at (suc i, t) (a ∷ accs) = a ∷ record_at (i, t) accs

-- the accumulators after the rounds
unfoldable pub run_rounds : List (ℕ × UrlTest) → List DelayAcc → List DelayAcc
unfolding fold_left record_at
run_rounds ts accs = fold_left record_at accs ts

-- `probeNode`; `proxy` is the label of the adapter, if there is one
pub record ProbeNode : Type 0 where
  pub label : Bytes
  pub addr : Bytes
  pub proxy : Option Bytes
  pub tcp_server : Bool
  pub bound : Bool

-- `betterProbe`
unfoldable pub better_probe : ProbeResult → ProbeResult → Bool
better_probe a b =
    if not (a.successes == b.successes)
    then ltb b.successes a.successes
    else if not (a.mean_ms == b.mean_ms)
    then ltb a.mean_ms b.mean_ms
    else ltb (stage_rank b.stage) (stage_rank a.stage)

-- the label that a position folds onto; `none` is a mapping that was refused
unfoldable pub fold_label : ProbeNode → DelayAcc → Option Bytes
fold_label n a = elim n.proxy [
  | some label ↦ some label
  | none ↦ if stage_rank a.acc_stage == 1 then some n.label else none
]

-- the result of a position
abbrev pub result_of : ProbeNode → DelayAcc → ProbeResult
result_of n a = record {
  successes = a.succ_count;
  mean_ms = if ltb 0 a.succ_count then a.delay_sum / a.succ_count else 0;
  stage = a.acc_stage;
  unbound = not n.bound;
}

-- the label and the result of each position that has one
unfoldable pub labelled : List (ProbeNode × DelayAcc) → List (Bytes × ProbeResult)
unfolding fold_label
labelled [] = []
labelled ((n, a) ∷ positions) =
    let rest = labelled positions in
    elim (fold_label n a) [ none ↦ rest | some label ↦ (label, result_of n a) ∷ rest ]

-- `foldProbeResults`
unfoldable pub fold_probe_results : List (ProbeNode × DelayAcc) → List (Bytes × ProbeResult)
unfolding fold_labels labelled better_probe
fold_probe_results positions = fold_labels better_probe (labelled positions) []
