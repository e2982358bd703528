-- ===== src/Stable/Cycle/Egress.antt =====
-- `filterAndMeasureEgress`, `applyTrace` and `movedCount` of internal/stable/checker.go: the node
-- filters and the trace on the survivors of the probe. What the checks and the trace answer through
-- the proxies is a parameter.
pub mod Lengths
use sub_preprocessor.Base.{
  ℕ, zero, suc, ◌+◌, ◌-◌, ◌*◌, ◌/◌, ◌%◌, ◌^◌, ◌≤◌, ◌<◌, max, min, ◌≡◌, refl, sym, ap, ◌∙◌, ◌≢◌, ◌↔◌,
  ◌⊎◌, inl, inr, Bool, true, false, not, ◌&&◌, ◌||◌, Option, none, some, List, [], ◌∷◌, ◌++◌, map,
  arith, ◌>>=◌, ltb, leb, ◌==◌, if◌then◌else◌, leb→le, le→leb, ltb→lt, lt→ltb, ==_iff, tests,
  Bool-cases, Option-cases, AllSome, AllSome-bind, bind-eq-some, some-inj, AllSome-all, AllSome-map,
  Bytes, codes, beq, beq_iff, beq_refl, has_byte, cut, cut-append, cut_last, split, is_space,
  trim_left, trim_right, trim_space, starts_with, is_digit, is_upper, is_lower, lower_byte,
  lower_byte_idem, is_ascii, to_lower, length, get_elem?, take, drop, length-append, keep, any,
  every, All, All-append, All-map, Among,
}
use sub_preprocessor.Geoblock.{Store, block}
use sub_preprocessor.Subscription.Node.{Node}
use sub_preprocessor.Stable.Select.{Survivor, Egress, no_egress}
use sub_preprocessor.Stable.Gate.{FilterReport, apply_api}
use sub_preprocessor.Stable.Gate.Chain.{
  NodeFilter, api_filter, bandwidth_filter, apply_filter, run_filters,
}
use sub_preprocessor.Stable.Publish.{Annotator, AnnotateRequest, country_string}

pub data TraceState : Type 0 where
  trace_absent trace_ran : TraceState

pub record TraceReport : Type 0 where
  pub trace_state : TraceState
  pub answered : ℕ
  pub unanswered : ℕ
  pub moved : ℕ

abbrev pub no_trace : TraceReport
no_trace = record { trace_state = trace_absent; answered = 0; unanswered = 0; moved = 0 }

-- the loop of `applyTrace` on what the trace answered: a node is kept whatever it answers
unfoldable pub trace_loop :
    (Bytes → Option Egress) → TraceReport → List Survivor → List Survivor × TraceReport
trace_loop traced rep [] = ([], rep)
trace_loop traced rep (s ∷ ss) =
    let (s', rep') : Survivor × TraceReport = elim (traced s.entry.label) [
      | none ↦ (s, record rep { unanswered = rep.unanswered + 1 })
      | some egress ↦ (record s { egress = egress }, record rep { answered = rep.answered + 1 })
    ] in
    let (rest, rep'') = trace_loop traced rep' ss in (s' ∷ rest, rep'')

-- `applyTrace`
unfoldable pub apply_trace : (Bytes → Option Egress) → List Survivor → List Survivor × TraceReport
unfolding trace_loop
apply_trace traced ss = trace_loop traced (record no_trace { trace_state = trace_ran }) ss

-- the hosts that a filter writes to the geoblock store
unfoldable pub hosts_of : Bool → (Bytes → Bool) → NodeFilter → List Survivor → List Bytes
unfolding apply_api
hosts_of cancelled live (api_filter f outcomes) ss = (apply_api f outcomes cancelled live ss).hosts
hosts_of cancelled live (bandwidth_filter min_mbps outcomes) ss = []

-- the hosts that the filters of `run_filters` write, in order
unfoldable pub chain_hosts :
    (ℕ → Bool) → (ℕ → Bytes → Bool) → ℕ → List NodeFilter → List Survivor → List Bytes
unfolding hosts_of apply_filter
chain_hosts cancelled live i [] ss = []
chain_hosts cancelled live i (f ∷ fs) ss =
    hosts_of (cancelled i) (live i) f ss
    ++ chain_hosts cancelled live (i + 1) fs (apply_filter (cancelled i) (live i) f ss).0

-- the writes of these hosts; `time` and `written` tell of each in turn
unfoldable pub block_hosts : (Bytes → Bytes) → (ℕ → ℕ) → (ℕ → Bool) → ℕ → List Bytes → Store → Store
unfolding block
block_hosts unicode time written i [] s = s
block_hosts unicode time written i (host ∷ hosts) s =
    block_hosts unicode time written (i + 1) hosts (block unicode (written i) (time i) host s).0

pub record Measured : Type 0 where
  pub kept : List Survivor
  pub reports : List FilterReport
  pub trace : TraceReport
  pub hosts : List Bytes

abbrev pub unmeasured : List Survivor → Measured
unmeasured ss = record { kept = ss; reports = []; trace = no_trace; hosts = [] }

-- `filterAndMeasureEgress` but for the counts of the sources. `proxies` says that there are proxies
-- to check through: the probe kept its own, or the survivors parse.
unfoldable pub filter_and_measure_egress :
    (ℕ → Bool)
    → (ℕ → Bytes → Bool)
    → Bool
    → (Bytes → Option Egress)
    → Bool
    → List NodeFilter
    → List Survivor
    → Measured
unfolding run_filters chain_hosts apply_trace
filter_and_measure_egress cancelled live proxies traced trace filters tested =
    let (kept, reports) = run_filters cancelled live 0 filters tested in
    let hosts = chain_hosts cancelled live 0 filters tested in
    let (kept', rep) = apply_trace traced kept in
    if ((length filters == 0) && not trace) || (length tested == 0)
    then unmeasured tested
    else if not proxies
    then unmeasured tested
    else if not trace
    then record { kept = kept; reports = reports; trace = no_trace; hosts = hosts }
    else record { kept = kept'; reports = reports; trace = rep; hosts = hosts }

-- the request of a survivor that answered no trace
abbrev pub offline_request : Survivor → Node → AnnotateRequest
offline_request s n = record { node = n; ip = s.entry.ip; egress = no_egress; prefix = [] }

-- whether the trace moved a survivor: its country is not the one that the annotator gives without it
unfoldable pub is_moved : (Bytes → Option Node) → Annotator → Survivor → Bool
unfolding country_string
is_moved parse_one annotate s =
    let offline = parse_one s.entry.raw >>= λ n. some (annotate (offline_request s n)).1 in
    elim s.egress.ip [
      | none ↦ false
      | some ip ↦ elim offline [
        | none ↦ false
        | some country ↦ not (beq (country_string country) s.entry.country)
      ]
    ]

-- `movedCount`
unfoldable pub moved_count : (Bytes → Option Node) → Option Annotator → List Survivor → ℕ
unfolding is_moved
moved_count parse_one none ss = 0
moved_count parse_one (some annotate) [] = 0
moved_count parse_one (some annotate) (s ∷ ss) =
    let rest = moved_count parse_one (some annotate) ss in
    if is_moved parse_one annotate s then rest + 1 else rest
