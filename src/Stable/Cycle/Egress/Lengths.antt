-- ===== src/Stable/Cycle/Egress/Lengths.antt =====
-- internal/stable: how many nodes the stages between the probe and the publication leave.
use sub_preprocessor.Base.{
  ℕ, ◌+◌, ◌≤◌, ◌<◌, ◌≡◌, refl, ◌⊎◌, inl, inr, Bool, false, Option, none, some, List, [], ◌∷◌, arith,
  Bool-cases, Option-cases, Bytes, beq, length, length-append, any,
}
use sub_preprocessor.Base.Sort.{length-sort}
use sub_preprocessor.Subscription.Node.{Node}
use sub_preprocessor.Stable.Merge.{Entry}
use sub_preprocessor.Stable.Select.{
  ProbeResult, Survivor, Egress, within_limits, pick, mean_leq, select_survivors,
}
use sub_preprocessor.Stable.Gate.Api.{apply_api-Accounts}
use sub_preprocessor.Stable.Gate.Bandwidth.{apply_bandwidth-Accounts}
use sub_preprocessor.Stable.Gate.Chain.{
  build_node_filters, deepl_filter_name, Prober, NodeFilter, api_filter, bandwidth_filter,
  apply_filter, run_filters,
}
use sub_preprocessor.Stable.Publish.{
  line_of, Annotator, build_payload, plain_payload, annotated_payload, publish_one, render, written,
}
use sub_preprocessor.Stable.Cycle.Egress.{
  trace_ran, TraceReport, no_trace, trace_loop, apply_trace, filter_and_measure_egress,
}
use sub_preprocessor.Stable.Gate.ChainLaws.{run_filters-spares}

length-pick :
    (es : List Entry) (res : Bytes → Option ProbeResult) (rounds max_fail max_avg_ms : ℕ)
    → length (pick es res rounds max_fail max_avg_ms) ≤ length es
unfolding pick
length-pick [] res rounds max_fail max_avg_ms = omega arith
length-pick (e ∷ es) res rounds max_fail max_avg_ms =
    let ih = length-pick es res rounds max_fail max_avg_ms in
    elim (Option-cases (res e.label)) [
      | inl n ↦ rw (n, pick) (omega (arith, ih))
      | inr (r, n) ↦ elim (Bool-cases (within_limits r rounds max_fail max_avg_ms)) [
        | inl y ↦ rw (n, pick) (rw y (omega (arith, ih)))
        | inr y ↦ rw (n, pick) (rw y (omega (arith, ih)))
      ]
    ]

pub length-select_survivors :
    (es : List Entry) (res : Bytes → Option ProbeResult) (rounds max_fail max_avg_ms : ℕ)
    → length (select_survivors es res rounds max_fail max_avg_ms) ≤ length es
unfolding select_survivors
length-select_survivors es res rounds max_fail max_avg_ms =
    let l = pick es res rounds max_fail max_avg_ms in
    omega (arith, length-sort mean_leq l, length-pick es res rounds max_fail max_avg_ms)

length-apply_filter :
    (cancelled : Bool) (live : Bytes → Bool) (f : NodeFilter) (ss : List Survivor)
    → length (apply_filter cancelled live f ss).0 ≤ length ss
unfolding apply_filter
length-apply_filter cancelled live (api_filter f outcomes) ss =
    omega (arith, apply_api-Accounts f outcomes cancelled live ss)
length-apply_filter cancelled live (bandwidth_filter min_mbps outcomes) ss =
    omega (arith, apply_bandwidth-Accounts min_mbps outcomes cancelled ss)

length-run_filters :
    (cancelled : ℕ → Bool) (live : ℕ → Bytes → Bool) (i : ℕ) (fs : List NodeFilter)
    (ss : List Survivor)
    → length (run_filters cancelled live i fs ss).0 ≤ length ss
unfolding run_filters
length-run_filters cancelled live i [] ss = omega arith
length-run_filters cancelled live i (f ∷ fs) ss =
    let kept = (apply_filter (cancelled i) (live i) f ss).0 in
    omega (
      arith,
      length-apply_filter (cancelled i) (live i) f ss,
      length-run_filters cancelled live (i + 1) fs kept,
    )

length-trace_loop :
    (traced : Bytes → Option Egress) (rep : TraceReport) (ss : List Survivor)
    → length (trace_loop traced rep ss).0 ≡ length ss
unfolding trace_loop
length-trace_loop traced rep [] = refl
length-trace_loop traced rep (s ∷ ss) = elim (Option-cases (traced s.entry.label)) [
  | inl n ↦
      rw n (
        omega (arith, length-trace_loop traced (record rep { unanswered = rep.unanswered + 1 }) ss))
  | inr (e, n) ↦
      rw n (omega (arith, length-trace_loop traced (record rep { answered = rep.answered + 1 }) ss))
]

module _ (cancelled : ℕ → Bool) (live : ℕ → Bytes → Bool) (proxies : Bool)
    (traced : Bytes → Option Egress) (trace : Bool) (fs : List NodeFilter)
    (ss : List Survivor) where
  filter_and_measure_egress_kept :
      (length (filter_and_measure_egress cancelled live proxies traced trace fs ss).kept
        ≡ length ss)
      ⊎ (length (filter_and_measure_egress cancelled live proxies traced trace fs ss).kept
          ≡ length (run_filters cancelled live 0 fs ss).0)
  unfolding filter_and_measure_egress apply_trace
  filter_and_measure_egress_kept =
      let kept = (run_filters cancelled live 0 fs ss).0 in
      let l = length-trace_loop traced (record no_trace { trace_state = trace_ran }) kept in
      ground (arith, l)

  -- Neither the filters nor the trace add a survivor.
  pub length-filter_and_measure_egress :
      length (filter_and_measure_egress cancelled live proxies traced trace fs ss).kept ≤ length ss
  length-filter_and_measure_egress = elim filter_and_measure_egress_kept [
    | inl e ↦ omega (arith, e)
    | inr e ↦ omega (arith, e, length-run_filters cancelled live 0 fs ss)
  ]

-- Filters that are built from names other than deepl, and the trace, leave some survivor of a batch
-- that has one.
pub filter_and_measure_egress-spares :
    (p : Prober) (has_store : Bool) (names : List Bytes) (cancelled : ℕ → Bool)
    (live : ℕ → Bytes → Bool) (proxies : Bool) (traced : Bytes → Option Egress) (trace : Bool)
    (ss : List Survivor)
    → any (λ n. beq n deepl_filter_name) names ≡ false
    → 0 < length ss
    → 0
      < length
          (filter_and_measure_egress cancelled live proxies traced trace
            (build_node_filters p has_store names)
            ss).kept
filter_and_measure_egress-spares p has_store names cancelled live proxies traced trace ss d h =
    let fs = build_node_filters p has_store names in
    elim (filter_and_measure_egress_kept cancelled live proxies traced trace fs ss) [
      | inl e ↦ omega (arith, e)
      | inr e ↦ omega (arith, e, run_filters-spares p has_store names cancelled live ss d h)
    ]

length-plain_payload : (ss : List Survivor) → length ss ≤ length (plain_payload ss)
unfolding plain_payload
length-plain_payload [] = omega arith
length-plain_payload (s ∷ ss) = omega (
  arith,
  length-append (line_of s.entry.raw) (plain_payload ss),
  length-append s.entry.raw (b'\n' ∷ []),
  length-plain_payload ss,
)

annotated_payload-length :
    (parse_one : Bytes → Option Node) (annotate : Annotator) (ss : List Survivor)
    → (length (annotated_payload parse_one annotate ss).0 ≡ length ss)
      × (length ss ≤ length (annotated_payload parse_one annotate ss).1)
unfolding annotated_payload publish_one
annotated_payload-length parse_one annotate [] = (refl, omega arith)
annotated_payload-length parse_one annotate (s ∷ ss) =
    let ih = annotated_payload-length parse_one annotate ss in
    let line = (written s (render parse_one annotate s)).1 in
    (
      omega (arith, ih.0),
      omega (
        arith,
        ih.1,
        length-append (line_of line) (annotated_payload parse_one annotate ss).1,
        length-append line (b'\n' ∷ []),
      ),
    )

-- Publication neither adds nor drops a survivor, and the payload has a byte for each of them.
pub build_payload-length :
    (parse_one : Bytes → Option Node) (annotate : Option Annotator) (ss : List Survivor)
    → (length (build_payload parse_one annotate ss).0 ≡ length ss)
      × (length ss ≤ length (build_payload parse_one annotate ss).1)
unfolding build_payload
build_payload-length parse_one none ss = (refl, length-plain_payload ss)
build_payload-length parse_one (some annotate) ss = annotated_payload-length parse_one annotate ss
