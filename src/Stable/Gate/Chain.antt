-- ===== src/Stable/Gate/Chain.antt =====
-- `buildNodeFilters` of internal/stable/nodefilter.go, and the loop of internal/stable/checker.go over
-- the filters that it builds. What a check of the prober would answer in a cycle is a parameter.
use sub_preprocessor.Base.{
  ℕ, ◌+◌, Bool, true, false, not, Option, none, some, List, [], ◌∷◌, if◌then◌else◌, Bytes, codes,
  beq,
}
use sub_preprocessor.Stable.Select.{Survivor}
use sub_preprocessor.Stable.Gate.{ApiFilter, Outcomes, FilterReport, apply_api}
use sub_preprocessor.Stable.Gate.Speed.{BandwidthOutcome, apply_bandwidth, bandwidth_filter_name}

abbrev pub gemini_filter_name : Bytes
gemini_filter_name = codes "gemini"

abbrev pub claude_filter_name : Bytes
claude_filter_name = codes "claude"

abbrev pub chatgpt_filter_name : Bytes
chatgpt_filter_name = codes "chatgpt"

abbrev pub tidal_filter_name : Bytes
tidal_filter_name = codes "tidal"

abbrev pub deepl_filter_name : Bytes
deepl_filter_name = codes "deepl"

-- the checks that the prober has; `gemini` says whether it is enabled, `bandwidth` gives the floor
pub record Prober : Type 0 where
  pub gemini : Option (Bool × Outcomes)
  pub claude : Option Outcomes
  pub chatgpt : Option Outcomes
  pub tidal : Option Outcomes
  pub deepl : Option Outcomes
  pub bandwidth : Option (ℕ × (Bytes → BandwidthOutcome))

pub data NodeFilter : Type 0 where
  api_filter : ApiFilter → Outcomes → NodeFilter
  bandwidth_filter : ℕ → (Bytes → BandwidthOutcome) → NodeFilter

abbrev pub api_of : Bytes → Bool → Bool → Outcomes → NodeFilter
api_of name strict has_store outcomes =
    api_filter
      (record {
        filter_name = name;
        require_verified = strict;
        disabled = false;
        has_store = has_store;
      })
      outcomes

abbrev pub with_outcomes : Bytes → Bool → Bool → Option Outcomes → Option NodeFilter
with_outcomes name strict has_store none = none
with_outcomes name strict has_store (some outcomes) = some (api_of name strict has_store outcomes)

abbrev pub gemini_of : Bool → Option (Bool × Outcomes) → Option NodeFilter
gemini_of has_store none = none
gemini_of has_store (some (enabled, outcomes)) = some (
    api_filter
      (record {
        filter_name = gemini_filter_name;
        require_verified = false;
        disabled = not enabled;
        has_store = has_store;
      })
      outcomes)

-- `appendBandwidthFilter`
abbrev pub bandwidth_of : Option (ℕ × (Bytes → BandwidthOutcome)) → Option NodeFilter
bandwidth_of none = none
bandwidth_of (some (min_mbps, outcomes)) = some (bandwidth_filter min_mbps outcomes)

-- one round of `buildNodeFilters`; `none` is a name that is skipped
unfoldable pub filter_of : Prober → Bool → Bytes → Option NodeFilter
unfolding beq
filter_of p has_store n =
    if beq n gemini_filter_name
    then gemini_of has_store p.gemini
    else if beq n claude_filter_name
    then with_outcomes claude_filter_name false has_store p.claude
    else if beq n chatgpt_filter_name
    then with_outcomes chatgpt_filter_name false has_store p.chatgpt
    else if beq n tidal_filter_name
    then with_outcomes tidal_filter_name false false p.tidal
    else if beq n bandwidth_filter_name
    then bandwidth_of p.bandwidth
    else if beq n deepl_filter_name
    then with_outcomes deepl_filter_name true has_store p.deepl
    else none

-- `buildNodeFilters`
unfoldable pub build_node_filters : Prober → Bool → List Bytes → List NodeFilter
unfolding filter_of
build_node_filters p has_store [] = []
build_node_filters p has_store (n ∷ names) =
    let rest = build_node_filters p has_store names in
    elim (filter_of p has_store n) [ none ↦ rest | some f ↦ f ∷ rest ]

-- the method `apply` of a filter: the survivors and the report. `cancelled` and `live` tell of the
-- context after the check, and at the round of a label.
unfoldable pub apply_filter :
    Bool → (Bytes → Bool) → NodeFilter → List Survivor → List Survivor × FilterReport
unfolding apply_api apply_bandwidth
apply_filter cancelled live (api_filter f outcomes) ss =
    let a = apply_api f outcomes cancelled live ss in (a.kept, a.report)
apply_filter cancelled live (bandwidth_filter min_mbps outcomes) ss =
    apply_bandwidth min_mbps outcomes cancelled ss

-- the loop over `spec.Filters`, from the `i`-th on
unfoldable pub run_filters :
    (ℕ → Bool)
    → (ℕ → Bytes → Bool)
    → ℕ
    → List NodeFilter
    → List Survivor
    → List Survivor × List FilterReport
unfolding apply_filter
run_filters cancelled live i [] ss = (ss, [])
run_filters cancelled live i (f ∷ fs) ss =
    let (kept, report) = apply_filter (cancelled i) (live i) f ss in
    let (left, reports) = run_filters cancelled live (i + 1) fs kept in (left, report ∷ reports)
