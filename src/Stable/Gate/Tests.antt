-- ===== src/Stable/Gate/Tests.antt =====
-- internal/stable/nodefilter.go: runs of the definitions and instances of the theorems.
use sub_preprocessor.Base.{
  any, none, some, ◌<◌, ◌≡◌, refl, Bool, true, false, List, [], ◌∷◌, arith, if◌then◌else◌, Bytes,
  codes, beq, length, keep,
}
use sub_preprocessor.Netip.{v4}
use sub_preprocessor.Stable.Select.{Survivor, no_egress}
use sub_preprocessor.Stable.Gate.{ApiFilter, ApiOutcome, Outcomes, apply_api, tripped}
use sub_preprocessor.Stable.Gate.Speed.{apply_bandwidth, BandwidthOutcome}
use sub_preprocessor.Stable.Gate.Api.{accepted, apply_api-strict, apply_api-spares}
use sub_preprocessor.Stable.Gate.Bandwidth.{IsFiltered, apply_bandwidth_lem}
use sub_preprocessor.Stable.Gate.Chain.{build_node_filters, run_filters, Prober}
use sub_preprocessor.Stable.Gate.ChainLaws.{run_filters-spares}

abbrev survivor : Bytes → Survivor
survivor label = record {
  entry = record { label = label; raw = label; addr = label; ip = v4 1; country = [] };
  mean_ms = 100;
  mbps = 0;
  egress = no_egress;
}

abbrev batch : List Survivor
batch = survivor (codes "a-001") ∷ survivor (codes "a-002") ∷ survivor (codes "b-001") ∷ []

abbrev outcome : Bool → Bool → Bool → ApiOutcome
outcome reachable blocked verified = record {
  server = codes "host";
  reachable = reachable;
  blocked = blocked;
  verified = verified;
}

abbrev outcomes : Outcomes
outcomes label =
    if beq label (codes "a-001")
    then outcome true true true
    else if beq label (codes "a-002")
    then outcome true false false
    else outcome true false true

abbrev all_blocked : Outcomes
all_blocked label = outcome true true true

abbrev always : Bytes → Bool
always label = true

abbrev gemini : ApiFilter
gemini = record {
  filter_name = codes "gemini";
  require_verified = false;
  disabled = false;
  has_store = true;
}

abbrev deepl : ApiFilter
deepl = record {
  filter_name = codes "deepl";
  require_verified = true;
  disabled = false;
  has_store = false;
}

apply_api_run :
    (length (apply_api gemini outcomes false always batch).kept ≡ 2)
    × (length (apply_api deepl outcomes false always batch).kept ≡ 1)
    × ((apply_api gemini outcomes false always batch).hosts ≡ codes "host" ∷ [])
    × (length (apply_api gemini all_blocked false always batch).kept ≡ 3)
    × ((apply_api gemini all_blocked false always batch).report.state ≡ tripped)
unfolding apply_api beq
apply_api_run = (refl, refl, refl, refl, refl)

apply_api-strict_example :
    (apply_api deepl outcomes true always batch).kept
    ≡ keep (λ s. accepted (outcomes s.entry.label)) batch
apply_api-strict_example = apply_api-strict deepl outcomes true always batch refl refl

apply_api-spares_example : 0 < length (apply_api gemini all_blocked false always batch).kept
apply_api-spares_example = apply_api-spares gemini all_blocked false always batch refl (omega arith)

abbrev speeds : Bytes → BandwidthOutcome
speeds label =
    if beq label (codes "a-001")
    then record { server = codes "host"; reachable = true; mbps = 3 }
    else record { server = codes "host"; reachable = true; mbps = 40 }

apply_bandwidth_lem_example :
    IsFiltered 10 speeds false batch (apply_bandwidth 10 speeds false batch).0
apply_bandwidth_lem_example = apply_bandwidth_lem 10 speeds false batch

abbrev prober : Prober
prober = record {
  gemini = some (true, all_blocked);
  claude = none;
  chatgpt = some outcomes;
  tidal = none;
  deepl = some outcomes;
  bandwidth = some (10, speeds);
}

abbrev filter_names : List Bytes
filter_names = codes "gemini" ∷ codes "claude" ∷ codes "chatgpt" ∷ codes "bandwidth" ∷ []

run_filters_run :
    (length
        (run_filters
          (λ i. false)
          (λ i label. true)
          0
          (build_node_filters prober true filter_names)
          batch).0
      ≡ 2)
    × (length (build_node_filters prober true filter_names) ≡ 3)
unfolding run_filters build_node_filters beq
run_filters_run = (refl, refl)

run_filters-spares_example :
    0
    < length
        (run_filters
          (λ i. false)
          (λ i label. true)
          0
          (build_node_filters prober true filter_names)
          batch).0
run_filters-spares_example =
    run_filters-spares prober true filter_names (λ i. false) (λ i label. true) batch
      (unfold any beq in refl) (omega arith)
