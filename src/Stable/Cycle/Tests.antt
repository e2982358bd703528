-- ===== src/Stable/Cycle/Tests.antt =====
-- internal/stable/checker.go: runs of a cycle and instances of the theorems.
use sub_preprocessor.Base.{
  ℕ, zero, suc, ◌+◌, ◌≡◌, refl, inl, true, false, Option, none, some, List, [], ◌∷◌, arith,
  if◌then◌else◌, Bytes, codes, beq, lower_byte, length, any, Among,
}
use mathlib.Core.Option
use sub_preprocessor.Base.Sort.{sort}
use sub_preprocessor.Stable.Label.{label_of}
use sub_preprocessor.Filter.{none_set}
use sub_preprocessor.Stable.Merge.{
  merge_nodes, admit, seen_key, relabel_node, key_of, lower_server_port,
}
use sub_preprocessor.Stable.Select.{select_survivors}
use sub_preprocessor.Stable.Gate.Chain.{build_node_filters}
use sub_preprocessor.Stable.Cycle.Egress.{filter_and_measure_egress}
use sub_preprocessor.Netip.{v4}
use sub_preprocessor.Subscription.Node.{Node}
use sub_preprocessor.Subscription.Links.{Links}
use sub_preprocessor.Stable.Merge.{Entry, merge}
use sub_preprocessor.Stable.Dead.{is_dead, new_dead_set}
use sub_preprocessor.Stable.Select.{ProbeResult, passed, connect, ProbeStage}
use sub_preprocessor.Stable.Gate.Chain.{Prober}
use sub_preprocessor.Stable.Cycle.Sources.{SubscriptionSource, Answer, fetch_sources}
use sub_preprocessor.Preprocess.{NodeResult, DropStats}
use sub_preprocessor.Preprocess.Tests.{env as around}
use sub_preprocessor.Stable.Cycle.Death.{RefusalReport, refusal_ran, precheck_ran}
use sub_preprocessor.Stable.Cycle.Accounts.{probe_stages, attribute_refusals}
use sub_preprocessor.Stable.Cycle.Accounts.Sums.{stage_sum, probe_stages_sum}
use sub_preprocessor.Stable.Cycle.Once.{run_once}
use sub_preprocessor.Stable.Cycle.State.{published}
use sub_preprocessor.Stable.Cycle.State.{Spec, Env, Worker, ProbeRun}
use sub_preprocessor.Stable.Cycle.Once.Ends.{Ends, run_once-Ends}
use sub_preprocessor.Stable.Cycle.Once.Live.{merged_entries, run_once_publishes}
use sub_preprocessor.Stable.Cycle.System.{
  System, Event, reconfigures, uses_filterer, begins, finishes, wakes, cycling, step, run_events,
  new_system,
}
use sub_preprocessor.Stable.Cycle.System.Invariant.{
  IsServing, IsTimed, run_events-IsServing, run_events-IsTimed, run_events_cycle,
}

abbrev same_text : Bytes → Bytes
same_text s = s

abbrev node_of_line : Bytes → Node
node_of_line line = record {
  raw = line;
  scheme = codes "vless";
  name = line;
  server = line;
  port = codes "443";
  fragment_idx = none;
}

abbrev links : Links
links = record {
  parse_one = λ line. if beq line [] then none else some (node_of_line line);
  placeholder = λ raw server. false;
  rewrite_vmess = λ line name. none;
  rewrite_vmess_aead = λ line name. none;
  rewrite_ssr = λ line name. none;
}

abbrev source : Bytes → SubscriptionSource
source name = record {
  name = name;
  url = codes "http://x";
  body = [];
  managed = false;
  feed = [];
  hwid = [];
}

abbrev spec : Spec
spec = record {
  sources = source (codes "one") ∷ source (codes "two") ∷ [];
  denied = none_set;
  interval = 60;
  rounds = 3;
  max_fail = 1;
  max_avg_ms = 1000;
  filters = codes "claude" ∷ [];
  wants_trace = false;
  filterer = 0;
}

abbrev drop_stats : DropStats
drop_stats = record {
  total = 2;
  valid = 2;
  dns_drop = 0;
  geo_drop = 0;
  asn_drop = 0;
  cidr_drop = 0;
  geo_block_drop = 0;
  ipv6_drop = 0;
  unsupported = 0;
}

abbrev kept_line : Bytes → NodeResult
kept_line raw = record { raw = raw; ip = v4 7 }

-- the second source fails
abbrev answer : ℕ → Answer
answer zero = some (kept_line (codes "a.com") ∷ kept_line (codes "b.com") ∷ [], drop_stats)
answer (suc i) = none

abbrev result : ℕ → ProbeStage → ProbeResult
result n s = record { successes = n; mean_ms = 100; stage = s; unbound = false }

-- the first node passes, the second fails every round
abbrev results : Bytes → Option ProbeResult
results label =
    if beq label (codes "one-001")
    then some (result 3 passed)
    else if beq label (codes "one-002")
    then some (result 0 connect)
    else none

abbrev refusals : RefusalReport
refusals = record {
  refusal_state = refusal_ran;
  unparsable = 0;
  unconvertible = 0;
  refused = λ label. false;
}

abbrev probe_run : ProbeRun
probe_run = record {
  results = results;
  refusals = refusals;
  precheck = record {
    precheck_state = precheck_ran;
    dialled = 2;
    refused_endpoints = 1;
    unresolved = 0;
  };
}

abbrev checks : Prober
checks = record {
  gemini = none;
  claude =
      some (λ label. record { server = label; reachable = true; blocked = false; verified = true });
  chatgpt = none;
  tidal = none;
  deepl = none;
  bandwidth = none;
}

abbrev env : Env
env = record {
  answer = λ f i request. answer i;
  annotator = λ f. none;
  dead_clock = λ i. 10;
  probed = λ es. some probe_run;
  cancelled_after_probe = false;
  mark_clock = λ i. 20;
  jitter = λ i. 3;
  checks = checks;
  check_cancelled = λ i. false;
  check_live = λ i label. true;
  proxies = true;
  can_trace = false;
  traced = λ label. none;
  block_time = λ i. 30;
  block_written = λ i. true;
  prune_time = 40;
  rows_pruned = true;
  cancelled_after_filters = false;
  cancelled_in_publish = false;
  published_at = 50;
  snapshot_saved = true;
}

abbrev worker : Worker
worker = record {
  held = none;
  snapshot_path = codes "/s";
  saved = none;
  dead = some (new_dead_set 100);
  store = none;
  errors = 0;
  observed = [];
}

run_once_run : (run_once links same_text env spec worker).1 ≡ published
unfolding run_once merge_nodes admit seen_key relabel_node key_of lower_server_port is_dead
    filter_and_measure_egress build_node_filters select_survivors sort label_of
run_once_run = refl

run_once-Ends_example : Ends worker (run_once links same_text env spec worker)
run_once-Ends_example = run_once-Ends links same_text env spec worker

abbrev first_entry : Entry
first_entry = record {
  label = codes "one-001";
  raw = codes "a.com#one-001";
  addr = codes "a.com:443";
  ip = v4 7;
  country = [];
}

first-Among : Among first_entry (merged_entries links same_text env spec)
unfolding fetch_sources merge merge_nodes admit seen_key relabel_node key_of lower_server_port
    label_of lower_byte
first-Among = inl refl

run_once_publishes_example : (run_once links same_text env spec worker).1 ≡ published
run_once_publishes_example =
    run_once_publishes links same_text env spec worker first_entry probe_run (result 3 passed)
      (record { probe_runs = refl; filters_run = refl; publish_runs = refl })
      (unfold any beq in refl) first-Among (λ now. unfold is_dead in refl) refl (unfold beq in refl)
      (omega arith) (omega arith)

-- the same, with a probe that fails
abbrev failing : Env
failing = record env { probed = λ es. none }

abbrev events : List Event
events =
    begins
    ∷ reconfigures (record spec { interval = 90 }) 1
    ∷ finishes env
    ∷ wakes
    ∷ begins
    ∷ finishes failing
    ∷ []

worker-IsServing : IsServing worker
worker-IsServing = record { held_sound = tt; saved_sound = tt; serves = inl refl }

run_events-IsServing_example :
    IsServing (run_events links same_text events (new_system spec worker)).worker
run_events-IsServing_example =
    run_events-IsServing links same_text events (new_system spec worker) worker-IsServing

run_events-IsTimed_example : IsTimed (run_events links same_text events (new_system spec worker))
run_events-IsTimed_example = run_events-IsTimed links same_text events spec worker

abbrev in_cycle : System
in_cycle = record (new_system spec worker) { phase = cycling spec }

abbrev reloads : List Event
reloads = reconfigures (record spec { interval = 90 }) 1 ∷ uses_filterer 2 ∷ []

run_events_cycle_example :
    ((step links same_text (finishes env) (run_events links same_text reloads in_cycle)).worker
      ≡ (run_once links same_text env spec worker).0)
    × ((step links same_text (finishes env) (run_events links same_text reloads in_cycle)).ticker
        ≡ some (run_events links same_text reloads in_cycle).spec.interval)
    × ((step links same_text (finishes env) (run_events links same_text reloads in_cycle)).spec
        ≡ (run_events links same_text reloads in_cycle).spec)
run_events_cycle_example =
    run_events_cycle links same_text reloads env in_cycle spec (unfold any in refl) refl

abbrev second_entry : Entry
second_entry = record first_entry { label = codes "one-002"; addr = codes "b.com:443" }

abbrev probe : List Entry
probe = first_entry ∷ second_entry ∷ record first_entry { label = codes "two-001" } ∷ []

probe_stages_sum_example :
    stage_sum (probe_stages probe results refusal_ran)
      + (attribute_refusals probe results refusals).unparsable
      + (attribute_refusals probe results refusals).unconvertible
    ≡ length probe
probe_stages_sum_example = probe_stages_sum probe results refusals refl refl

abbrev inline_source : SubscriptionSource
inline_source = record (source (codes "one")) { body = codes "vless://u@a:1\nvless://u@b:1\n" }
