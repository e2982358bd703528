-- ===== src/Stable/Cycle/Once.antt =====
-- `RunOnce`, `annotateAndPublish` and `publish` of internal/stable/checker.go, with the `Holder` of
-- internal/stable/stable.go. What the world answers in a cycle is an argument, `Env`; the times of
-- the phases are not modelled. A nil reporter is one whose log nobody reads.
pub mod Ends
pub mod Live
use sub_preprocessor.Base.{
  ℕ, zero, suc, ◌+◌, ◌-◌, ◌*◌, ◌/◌, ◌%◌, ◌^◌, ◌≤◌, ◌<◌, max, min, ◌≡◌, refl, sym, ap, ◌∙◌, ◌≢◌, ◌↔◌,
  ◌⊎◌, inl, inr, Bool, true, false, not, ◌&&◌, ◌||◌, Option, none, some, List, [], ◌∷◌, ◌++◌, map,
  arith, ◌>>=◌, ltb, leb, ◌==◌, if◌then◌else◌, leb→le, le→leb, ltb→lt, lt→ltb, ==_iff, tests,
  Bool-cases, Option-cases, AllSome, AllSome-bind, bind-eq-some, some-inj, AllSome-all, AllSome-map,
  Bytes, codes, beq, beq_iff, beq_refl, has_byte, cut, cut-append, cut_last, split, is_space,
  trim_left, trim_right, trim_space, starts_with, is_digit, is_upper, is_lower, lower_byte,
  lower_byte_idem, is_ascii, to_lower, length, get_elem?, take, drop, length-append, keep, any,
  every, All, All-append, All-map, Among,
}
use sub_preprocessor.Filter.{CountrySet}
use sub_preprocessor.Geoblock.{Store}
use sub_preprocessor.Geoblock
use sub_preprocessor.Subscription.Links.{Links}
use sub_preprocessor.Stable.Merge.{SourceBody, Entry, merge}
use sub_preprocessor.Stable.Dead.{DeadSet}
use sub_preprocessor.Stable.Dead
use sub_preprocessor.Stable.Select.{ProbeResult, Survivor, Egress, select_survivors}
use sub_preprocessor.Stable.Publish.{Annotator, build_payload}
use sub_preprocessor.Stable.Gate.{FilterReport}
use sub_preprocessor.Stable.Gate.Chain.{Prober, build_node_filters}
use sub_preprocessor.Stable.Cycle.Sources.{SubscriptionSource, SourceReport, Answer, fetch_sources}
use sub_preprocessor.Preprocess.{FilterRequest}
use sub_preprocessor.Stable.Cycle.Death.{RefusalReport, PrecheckReport, filter_dead, record_dead}
use sub_preprocessor.Stable.Cycle.Accounts.{
  StageCounts, probe_stages, attribute_refusals, count_source_stages, kept_speeds, kept_latencies,
  geo_unknown_count, kept_countries,
}
use sub_preprocessor.Stable.Cycle.Egress.{
  TraceReport, Measured, filter_and_measure_egress, block_hosts, moved_count,
}
use sub_preprocessor.Stable.Cycle.State.{
  Spec, Stats, Snapshot, CycleReport, ProbeRun, Env, Worker, Outcome, published, nothing_merged,
  all_dead, probe_failed, probe_cancelled, filters_cancelled, no_survivors, publish_cancelled,
  report_error, observe,
}

-- `publish`: the holder is set first, and whether the file is written gates nothing
unfoldable pub publish : Bool → Snapshot → Worker → Worker
unfolding beq
publish written snap w = record w {
  held = some snap;
  saved = if not (beq w.snapshot_path []) && written then some snap else w.saved;
}

-- `pruneCaches`
unfoldable pub prune_caches : ℕ → Bool → Worker → Worker
unfolding Dead.prune Geoblock.prune
prune_caches now deleted w = record w {
  dead = elim w.dead [ none ↦ none | some d ↦ some (Dead.prune now d) ];
  store = elim w.store [ none ↦ none | some s ↦ some (Geoblock.prune deleted now s).0 ];
}

abbrev pub has_store : Worker → Bool
has_store w = elim w.store [ none ↦ false | some s ↦ true ]

-- the local variables of `RunOnce` after the probe
pub record Gathered : Type 0 where
  pub bodies : List SourceBody
  pub reports : List SourceReport
  pub entries : List Entry
  pub probe : List Entry
  pub skipped : ℕ
  pub run : ProbeRun

module _ (links : Links) (unicode : Bytes → Bytes) (env : Env) (spec : Spec) where
  abbrev pub stats_of : Gathered → List Survivor → Stats
  stats_of g survivors = record {
    sources_ok = length g.bodies;
    sources_total = length spec.sources;
    merged = length g.entries;
    tested = length g.probe;
    kept = length survivors;
  }

  -- `BuildPayload` on what is left
  unfoldable pub rendered : Measured → List Survivor × Bytes
  unfolding build_payload
  rendered m = build_payload links.parse_one (env.annotator spec.filterer) m.kept

  -- the snapshot that `publish` stores
  abbrev pub snapshot_of : Gathered → Measured → Snapshot
  snapshot_of g m = record {
    payload = (rendered m).1;
    updated_at = env.published_at;
    stats = stats_of g (rendered m).0;
  }

  -- the report that a published cycle is observed with
  unfoldable pub cycle_report : Gathered → Measured → CycleReport
  unfolding probe_stages attribute_refusals geo_unknown_count kept_countries kept_speeds
      kept_latencies moved_count
  cycle_report g m =
      let survivors = (rendered m).0 in
      record {
        stats = stats_of g survivors;
        dead_skipped = g.skipped;
        probe_stages = probe_stages g.probe g.run.results g.run.refusals.refusal_state;
        refusals = attribute_refusals g.probe g.run.results g.run.refusals;
        precheck = g.run.precheck;
        geo_unknown = geo_unknown_count survivors;
        kept_countries = kept_countries survivors;
        sources = g.reports;
        filters = m.reports;
        kept_speeds = kept_speeds survivors;
        kept_latencies = kept_latencies survivors;
        trace = record m.trace {
          moved = moved_count links.parse_one (env.annotator spec.filterer) survivors;
        };
      }

  -- `annotateAndPublish`, and the report
  unfoldable pub annotate_and_publish : Gathered → Measured → Worker → Worker × Outcome
  unfolding publish cycle_report
  annotate_and_publish g m w =
      if env.cancelled_in_publish
      then (report_error w, publish_cancelled)
      else (observe (cycle_report g m) (publish env.snapshot_saved (snapshot_of g m) w), published)

  -- `RunOnce` from the second test of the context
  unfoldable pub after_filters : Gathered → Measured → Worker → Worker × Outcome
  unfolding annotate_and_publish
  after_filters g m w =
      if env.cancelled_after_filters
      then (report_error w, filters_cancelled)
      else if length m.kept == 0
      then (report_error w, no_survivors)
      else annotate_and_publish g m w

  abbrev pub selected : Gathered → List Survivor
  selected g = select_survivors g.probe g.run.results spec.rounds spec.max_fail spec.max_avg_ms

  abbrev pub measured : Bool → List Survivor → Measured
  measured stored tested =
      filter_and_measure_egress env.check_cancelled env.check_live env.proxies env.traced
        (spec.wants_trace && env.can_trace) (build_node_filters env.checks stored spec.filters)
        tested

  -- the writes of a cycle to the caches: the dead nodes, what the filters block, and the pruning
  unfoldable pub record_caches : Gathered → Measured → Worker → Worker
  unfolding record_dead block_hosts prune_caches
  record_caches g m w =
      let run = g.run in
      prune_caches env.prune_time env.rows_pruned (record w {
        dead =
            record_dead env.mark_clock env.jitter g.probe run.results run.refusals.refusal_state
              run.precheck.precheck_state w.dead;
        store = elim w.store [
          | none ↦ none
          | some s ↦ some (block_hosts unicode env.block_time env.block_written 0 m.hosts s)
        ];
      })

  -- `RunOnce` from the write of the dead cache
  unfoldable pub after_probe : Gathered → Worker → Worker × Outcome
  unfolding record_caches after_filters count_source_stages
  after_probe g w =
      let tested = selected g in
      let m = measured (has_store w) tested in
      let reports = (count_source_stages tested m.kept g.reports).0 in
      after_filters (record g { reports = reports }) m (record_caches g m w)

  -- `RunOnce` from the probe
  unfoldable pub probe_cycle :
      List SourceBody → List SourceReport → List Entry → List Entry → ℕ → Worker → Worker × Outcome
  unfolding after_probe
  probe_cycle bodies reports entries probe skipped w = elim (env.probed probe) [
    | none ↦ (report_error w, probe_failed)
    | some run ↦
        if env.cancelled_after_probe
        then (report_error w, probe_cancelled)
        else after_probe
            (record {
              bodies = bodies;
              reports = reports;
              entries = entries;
              probe = probe;
              skipped = skipped;
              run = run;
            })
            w
  ]

  -- `RunOnce`
  unfoldable pub run_once : Worker → Worker × Outcome
  unfolding fetch_sources merge filter_dead probe_cycle
  run_once w =
      let (bodies, reports) = fetch_sources (env.answer spec.filterer) spec.denied spec.sources in
      let entries = merge links unicode bodies in
      let (probe, (skipped, some_left)) = filter_dead env.dead_clock w.dead entries in
      if length entries == 0
      then (report_error w, nothing_merged)
      else if not some_left
      then (report_error w, all_dead)
      else probe_cycle bodies reports entries probe skipped w
