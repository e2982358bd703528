-- ===== src/Stable/Cycle/Once/Live.antt =====
-- internal/stable/checker.go: when a cycle publishes, and what one that is cut short leaves.
use sub_preprocessor.Base.{
  if_passed, length-Among, if_either, ℕ, ◌-◌, ◌≤◌, ◌<◌, ◌≡◌, refl, ◌⊎◌, inl, inr, true, false, not,
  ◌&&◌, none, some, List, arith, ◌==◌, Option-cases, Bytes, beq, length, any, Among,
}
use sub_preprocessor.Subscription.Links.{Links}
use sub_preprocessor.Stable.Merge.{SourceBody, Entry, merge}
use sub_preprocessor.Stable.Select.{ProbeResult, survivor_of}
use sub_preprocessor.Stable.Select.Laws.{select_survivors_complete}
use sub_preprocessor.Stable.Gate.Chain.{deepl_filter_name}
use sub_preprocessor.Stable.Cycle.Sources.{SourceReport, fetch_sources}
use sub_preprocessor.Stable.Cycle.Accounts.{count_source_stages}
use sub_preprocessor.Stable.Cycle.Death.{dead_in, filter_dead}
use sub_preprocessor.Stable.Cycle.Death.Verdicts.{filter_dead_lem, Among-filter_dead}
use sub_preprocessor.Stable.Cycle.Egress.{Measured}
use sub_preprocessor.Stable.Cycle.Egress.Lengths.{filter_and_measure_egress-spares}
use sub_preprocessor.Stable.Cycle.Once.{
  Gathered, has_store, annotate_and_publish, after_filters, selected, measured, record_caches,
  after_probe, probe_cycle, run_once,
}
use sub_preprocessor.Stable.Cycle.State.{published}
use sub_preprocessor.Stable.Cycle.State.{Spec, ProbeRun, Env, Worker, Outcome, report_error}

module _ (links : Links) (unicode : Bytes → Bytes) (env : Env) (spec : Spec) where
  abbrev pub fetched_bodies : List SourceBody
  fetched_bodies = (fetch_sources (env.answer spec.filterer) spec.denied spec.sources).0

  -- what a cycle merges, and what it hands to the prober
  abbrev pub merged_entries : List Entry
  merged_entries = merge links unicode fetched_bodies

  abbrev pub probed_entries : Worker → List Entry
  probed_entries w = (filter_dead env.dead_clock w.dead merged_entries).0

  probe_cycle_aborts :
      (bodies : List SourceBody) (reports : List SourceReport) (entries probe : List Entry)
      (skipped : ℕ) (w : Worker)
      → ((es : List Entry) → env.probed es ≡ none) ⊎ (env.cancelled_after_probe ≡ true)
      → (probe_cycle links unicode env spec bodies reports entries probe skipped w).0
        ≡ report_error w
  unfolding probe_cycle
  probe_cycle_aborts bodies reports entries probe skipped w (inl fails) =
      rw (fails probe, probe_cycle) refl
  probe_cycle_aborts bodies reports entries probe skipped w (inr cancelled) =
      elim (Option-cases (env.probed probe)) [
        | inl e ↦ rw (e, probe_cycle) refl
        | inr (run, e) ↦
            rw (e, probe_cycle)
              (if_either (λ (r : Worker × Outcome). r.0 ≡ report_error w) env.cancelled_after_probe
                _ _ refl (λ n. absurd (cc)))
      ]

  -- A cycle whose probe fails, or that is cancelled by the end of the probe, changes nothing at all
  -- but the count of errors: neither the list, nor the file, nor a cache.
  pub run_once_aborts :
      (w : Worker)
      → ((es : List Entry) → env.probed es ≡ none) ⊎ (env.cancelled_after_probe ≡ true)
      → (run_once links unicode env spec w).0 ≡ report_error w
  unfolding run_once
  run_once_aborts w h =
      if_either (λ (r : Worker × Outcome). r.0 ≡ report_error w) (length merged_entries == 0) _ _
        refl
        λ some_merged.
          if_either (λ (r : Worker × Outcome). r.0 ≡ report_error w)
            (not (filter_dead env.dead_clock w.dead merged_entries).1.1) _ _ refl
            λ some_left. probe_cycle_aborts _ _ merged_entries (probed_entries w) _ w h

  -- no cancellation at any of the three tests of the context
  pub record IsUncancelled : Type 0 where
    pub probe_runs : env.cancelled_after_probe ≡ false
    pub filters_run : env.cancelled_after_filters ≡ false
    pub publish_runs : env.cancelled_in_publish ≡ false

  after_filters_publishes :
      (g : Gathered) (m : Measured) (w : Worker)
      → IsUncancelled
      → 0 < length m.kept
      → (after_filters links unicode env spec g m w).1 ≡ published
  unfolding after_filters annotate_and_publish
  after_filters_publishes g m w u k =
      let P = λ (r : Worker × Outcome). r.1 ≡ published in
      if_passed P env.cancelled_after_filters _ _ u.filters_run (
        if_passed P (length m.kept == 0) _ _ (ground (arith, k))
          (if_passed P env.cancelled_in_publish _ _ u.publish_runs refl))

  after_probe_publishes :
      (g : Gathered) (w : Worker) (e : Entry) (r : ProbeResult)
      → IsUncancelled
      → any (λ n. beq n deepl_filter_name) spec.filters ≡ false
      → Among e g.probe
      → g.run.results e.label ≡ some r
      → spec.rounds - r.successes ≤ spec.max_fail
      → r.mean_ms ≤ spec.max_avg_ms
      → (after_probe links unicode env spec g w).1 ≡ published
  unfolding after_probe
  after_probe_publishes g w e r u lenient among found enough fast =
      let tested = selected links unicode env spec g in
      let m = measured links unicode env spec (has_store w) tested in
      let s =
        select_survivors_complete g.run.results spec.rounds spec.max_fail spec.max_avg_ms g.probe e
          r among found enough fast in
      after_filters_publishes
        (record g { reports = (count_source_stages tested m.kept g.reports).0 }) m
        (record_caches links unicode env spec g m w) u
        (filter_and_measure_egress-spares env.checks (has_store w) spec.filters env.check_cancelled
          env.check_live env.proxies env.traced (spec.wants_trace && env.can_trace) tested lenient
          (length-Among (survivor_of e r) tested s))

  probe_cycle_publishes :
      (bodies : List SourceBody) (reports : List SourceReport) (entries probe : List Entry)
      (skipped : ℕ) (w : Worker) (e : Entry) (run : ProbeRun) (r : ProbeResult)
      → IsUncancelled
      → any (λ n. beq n deepl_filter_name) spec.filters ≡ false
      → Among e probe
      → env.probed probe ≡ some run
      → run.results e.label ≡ some r
      → spec.rounds - r.successes ≤ spec.max_fail
      → r.mean_ms ≤ spec.max_avg_ms
      → (probe_cycle links unicode env spec bodies reports entries probe skipped w).1 ≡ published
  unfolding probe_cycle
  probe_cycle_publishes bodies reports entries probe skipped w e run r u lenient among answers found
        enough fast =
      let g : Gathered = record {
        bodies = bodies;
        reports = reports;
        entries = entries;
        probe = probe;
        skipped = skipped;
        run = run;
      } in
      rw (answers, probe_cycle)
        (if_passed (λ (x : Worker × Outcome). x.1 ≡ published) env.cancelled_after_probe _ _
          u.probe_runs (after_probe_publishes g w e r u lenient among found enough fast))

  -- If nothing is cancelled, the chain has no deepl filter, and some merged entry is not dead,
  -- was probed and has a result within both limits, then the cycle publishes.
  pub run_once_publishes :
      (w : Worker) (e : Entry) (run : ProbeRun) (r : ProbeResult)
      → IsUncancelled
      → any (λ n. beq n deepl_filter_name) spec.filters ≡ false
      → Among e merged_entries
      → ((now : ℕ) → dead_in w.dead now e ≡ false)
      → env.probed (probed_entries w) ≡ some run
      → run.results e.label ≡ some r
      → spec.rounds - r.successes ≤ spec.max_fail
      → r.mean_ms ≤ spec.max_avg_ms
      → (run_once links unicode env spec w).1 ≡ published
  unfolding run_once
  run_once_publishes w e run r u lenient among alive answers found enough fast =
      let P = λ (x : Worker × Outcome). x.1 ≡ published in
      let among' = Among-filter_dead env.dead_clock w.dead merged_entries e among alive in
      let some_merged = length-Among e merged_entries among in
      let some_left = length-Among e (probed_entries w) among' in
      let f = filter_dead_lem env.dead_clock w.dead merged_entries in
      if_passed P (length merged_entries == 0) _ _ (ground (arith, some_merged)) (
        if_passed P (not (filter_dead env.dead_clock w.dead merged_entries).1.1) _ _
          (ground (arith, f, some_left))
          (probe_cycle_publishes _ _ merged_entries (probed_entries w) _ w e run r u lenient among'
            answers found enough fast))
