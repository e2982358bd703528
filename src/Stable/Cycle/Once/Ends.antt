-- ===== src/Stable/Cycle/Once/Ends.antt =====
-- internal/stable/checker.go: how a cycle ends, and what it leaves of the state.
use sub_preprocessor.Base.{
  if_either, ℕ, ◌+◌, ◌≤◌, ◌<◌, ◌≡◌, refl, ap, ◌≢◌, ◌⊎◌, inl, inr, Bool, true, false, not, ◌&&◌,
  Option, some, List, [], ◌∷◌, arith, ◌==◌, if◌then◌else◌, Option-cases, Bytes, beq, length,
}
use sub_preprocessor.Subscription.Links.{Links}
use sub_preprocessor.Stable.Merge.{SourceBody, Entry, merge}
use sub_preprocessor.Stable.Gate.Chain.{build_node_filters}
use sub_preprocessor.Stable.Cycle.Sources.{SourceReport, fetch_sources, fetch_from}
use sub_preprocessor.Stable.Cycle.Sources.Names.{fetch_sources_names}
use sub_preprocessor.Stable.Cycle.Accounts.{count_source_stages}
use sub_preprocessor.Stable.Cycle.Death.{filter_dead}
use sub_preprocessor.Stable.Cycle.Death.Verdicts.{filter_dead_lem}
use sub_preprocessor.Stable.Cycle.Egress.{Measured}
use sub_preprocessor.Stable.Cycle.Egress.Lengths.{
  length-select_survivors, length-filter_and_measure_egress, build_payload-length,
}
use sub_preprocessor.Stable.Cycle.Once.{
  snapshot_of, cycle_report, rendered, Gathered, publish, prune_caches, has_store,
  annotate_and_publish, after_filters, selected, measured, record_caches, after_probe, probe_cycle,
  run_once,
}
use sub_preprocessor.Stable.Cycle.State.{
  published, nothing_merged, all_dead, probe_failed, probe_cancelled, filters_cancelled,
  no_survivors,
}
use sub_preprocessor.Stable.Cycle.State.{
  Spec, Snapshot, CycleReport, Env, Worker, Outcome, publish_cancelled, report_error,
}

-- A published snapshot counts some survivor, no more than were probed, no more of these than were
-- merged, and no more sources than are configured; its payload has a byte for each survivor.
pub record IsSound (s : Snapshot) : Type 0 where
  pub kept_some : 0 < s.stats.kept
  pub kept_le : s.stats.kept ≤ s.stats.tested
  pub tested_le : s.stats.tested ≤ s.stats.merged
  pub sources_le : s.stats.sources_ok ≤ s.stats.sources_total
  pub has_payload : s.stats.kept ≤ length s.payload

-- The cycle published: a sound snapshot is held, and it is observed with its numbers.
pub record HasPublished (before : Worker) (after : Worker) : Type 0 where
  pub snap : Snapshot
  pub report : CycleReport
  pub is_held : after.held ≡ some snap
  pub is_sound : IsSound snap
  pub no_error : after.errors ≡ before.errors
  pub is_observed : after.observed ≡ report ∷ before.observed
  pub stats_same : report.stats ≡ snap.stats
  pub all_seen : report.dead_skipped + snap.stats.tested ≡ snap.stats.merged
  pub saved_is : (after.saved ≡ some snap) ⊎ (after.saved ≡ before.saved)

-- The cycle did not publish: the list held and the file are as they were, and one error is told.
pub record HasKept (before : Worker) (after : Worker) : Type 0 where
  pub same_held : after.held ≡ before.held
  pub same_saved : after.saved ≡ before.saved
  pub one_error : after.errors ≡ before.errors + 1
  pub same_observed : after.observed ≡ before.observed

abbrev pub Ends : Worker → Worker × Outcome → Type 0
Ends w (w', o) = ((o ≡ published) × HasPublished w w') ⊎ ((o ≢ published) × HasKept w w')

-- what the stages before the filters have established
pub record IsGathered (spec : Spec) (g : Gathered) : Type 0 where
  pub bodies_le : length g.bodies ≤ length spec.sources
  pub probe_is : g.skipped + length g.probe ≡ length g.entries

-- a state that differs in the caches alone
pub record SameList (before : Worker) (after : Worker) : Type 0 where
  pub same_held : after.held ≡ before.held
  pub same_saved : after.saved ≡ before.saved
  pub same_errors : after.errors ≡ before.errors
  pub same_observed : after.observed ≡ before.observed

refused : (w v : Worker) (o : Outcome) → SameList w v → o ≢ published → Ends w (report_error v, o)
refused w v o s ne = inr (
  ne,
  record {
    same_held = s.same_held;
    same_saved = s.same_saved;
    one_error = ap (λ (n : ℕ). n + 1) s.same_errors;
    same_observed = s.same_observed;
  },
)

SameList-refl : (w : Worker) → SameList w w
SameList-refl w = record {
  same_held = refl;
  same_saved = refl;
  same_errors = refl;
  same_observed = refl;
}

module _ (links : Links) (unicode : Bytes → Bytes) (env : Env) (spec : Spec) where
  annotate_and_publish-Ends :
      (g : Gathered) (m : Measured) (w v : Worker)
      → SameList w v
      → IsGathered spec g
      → 0 < length m.kept
      → length m.kept ≤ length g.probe
      → Ends w (annotate_and_publish links unicode env spec g m v)
  unfolding annotate_and_publish publish rendered cycle_report
  annotate_and_publish-Ends g m w v s i some_kept few =
      let b = build_payload-length links.parse_one (env.annotator spec.filterer) m.kept in
      if_either (Ends w) env.cancelled_in_publish _ _ (refused w v publish_cancelled s (λ e. cc))
        λ live. inl (
          refl,
          record {
            snap = snapshot_of links unicode env spec g m;
            report = cycle_report links unicode env spec g m;
            is_held = refl;
            is_sound = record {
              kept_some = omega (arith, b.0, some_kept);
              kept_le = omega (arith, b.0, few);
              tested_le = omega (arith, i.probe_is);
              sources_le = i.bodies_le;
              has_payload = omega (arith, b.0, b.1);
            };
            no_error = s.same_errors;
            is_observed = ap (λ l. cycle_report links unicode env spec g m ∷ l) s.same_observed;
            stats_same = refl;
            all_seen = i.probe_is;
            saved_is =
                saved_of (not (beq v.snapshot_path []) && env.snapshot_saved)
                  (snapshot_of links unicode env spec g m) v.saved w.saved s.same_saved;
          },
        )
    where
      saved_of :
          (b : Bool) (snap : Snapshot) (now before : Option Snapshot)
          → now ≡ before
          → ((if b then some snap else now) ≡ some snap) ⊎ ((if b then some snap else now) ≡ before)
      saved_of true snap now before e = inl refl
      saved_of false snap now before e = inr e

  after_filters-Ends :
      (g : Gathered) (m : Measured) (w v : Worker)
      → SameList w v
      → IsGathered spec g
      → length m.kept ≤ length g.probe
      → Ends w (after_filters links unicode env spec g m v)
  unfolding after_filters
  after_filters-Ends g m w v s i few =
      if_either (Ends w) env.cancelled_after_filters _ _ (refused w v filters_cancelled s (λ e. cc))
        λ live.
          if_either (Ends w) (length m.kept == 0) _ _ (refused w v no_survivors s (λ e. cc))
            λ z. annotate_and_publish-Ends g m w v s i (ground (arith, z)) few

  record_caches-SameList :
      (g : Gathered) (m : Measured) (w : Worker)
      → SameList w (record_caches links unicode env spec g m w)
  unfolding record_caches prune_caches
  record_caches-SameList g m w = record {
    same_held = refl;
    same_saved = refl;
    same_errors = refl;
    same_observed = refl;
  }

  after_probe-Ends :
      (g : Gathered) (w : Worker)
      → IsGathered spec g
      → Ends w (after_probe links unicode env spec g w)
  unfolding after_probe
  after_probe-Ends g w i =
      let tested = selected links unicode env spec g in
      let m = measured links unicode env spec (has_store w) tested in
      let reports = (count_source_stages tested m.kept g.reports).0 in
      let a =
        length-filter_and_measure_egress env.check_cancelled env.check_live env.proxies env.traced
          (spec.wants_trace && env.can_trace)
          (build_node_filters env.checks (has_store w) spec.filters) tested in
      let b =
        length-select_survivors g.probe g.run.results spec.rounds spec.max_fail spec.max_avg_ms in
      after_filters-Ends (record g { reports = reports }) m w
        (record_caches links unicode env spec g m w) (record_caches-SameList g m w)
        (record { bodies_le = i.bodies_le; probe_is = i.probe_is }) (omega (arith, a, b))

  probe_cycle-Ends :
      (bodies : List SourceBody) (reports : List SourceReport) (entries probe : List Entry)
      (skipped : ℕ) (w : Worker)
      → length bodies ≤ length spec.sources
      → skipped + length probe ≡ length entries
      → Ends w (probe_cycle links unicode env spec bodies reports entries probe skipped w)
  unfolding probe_cycle
  probe_cycle-Ends bodies reports entries probe skipped w b p =
      elim (Option-cases (env.probed probe)) [
        | inl e ↦ rw (e, probe_cycle) (refused w w probe_failed (SameList-refl w) (λ h. cc))
        | inr (run, e) ↦
            rw (e, probe_cycle)
              (if_either (Ends w) env.cancelled_after_probe _ _
                (refused w w probe_cancelled (SameList-refl w) (λ h. cc))
                (λ n.
                  after_probe-Ends
                    (record {
                      bodies = bodies;
                      reports = reports;
                      entries = entries;
                      probe = probe;
                      skipped = skipped;
                      run = run;
                    })
                    w (record { bodies_le = b; probe_is = p })))
      ]

  -- A cycle either publishes, and then exactly one report and no error is told, a snapshot is
  -- held that counts some survivor, at most as many survivors as were probed, at most as many
  -- probed as were merged and at most as many sources as are configured, with at least a byte of
  -- payload for each survivor, and the file holds it or what it held; or it ends in one of the
  -- other ways, and then the list held and the file are what they were and exactly one error is
  -- told.
  pub run_once-Ends : (w : Worker) → Ends w (run_once links unicode env spec w)
  unfolding run_once fetch_sources
  run_once-Ends w =
      let answer = env.answer spec.filterer in
      let fetched = fetch_from answer spec.denied 0 spec.sources in
      let entries : List Entry = merge links unicode fetched.0 in
      let f = filter_dead_lem env.dead_clock w.dead entries in
      let names = fetch_sources_names answer spec.denied 0 spec.sources in
      if_either (Ends w) (length entries == 0) _ _
        (refused w w nothing_merged (SameList-refl w) (λ h. cc))
        λ some_merged.
          if_either (Ends w) (not (filter_dead env.dead_clock w.dead entries).1.1) _ _
            (refused w w all_dead (SameList-refl w) (λ h. cc))
            λ some_left.
              probe_cycle-Ends fetched.0 fetched.1 entries
                (filter_dead env.dead_clock w.dead entries).0
                (filter_dead env.dead_clock w.dead entries).1.0 w names.1 (omega (arith, f.0))
