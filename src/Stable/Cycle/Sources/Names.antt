-- ===== src/Stable/Cycle/Sources/Names.antt =====
-- internal/stable: the names of the fetched sources, and the labels of what is merged of them.
use sub_preprocessor.Base.{
  ℕ, ◌+◌, ◌≤◌, ◌≡◌, refl, ap, ◌∙◌, ◌≢◌, inl, inr, List, [], ◌∷◌, map, arith, Option-cases, Bytes,
  length, Among,
}
use sub_preprocessor.Subscription.Links.{Links}
use sub_preprocessor.Filter.{CountrySet}
use sub_preprocessor.Stable.Merge.{SourceBody, merge}
use sub_preprocessor.Stable.Merge.Labels.{
  HasDistinctNames, HasDistinctLabels, merge-HasDistinctLabels,
}
use sub_preprocessor.Stable.Cycle.Sources.{
  SubscriptionSource, SourceReport, Answer, request_of, fetch_from, fetch_sources,
}
use sub_preprocessor.Preprocess.{FilterRequest}

abbrev pub names_of : List SourceBody → List Bytes
names_of = map (λ (b : SourceBody). b.name)

abbrev pub reported : List SourceReport → List Bytes
reported = map (λ (r : SourceReport). r.source.name)

-- pairwise different names of the configured sources
abbrev pub HasDistinctSources : List SubscriptionSource → Type 0
HasDistinctSources [] = Unit
HasDistinctSources (s ∷ ss) =
    ((t : SubscriptionSource) → Among t ss → s.name ≢ t.name) × HasDistinctSources ss

module _ (answer : ℕ → FilterRequest → Answer) (denied : CountrySet) where
  fetch_from_source :
      (i : ℕ) (sources : List SubscriptionSource) (b : SourceBody)
      → Among b (fetch_from answer denied i sources).0
      → (src : SubscriptionSource) × Among src sources × (b.name ≡ src.name)
  unfolding fetch_from
  fetch_from_source i [] b h = absurd h
  fetch_from_source i (src ∷ sources) b h = elim (Option-cases (answer i (request_of denied src))) [
    | inl e ↦ let (s, m, n) = fetch_from_source (i + 1) sources b (rw e at h) in (s, inr m, n)
    | inr (r, e) ↦ elim (rw e at h) [
      | inl same ↦ (src, inl refl, ap (λ (x : SourceBody). x.name) same)
      | inr k ↦ let (s, m, n) = fetch_from_source (i + 1) sources b k in (s, inr m, n)
    ]
  ]

  -- The bodies and the reports of a fetch tell of the same sources, in the same order, and there are
  -- no more of them than are configured.
  pub fetch_sources_names :
      (i : ℕ) (sources : List SubscriptionSource)
      → (names_of (fetch_from answer denied i sources).0
          ≡ reported (fetch_from answer denied i sources).1)
        × (length (fetch_from answer denied i sources).0 ≤ length sources)
  unfolding fetch_from
  fetch_sources_names i [] = (refl, omega arith)
  fetch_sources_names i (src ∷ sources) =
      let ih = fetch_sources_names (i + 1) sources in
      elim (Option-cases (answer i (request_of denied src))) [
        | inl e ↦ rw e (ih.0, omega (arith, ih.1))
        | inr (r, e) ↦ rw e (ap (λ ns. src.name ∷ ns) ih.0, omega (arith, ih.1))
      ]

module _ (links : Links) (unicode : Bytes → Bytes) (answer : ℕ → FilterRequest → Answer)
    (denied : CountrySet) where
  fetch_from-HasDistinctNames :
      (i : ℕ) (sources : List SubscriptionSource)
      → HasDistinctSources sources
      → HasDistinctNames links unicode (fetch_from answer denied i sources).0
  unfolding fetch_from
  fetch_from-HasDistinctNames i [] d = tt
  fetch_from-HasDistinctNames i (src ∷ sources) d =
      let ih = fetch_from-HasDistinctNames (i + 1) sources d.1 in
      elim (Option-cases (answer i (request_of denied src))) [
        | inl e ↦ rw e ih
        | inr (r, e) ↦ rw e (differs, ih)
      ]
    where
      differs :
          (t : SourceBody)
          → Among t (fetch_from answer denied (i + 1) sources).0
          → src.name ≢ t.name
      differs t m same =
          let (s, a, n) = fetch_from_source answer denied (i + 1) sources t m in d.0 s a (same ∙ n)

  -- If the configured sources have pairwise different names, the entries that a cycle merges
  -- have pairwise different labels, whichever of the sources fail and whatever the others hold.
  pub fetched-HasDistinctLabels :
      (sources : List SubscriptionSource)
      → HasDistinctSources sources
      → HasDistinctLabels links unicode
          (merge links unicode (fetch_sources answer denied sources).0)
  unfolding fetch_sources
  fetched-HasDistinctLabels sources d =
      merge-HasDistinctLabels links unicode (fetch_from answer denied 0 sources).0
        (fetch_from-HasDistinctNames 0 sources d)
