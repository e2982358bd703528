-- ===== src/Stable/Gate/ChainLaws.antt =====
-- internal/stable: what a chain of node filters leaves.
use sub_preprocessor.Base.{
  ℕ, ◌+◌, ◌<◌, ◌≡◌, refl, sym, inl, inr, Bool, true, false, Option, none, some, List, [], ◌∷◌,
  arith, if◌then◌else◌, Option-cases, AllSome, Bytes, beq, length, any, All,
}
use sub_preprocessor.Stable.Select.{Survivor}
use sub_preprocessor.Stable.Gate.{Outcomes}
use sub_preprocessor.Stable.Gate.Speed.{bandwidth_filter_name, BandwidthOutcome}
use sub_preprocessor.Stable.Gate.Api.{apply_api-spares}
use sub_preprocessor.Stable.Gate.Bandwidth.{apply_bandwidth_lem}
use sub_preprocessor.Stable.Gate.Chain.{
  tidal_filter_name, chatgpt_filter_name, claude_filter_name, gemini_filter_name, Prober,
  NodeFilter, api_filter, bandwidth_filter, filter_of, build_node_filters, apply_filter,
  run_filters, deepl_filter_name, gemini_of, with_outcomes, bandwidth_of,
}
use mathlib.Core.Path.{subst}

-- the filter does not require verification
abbrev pub IsLenient : NodeFilter → Type 0
IsLenient (api_filter f outcomes) = f.require_verified ≡ false
IsLenient (bandwidth_filter min_mbps outcomes) = Unit

gemini_of-IsLenient :
    (has_store : Bool) (o : Option (Bool × Outcomes)) → AllSome IsLenient (gemini_of has_store o)
gemini_of-IsLenient has_store none = tt
gemini_of-IsLenient has_store (some p) = refl

with_outcomes-IsLenient :
    (name : Bytes) (has_store : Bool) (o : Option Outcomes)
    → AllSome IsLenient (with_outcomes name false has_store o)
with_outcomes-IsLenient name has_store none = tt
with_outcomes-IsLenient name has_store (some p) = refl

choose :
    (b : Bool) (x y : Option NodeFilter)
    → AllSome IsLenient x
    → AllSome IsLenient y
    → AllSome IsLenient (if b then x else y)
choose true x y h k = h
choose false x y h k = k

bandwidth_of-IsLenient :
    (o : Option (ℕ × (Bytes → BandwidthOutcome))) → AllSome IsLenient (bandwidth_of o)
bandwidth_of-IsLenient none = tt
bandwidth_of-IsLenient (some p) = tt

filter_of-IsLenient :
    (p : Prober) (has_store : Bool) (n : Bytes)
    → beq n deepl_filter_name ≡ false
    → AllSome IsLenient (filter_of p has_store n)
unfolding filter_of
filter_of-IsLenient p has_store n h =
    choose (beq n gemini_filter_name) _ _ (gemini_of-IsLenient has_store p.gemini) (
      choose (beq n claude_filter_name) _ _
        (with_outcomes-IsLenient claude_filter_name has_store p.claude)
        (choose (beq n chatgpt_filter_name) _ _
          (with_outcomes-IsLenient chatgpt_filter_name has_store p.chatgpt)
          (choose (beq n tidal_filter_name) _ _
            (with_outcomes-IsLenient tidal_filter_name false p.tidal)
            (choose (beq n bandwidth_filter_name) _ _ (bandwidth_of-IsLenient p.bandwidth)
              (rw h tt)))))

apply_filter-spares :
    (cancelled : Bool) (live : Bytes → Bool) (f : NodeFilter) (ss : List Survivor)
    → IsLenient f
    → 0 < length ss
    → 0 < length (apply_filter cancelled live f ss).0
unfolding apply_filter
apply_filter-spares cancelled live (api_filter f outcomes) ss l h =
    apply_api-spares f outcomes cancelled live ss l h
apply_filter-spares cancelled live (bandwidth_filter min_mbps outcomes) ss l h =
    elim (apply_bandwidth_lem min_mbps outcomes cancelled ss) [
      | inl (c, e) ↦ subst (λ (k : List Survivor). 0 < length k) (sym e) h
      | inr (inl (c, b, e)) ↦ subst (λ (k : List Survivor). 0 < length k) (sym e) h
      | inr (inr (c, b, e, inl z)) ↦ omega (arith, z, h)
      | inr (inr (c, b, e, inr k)) ↦ k
    ]

run_filters_lem :
    (cancelled : ℕ → Bool) (live : ℕ → Bytes → Bool) (i : ℕ) (fs : List NodeFilter)
    (ss : List Survivor)
    → All IsLenient fs
    → 0 < length ss
    → 0 < length (run_filters cancelled live i fs ss).0
unfolding run_filters
run_filters_lem cancelled live i [] ss a h = h
run_filters_lem cancelled live i (f ∷ fs) ss a h =
    run_filters_lem cancelled live (i + 1) fs (apply_filter (cancelled i) (live i) f ss).0 a.1
      (apply_filter-spares (cancelled i) (live i) f ss a.0 h)

build_node_filters-IsLenient :
    (p : Prober) (has_store : Bool) (names : List Bytes)
    → any (λ n. beq n deepl_filter_name) names ≡ false
    → All IsLenient (build_node_filters p has_store names)
unfolding build_node_filters any
build_node_filters-IsLenient p has_store [] h = tt
build_node_filters-IsLenient p has_store (n ∷ names) h =
    let both : (beq n deepl_filter_name ≡ false)
        × (any (λ n. beq n deepl_filter_name) names ≡ false) =
      ground (arith, h) in
    let w = filter_of-IsLenient p has_store n both.0 in
    let ih = build_node_filters-IsLenient p has_store names both.1 in
    elim (Option-cases (filter_of p has_store n)) [
      | inl e ↦ rw (e, build_node_filters) ih
      | inr (f, e) ↦ rw (e, build_node_filters) (subst (AllSome IsLenient) e w, ih)
    ]

-- A chain of node filters that is built from names other than deepl leaves some survivor of a
-- batch that has one, whatever the prober has and answers and whenever the context is cancelled.
pub run_filters-spares :
    (p : Prober) (has_store : Bool) (names : List Bytes) (cancelled : ℕ → Bool)
    (live : ℕ → Bytes → Bool) (ss : List Survivor)
    → any (λ n. beq n deepl_filter_name) names ≡ false
    → 0 < length ss
    → 0 < length (run_filters cancelled live 0 (build_node_filters p has_store names) ss).0
run_filters-spares p has_store names cancelled live ss d h =
    run_filters_lem cancelled live 0 (build_node_filters p has_store names) ss
      (build_node_filters-IsLenient p has_store names d) h
