-- ===== src/Stable/Gate/Api.antt =====
-- internal/stable/nodefilter.go: what `apiFilter.apply` does with a batch.
use sub_preprocessor.Base.{
  ℕ, ◌+◌, ◌<◌, ◌≡◌, refl, sym, ap, ◌∙◌, ◌⊎◌, inl, inr, Bool, true, false, not, ◌&&◌, List, [], ◌∷◌,
  arith, Bytes, length, keep,
}
use sub_preprocessor.Stable.Select.{Survivor}
use sub_preprocessor.Stable.Gate.{
  ApiFilter, ApiOutcome, Applied, FilterReport, Outcomes, failed_of, tally, keep_outcomes,
  breaker_trips, apply_api, enact, passes, spare, untouched,
}
use sub_preprocessor.Stable.Gate.Counts.{kept-failed}
use mathlib.Core.Path.{subst}

abbrev pub sum_dropped : List (Bytes × ℕ) → ℕ
sum_dropped [] = 0
sum_dropped (d ∷ ds) = d.1 + sum_dropped ds

-- The report of a batch counts its survivors; those kept and those dropped for a reason add up.
abbrev pub Accounts : List Survivor → List Survivor → FilterReport → Type 0
Accounts entered kept r =
    (r.entered ≡ length entered)
    × (r.kept ≡ length kept)
    × (r.kept + sum_dropped r.dropped ≡ r.entered)

abbrev pub trips_of : ApiFilter → Outcomes → List Survivor → Bool
trips_of f outcomes ss = breaker_trips (failed_of f (tally outcomes ss)) (length ss)

module _ (f : ApiFilter) (outcomes : Outcomes) (cancelled : Bool) (live : Bytes → Bool)
    (ss : List Survivor) where
  abbrev enacted : Applied
  enacted = enact f outcomes (trips_of f outcomes ss) live (tally outcomes ss) ss

  -- the four ways that a batch can end, as three
  abbrev Ends : Applied → Type 0
  Ends a =
      (((f.disabled ≡ true) ⊎ (f.require_verified ≡ false)) × (a ≡ untouched f.filter_name ss))
      ⊎ ((f.require_verified ≡ false)
          × (trips_of f outcomes ss ≡ true)
          × (a ≡ spare f (tally outcomes ss) ss))
      ⊎ ((f.disabled ≡ false)
          × (a ≡ enacted)
          × ((trips_of f outcomes ss ≡ false) ⊎ (f.require_verified ≡ true)))

  pub ends : Ends (apply_api f outcomes cancelled live ss)
  unfolding apply_api
  ends = ground arith

  pub enact-Accounts : Accounts ss enacted.kept enacted.report
  unfolding enact
  enact-Accounts =
      let h = kept-failed f outcomes (not (trips_of f outcomes ss)) live ss in
      (refl, refl, ground (arith, h))

-- On every branch of the filter, the report enters the length of the batch, its kept is the
-- length of what is returned, and kept and dropped together are what entered.
pub apply_api-Accounts :
    (f : ApiFilter) (outcomes : Outcomes) (cancelled : Bool) (live : Bytes → Bool)
    (ss : List Survivor)
    → let a = apply_api f outcomes cancelled live ss in Accounts ss a.kept a.report
apply_api-Accounts f outcomes cancelled live ss =
    let P = λ (a : Applied). Accounts ss a.kept a.report in
    elim (ends f outcomes cancelled live ss) [
      | inl (h, e) ↦ subst P (sym e) (refl, refl, ground arith)
      | inr (inl (h, t, e)) ↦ subst P (sym e) (refl, refl, ground arith)
      | inr (inr (h, e, t)) ↦ subst P (sym e) (enact-Accounts f outcomes cancelled live ss)
    ]

keep_outcomes_lem :
    (f : ApiFilter) (outcomes : Outcomes) (trusted : Bool) (live : Bytes → Bool)
    (ss : List Survivor)
    → (keep_outcomes f outcomes trusted live ss).0
      ≡ keep (λ s. passes f (outcomes s.entry.label)) ss
unfolding keep_outcomes keep
keep_outcomes_lem f outcomes trusted live [] = refl
keep_outcomes_lem f outcomes trusted live (s ∷ ss) =
    let ih = keep_outcomes_lem f outcomes trusted live ss in ground (arith, ih)

-- what is kept, in the three ways
pub kept_ends :
    (f : ApiFilter) (outcomes : Outcomes) (cancelled : Bool) (live : Bytes → Bool)
    (ss : List Survivor)
    → ((apply_api f outcomes cancelled live ss).kept ≡ ss)
        × ((f.disabled ≡ true) ⊎ (f.require_verified ≡ false))
      ⊎ ((apply_api f outcomes cancelled live ss).kept
          ≡ keep (λ s. passes f (outcomes s.entry.label)) ss)
        × (f.disabled ≡ false)
        × ((trips_of f outcomes ss ≡ false) ⊎ (f.require_verified ≡ true))
unfolding enact
kept_ends f outcomes cancelled live ss = elim (ends f outcomes cancelled live ss) [
  | inl (h, e) ↦ inl (ap (λ (a : Applied). a.kept) e, h)
  | inr (inl (h, t, e)) ↦ inl (ap (λ (a : Applied). a.kept) e, inr h)
  | inr (inr (h, e, t)) ↦ inr (
    ap (λ (a : Applied). a.kept) e
        ∙ keep_outcomes_lem f outcomes (not (trips_of f outcomes ss)) live ss,
    h,
    t,
  )
]

abbrev pub accepted : ApiOutcome → Bool
accepted o = not o.blocked && (o.reachable && o.verified)

keep-strict :
    (f : ApiFilter) (outcomes : Outcomes) (ss : List Survivor)
    → f.require_verified ≡ true
    → keep (λ s. passes f (outcomes s.entry.label)) ss
      ≡ keep (λ s. accepted (outcomes s.entry.label)) ss
unfolding keep
keep-strict f outcomes [] r = refl
keep-strict f outcomes (s ∷ ss) r = let ih = keep-strict f outcomes ss r in ground (arith, ih)

-- A filter that requires verification and is not disabled keeps exactly the survivors that were
-- reached, verified and not blocked, cancelled or tripped as it may be.
pub apply_api-strict :
    (f : ApiFilter) (outcomes : Outcomes) (cancelled : Bool) (live : Bytes → Bool)
    (ss : List Survivor)
    → f.require_verified ≡ true
    → f.disabled ≡ false
    → (apply_api f outcomes cancelled live ss).kept
      ≡ keep (λ s. accepted (outcomes s.entry.label)) ss
apply_api-strict f outcomes cancelled live ss r d = elim (kept_ends f outcomes cancelled live ss) [
  | inl (e, inl h) ↦ ground arith
  | inl (e, inr h) ↦ ground arith
  | inr (e, h, t) ↦ e ∙ keep-strict f outcomes ss r
]

spared : (k failed n : ℕ) → k + failed ≡ n → 0 < n → breaker_trips failed n ≡ false → 0 < k
unfolding breaker_trips
spared k failed n e h t = ground arith

-- A filter that does not require verification returns some survivor of a batch that has one,
-- whatever the outcomes.
pub apply_api-spares :
    (f : ApiFilter) (outcomes : Outcomes) (cancelled : Bool) (live : Bytes → Bool)
    (ss : List Survivor)
    → f.require_verified ≡ false
    → 0 < length ss
    → 0 < length (apply_api f outcomes cancelled live ss).kept
apply_api-spares f outcomes cancelled live ss r h = elim (kept_ends f outcomes cancelled live ss) [
  | inl (e, g) ↦ subst (λ (k : List Survivor). 0 < length k) (sym e) h
  | inr (e, g, inr t) ↦ ground arith
  | inr (e, g, inl t) ↦
      let kept = spared _ _ _ (kept-failed f outcomes true live ss) h t in
      subst (λ (k : List Survivor). 0 < length k)
        (keep_outcomes_lem f outcomes true live ss ∙ sym e) kept
]

untrusted :
    (f : ApiFilter) (outcomes : Outcomes) (live : Bytes → Bool) (ss : List Survivor)
    → (keep_outcomes f outcomes false live ss).1 ≡ []
unfolding keep_outcomes
untrusted f outcomes live [] = refl
untrusted f outcomes live (s ∷ ss) = let ih = untrusted f outcomes live ss in ground (arith, ih)

-- Once the breaker trips on a batch, no host of it is given to the geoblock store.
pub apply_api-hosts :
    (f : ApiFilter) (outcomes : Outcomes) (cancelled : Bool) (live : Bytes → Bool)
    (ss : List Survivor)
    → breaker_trips (failed_of f (tally outcomes ss)) (length ss) ≡ true
    → (apply_api f outcomes cancelled live ss).hosts ≡ []
unfolding enact
apply_api-hosts f outcomes cancelled live ss h = elim (ends f outcomes cancelled live ss) [
  | inl (g, e) ↦ ap (λ (a : Applied). a.hosts) e
  | inr (inl (g, t, e)) ↦ ap (λ (a : Applied). a.hosts) e
  | inr (inr (g, e, t)) ↦
      ap (λ (a : Applied). a.hosts) e
      ∙ ap (λ b. (keep_outcomes f outcomes (not b) live ss).1) h
      ∙ untrusted f outcomes live ss
]
