-- ===== src/Stable/Select/Laws.antt =====
-- `SelectSurvivors`: who survives, and in what order.
use sub_preprocessor.Base.{
  ℕ, ◌-◌, ◌≤◌, ◌≡◌, refl, inl, inr, true, Option, some, List, [], ◌∷◌, arith, ◌==◌, Bool-cases,
  Option-cases, Bytes, keep, All, Among,
}
use mathlib.Core.Path.{subst}
use mathlib.Core.List.{Perm}
use sub_preprocessor.Base.Sort.{
  Among-sort, IsOrder, IsSorted, sort-All, sort-IsSorted, sort-perm, keep-sort,
}
use sub_preprocessor.Stable.Merge.{Entry}
use sub_preprocessor.Stable.Select.{
  ProbeResult, Survivor, within_limits, survivor_of, pick, mean_leq, select_survivors,
}

mean_leq-IsOrder : IsOrder mean_leq
mean_leq-IsOrder = record { total = λ a b h. ground arith; trans = λ a b c h k. ground arith }

module _ (res : Bytes → Option ProbeResult) (rounds max_fail max_avg_ms : ℕ) where
  -- The survivor has a result, within both limits, and carries its mean delay.
  pub record IsSelected (s : Survivor) : Type 0 where
    pub result : ProbeResult
    pub found : res s.entry.label ≡ some result
    pub failures : rounds - result.successes ≤ max_fail
    pub delay : result.mean_ms ≤ max_avg_ms
    pub mean_is : s.mean_ms ≡ result.mean_ms

  pick-IsSelected : (es : List Entry) → All IsSelected (pick es res rounds max_fail max_avg_ms)
  unfolding pick
  pick-IsSelected [] = tt
  pick-IsSelected (e ∷ es) = elim (Option-cases (res e.label)) [
    | inl absent ↦ rw (absent, pick) (pick-IsSelected es)
    | inr (r, found) ↦ elim (Bool-cases (within_limits r rounds max_fail max_avg_ms)) [
      | inl good ↦
          rw (found, pick)
            (rw good (
              record {
                result = r;
                found = found;
                failures = unfold within_limits in ground arith;
                delay = unfold within_limits in ground arith;
                mean_is = refl;
              },
              pick-IsSelected es,
            ))
      | inr bad ↦ rw (found, pick) (rw bad (pick-IsSelected es))
    ]
  ]

  -- The survivors are within both limits and sorted by mean delay, those of one delay stand in
  -- the order of the entries, and they are a permutation of the entries picked.
  pub select_survivors_lem :
      (es : List Entry) (ms : ℕ)
      → All IsSelected (select_survivors es res rounds max_fail max_avg_ms)
        × IsSorted mean_leq (select_survivors es res rounds max_fail max_avg_ms)
        × (keep
              (λ (s : Survivor). s.mean_ms == ms)
              (select_survivors es res rounds max_fail max_avg_ms)
            ≡ keep (λ (s : Survivor). s.mean_ms == ms) (pick es res rounds max_fail max_avg_ms))
        × Perm
            (select_survivors es res rounds max_fail max_avg_ms)
            (pick es res rounds max_fail max_avg_ms)
  unfolding select_survivors
  select_survivors_lem es ms =
      let l : List Survivor = pick es res rounds max_fail max_avg_ms in
      (
        sort-All mean_leq IsSelected l (pick-IsSelected es),
        sort-IsSorted mean_leq mean_leq-IsOrder l,
        keep-sort mean_leq (λ (s : Survivor). s.mean_ms == ms) (λ a b h k. ground arith) l,
        sort-perm mean_leq l,
      )

  pick_first :
      (e : Entry) (es : List Entry) (r : ProbeResult)
      → res e.label ≡ some r
      → within_limits r rounds max_fail max_avg_ms ≡ true
      → pick (e ∷ es) res rounds max_fail max_avg_ms
        ≡ survivor_of e r ∷ pick es res rounds max_fail max_avg_ms
  unfolding pick
  pick_first e es r found good = rw (found, pick) (rw good)

  Among-pick_tail :
      (s : Survivor) (x : Entry) (es : List Entry)
      → Among s (pick es res rounds max_fail max_avg_ms)
      → Among s (pick (x ∷ es) res rounds max_fail max_avg_ms)
  unfolding pick
  Among-pick_tail s x es m = elim (Option-cases (res x.label)) [
    | inl absent ↦ rw (absent, pick) m
    | inr (r, found) ↦ elim (Bool-cases (within_limits r rounds max_fail max_avg_ms)) [
      | inl good ↦ rw (found, pick) (rw good (inr m))
      | inr bad ↦ rw (found, pick) (rw bad m)
    ]
  ]

  Among-pick :
      (es : List Entry) (e : Entry) (r : ProbeResult)
      → Among e es
      → res e.label ≡ some r
      → within_limits r rounds max_fail max_avg_ms ≡ true
      → Among (survivor_of e r) (pick es res rounds max_fail max_avg_ms)
  Among-pick [] e r m found good = absurd m
  Among-pick (x ∷ es) e r (inl same) found good =
      subst (λ (y : Entry). Among (survivor_of e r) (pick (y ∷ es) res rounds max_fail max_avg_ms))
        same (rw (pick_first e es r found good) (inl refl))
  Among-pick (x ∷ es) e r (inr m) found good =
      Among-pick_tail (survivor_of e r) x es (Among-pick es e r m found good)

  -- An entry with a result within both limits is among the survivors, with the mean delay of the
  -- result.
  pub select_survivors_complete :
      (es : List Entry) (e : Entry) (r : ProbeResult)
      → Among e es
      → res e.label ≡ some r
      → rounds - r.successes ≤ max_fail
      → r.mean_ms ≤ max_avg_ms
      → Among (survivor_of e r) (select_survivors es res rounds max_fail max_avg_ms)
  unfolding select_survivors
  select_survivors_complete es e r m found f d =
      Among-sort mean_leq (survivor_of e r) (pick es res rounds max_fail max_avg_ms)
        (Among-pick es e r m found (unfold within_limits in ground arith))
