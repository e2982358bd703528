-- ===== src/Stable/Cycle/Accounts/Sums.antt =====
-- internal/stable/checker.go: that the counts of a cycle add up.
use sub_preprocessor.Base.{
  ℕ, ◌+◌, ◌≤◌, ◌≡◌, refl, ◌⊎◌, inl, inr, Bool, true, false, not, ◌&&◌, Option, none, some, List, [],
  ◌∷◌, arith, if◌then◌else◌, tests, Bytes, length,
}
use sub_preprocessor.Stable.Merge.{Entry}
use sub_preprocessor.Stable.Label.{source_of_label}
use sub_preprocessor.Stable.Select.{
  ProbeResult, ProbeStage, unknown, condemned, connect, fetch, passed, Survivor,
}
use sub_preprocessor.Stable.Cycle.Sources.{SourceReport}
use sub_preprocessor.Stable.Cycle.Death.{RefusalReport, RefusalState, refusal_ran, refusal_absent}
use sub_preprocessor.Stable.Cycle.Accounts.{
  attribute_one, attribute_loop, attribute_refusals, StageCounts, no_stages, bump, count_stage,
  stages_loop, probe_stages, by_name, bump_name, count_pass, count_source_stages,
}

abbrev pub stage_sum : StageCounts → ℕ
stage_sum c = c.at_unknown + c.at_condemned + c.at_connect + c.at_fetch + c.at_passed

bump_sum : (s : ProbeStage) (c : StageCounts) → stage_sum (bump s c) ≡ stage_sum c + 1
bump_sum unknown c = omega arith
bump_sum condemned c = omega arith
bump_sum connect c = omega arith
bump_sum fetch c = omega arith
bump_sum passed c = omega arith

count_stage_absent :
    (o : Option ProbeResult) (c : StageCounts)
    → stage_sum (count_stage refusal_absent o c) ≡ stage_sum c + 1
count_stage_absent none c = omega arith
count_stage_absent (some r) c = bump_sum r.stage c

stages_loop_absent :
    (probe : List Entry) (res : Bytes → Option ProbeResult) (c : StageCounts)
    → stage_sum (stages_loop probe res refusal_absent c) ≡ stage_sum c + length probe
unfolding stages_loop
stages_loop_absent [] res c = omega arith
stages_loop_absent (e ∷ es) res c =
    let ih = stages_loop_absent es res (count_stage refusal_absent (res e.label) c) in
    omega (arith, ih, count_stage_absent (res e.label) c)

count_stage_ran :
    (o : Option ProbeResult) (refused : Bool) (c : StageCounts) (a : ℕ × ℕ)
    → stage_sum (count_stage refusal_ran o c)
        + (attribute_one o refused a).0
        + (attribute_one o refused a).1
      ≡ stage_sum c + a.0 + a.1 + 1
count_stage_ran none true c (u, v) = omega arith
count_stage_ran none false c (u, v) = omega arith
count_stage_ran (some r) refused c (u, v) = omega (arith, bump_sum r.stage c)

stages_loop_ran :
    (probe : List Entry) (res : Bytes → Option ProbeResult) (refused : Bytes → Bool)
    (c : StageCounts) (a : ℕ × ℕ)
    → stage_sum (stages_loop probe res refusal_ran c)
        + (attribute_loop probe res refused a).0
        + (attribute_loop probe res refused a).1
      ≡ stage_sum c + a.0 + a.1 + length probe
unfolding stages_loop attribute_loop
stages_loop_ran [] res refused c a = omega arith
stages_loop_ran (e ∷ es) res refused c a =
    let c' : StageCounts = count_stage refusal_ran (res e.label) c in
    let a' : ℕ × ℕ = attribute_one (res e.label) (refused e.label) a in
    let ih = stages_loop_ran es res refused c' a' in
    omega (arith, ih, count_stage_ran (res e.label) (refused e.label) c a)

RefusalState-cases : (s : RefusalState) → (s ≡ refusal_absent) ⊎ (s ≡ refusal_ran)
RefusalState-cases refusal_absent = inl refl
RefusalState-cases refusal_ran = inr refl

-- If the account of the prober starts from zero, the probed nodes are as many as those counted
-- at a stage and those attributed to a refusal, whatever the prober answers.
pub probe_stages_sum :
    (probe : List Entry) (res : Bytes → Option ProbeResult) (r : RefusalReport)
    → r.unparsable ≡ 0
    → r.unconvertible ≡ 0
    → stage_sum (probe_stages probe res r.refusal_state)
        + (attribute_refusals probe res r).unparsable
        + (attribute_refusals probe res r).unconvertible
      ≡ length probe
unfolding probe_stages attribute_refusals
probe_stages_sum probe res r z w = elim (RefusalState-cases r.refusal_state) [
  | inl e ↦ rw (e, attribute_refusals) (omega (arith, z, w, stages_loop_absent probe res no_stages))
  | inr e ↦
      rw (e, attribute_refusals)
        (omega (
          arith,
          z,
          w,
          stages_loop_ran probe res r.refused no_stages (r.unparsable, r.unconvertible),
        ))
]

abbrev pub tested_sum : List SourceReport → ℕ
tested_sum [] = 0
tested_sum (r ∷ rs) = r.tested + tested_sum rs

abbrev pub filtered_sum : List SourceReport → ℕ
filtered_sum [] = 0
filtered_sum (r ∷ rs) = r.filtered + filtered_sum rs

bump_name_sums :
    (tests : Bool) (name : Bytes) (rs : List SourceReport)
    → (tested_sum (bump_name tests name rs)
        ≡ tested_sum rs + (if tests && by_name name rs then 1 else 0))
      × (filtered_sum (bump_name tests name rs)
          ≡ filtered_sum rs + (if not tests && by_name name rs then 1 else 0))
unfolding bump_name by_name
bump_name_sums true name [] = (omega arith, omega arith)
bump_name_sums false name [] = (omega arith, omega arith)
bump_name_sums true name (r ∷ rs) = let ih = bump_name_sums true name rs in ground (arith, ih)
bump_name_sums false name (r ∷ rs) = let ih = bump_name_sums false name rs in ground (arith, ih)

by_name-bump_name :
    (tests : Bool) (name other : Bytes) (rs : List SourceReport)
    → by_name other (bump_name tests name rs) ≡ by_name other rs
unfolding bump_name by_name
by_name-bump_name tests name other [] = refl
by_name-bump_name true name other (r ∷ rs) =
    let ih = by_name-bump_name true name other rs in ground (arith, ih)
by_name-bump_name false name other (r ∷ rs) =
    let ih = by_name-bump_name false name other rs in ground (arith, ih)

count_pass_tested :
    (ss : List Survivor) (rs : List SourceReport)
    → (tested_sum (count_pass true ss rs).0 + (count_pass true ss rs).1 ≡ tested_sum rs + length ss)
      × (filtered_sum (count_pass true ss rs).0 ≡ filtered_sum rs)
unfolding count_pass
count_pass_tested [] rs = (omega arith, refl)
count_pass_tested (s ∷ ss) rs =
    let name = source_of_label s.entry.label in
    let ih = count_pass_tested ss (bump_name true name rs) in
    let b = bump_name_sums true name rs in ground (arith, ih, b)

count_pass_filtered :
    (ss : List Survivor) (rs : List SourceReport)
    → (tested_sum (count_pass false ss rs).0 ≡ tested_sum rs)
      × (filtered_sum (count_pass false ss rs).0 + (count_pass false ss rs).1
          ≡ filtered_sum rs + length ss)
unfolding count_pass
count_pass_filtered [] rs = (refl, omega arith)
count_pass_filtered (s ∷ ss) rs =
    let name = source_of_label s.entry.label in
    let ih = count_pass_filtered ss (bump_name false name rs) in
    let b = bump_name_sums false name rs in ground (arith, ih, b)

-- The tested counts of the sources grow by the survivors of the probe less those that are
-- attributed to no source, and the filtered counts by no more than the survivors of the filters.
pub count_source_stages_sums :
    (tested filtered : List Survivor) (rs : List SourceReport)
    → (tested_sum (count_source_stages tested filtered rs).0
          + (count_source_stages tested filtered rs).1
        ≡ tested_sum rs + length tested)
      × (filtered_sum (count_source_stages tested filtered rs).0
          ≤ filtered_sum rs + length filtered)
unfolding count_source_stages
count_source_stages_sums tested filtered rs =
    let a = count_pass_tested tested rs in
    let b = count_pass_filtered filtered (count_pass true tested rs).0 in ground (arith, a, b)
