-- ===== src/Stable/Cycle/Accounts.antt =====
-- The counts of a cycle in internal/stable/checker.go: `attributeRefusals`, `probeStages`,
-- `countSourceStages` and what is counted of the published survivors. A Go map of counters is a
-- function that gives 0 for a missing key.
pub mod Sums
use sub_preprocessor.Base.{
  ℕ, zero, suc, ◌+◌, ◌-◌, ◌*◌, ◌/◌, ◌%◌, ◌^◌, ◌≤◌, ◌<◌, max, min, ◌≡◌, refl, sym, ap, ◌∙◌, ◌≢◌, ◌↔◌,
  ◌⊎◌, inl, inr, Bool, true, false, not, ◌&&◌, ◌||◌, Option, none, some, List, [], ◌∷◌, ◌++◌, map,
  arith, ◌>>=◌, ltb, leb, ◌==◌, if◌then◌else◌, leb→le, le→leb, ltb→lt, lt→ltb, ==_iff, tests,
  Bool-cases, Option-cases, AllSome, AllSome-bind, bind-eq-some, some-inj, AllSome-all, AllSome-map,
  Bytes, codes, beq, beq_iff, beq_refl, has_byte, cut, cut-append, cut_last, split, is_space,
  trim_left, trim_right, trim_space, starts_with, is_digit, is_upper, is_lower, lower_byte,
  lower_byte_idem, is_ascii, to_lower, length, get_elem?, take, drop, length-append, keep, any,
  every, All, All-append, All-map, Among,
}
use sub_preprocessor.Stable.Merge.{Entry}
use sub_preprocessor.Stable.Label.{source_of_label}
use sub_preprocessor.Stable.Select.{
  ProbeResult, ProbeStage, unknown, condemned, connect, fetch, passed, Survivor,
}
use sub_preprocessor.Stable.Publish.{country_unknown}
use sub_preprocessor.Stable.Cycle.Sources.{SourceReport}
use sub_preprocessor.Stable.Cycle.Death.{RefusalReport, RefusalState, refusal_ran, refusal_absent}

-- one round of `attributeRefusals`: (unparsable, unconvertible)
abbrev pub attribute_one : Option ProbeResult → Bool → ℕ × ℕ → ℕ × ℕ
attribute_one (some r) refused c = c
attribute_one none true (u, v) = (u + 1, v)
attribute_one none false (u, v) = (u, v + 1)

unfoldable pub attribute_loop :
    List Entry → (Bytes → Option ProbeResult) → (Bytes → Bool) → ℕ × ℕ → ℕ × ℕ
attribute_loop [] res refused c = c
attribute_loop (e ∷ es) res refused c =
    attribute_loop es res refused (attribute_one (res e.label) (refused e.label) c)

-- `attributeRefusals`
unfoldable pub attribute_refusals :
    List Entry → (Bytes → Option ProbeResult) → RefusalReport → RefusalReport
unfolding attribute_loop
attribute_refusals probe res r =
    let (u, v) = attribute_loop probe res r.refused (r.unparsable, r.unconvertible) in
    elim r.refusal_state [
      | refusal_absent ↦ r
      | refusal_ran ↦ record r { unparsable = u; unconvertible = v }
    ]

pub record StageCounts : Type 0 where
  pub at_unknown : ℕ
  pub at_condemned : ℕ
  pub at_connect : ℕ
  pub at_fetch : ℕ
  pub at_passed : ℕ

abbrev pub no_stages : StageCounts
no_stages = record { at_unknown = 0; at_condemned = 0; at_connect = 0; at_fetch = 0; at_passed = 0 }

-- `stages[s]++`
abbrev pub bump : ProbeStage → StageCounts → StageCounts
bump unknown c = record c { at_unknown = c.at_unknown + 1 }
bump condemned c = record c { at_condemned = c.at_condemned + 1 }
bump connect c = record c { at_connect = c.at_connect + 1 }
bump fetch c = record c { at_fetch = c.at_fetch + 1 }
bump passed c = record c { at_passed = c.at_passed + 1 }

-- one round of `probeStages`
abbrev pub count_stage : RefusalState → Option ProbeResult → StageCounts → StageCounts
count_stage refusal_ran none c = c
count_stage refusal_absent none c = bump unknown c
count_stage state (some r) c = bump r.stage c

unfoldable pub stages_loop :
    List Entry → (Bytes → Option ProbeResult) → RefusalState → StageCounts → StageCounts
stages_loop [] res state c = c
stages_loop (e ∷ es) res state c = stages_loop es res state (count_stage state (res e.label) c)

-- `probeStages`
unfoldable pub probe_stages : List Entry → (Bytes → Option ProbeResult) → RefusalState → StageCounts
unfolding stages_loop
probe_stages probe res state = stages_loop probe res state no_stages

-- `byName[name]`: the last report of that name
unfoldable pub by_name : Bytes → List SourceReport → Bool
by_name name [] = false
by_name name (r ∷ rs) = beq r.source.name name || by_name name rs

abbrev pub bump_report : Bool → SourceReport → SourceReport
bump_report true r = record r { tested = r.tested + 1 }
bump_report false r = record r { filtered = r.filtered + 1 }

-- `reports[i].Tested++`, or `Filtered++`, at the last report of the name
unfoldable pub bump_name : Bool → Bytes → List SourceReport → List SourceReport
unfolding by_name
bump_name tests name [] = []
bump_name tests name (r ∷ rs) =
    let rest = bump_name tests name rs in
    if by_name name rs
    then r ∷ rest
    else (if beq r.source.name name then bump_report tests r else r) ∷ rest

-- one of the two loops of `countSourceStages`: the reports, and how many survivors have none
unfoldable pub count_pass : Bool → List Survivor → List SourceReport → List SourceReport × ℕ
unfolding bump_name
count_pass tests [] reports = (reports, 0)
count_pass tests (s ∷ ss) reports =
    let name = source_of_label s.entry.label in
    let (rest, lost) = count_pass tests ss (bump_name tests name reports) in
    (rest, if by_name name reports then lost else lost + 1)

-- `countSourceStages`; the number of unattributed survivors is only logged
unfoldable pub count_source_stages :
    List Survivor → List Survivor → List SourceReport → List SourceReport × ℕ
unfolding count_pass
count_source_stages tested filtered reports =
    let (reports', unattributed) = count_pass true tested reports in
    ((count_pass false filtered reports').0, unattributed)

-- `keptSpeeds`
unfoldable pub kept_speeds : List Survivor → List ℕ
kept_speeds [] = []
kept_speeds (s ∷ ss) = let rest = kept_speeds ss in if ltb 0 s.mbps then s.mbps ∷ rest else rest

-- `keptLatencies`
unfoldable pub kept_latencies : List Survivor → List ℕ
kept_latencies ss = map (λ (s : Survivor). s.mean_ms) ss

-- `geoUnknownCount`
unfoldable pub geo_unknown_count : List Survivor → ℕ
geo_unknown_count [] = 0
geo_unknown_count (s ∷ ss) =
    let rest = geo_unknown_count ss in
    if beq s.entry.country country_unknown then rest + 1 else rest

-- `keptCountries`, read at a country
unfoldable pub kept_countries : List Survivor → Bytes → ℕ
kept_countries [] c = 0
kept_countries (s ∷ ss) c =
    let rest = kept_countries ss c in
    if not (beq s.entry.country []) && not (beq s.entry.country country_unknown)
    then (if beq s.entry.country c then rest + 1 else rest)
    else rest
