-- ===== src/Stable/Cycle/Death.antt =====
-- `filterDead`, `recordDead` and `pruneCaches` of internal/stable/checker.go: the dead cache around
-- the probe. Each call of the cache reads the clock and the random jitter again: they are functions
-- of the number of calls before it. No cache is `none`.
pub mod Verdicts
use sub_preprocessor.Base.{
  ℕ, zero, suc, ◌+◌, ◌-◌, ◌*◌, ◌/◌, ◌%◌, ◌^◌, ◌≤◌, ◌<◌, max, min, ◌≡◌, refl, sym, ap, ◌∙◌, ◌≢◌, ◌↔◌,
  ◌⊎◌, inl, inr, Bool, true, false, not, ◌&&◌, ◌||◌, Option, none, some, List, [], ◌∷◌, ◌++◌, map,
  arith, ◌>>=◌, ltb, leb, ◌==◌, if◌then◌else◌, leb→le, le→leb, ltb→lt, lt→ltb, ==_iff, tests,
  Bool-cases, Option-cases, AllSome, AllSome-bind, bind-eq-some, some-inj, AllSome-all, AllSome-map,
  Bytes, codes, beq, beq_iff, beq_refl, has_byte, cut, cut-append, cut_last, split, is_space,
  trim_left, trim_right, trim_space, starts_with, is_digit, is_upper, is_lower, lower_byte,
  lower_byte_idem, is_ascii, to_lower, length, get_elem?, take, drop, length-append, keep, any,
  every, All, All-append, All-map, Among,
}
use sub_preprocessor.Netip.{Addr}
use sub_preprocessor.Stable.Merge.{Entry}
use sub_preprocessor.Stable.Select.{ProbeResult}
use sub_preprocessor.Stable.Dead.{DeadSet, is_dead, mark, prune}

abbrev pub dead_in : Option DeadSet → ℕ → Entry → Bool
dead_in none now e = false
dead_in (some d) now e = is_dead now e.addr e.ip d

-- the loop of `filterDead`: the entries to probe, and how many are skipped
unfoldable pub sift_dead : (ℕ → ℕ) → Option DeadSet → ℕ → List Entry → List Entry × ℕ
sift_dead clock dead i [] = ([], 0)
sift_dead clock dead i (e ∷ es) =
    let (probe, skipped) = sift_dead clock dead (i + 1) es in
    if dead_in dead (clock i) e then (probe, skipped + 1) else (e ∷ probe, skipped)

-- `filterDead`; the last part says whether something is left to probe
unfoldable pub filter_dead : (ℕ → ℕ) → Option DeadSet → List Entry → List Entry × (ℕ × Bool)
unfolding sift_dead
filter_dead clock dead entries =
    let (probe, skipped) = sift_dead clock dead 0 entries in
    if length probe == 0 then ([], (skipped, false)) else (probe, (skipped, true))

pub data RefusalState : Type 0 where
  refusal_absent refusal_ran : RefusalState

pub record RefusalReport : Type 0 where
  pub refusal_state : RefusalState
  pub unparsable : ℕ
  pub unconvertible : ℕ
  -- the labels in `refused`
  pub refused : Bytes → Bool

pub data PrecheckState : Type 0 where
  precheck_absent precheck_tripped precheck_ran : PrecheckState

pub record PrecheckReport : Type 0 where
  pub precheck_state : PrecheckState
  pub dialled : ℕ
  pub refused_endpoints : ℕ
  pub unresolved : ℕ

-- what the loop of `recordDead` does with a probed entry, by its result
abbrev pub proved_dead : RefusalState → Option ProbeResult → Bool
proved_dead refusal_ran none = false
proved_dead refusal_absent none = true
proved_dead state (some r) = r.successes == 0 && not r.unbound

-- the loop of `recordDead`, after `i` calls of `Block`
unfoldable pub mark_all :
    (ℕ → ℕ)
    → (ℕ → ℕ)
    → RefusalState
    → (Bytes → Option ProbeResult)
    → ℕ
    → List Entry
    → DeadSet
    → DeadSet
mark_all clock jitter state res i [] d = d
mark_all clock jitter state res i (e ∷ es) d =
    let dies = proved_dead state (res e.label) in
    mark_all clock jitter state res (if dies then i + 1 else i) es
      (if dies then mark (jitter i) (clock i) e.addr e.ip d else d)

-- `recordDead`
unfoldable pub record_dead :
    (ℕ → ℕ)
    → (ℕ → ℕ)
    → List Entry
    → (Bytes → Option ProbeResult)
    → RefusalState
    → PrecheckState
    → Option DeadSet
    → Option DeadSet
unfolding mark_all
record_dead clock jitter probe res refusals precheck none = none
record_dead clock jitter probe res refusals precheck_tripped (some d) = some d
record_dead clock jitter probe res refusals precheck_absent (some d) =
    some (mark_all clock jitter refusals res 0 probe d)
record_dead clock jitter probe res refusals precheck_ran (some d) =
    some (mark_all clock jitter refusals res 0 probe d)
