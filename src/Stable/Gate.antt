-- ===== src/Stable/Gate.antt =====
-- internal/stable/nodefilter.go, with the breaker of internal/stable/prober.go: the through-node
-- filters. The check through the proxies is a parameter: its outcomes are a map from labels, with
-- the zero outcome for a label it does not have. Writes to the geoblock store are returned.
pub mod Speed
pub mod Counts
pub mod Chain
pub mod ChainLaws
pub mod Api
pub mod Bandwidth
pub mod Tests
use sub_preprocessor.Base.{
  ℕ, zero, suc, ◌+◌, ◌-◌, ◌*◌, ◌/◌, ◌%◌, ◌^◌, ◌≤◌, ◌<◌, max, min, ◌≡◌, refl, sym, ap, ◌∙◌, ◌≢◌, ◌↔◌,
  ◌⊎◌, inl, inr, Bool, true, false, not, ◌&&◌, ◌||◌, Option, none, some, List, [], ◌∷◌, ◌++◌, map,
  arith, ◌>>=◌, ltb, leb, ◌==◌, if◌then◌else◌, leb→le, le→leb, ltb→lt, lt→ltb, ==_iff, tests,
  Bool-cases, Option-cases, AllSome, AllSome-bind, bind-eq-some, some-inj, Bytes, codes, beq,
  beq_iff, beq_refl, has_byte, cut, cut_last, split, is_space, trim_left, trim_right, trim_space,
  starts_with, is_digit, is_upper, is_lower, lower_byte, lower_byte_idem, is_ascii, to_lower,
  length, get_elem?, take, drop, length-append, keep, any, every, All, All-append, All-map, Among,
}
use sub_preprocessor.Stable.Select.{Survivor}

pub record ApiOutcome : Type 0 where
  pub server : Bytes
  pub reachable : Bool
  pub blocked : Bool
  pub verified : Bool

pub data FilterState : Type 0 where
  absent tripped ran : FilterState

pub record FilterCoverage : Type 0 where
  pub verified : ℕ
  pub unverified : ℕ
  pub measured : Bool

pub record FilterReport : Type 0 where
  pub name : Bytes
  pub entered : ℕ
  pub kept : ℕ
  pub dropped : List (Bytes × ℕ)
  pub state : FilterState
  pub coverage : FilterCoverage

abbrev pub no_coverage : FilterCoverage
no_coverage = record { verified = 0; unverified = 0; measured = false }

abbrev pub precheck_breaker_percent : ℕ
precheck_breaker_percent = 95

abbrev pub precheck_breaker_min : ℕ
precheck_breaker_min = 100

-- `breakerTrips`
unfoldable pub breaker_trips : ℕ → ℕ → Bool
breaker_trips blocked total =
    (blocked == total && ltb 0 total)
    || (leb precheck_breaker_min total && leb (total * precheck_breaker_percent) (blocked * 100))

abbrev pub drop_blocked : Bytes
drop_blocked = codes "blocked"

abbrev pub drop_unreachable : Bytes
drop_unreachable = codes "unreachable"

abbrev pub drop_unverified : Bytes
drop_unverified = codes "unverified"

abbrev pub drop_slow : Bytes
drop_slow = codes "slow"

-- the report that `apply` starts from
abbrev pub fresh_report : Bytes → List Survivor → FilterReport
fresh_report name survivors = record {
  name = name;
  entered = length survivors;
  kept = length survivors;
  dropped = [];
  state = absent;
  coverage = no_coverage;
}

pub record Tally : Type 0 where
  pub blocked : ℕ
  pub unreachable : ℕ
  pub unverified : ℕ
  pub verified : ℕ

-- the counting switch of `apply`
unfoldable pub count_one : ApiOutcome → Tally → Tally
count_one o t =
    if o.blocked
    then record t { blocked = t.blocked + 1; verified = t.verified + 1 }
    else if not o.reachable
    then record t { unreachable = t.unreachable + 1 }
    else if o.verified
    then record t { verified = t.verified + 1 }
    else record t { unverified = t.unverified + 1 }

abbrev pub Outcomes : Type 0
Outcomes = Bytes → ApiOutcome

unfoldable pub tally : Outcomes → List Survivor → Tally
unfolding count_one
tally outcomes [] = record { blocked = 0; unreachable = 0; unverified = 0; verified = 0 }
tally outcomes (s ∷ ss) = count_one (outcomes s.entry.label) (tally outcomes ss)

pub record ApiFilter : Type 0 where
  pub filter_name : Bytes
  pub require_verified : Bool
  -- `f.enabled != nil && !f.enabled()` is `disabled`
  pub disabled : Bool
  pub has_store : Bool

-- the last test of `keepOutcomes`
abbrev pub passes : ApiFilter → ApiOutcome → Bool
passes f o = not o.blocked && (o.reachable && (o.verified || not f.require_verified))

-- `keepOutcomes`: the survivors kept, and the hosts given to the store. `live` says of a label that
-- the context is not cancelled when its round is made.
unfoldable pub keep_outcomes :
    ApiFilter → Outcomes → Bool → (Bytes → Bool) → List Survivor → List Survivor × List Bytes
keep_outcomes f outcomes trusted live [] = ([], [])
keep_outcomes f outcomes trusted live (s ∷ ss) =
    let (kept, hosts) = keep_outcomes f outcomes trusted live ss in
    let o = outcomes s.entry.label in
    if o.blocked
    then (kept, if f.has_store && trusted && live s.entry.label then o.server ∷ hosts else hosts)
    else if o.reachable && (o.verified || not f.require_verified)
    then (s ∷ kept, hosts)
    else (kept, hosts)

pub record Applied : Type 0 where
  pub kept : List Survivor
  pub report : FilterReport
  pub hosts : List Bytes

-- `failed`
abbrev pub failed_of : ApiFilter → Tally → ℕ
failed_of f t =
    let failed = t.blocked + t.unreachable in
    if f.require_verified then failed + t.unverified else failed

abbrev pub coverage_of : Tally → FilterCoverage
coverage_of t = record { verified = t.verified; unverified = t.unverified; measured = true }

-- the end of `apply`, on the verdicts that are believed, or strict
unfoldable pub enact :
    ApiFilter → Outcomes → Bool → (Bytes → Bool) → Tally → List Survivor → Applied
unfolding keep_outcomes
enact f outcomes trips live t survivors =
    let (kept, hosts) = keep_outcomes f outcomes (not trips) live survivors in
    let strict = f.require_verified in
    record {
      kept = kept;
      report = record (fresh_report f.filter_name survivors) {
        kept = length kept;
        dropped =
            (drop_blocked, t.blocked)
            ∷ (drop_unreachable, t.unreachable)
            ∷ (if strict then (drop_unverified, t.unverified) ∷ [] else []);
        state = if strict && trips then tripped else ran;
        coverage = coverage_of t;
      };
      hosts = hosts;
    }

-- a disbelieved batch of a filter that is not strict
abbrev pub spare : ApiFilter → Tally → List Survivor → Applied
spare f t survivors = record {
  kept = survivors;
  report = record (fresh_report f.filter_name survivors) {
    dropped = (drop_blocked, 0) ∷ (drop_unreachable, 0) ∷ [];
    state = tripped;
    coverage = coverage_of t;
  };
  hosts = [];
}

abbrev pub untouched : Bytes → List Survivor → Applied
untouched name survivors = record {
  kept = survivors;
  report = fresh_report name survivors;
  hosts = [];
}

-- `apiFilter.apply`; `cancelled` is the context after the check
unfoldable pub apply_api : ApiFilter → Outcomes → Bool → (Bytes → Bool) → List Survivor → Applied
unfolding enact tally breaker_trips
apply_api f outcomes cancelled live survivors =
    let t = tally outcomes survivors in
    let trips = breaker_trips (failed_of f t) (length survivors) in
    if f.disabled
    then untouched f.filter_name survivors
    else if cancelled && not f.require_verified
    then untouched f.filter_name survivors
    else if trips && not f.require_verified
    then spare f t survivors
    else enact f outcomes trips live t survivors
