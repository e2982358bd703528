-- ===== src/Stable/Probe/Precheck.antt =====
-- The TCP pre-check of internal/stable/prober.go: which endpoints it dials, and which positions its
-- verdicts condemn. The dials of an endpoint are an argument.
pub mod Endpoints
pub mod Places
pub mod Condemned
pub mod Verdicts
use sub_preprocessor.Base.{
  ℕ, zero, suc, ◌+◌, ◌-◌, ◌*◌, ◌/◌, ◌%◌, ◌^◌, ◌≤◌, ◌<◌, max, min, ◌≡◌, refl, sym, ap, ◌∙◌, ◌≢◌, ◌↔◌,
  ◌⊎◌, inl, inr, Bool, true, false, not, ◌&&◌, ◌||◌, Option, none, some, List, [], ◌∷◌, ◌++◌, map,
  arith, ◌>>=◌, ltb, leb, ◌==◌, if◌then◌else◌, leb→le, le→leb, ltb→lt, lt→ltb, ==_iff, tests,
  Bool-cases, Option-cases, if_either, if_passed, AllSome, AllSome-bind, bind-eq-some, some-inj,
  AllSome-all, AllSome-map, Bytes, codes, beq, beq_iff, beq_refl, has_byte, cut, cut-append,
  cut_last, split, is_space, trim_left, trim_right, trim_space, starts_with, is_digit, is_upper,
  is_lower, lower_byte, lower_byte_idem, is_ascii, to_lower, length, get_elem?, take, drop,
  length-append, keep, any, every, All, All-append, All-map, Among, length-Among,
}
use sub_preprocessor.Stable.Gate.{breaker_trips}
use sub_preprocessor.Stable.Merge.{seen_key}
use sub_preprocessor.Stable.Probe.{ProbeNode}
use sub_preprocessor.Stable.Cycle.Death.{PrecheckReport, precheck_ran, precheck_tripped}

pub data Verdict : Type 0 where
  verdict_unresolved verdict_refused verdict_reachable : Verdict

-- one attempt of `reachableTCP`, and whether the context is done after it
pub data Dial : Type 0 where
  connected dns_error dial_error : Dial

abbrev pub is_connected : Dial → Bool
is_connected connected = true
is_connected dns_error = false
is_connected dial_error = false

abbrev pub is_dial_error : Dial → Bool
is_dial_error connected = false
is_dial_error dns_error = false
is_dial_error dial_error = true

-- the loop of `reachableTCP` with `left` attempts left, the `i`-th being next
unfoldable pub dial_loop : (ℕ → Dial) → (ℕ → Bool) → ℕ → ℕ → Verdict → Verdict
dial_loop dial done zero i verdict = verdict
dial_loop dial done (suc left) i verdict = elim (dial i) [
  | connected ↦ verdict_reachable
  | dns_error ↦
      let rest = dial_loop dial done left (i + 1) verdict_unresolved in
      if done i then verdict_unresolved else rest
  | dial_error ↦
      let rest = dial_loop dial done left (i + 1) verdict_refused in
      if done i then verdict_unresolved else rest
]

abbrev pub precheck_attempts : ℕ
precheck_attempts = 2

-- `reachableTCP`
unfoldable pub reachable_tcp : (ℕ → Dial) → (ℕ → Bool) → Verdict
unfolding dial_loop
reachable_tcp dial done = dial_loop dial done precheck_attempts 0 verdict_refused

-- `precheckDialBudget`
unfoldable pub precheck_dial_budget : ℕ → ℕ
precheck_dial_budget timeout = timeout / precheck_attempts

-- the distinct endpoints, in the order of their first positions
unfoldable pub add_endpoint : ProbeNode → List Bytes → List Bytes
unfolding seen_key
add_endpoint n addrs =
    if not n.tcp_server
    then addrs
    else if seen_key n.addr addrs
    then addrs
    else addrs ++ n.addr ∷ []

unfoldable pub endpoints_from : List Bytes → List ProbeNode → List Bytes
unfolding add_endpoint
endpoints_from addrs [] = addrs
endpoints_from addrs (n ∷ nodes) = endpoints_from (add_endpoint n addrs) nodes

abbrev pub is_refused : Verdict → Bool
is_refused verdict_refused = true
is_refused verdict_unresolved = false
is_refused verdict_reachable = false

abbrev pub is_unresolved : Verdict → Bool
is_unresolved verdict_refused = false
is_unresolved verdict_unresolved = true
is_unresolved verdict_reachable = false

-- `(refused, unresolved)`
unfoldable pub count_verdicts : (Bytes → Verdict) → List Bytes → ℕ × ℕ
count_verdicts verdict [] = (0, 0)
count_verdicts verdict (addr ∷ addrs) =
    let (refused, unresolved) = count_verdicts verdict addrs in
    elim (verdict addr) [
      | verdict_refused ↦ (refused + 1, unresolved)
      | verdict_unresolved ↦ (refused, unresolved + 1)
      | verdict_reachable ↦ (refused, unresolved)
    ]

-- `allPositions`, from the `i`-th on
unfoldable pub positions_from : ℕ → List ProbeNode → List ℕ
positions_from i [] = []
positions_from i (n ∷ nodes) = i ∷ positions_from (i + 1) nodes

abbrev pub is_condemned : (Bytes → Verdict) → ProbeNode → Bool
is_condemned verdict n = n.tcp_server && is_refused (verdict n.addr)

-- the last loop of `filterReachable`: (live, condemned)
unfoldable pub split_positions : (Bytes → Verdict) → ℕ → List ProbeNode → List ℕ × List ℕ
split_positions verdict i [] = ([], [])
split_positions verdict i (n ∷ nodes) =
    let (live, condemned) = split_positions verdict (i + 1) nodes in
    if is_condemned verdict n then (live, i ∷ condemned) else (i ∷ live, condemned)

pub record Prechecked : Type 0 where
  pub live : List ℕ
  pub condemned : List ℕ
  pub report : PrecheckReport

-- `filterReachable`
unfoldable pub filter_reachable : (Bytes → Verdict) → List ProbeNode → Prechecked
unfolding endpoints_from count_verdicts positions_from split_positions breaker_trips
filter_reachable verdict nodes =
    let addrs = endpoints_from [] nodes in
    let (refused, unresolved) = count_verdicts verdict addrs in
    let decided = length addrs - unresolved in
    let (live, condemned) = split_positions verdict 0 nodes in
    let ran : PrecheckReport = record {
      precheck_state = precheck_ran;
      dialled = length addrs;
      refused_endpoints = refused;
      unresolved = unresolved;
    } in
    if length addrs == 0
    then record { live = positions_from 0 nodes; condemned = []; report = ran }
    else if breaker_trips refused decided
    then record {
      live = positions_from 0 nodes;
      condemned = [];
      report = record ran { precheck_state = precheck_tripped };
    }
    else record { live = live; condemned = condemned; report = ran }
