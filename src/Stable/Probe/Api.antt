-- ===== src/Stable/Probe/Api.antt =====
-- The checks through the nodes: internal/stable/prober_api.go, prober_bandwidth.go and the
-- classifiers of prober_claude.go, prober_chatgpt.go, prober_tidal.go, prober_gemini.go and
-- prober_deepl.go. What a request returns is an argument; the proxies are told in the order in which
-- they finish, those that a cancellation kept from being asked left out.
pub mod Scheduling
use sub_preprocessor.Base.{
  ℕ, zero, suc, ◌+◌, ◌-◌, ◌*◌, ◌/◌, ◌%◌, ◌^◌, ◌≤◌, ◌<◌, max, min, ◌≡◌, refl, sym, ap, ◌∙◌, ◌≢◌, ◌↔◌,
  ◌⊎◌, inl, inr, Bool, true, false, not, ◌&&◌, ◌||◌, Option, none, some, List, [], ◌∷◌, ◌++◌, map,
  arith, ◌>>=◌, ltb, leb, ◌==◌, if◌then◌else◌, leb→le, le→leb, ltb→lt, lt→ltb, ==_iff, tests,
  Bool-cases, Option-cases, if_either, if_passed, AllSome, AllSome-bind, bind-eq-some, some-inj,
  AllSome-all, AllSome-map, Bytes, codes, beq, beq_iff, beq_refl, has_byte, cut, cut-append,
  cut_last, split, is_space, trim_left, trim_right, trim_space, starts_with, is_digit, is_upper,
  is_lower, lower_byte, lower_byte_idem, is_ascii, to_lower, length, get_elem?, take, drop,
  length-append, keep, any, every, All, All-append, All-map, Among, length-Among,
}
use sub_preprocessor.Stable.Best.{fold_labels}
use sub_preprocessor.Stable.Gate.{ApiOutcome}
use sub_preprocessor.Stable.Gate.Speed.{BandwidthOutcome}

pub data ApiVerdict : Type 0 where
  api_unverified api_accepted api_blocked : ApiVerdict

-- the ranks, from `apiRankUnreachable` to `apiRankPassed`
unfoldable pub api_outcome_rank : ApiOutcome → ℕ
api_outcome_rank o =
    if o.reachable && (not o.blocked && o.verified)
    then 3
    else if o.blocked
    then 2
    else if o.reachable
    then 1
    else 0

unfoldable pub better_api_outcome : ApiOutcome → ApiOutcome → Bool
unfolding api_outcome_rank
better_api_outcome a b = ltb (api_outcome_rank b) (api_outcome_rank a)

-- what `apiProbeOne` returns
pub record ApiResponse : Type 0 where
  pub reachable : Bool
  pub status : ℕ
  pub body : Bytes
  pub complete : Bool

abbrev pub Classifier : Type 0
Classifier = ℕ → Bytes → Bool → ApiVerdict

-- the outcome of one proxy in `apiCheck`
abbrev pub outcome_of : Bytes → Bool → ApiVerdict → ApiOutcome
outcome_of host false verdict = record {
  server = host;
  reachable = false;
  blocked = false;
  verified = false;
}
outcome_of host true api_blocked = record {
  server = host;
  reachable = true;
  blocked = true;
  verified = true;
}
outcome_of host true api_accepted = record {
  server = host;
  reachable = true;
  blocked = false;
  verified = true;
}
outcome_of host true api_unverified = record {
  server = host;
  reachable = true;
  blocked = false;
  verified = false;
}

-- a proxy that finished: its label, its host and what came back
pub record Finished : Type 0 where
  pub label : Bytes
  pub host : Bytes
  pub response : ApiResponse

unfoldable pub classified : Classifier → Finished → Bytes × ApiOutcome
classified classify f =
    let r = f.response in
    (f.label, outcome_of f.host r.reachable (classify r.status r.body r.complete))

-- `apiCheck`: the outcomes by label
unfoldable pub api_check : Classifier → List Finished → List (Bytes × ApiOutcome)
unfolding fold_labels better_api_outcome classified
api_check classify finished = fold_labels better_api_outcome (map (classified classify) finished) []

-- `strings.Contains`
unfoldable pub contains : Bytes → Bytes → Bool
unfolding starts_with
contains [] sub = starts_with sub []
contains (c ∷ s) sub = starts_with sub (c ∷ s) || contains s sub

unfoldable pub marker_blocked : Bytes → Bytes → Bool
unfolding contains beq
marker_blocked body marker = not (beq marker []) && contains body marker

-- the classifier of claude and chatgpt
unfoldable pub marker_verdict : Bytes → Classifier
unfolding marker_blocked
marker_verdict marker status body complete =
    if marker_blocked body marker
    then api_blocked
    else if not complete
    then api_unverified
    else api_accepted

unfoldable pub tidal_blocked : ℕ → Bool
tidal_blocked status = ltb status 200 || leb 300 status

unfoldable pub tidal_verdict : Classifier
unfolding tidal_blocked
tidal_verdict status body complete = if tidal_blocked status then api_blocked else api_accepted

unfoldable pub gemini_inconclusive : ℕ → Bytes → Bytes → Bool
unfolding marker_blocked
gemini_inconclusive status body marker =
    if leb 200 status && ltb status 300
    then false
    else if (status == 400) && marker_blocked body marker
    then false
    else true

unfoldable pub gemini_verdict : Bytes → Classifier
unfolding marker_blocked gemini_inconclusive
gemini_verdict marker status body complete =
    if marker_blocked body marker
    then api_blocked
    else if not complete || gemini_inconclusive status body marker
    then api_unverified
    else api_accepted

unfoldable pub deepl_verdict : ℕ → ApiVerdict
deepl_verdict status =
    if status == 451
    then api_blocked
    else if leb 200 status && ltb status 300
    then api_accepted
    else api_unverified

abbrev pub is_blocked : ApiVerdict → Bool
is_blocked api_blocked = true
is_blocked api_accepted = false
is_blocked api_unverified = false

abbrev pub is_accepted : ApiVerdict → Bool
is_accepted api_blocked = false
is_accepted api_accepted = true
is_accepted api_unverified = false

-- One worker of `DeeplCheck`: the answer over TCP, and the one over UDP, which is not asked for if
-- the first is a refusal. An answer is whether it came and its status, 0 if not.
unfoldable pub deepl_outcome : Bytes → Bool × ℕ → Bool × ℕ → ApiOutcome
unfolding deepl_verdict
deepl_outcome host tcp udp =
    let tcp_verdict = deepl_verdict tcp.1 in
    let udp' : Bool × ℕ = if is_blocked tcp_verdict then (false, 0) else udp in
    let udp_verdict = deepl_verdict udp'.1 in
    let blocked = is_blocked tcp_verdict || is_blocked udp_verdict in
    record {
      server = host;
      reachable = tcp.0 || udp'.0;
      blocked = blocked;
      verified = blocked || (is_accepted tcp_verdict && is_accepted udp_verdict);
    }

-- `betterBandwidthOutcome`
unfoldable pub better_bandwidth_outcome : BandwidthOutcome → BandwidthOutcome → Bool
better_bandwidth_outcome a b =
    if a.reachable && not b.reachable
    then true
    else if not a.reachable && b.reachable
    then false
    else ltb b.mbps a.mbps

-- A proxy that `bandwidthProbeOne` finished with: its label, its host and the measured speed, if the
-- transfer is a measurement.
pub record Transfer : Type 0 where
  pub label : Bytes
  pub host : Bytes
  pub speed : Option ℕ

abbrev pub bandwidth_of : Bytes → Option ℕ → BandwidthOutcome
bandwidth_of host none = record { server = host; reachable = false; mbps = 0 }
bandwidth_of host (some mbps) = record { server = host; reachable = true; mbps = mbps }

unfoldable pub transferred : Transfer → Bytes × BandwidthOutcome
transferred t = (t.label, bandwidth_of t.host t.speed)

-- `BandwidthCheck`
unfoldable pub bandwidth_check : List Transfer → List (Bytes × BandwidthOutcome)
unfolding fold_labels better_bandwidth_outcome transferred
bandwidth_check transfers = fold_labels better_bandwidth_outcome (map transferred transfers) []
