-- ===== src/Stable/Probe/Tests.antt =====
-- internal/stable/prober.go: runs of a probe and instances of the theorems.
use sub_preprocessor.Base.{
  ◌==◌, Option, ℕ, ◌≤◌, ◌≡◌, refl, true, false, some, List, [], ◌∷◌, arith, if◌then◌else◌, AllSome,
  Bytes, codes, beq, get_elem?,
}
use mathlib.Core.Option
use sub_preprocessor.Base.Decimal.{all_digits, value_from}
use sub_preprocessor.Netip.{v6, Addr, parse_addr}
use sub_preprocessor.Stable.Probe.Trace.{Traced, TraceOutcome, trace_check}
use sub_preprocessor.Stable.Probe.Trace.Order.{trace_check-Permᴰ}
use mathlib.Core.List.{Permᴰ}
use sub_preprocessor.Base.Dict.{find}
use sub_preprocessor.Netip.{v4}
use sub_preprocessor.Stable.Merge.{Entry}
use sub_preprocessor.Stable.Select.{unknown, passed}
use sub_preprocessor.Stable.Probe.{
  DelayAcc, UrlTest, url_error, other_error, answered, run_rounds, ProbeNode,
}
use sub_preprocessor.Stable.Probe.Rounds.{run_rounds-Permᴰ, run_rounds_bounds, tests_of, Fits}
use sub_preprocessor.Stable.Probe.Api.{Finished, api_check, marker_verdict}
use sub_preprocessor.Stable.Probe.Api.Scheduling.{api_check-Permᴰ}
use sub_preprocessor.Stable.Probe.Precheck.{
  Verdict, verdict_refused, verdict_reachable, filter_reachable,
}
use sub_preprocessor.Stable.Probe.Precheck.Verdicts.{IsSplit, filter_reachable-IsSplit}
use sub_preprocessor.Stable.Probe.Binding.{
  BindTable, precheck_addr, new_binding, join_host_port, pin_key,
}
use sub_preprocessor.Stable.Probe.Binding.Agreement.{dialled, addr_pairs, precheck_addr-agreed}
use sub_preprocessor.Stable.Probe.Binding.Pinned.{agreed, ips_for}
use sub_preprocessor.Subscription.Endpoint.{split_host_port}
use sub_preprocessor.Geoblock.{host_key}

abbrev fresh_acc : DelayAcc
fresh_acc = record { succ_count = 0; delay_sum = 0; acc_stage = unknown }

abbrev round_tests : List (ℕ × UrlTest)
round_tests = (0, answered 120) ∷ (1, other_error) ∷ (0, url_error) ∷ (1, answered 80) ∷ []

abbrev late_tests : List (ℕ × UrlTest)
late_tests = (1, other_error) ∷ (0, answered 120) ∷ (0, url_error) ∷ (1, answered 80) ∷ []

run_rounds-Permᴰ_example :
    run_rounds round_tests (fresh_acc ∷ fresh_acc ∷ [])
    ≡ run_rounds late_tests (fresh_acc ∷ fresh_acc ∷ [])
run_rounds-Permᴰ_example = run_rounds-Permᴰ (Permᴰ.swap refl refl) (fresh_acc ∷ fresh_acc ∷ [])

run_rounds_bounds_example :
    AllSome
      (λ (a : DelayAcc). (a.succ_count ≤ tests_of 1 round_tests) × Fits a)
      (get_elem? (run_rounds round_tests (fresh_acc ∷ fresh_acc ∷ [])) 1)
run_rounds_bounds_example =
    run_rounds_bounds 1 round_tests (fresh_acc ∷ fresh_acc ∷ [])
      (omega arith, (tt, (tt, (omega arith, tt)))) (refl, refl) (omega arith)

abbrev node : Bytes → Bytes → ProbeNode
node label addr = record {
  label = label;
  addr = addr;
  proxy = some label;
  tcp_server = true;
  bound = true;
}

abbrev acc : ℕ → ℕ → DelayAcc
acc n sum = record { succ_count = n; delay_sum = sum; acc_stage = passed }

abbrev positions : List (ProbeNode × DelayAcc)
positions =
    (node (codes "a-001") (codes "h:1"), acc 2 400)
    ∷ (node (codes "b-001") (codes "k:1"), acc 3 900)
    ∷ (node (codes "a-001") (codes "h:2"), acc 3 300)
    ∷ []

abbrev finished : Bytes → ℕ → Finished
finished label status = record {
  label = label;
  host = codes "h";
  response = record { reachable = true; status = status; body = codes "ok"; complete = true };
}

api_check-Permᴰ_example :
    find beq (codes "a-001") (
      api_check
        (marker_verdict (codes "unavailable"))
        (finished (codes "a-001") 200 ∷ finished (codes "a-001") 403 ∷ []))
    ≡ find beq (codes "a-001") (
        api_check
          (marker_verdict (codes "unavailable"))
          (finished (codes "a-001") 403 ∷ finished (codes "a-001") 200 ∷ []))
api_check-Permᴰ_example =
    api_check-Permᴰ (marker_verdict (codes "unavailable")) (λ label. codes "h") (codes "a-001")
      (finished (codes "a-001") 200 ∷ finished (codes "a-001") 403 ∷ [])
      (finished (codes "a-001") 403 ∷ finished (codes "a-001") 200 ∷ []) (Permᴰ.swap refl refl)
      (refl, (refl, tt))

abbrev verdict : Bytes → Verdict
verdict addr = if beq addr (codes "h:1") then verdict_refused else verdict_reachable

abbrev nodes : List ProbeNode
nodes = node (codes "a-001") (codes "h:1") ∷ node (codes "b-001") (codes "k:1") ∷ []

filter_reachable-IsSplit_example : IsSplit verdict nodes (filter_reachable verdict nodes)
filter_reachable-IsSplit_example = filter_reachable-IsSplit verdict nodes

abbrev same_text : Bytes → Bytes
same_text s = s

abbrev entry : Bytes → ℕ → Entry
entry addr ip = record { label = codes "a-001"; raw = []; addr = addr; ip = v4 ip; country = [] }

abbrev entries : List Entry
entries = entry (codes "H:1") 7 ∷ entry (codes "h:1") 7 ∷ entry (codes "k:1") 9 ∷ []

abbrev text_of : Addr → Bytes
text_of (v4 n) = if n == 7 then codes "0.0.0.7" else codes "0.0.0.9"
text_of (v6 n) = codes "::"

abbrev bound_to : List Entry → Option BindTable
bound_to es = some (new_binding same_text (λ host. false) es)

precheck_addr_run :
    (precheck_addr same_text (λ host. false) text_of (bound_to entries) (codes "h") (codes "1")
      ≡ (codes "0.0.0.7:1", true))
    × (precheck_addr same_text (λ host. false) text_of (bound_to entries) (codes "m") (codes "1")
        ≡ (codes "m:1", false))
unfolding precheck_addr new_binding split_host_port host_key
precheck_addr_run = (refl, refl)

precheck_addr-agreed_example :
    precheck_addr same_text (λ host. false) text_of (bound_to entries) (codes "h") (codes "1")
    ≡ dialled same_text
        (λ host. false)
        text_of
        (codes "h")
        (codes "1")
        (agreed (
          ips_for
            (join_host_port (pin_key same_text (λ host. false) (codes "h")) (codes "1"))
            (addr_pairs same_text (λ host. false) entries)))
precheck_addr-agreed_example =
    precheck_addr-agreed same_text (λ host. false) text_of entries (codes "h") (codes "1")

abbrev traced : Bytes → Bytes → Traced
traced addr body = record {
  label = codes "a-001";
  addr = addr;
  name = codes "a";
  response = record { reachable = true; status = 200; body = body; complete = true };
}

abbrev answer_at : Bytes → Bytes → Bytes
answer_at addr name =
    if beq addr (codes "h:1") then codes "ip=1.2.3.4\nloc=DE\n" else codes "loc=XX"

abbrev two_traces : List Traced
two_traces =
    traced (codes "h:1") (answer_at (codes "h:1") (codes "a"))
    ∷ traced (codes "h:2") (answer_at (codes "h:2") (codes "a"))
    ∷ []

abbrev late_traces : List Traced
late_traces =
    traced (codes "h:2") (answer_at (codes "h:2") (codes "a"))
    ∷ traced (codes "h:1") (answer_at (codes "h:1") (codes "a"))
    ∷ []

trace_check-Permᴰ_example :
    find beq (codes "a-001") (trace_check parse_addr two_traces)
    ≡ find beq (codes "a-001") (trace_check parse_addr late_traces)
trace_check-Permᴰ_example =
    trace_check-Permᴰ parse_addr answer_at (codes "a-001") (Permᴰ.swap refl refl) (refl, (refl, tt))

trace_check_run :
    Option.map
      (λ (o : TraceOutcome). o.res.country)
      (find beq (codes "a-001") (trace_check parse_addr late_traces))
    ≡ some (record { hi = b'D'; lo = b'E' })
unfolding trace_check find parse_addr all_digits value_from
trace_check_run = refl
