-- ===== src/Stable/Probe/Trace.antt =====
-- internal/stable/prober_trace.go: the measured exit of a node. What a request returns is an argument;
-- the proxies are told in the order in which they finish, and those without an answer are left out.
-- `netip.ParseAddr` is a parameter.
pub mod Order
use sub_preprocessor.Base.{
  ℕ, zero, suc, ◌+◌, ◌-◌, ◌*◌, ◌/◌, ◌%◌, ◌^◌, ◌≤◌, ◌<◌, max, min, ◌≡◌, refl, sym, ap, ◌∙◌, ◌≢◌, ◌↔◌,
  ◌⊎◌, inl, inr, Bool, true, false, not, ◌&&◌, ◌||◌, Option, none, some, List, [], ◌∷◌, ◌++◌, map,
  arith, ◌>>=◌, ltb, leb, ◌==◌, if◌then◌else◌, leb→le, le→leb, ltb→lt, lt→ltb, ==_iff, tests,
  Bool-cases, Option-cases, if_either, if_passed, AllSome, AllSome-bind, bind-eq-some, some-inj,
  AllSome-all, AllSome-map, Bytes, codes, beq, beq_iff, beq_refl, has_byte, cut, cut-append,
  cut_last, split, is_space, trim_left, trim_right, trim_space, starts_with, is_digit, is_upper,
  is_lower, lower_byte, lower_byte_idem, is_ascii, to_lower, length, get_elem?, take, drop,
  length-append, keep, any, every, All, All-append, All-map, Among, length-Among,
}
use sub_preprocessor.Netip.{Addr}
use sub_preprocessor.Filter.{CountryCode}
use sub_preprocessor.Stable.Best.{fold_labels}
use sub_preprocessor.Stable.Probe.Api.{ApiResponse}

-- `TraceResult`
pub record TraceResult : Type 0 where
  pub ip : Addr
  pub country : CountryCode

-- `upperLetter`
unfoldable pub upper_letter : ℕ → Bool
upper_letter c = leb b'A' c && leb c b'Z'

-- `validCountry`
unfoldable pub valid_country : Bytes → Bool
unfolding upper_letter beq
valid_country [] = false
valid_country (a ∷ []) = false
valid_country (a ∷ b ∷ []) =
    upper_letter a && (upper_letter b && not (beq (a ∷ b ∷ []) (codes "XX")))
valid_country (a ∷ b ∷ c ∷ rest) = false

-- what a line of the body sets: the texts of ip and of loc
abbrev pub Fields : Type 0
Fields = Bytes × Bytes

abbrev pub set_field : Option (Bytes × Bytes) → Fields → Fields
set_field none f = f
set_field (some (key, value)) (ip, loc) =
    if beq value []
    then (ip, loc)
    else if beq key (codes "ip")
    then (value, loc)
    else if beq key (codes "loc")
    then (ip, value)
    else (ip, loc)

-- the loop of `parseTrace`
unfoldable pub read_lines : List Bytes → Fields → Fields
unfolding cut trim_space
read_lines [] f = f
read_lines (line ∷ ls) f = read_lines ls (set_field (cut b'=' (trim_space line)) f)

abbrev pub country_of : Bytes → CountryCode
country_of [] = record { hi = 0; lo = 0 }
country_of (a ∷ []) = record { hi = 0; lo = 0 }
country_of (a ∷ b ∷ rest) = record { hi = a; lo = b }

-- `parseTrace`
unfoldable pub parse_trace : (Bytes → Option Addr) → Bytes → Option TraceResult
unfolding read_lines split valid_country
parse_trace parse_addr body =
    let (ip, loc) = read_lines (split b'\n' body) ([], []) in
    parse_addr ip >>= λ addr.
    if not (valid_country loc) then none else some (record { ip = addr; country = country_of loc })

-- `traceOutcome`
pub record TraceOutcome : Type 0 where
  pub addr : Bytes
  pub name : Bytes
  pub res : TraceResult

-- `<` on strings
unfoldable pub text_less : Bytes → Bytes → Bool
text_less [] [] = false
text_less [] (y ∷ ys) = true
text_less (x ∷ xs) [] = false
text_less (x ∷ xs) (y ∷ ys) = let rest = text_less xs ys in ltb x y || (x == y && rest)

-- `betterTraceOutcome`
unfoldable pub better_trace_outcome : TraceOutcome → TraceOutcome → Bool
unfolding text_less beq
better_trace_outcome a b =
    if not (beq a.addr b.addr) then text_less a.addr b.addr else text_less a.name b.name

-- a proxy that finished: its label, its identity and what came back
pub record Traced : Type 0 where
  pub label : Bytes
  pub addr : Bytes
  pub name : Bytes
  pub response : ApiResponse

abbrev pub is_answer : ApiResponse → Bool
is_answer r = r.reachable && (not (ltb r.status 200 || leb 300 r.status) && r.complete)

-- the outcome of a proxy, if its trace is an answer
unfoldable pub trace_of : (Bytes → Option Addr) → Traced → Option (Bytes × TraceOutcome)
unfolding parse_trace
trace_of parse_addr t = parse_trace parse_addr t.response.body >>= λ res.
    if not (is_answer t.response)
    then none
    else some (t.label, record { addr = t.addr; name = t.name; res = res })

abbrev pub prepend :
    Option (Bytes × TraceOutcome) → List (Bytes × TraceOutcome) → List (Bytes × TraceOutcome)
prepend none rest = rest
prepend (some o) rest = o ∷ rest

unfoldable pub answered_traces : (Bytes → Option Addr) → List Traced → List (Bytes × TraceOutcome)
unfolding trace_of
answered_traces parse_addr [] = []
answered_traces parse_addr (t ∷ ts) =
    prepend (trace_of parse_addr t) (answered_traces parse_addr ts)

-- `TraceCheck`: the winners by label
unfoldable pub trace_check : (Bytes → Option Addr) → List Traced → List (Bytes × TraceOutcome)
unfolding fold_labels better_trace_outcome answered_traces
trace_check parse_addr traced =
    fold_labels better_trace_outcome (answered_traces parse_addr traced) []
