-- ===== src/Stable/Publish.antt =====
-- `BuildPayload` of internal/stable/select.go: the published list, one line for each survivor. The
-- annotator is a parameter: it is an interface value there.
pub mod Laws
pub mod Lines
use sub_preprocessor.Base.{
  ℕ, zero, suc, ◌+◌, ◌-◌, ◌*◌, ◌/◌, ◌%◌, ◌^◌, ◌≤◌, ◌<◌, max, min, ◌≡◌, refl, sym, ap, ◌∙◌, ◌≢◌, ◌↔◌,
  ◌⊎◌, inl, inr, Bool, true, false, not, ◌&&◌, ◌||◌, Option, none, some, List, [], ◌∷◌, ◌++◌, map,
  arith, ◌>>=◌, ltb, leb, ◌==◌, if◌then◌else◌, leb→le, le→leb, ltb→lt, lt→ltb, ==_iff, tests,
  Bool-cases, Option-cases, AllSome, AllSome-bind, bind-eq-some, some-inj, Bytes, codes, beq,
  beq_iff, beq_refl, has_byte, cut, cut_last, split, is_space, trim_left, trim_right, trim_space,
  starts_with, is_digit, is_upper, is_lower, lower_byte, lower_byte_idem, is_ascii, to_lower,
  length, get_elem?, take, drop, length-append, keep, any, every, All, All-append, All-map, Among,
}
use sub_preprocessor.Base.Decimal.{format}
use sub_preprocessor.Netip.{Addr}
use sub_preprocessor.Filter.{CountryCode}
use sub_preprocessor.Subscription.Node.{Node}
use sub_preprocessor.Stable.Merge.{Entry}
use sub_preprocessor.Stable.Select.{Survivor, Egress}

-- `preprocess.AnnotateRequest`
pub record AnnotateRequest : Type 0 where
  pub node : Node
  pub ip : Addr
  pub egress : Egress
  pub prefix : Bytes

-- the line that an annotator writes, and the country of its first tag
abbrev pub Annotator : Type 0
Annotator = AnnotateRequest → Bytes × CountryCode

-- `annotatedIP`
unfoldable pub annotated_ip : Survivor → Addr
annotated_ip s = elim s.egress.ip [ none ↦ s.entry.ip | some ip ↦ ip ]

-- `speedPrefix`: "[SPD:" mbps "M] "
unfoldable pub speed_prefix : ℕ → Bytes
unfolding format
speed_prefix mbps = if mbps == 0 then [] else codes "[SPD:" ++ format mbps ++ codes "M] "

abbrev pub country_unknown : Bytes
country_unknown = codes "??"

-- the two bytes at `2*i` of the table `countryCodes`
unfoldable pub country_at : ℕ → Bytes
country_at i = (b'A' + i / 26) ∷ (b'A' + i % 26) ∷ []

unfoldable pub country_string : CountryCode → Bytes
unfolding country_at
country_string c =
    if c.hi == 0 && c.lo == 0
    then country_unknown
    else if ltb c.hi b'A' || leb (26 + b'A') c.hi || ltb c.lo b'A' || leb (26 + b'A') c.lo
    then c.hi ∷ c.lo ∷ []
    else country_at ((c.hi - b'A') * 26 + (c.lo - b'A'))

abbrev pub line_of : Bytes → Bytes
line_of raw = raw ++ b'\n' ∷ []

-- the payload without an annotator
unfoldable pub plain_payload : List Survivor → Bytes
plain_payload [] = []
plain_payload (s ∷ ss) = line_of s.entry.raw ++ plain_payload ss

-- What a round writes of what `render` returned: a line that does not parse is written as it stands.
unfoldable pub written : Survivor → Option (Bytes × CountryCode) → Survivor × Bytes
unfolding country_string
written s none = (s, s.entry.raw)
written s (some (line, country)) =
    (record s { entry = record s.entry { country = country_string country } }, line)

module _ (parse_one : Bytes → Option Node) (annotate : Annotator) where
  -- `render`: `none` is a line that does not parse
  unfoldable pub render : Survivor → Option (Bytes × CountryCode)
  unfolding annotated_ip speed_prefix
  render s = parse_one s.entry.raw >>= λ n. some (
      annotate
        (record { node = n; ip = annotated_ip s; egress = s.egress; prefix = speed_prefix s.mbps }))

  -- one round: the survivor with its country, and its line
  unfoldable pub publish_one : Survivor → Survivor × Bytes
  unfolding render written
  publish_one s = let (s', line) = written s (render s) in (s', line_of line)

  unfoldable pub annotated_payload : List Survivor → List Survivor × Bytes
  unfolding publish_one
  annotated_payload [] = ([], [])
  annotated_payload (s ∷ ss) =
      let (s', line) = publish_one s in
      let (rest, out) = annotated_payload ss in (s' ∷ rest, line ++ out)

-- `BuildPayload`; no annotator is `none`
unfoldable pub build_payload :
    (Bytes → Option Node) → Option Annotator → List Survivor → List Survivor × Bytes
unfolding plain_payload annotated_payload
build_payload parse_one none ss = (ss, plain_payload ss)
build_payload parse_one (some annotate) ss = annotated_payload parse_one annotate ss
