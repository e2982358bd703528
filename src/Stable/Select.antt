-- ===== src/Stable/Select.antt =====
-- internal/stable/select.go: the survivors of the probe.
pub mod Laws
use sub_preprocessor.Base.{
  ℕ, zero, suc, ◌+◌, ◌-◌, ◌*◌, ◌/◌, ◌%◌, ◌^◌, ◌≤◌, ◌<◌, max, min, ◌≡◌, refl, sym, ap, ◌∙◌, ◌≢◌, ◌↔◌,
  ◌⊎◌, inl, inr, Bool, true, false, not, ◌&&◌, ◌||◌, Option, none, some, List, [], ◌∷◌, ◌++◌, map,
  arith, ◌>>=◌, ltb, leb, ◌==◌, if◌then◌else◌, leb→le, le→leb, ltb→lt, lt→ltb, ==_iff, tests,
  Bool-cases, Option-cases, AllSome, AllSome-bind, bind-eq-some, some-inj, Bytes, codes, beq,
  beq_iff, beq_refl, has_byte, cut, cut_last, split, is_space, trim_left, trim_right, trim_space,
  starts_with, is_digit, is_upper, is_lower, lower_byte, lower_byte_idem, is_ascii, to_lower,
  length, get_elem?, take, drop, length-append, keep, any, every, All, All-append, All-map, Among,
}
use sub_preprocessor.Base.Sort.{sort}
use sub_preprocessor.Netip.{Addr}
use sub_preprocessor.Filter.{CountryCode}
use sub_preprocessor.Stable.Merge.{Entry}

pub data ProbeStage : Type 0 where
  unknown condemned connect fetch passed : ProbeStage

unfoldable pub stage_name : ProbeStage → Bytes
stage_name condemned = codes "condemned"
stage_name connect = codes "connect"
stage_name fetch = codes "fetch"
stage_name passed = codes "passed"
stage_name unknown = codes "unknown"

pub record ProbeResult : Type 0 where
  pub successes : ℕ
  pub mean_ms : ℕ
  pub stage : ProbeStage
  pub unbound : Bool

-- `preprocess.Egress`; `none` is the invalid address of a trace that did not answer
pub record Egress : Type 0 where
  pub ip : Option Addr
  pub country : CountryCode

pub record Survivor : Type 0 where
  pub entry : Entry
  pub mean_ms : ℕ
  pub mbps : ℕ
  pub egress : Egress

abbrev pub no_egress : Egress
no_egress = record { ip = none; country = record { hi = 0; lo = 0 } }

-- the two tests on a result: too many failed rounds, or too slow
unfoldable pub within_limits : ProbeResult → ℕ → ℕ → ℕ → Bool
within_limits r rounds max_fail max_avg_ms =
    if ltb max_fail (rounds - r.successes) || ltb max_avg_ms r.mean_ms then false else true

abbrev pub survivor_of : Entry → ProbeResult → Survivor
survivor_of e r = record { entry = e; mean_ms = r.mean_ms; mbps = 0; egress = no_egress }

-- the loop over the entries; the results are a map from labels
unfoldable pub pick : List Entry → (Bytes → Option ProbeResult) → ℕ → ℕ → ℕ → List Survivor
unfolding within_limits
pick [] res rounds max_fail max_avg_ms = []
pick (e ∷ es) res rounds max_fail max_avg_ms =
    let rest = pick es res rounds max_fail max_avg_ms in
    elim (res e.label) [
      | none ↦ rest
      | some r ↦ if within_limits r rounds max_fail max_avg_ms then survivor_of e r ∷ rest else rest
    ]

abbrev pub mean_leq : Survivor → Survivor → Bool
mean_leq a b = leb a.mean_ms b.mean_ms

unfoldable pub select_survivors :
    List Entry → (Bytes → Option ProbeResult) → ℕ → ℕ → ℕ → List Survivor
unfolding pick
select_survivors entries res rounds max_fail max_avg_ms =
    sort mean_leq (pick entries res rounds max_fail max_avg_ms)
