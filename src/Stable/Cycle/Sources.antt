-- ===== src/Stable/Cycle/Sources.antt =====
-- `fetchSources` of internal/stable/checker.go. The sources are fetched concurrently into one slot
-- each, so their answers are an argument: `answer i` is what `FilterNodes` returned for the `i`-th.
pub mod Names
pub mod Vouched
use sub_preprocessor.Base.{
  ℕ, zero, suc, ◌+◌, ◌-◌, ◌*◌, ◌/◌, ◌%◌, ◌^◌, ◌≤◌, ◌<◌, max, min, ◌≡◌, refl, sym, ap, ◌∙◌, ◌≢◌, ◌↔◌,
  ◌⊎◌, inl, inr, Bool, true, false, not, ◌&&◌, ◌||◌, Option, none, some, List, [], ◌∷◌, ◌++◌, map,
  arith, ◌>>=◌, ltb, leb, ◌==◌, if◌then◌else◌, leb→le, le→leb, ltb→lt, lt→ltb, ==_iff, tests,
  Bool-cases, Option-cases, AllSome, AllSome-bind, bind-eq-some, some-inj, AllSome-all, AllSome-map,
  Bytes, codes, beq, beq_iff, beq_refl, has_byte, cut, cut-append, cut_last, split, is_space,
  trim_left, trim_right, trim_space, starts_with, is_digit, is_upper, is_lower, lower_byte,
  lower_byte_idem, is_ascii, to_lower, length, get_elem?, take, drop, length-append, keep, any,
  every, All, All-append, All-map, Among,
}
use sub_preprocessor.Preprocess.{NodeResult, FilterRequest, DropStats}
use sub_preprocessor.Filter.{CountrySet, full_set}
use sub_preprocessor.Stable.Merge.{SourceBody}
use sub_preprocessor.Preprocess.{NodeResult}

-- `config.SubscriptionSource`
pub record SubscriptionSource : Type 0 where
  pub name : Bytes
  pub url : Bytes
  pub body : Bytes
  pub managed : Bool
  pub feed : Bytes
  pub hwid : Bytes

pub record SourceReport : Type 0 where
  pub source : SubscriptionSource
  pub stats : DropStats
  pub tested : ℕ
  pub filtered : ℕ

-- what `FilterNodes` returns; `none` is an error
abbrev pub Answer : Type 0
Answer = Option (List NodeResult × DropStats)

-- the request of one source; an inline body is filtered with no fetch
unfoldable pub request_of : CountrySet → SubscriptionSource → FilterRequest
unfolding beq
request_of denied src =
    let req : FilterRequest = record {
      subscription_url = src.url;
      allowed_countries = full_set;
      denied_countries = denied;
      request_body = [];
      request_hwid = src.hwid;
    } in
    if beq src.body []
    then req
    else record req { subscription_url = []; request_hwid = []; request_body = src.body }

abbrev pub body_of : SubscriptionSource → List NodeResult → SourceBody
body_of src nodes = record { name = src.name; nodes = nodes }

abbrev pub report_of : SubscriptionSource → DropStats → SourceReport
report_of src stats = record { source = src; stats = stats; tested = 0; filtered = 0 }

-- one round of the loop over the results
abbrev pub add_result :
    SubscriptionSource
    → Answer
    → List SourceBody × List SourceReport
    → List SourceBody × List SourceReport
add_result src none (bodies, reports) = (bodies, reports)
add_result src (some (nodes, stats)) (bodies, reports) =
    (body_of src nodes ∷ bodies, report_of src stats ∷ reports)

unfoldable pub fetch_from :
    (ℕ → FilterRequest → Answer)
    → CountrySet
    → ℕ
    → List SubscriptionSource
    → List SourceBody × List SourceReport
unfolding request_of
fetch_from answer denied i [] = ([], [])
fetch_from answer denied i (src ∷ sources) =
    add_result src (answer i (request_of denied src)) (fetch_from answer denied (i + 1) sources)

unfoldable pub fetch_sources :
    (ℕ → FilterRequest → Answer)
    → CountrySet
    → List SubscriptionSource
    → List SourceBody × List SourceReport
unfolding fetch_from
fetch_sources answer denied sources = fetch_from answer denied 0 sources
