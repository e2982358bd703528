-- ===== src/Preprocess/Tests.antt =====
-- internal/preprocess: a run of `FilterNodes` and instances of the theorems.
use sub_preprocessor.Base.{
  Bytes, ℕ, ◌≤◌, ◌<◌, ◌≡◌, refl, true, false, Option, none, some, List, [], ◌∷◌, map, arith, ◌==◌,
  if◌then◌else◌, AllSome, codes, beq, length, All,
}
use mathlib.Core.Option
use sub_preprocessor.Base.Search.{binary_search}
use sub_preprocessor.Netip.{Addr, v4, parse_addr}
use sub_preprocessor.Filter.{CountrySet, full_set, none_set, is_full, is_empty}
use sub_preprocessor.Cidrset.{empty, IpRange, new_set, AllowSet, contains}
use sub_preprocessor.Ioutil.{lines}
use sub_preprocessor.Subscription.Endpoint.{Decoders}
use sub_preprocessor.Subscription.Parser.{parse_node}
use sub_preprocessor.Preprocess.{NodeResult, FilterRequest, DropStats}
use sub_preprocessor.Preprocess.Filters.{
  AsnResult, Sight, geofeed_filter, asn_filter, cidr_filter, run_filters,
}
use sub_preprocessor.Preprocess.Filters.Booked.{accounted}
use sub_preprocessor.Preprocess.Nodes.{body_for, Surroundings, filter_nodes, max_subscription_nodes}
use sub_preprocessor.Preprocess.Nodes.Accounts.{filter_nodes-IsBalanced}
use sub_preprocessor.Preprocess.Nodes.Limits.{filter_nodes_bounds}
use sub_preprocessor.Preprocess.Nodes.Judged.{IsJudged, filter_nodes-IsJudged}
use sub_preprocessor.Preprocess.Chain.{country_chain_order, Lookups, AnnotateSpec, country_chain}
use sub_preprocessor.Preprocess.Refresh.{
  refresh_asked, reload_ended, new_cidr_store, do_reload, covered_size, db_run, DbState, DbEvent,
}
use sub_preprocessor.Preprocess.Refresh.Stale.{do_reload-IsDue, IsDue}
use sub_preprocessor.Preprocess.Refresh.AllowList.{new_cidr_store-covers, IsBuilt}
use sub_preprocessor.Cidrset.Union.{new_set-IsApart}
use sub_preprocessor.Preprocess.Chain.Verdicts.{country_chain-country_chain_order, written_verdict}

abbrev as_result : Addr → Option AsnResult
as_result (v4 n) =
    if n == 7
    then none
    else some (record { country = record { hi = b'D'; lo = b'E' }; name = codes "BAD-AS" })
as_result (Addr.v6 n) = none

abbrev sight : CountrySet → CountrySet → ℕ → Sight
sight allowed denied k = record {
  allowed = allowed;
  denied = denied;
  lookup = λ ip. record { hi = 0; lo = 0 };
  asn = some as_result;
  cidr_set = record { ranges = record { lo = 0; hi = 100 } ∷ []; covered = 101 };
}

abbrev decoders : Decoders
decoders = record {
  parse_vmess = λ line n. none;
  parse_ssr = λ line rest. none;
  raw_std_decode = λ s. none;
}

-- the first host has an address that all filters pass, the second one of a denied network, the third
-- is blocked, and the fourth does not resolve
abbrev pub env : Surroundings
env = record {
  decoders = decoders;
  normalize = λ s. s;
  load_subscription = λ url hwid. none;
  parse_addr = parse_addr;
  done = λ k. false;
  blocked = λ k host. beq host (codes "c");
  resolve = λ k host.
      if beq host (codes "a")
      then v4 7 ∷ v4 9 ∷ []
      else if beq host (codes "b")
      then v4 9 ∷ []
      else [];
  sight = sight;
  filters =
      geofeed_filter ∷ asn_filter ((λ name. beq name (codes "BAD-AS")) ∷ []) ∷ cidr_filter ∷ [];
}

abbrev request : FilterRequest
request = record {
  subscription_url = [];
  allowed_countries = full_set;
  denied_countries = none_set;
  request_body = codes "vless://u@a:1\nvless://u@b:1\nvless://u@c:1\nvless://u@d:1\nvless://\n";
  request_hwid = [];
}

filter_nodes-IsBalanced_example :
    AllSome
      (λ (r : List NodeResult × DropStats).
        (0 < r.1.total) × (r.1.total ≡ accounted r.1) × (length r.0 ≡ r.1.valid))
      (filter_nodes env request)
filter_nodes-IsBalanced_example = filter_nodes-IsBalanced env request

filter_nodes_bounds_example :
    AllSome
      (λ (r : List NodeResult × DropStats). r.1.total ≤ max_subscription_nodes)
      (filter_nodes env request)
filter_nodes_bounds_example = filter_nodes_bounds env request

filter_nodes-IsJudged_example :
    AllSome
      (λ (r : List NodeResult × DropStats).
        (body : Bytes) × (body_for env request ≡ some body)
        × All (IsJudged env body request.allowed_countries request.denied_countries) r.0)
      (filter_nodes env request)
filter_nodes-IsJudged_example = filter_nodes-IsJudged env request

filter_nodes_run :
    Option.map {B = List Addr × DropStats}
      (λ (r : List NodeResult × DropStats). (map (λ (n : NodeResult). n.ip) r.0, r.1))
      (filter_nodes env request)
    ≡ some (
      v4 7 ∷ [],
      (record {
        total = 4;
        valid = 1;
        dns_drop = 1;
        geo_drop = 0;
        asn_drop = 1;
        cidr_drop = 0;
        geo_block_drop = 1;
        ipv6_drop = 0;
        unsupported = 1;
      }),
    )
unfolding filter_nodes parse_node run_filters is_full is_empty contains lines binary_search
filter_nodes_run = refl

abbrev some_ranges : List IpRange
some_ranges = record { lo = 10; hi = 20 } ∷ record { lo = 5; hi = 12 } ∷ []

abbrev built : AllowSet
built = new_set some_ranges

built-IsBuilt : IsBuilt built
unfolding new_set
built-IsBuilt = record {
  apart = new_set-IsApart some_ranges (
    record { ordered = omega arith; fits = omega arith },
    (record { ordered = omega arith; fits = omega arith }, tt),
  );
  counted = refl;
}

abbrev nothing_carried : DbState AllowSet
nothing_carried = record { lookup = new_set []; loaded_at = none; retry_at = none; failures = 0 }

nothing-IsBuilt : IsBuilt nothing_carried.lookup
unfolding new_set
nothing-IsBuilt = record { apart = new_set-IsApart [] tt; counted = refl }

-- a partial load, a failed one, and an empty one
abbrev list_events : List (DbEvent covered_size empty)
list_events =
    refresh_asked 400000000000
    ∷ reload_ended 400000000001 none
    ∷ refresh_asked 900000000000
    ∷ refresh_asked 1900000000000
    ∷ reload_ended 1900000000001 (some (empty, 0))
    ∷ []

new_cidr_store-covers_example :
    AllSome
      (λ (st : DbState AllowSet).
        0
        < (db_run covered_size empty 86400000000000 list_events
            (record { state = st; is_reloading = false })).state.lookup.covered)
      (new_cidr_store 86400000000000 1 nothing_carried (some (built, 1)))
new_cidr_store-covers_example =
    new_cidr_store-covers 86400000000000 1 nothing_carried (some (built, 1)) list_events
      nothing-IsBuilt built-IsBuilt

abbrev listed : DbState AllowSet
listed = record nothing_carried { lookup = built }

do_reload-IsDue_example :
    IsDue covered_size empty 86400000000000 7
      (do_reload covered_size empty 86400000000000 7 (some (empty, 0)) listed)
do_reload-IsDue_example =
    do_reload-IsDue covered_size empty 86400000000000 7 (some (empty, 0)) listed (omega arith)

abbrev annotate : List AnnotateSpec
annotate =
    record { tag = codes "GEO"; providers = codes "dbip" ∷ codes "asn" ∷ [] }
    ∷ record { tag = codes "GEO"; providers = codes "geofeed" ∷ codes "dbip" ∷ [] }
    ∷ []

abbrev lookups : Lookups
lookups = record {
  geofeed = λ ip. record { hi = b'D'; lo = b'E' };
  dbip = λ ip. record { hi = 0; lo = 0 };
  registry = λ ip. record { hi = b'U'; lo = b'S' };
}

country_chain-country_chain_order_example :
    country_chain (country_chain_order annotate true false) lookups (v4 7)
    ≡ written_verdict annotate true false lookups (v4 7)
country_chain-country_chain_order_example =
    country_chain-country_chain_order annotate true false lookups (v4 7)
