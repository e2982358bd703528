-- ===== src/Preprocess/Refresh.antt =====
-- internal/preprocess/processor.go: the databases that are loaded again in the background, with their
-- retries. The geofeed, `geoDB` and `cidrStore` share this code up to what they hold: `D` is a lookup
-- or an address list, and `measure` its size, `none` if it reports none. A time is not zero; a zero
-- time is `none`. What a load returns is an argument.
pub mod Stale
pub mod Swaps
pub mod AllowList
use sub_preprocessor.Base.{
  ℕ, zero, suc, ◌+◌, ◌-◌, ◌*◌, ◌/◌, ◌%◌, ◌^◌, ◌≤◌, ◌<◌, max, min, ◌≡◌, refl, sym, ap, ◌∙◌, ◌≢◌, ◌↔◌,
  ◌⊎◌, inl, inr, Bool, true, false, not, ◌&&◌, ◌||◌, Option, none, some, List, [], ◌∷◌, ◌++◌, map,
  arith, ◌>>=◌, ltb, leb, ◌==◌, if◌then◌else◌, leb→le, le→leb, ltb→lt, lt→ltb, ==_iff, tests,
  Bool-cases, Option-cases, if_either, if_passed, AllSome, AllSome-bind, bind-eq-some, some-inj,
  AllSome-all, AllSome-map, Bytes, codes, beq, beq_iff, beq_refl, has_byte, cut, cut-append,
  cut_last, split, is_space, trim_left, trim_right, trim_space, starts_with, is_digit, is_upper,
  is_lower, lower_byte, lower_byte_idem, is_ascii, to_lower, length, get_elem?, take, drop,
  length-append, keep, any, every, All, All-append, All-map, Among, length-Among,
}
use sub_preprocessor.Cidrset
use sub_preprocessor.Cidrset.{AllowSet}
use sub_preprocessor.Preprocess.Filters.{IpFilterSpec}

abbrev pub reload_retry_interval : ℕ
reload_retry_interval = 300000000000

abbrev pub max_retry_backoff_shift : ℕ
max_retry_backoff_shift = 12

-- `retryDelay`
unfoldable pub retry_delay : ℕ → ℕ → ℕ
retry_delay failures interval =
    let delay = reload_retry_interval * 2 ^ min failures max_retry_backoff_shift in
    if ltb 0 interval && ltb interval delay then interval else delay

-- why a swap is refused
pub data Refusal : Type 0 where
  swap_allowed partial_load catastrophic_shrink : Refusal

-- `swapRefusalSize`: `minSwapRatio` is a half, and the comparison is exact on sizes below 2 ^ 53
unfoldable pub swap_refusal_size : ℕ → ℕ → ℕ → Refusal
swap_refusal_size current loaded failed =
    if current == 0
    then swap_allowed
    else if ltb 0 failed
    then partial_load
    else if ltb (loaded * 2) current
    then catastrophic_shrink
    else swap_allowed

abbrev pub size_or_zero : Option ℕ → ℕ
size_or_zero none = 0
size_or_zero (some n) = n

-- `swapRefusal`
unfoldable pub swap_refusal : Option ℕ → Option ℕ → ℕ → Refusal
unfolding swap_refusal_size
swap_refusal none loaded failed = swap_allowed
swap_refusal (some current) loaded failed = swap_refusal_size current (size_or_zero loaded) failed

-- `GeoState` and `CIDRState`
pub record DbState (D : Type 0) : Type 0 where
  pub lookup : D
  pub loaded_at : Option ℕ
  pub retry_at : Option ℕ
  pub failures : ℕ

-- what a load returns, `none` if it is an error: the data, and how many sources failed
abbrev pub Load : Type 0 → Type 0
Load D = Option (D × ℕ)

module _ {D : Type 0} (measure : D → Option ℕ) (empty : D) where
  -- `scheduleRetryLocked`
  unfoldable pub schedule_retry : ℕ → ℕ → DbState D → DbState D
  unfolding retry_delay
  schedule_retry interval now st = record st {
    retry_at = some (now + retry_delay st.failures interval);
    failures = st.failures + 1;
  }

  -- the end of `doReload`, on data that is accepted
  unfoldable pub accept : ℕ → ℕ → D → ℕ → DbState D → DbState D
  unfolding schedule_retry
  accept interval now next failed st =
      let swapped = record st { lookup = next; loaded_at = some now } in
      if ltb 0 failed
      then schedule_retry interval now swapped
      else record swapped { retry_at = none; failures = 0 }

  abbrev pub is_allowed : Refusal → Bool
  is_allowed swap_allowed = true
  is_allowed partial_load = false
  is_allowed catastrophic_shrink = false

  -- `doReload`
  unfoldable pub do_reload : ℕ → ℕ → Load D → DbState D → DbState D
  unfolding schedule_retry swap_refusal accept
  do_reload interval now none st = schedule_retry interval now st
  do_reload interval now (some (next, failed)) st =
      if is_allowed (swap_refusal (measure st.lookup) (measure next) failed)
      then accept interval now next failed st
      else schedule_retry interval now st

  -- `staleLocked`, and `shouldReloadGeofeedLocked`
  unfoldable pub is_stale : ℕ → ℕ → DbState D → Bool
  is_stale interval now st = if interval == 0 then false else elim st.retry_at [
    | some at ↦ not (ltb now at)
    | none ↦ elim st.loaded_at [ none ↦ true | some at ↦ leb interval (now - at) ]
  ]

  -- the state that `newGeoDB` loads inline
  unfoldable pub load_geo_db : ℕ → ℕ → Load D → DbState D
  unfolding schedule_retry
  load_geo_db interval now none =
      schedule_retry interval now
        (record { lookup = empty; loaded_at = none; retry_at = none; failures = 0 })
  load_geo_db interval now (some (data_, failed)) =
      let fresh : DbState D = record {
        lookup = data_;
        loaded_at = some now;
        retry_at = none;
        failures = 0;
      } in
      if ltb 0 failed then schedule_retry interval now fresh else fresh

  -- `newGeoDB`: a state that is carried over is adopted whole
  unfoldable pub new_geo_db : ℕ → ℕ → Option (DbState D) → Load D → DbState D
  unfolding load_geo_db
  new_geo_db interval now none answer = load_geo_db interval now answer
  new_geo_db interval now (some st) answer = st

  -- a database and whether a reload of it runs, which `reloadMu` tells
  pub record Db : Type 0 where
    pub state : DbState D
    pub is_reloading : Bool

  pub data DbEvent : Type 0 where
    -- `maybeRefresh` at a time
    refresh_asked : ℕ → DbEvent
    -- the background reload ends at a time
    reload_ended : ℕ → Load D → DbEvent

  unfoldable pub db_step : ℕ → DbEvent → Db → Db
  unfolding is_stale do_reload
  db_step interval (refresh_asked now) db =
      if not (is_stale interval now db.state) then db else record db { is_reloading = true }
  db_step interval (reload_ended now answer) db =
      if not db.is_reloading
      then db
      else record { state = do_reload interval now answer db.state; is_reloading = false }

  unfoldable pub db_run : ℕ → List DbEvent → Db → Db
  unfolding db_step
  db_run interval [] db = db
  db_run interval (e ∷ es) db = db_run interval es (db_step interval e db)

-- the size that swaps of the address list are judged by
abbrev pub covered_size : AllowSet → Option ℕ
covered_size s = some s.covered

-- the list that `newCIDRStore` loads inline; `none` is its error
unfoldable pub load_cidr_store : ℕ → ℕ → Load AllowSet → Option (DbState AllowSet)
unfolding schedule_retry
load_cidr_store interval now none = none
load_cidr_store interval now (some (set, failed)) =
    let fresh : DbState AllowSet = record {
      lookup = set;
      loaded_at = some now;
      retry_at = none;
      failures = 0;
    } in
    if length set.ranges == 0
    then none
    else some (
        if ltb 0 failed
        then schedule_retry covered_size Cidrset.empty interval now fresh
        else fresh)

-- `newCIDRStore`
unfoldable pub new_cidr_store : ℕ → ℕ → DbState AllowSet → Load AllowSet → Option (DbState AllowSet)
unfolding load_cidr_store
new_cidr_store interval now preloaded answer =
    if ltb 0 (length preloaded.lookup.ranges)
    then some preloaded
    else load_cidr_store interval now answer

-- `cidrSpec`
unfoldable pub cidr_spec : List IpFilterSpec → Option IpFilterSpec
unfolding beq
cidr_spec [] = none
cidr_spec (spec ∷ specs) =
    let rest = cidr_spec specs in if beq spec.kind (codes "cidr") then some spec else rest
