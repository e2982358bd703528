-- ===== src/Preprocess/Refresh/AllowList.antt =====
-- internal/preprocess/processor.go: that the address list of a processor never becomes empty.
use sub_preprocessor.Base.{
  ℕ, ◌<◌, ◌≡◌, inl, inr, false, none, some, List, arith, ltb, ◌==◌, Bool-cases, if_either, AllSome,
  AllSome-map, length,
}
use sub_preprocessor.Cidrset
use sub_preprocessor.Cidrset.{AllowSet, IpRange, count_covered, new_set}
use sub_preprocessor.Cidrset.Union.{IsApart}
use sub_preprocessor.Cidrset.Covered.{count_covered_some}
use sub_preprocessor.Preprocess.Refresh.{
  DbState, Load, schedule_retry, covered_size, load_cidr_store, new_cidr_store, DbEvent, db_run,
}
use sub_preprocessor.Preprocess.Refresh.Swaps.{HasData, db_run-HasData}

-- A set that package cidrset built: its ranges are in order, and it counts what they cover.
pub record IsBuilt (s : AllowSet) : Type 0 where
  pub apart : IsApart s.ranges
  pub counted : s.covered ≡ count_covered s.ranges

-- what a load returned was built, if there is something
abbrev pub IsBuiltLoad : Load AllowSet → Type 0
IsBuiltLoad = AllSome (λ (a : AllowSet × ℕ). IsBuilt a.0)

built-HasData :
    (st : DbState AllowSet)
    → IsBuilt st.lookup
    → 0 < length st.lookup.ranges
    → HasData covered_size Cidrset.empty st
built-HasData st b h =
    let some_one = count_covered_some st.lookup.ranges b.apart h in
    omega (arith, b.counted, some_one)

load_cidr_store-HasData :
    (interval now : ℕ) (answer : Load AllowSet)
    → IsBuiltLoad answer
    → AllSome (HasData covered_size Cidrset.empty) (load_cidr_store interval now answer)
unfolding load_cidr_store schedule_retry
load_cidr_store-HasData interval now none b = tt
load_cidr_store-HasData interval now (some (set, failed)) b =
    let fresh : DbState AllowSet = record {
      lookup = set;
      loaded_at = some now;
      retry_at = none;
      failures = 0;
    } in
    if_either (AllSome (HasData covered_size Cidrset.empty)) (length set.ranges == 0) _ _ tt
      λ some_range.
        let h : HasData covered_size Cidrset.empty fresh =
          built-HasData fresh b (ground (arith, some_range)) in
        if_either (HasData covered_size Cidrset.empty) (ltb 0 failed) _ _ h λ whole. h

new_cidr_store-HasData :
    (interval now : ℕ) (preloaded : DbState AllowSet) (answer : Load AllowSet)
    → IsBuilt preloaded.lookup
    → IsBuiltLoad answer
    → AllSome (HasData covered_size Cidrset.empty) (new_cidr_store interval now preloaded answer)
unfolding new_cidr_store
new_cidr_store-HasData interval now preloaded answer p b =
    elim (Bool-cases (ltb 0 (length preloaded.lookup.ranges))) [
      | inl y ↦ rw y (built-HasData preloaded p (ground (arith, y)))
      | inr n ↦ rw n (load_cidr_store-HasData interval now answer b)
    ]

-- If the address lists that are carried over and loaded are built by package cidrset, the list
-- that a processor starts with covers some address after any reloads, whatever they return: the
-- filter is never left with a list that nobody is inside.
pub new_cidr_store-covers :
    (interval now : ℕ) (preloaded : DbState AllowSet) (answer : Load AllowSet)
    (es : List (DbEvent covered_size Cidrset.empty))
    → IsBuilt preloaded.lookup
    → IsBuiltLoad answer
    → AllSome
        (λ (st : DbState AllowSet).
          0
          < (db_run covered_size Cidrset.empty interval es
              (record { state = st; is_reloading = false })).state.lookup.covered)
        (new_cidr_store interval now preloaded answer)
new_cidr_store-covers interval now preloaded answer es p b =
    AllSome-map (HasData covered_size Cidrset.empty) _
      (λ (st : DbState AllowSet) h.
        db_run-HasData covered_size Cidrset.empty interval es
          (record { state = st; is_reloading = false }) h)
      (new_cidr_store interval now preloaded answer)
      (new_cidr_store-HasData interval now preloaded answer p b)
