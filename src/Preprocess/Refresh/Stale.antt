-- ===== src/Preprocess/Refresh/Stale.antt =====
-- internal/preprocess/processor.go: when a database is loaded again.
use sub_preprocessor.Base.{
  ℕ, zero, suc, ◌+◌, ◌^◌, ◌≤◌, ◌<◌, min, ◌≡◌, inl, inr, Option, none, some, arith, ltb, leb,
  Bool-cases,
}
use sub_preprocessor.Preprocess.Refresh.{
  reload_retry_interval, max_retry_backoff_shift, retry_delay, DbState, Load, schedule_retry,
  accept, do_reload, is_stale, is_allowed, swap_refusal,
}

power_pos : (k : ℕ) → 1 ≤ 2 ^ k
power_pos zero = omega arith
power_pos (suc k) = let ih = power_pos k in omega (arith, ih)

-- a retry waits at least five minutes or the interval, and at most the interval
retry_delay_bounds :
    (failures interval : ℕ)
    → 0 < interval
    → (min reload_retry_interval interval ≤ retry_delay failures interval)
      × (retry_delay failures interval ≤ interval)
unfolding retry_delay
retry_delay_bounds failures interval h =
    let p = power_pos (min failures max_retry_backoff_shift) in
    (ground (arith, p, h), ground (arith, p, h))

module _ {D : Type 0} (measure : D → Option ℕ) (empty : D) where
  -- from some time between the two bounds on, and not before, the database is stale
  abbrev pub IsDue : ℕ → ℕ → DbState D → Type 0
  IsDue interval now st =
      (wait : ℕ) × (min reload_retry_interval interval ≤ wait)
      × (wait ≤ interval)
      × ((t : ℕ) → is_stale measure empty interval t st ≡ leb (now + wait) t)

  schedule_retry-IsDue :
      (interval now : ℕ) (st : DbState D)
      → 0 < interval
      → IsDue interval now (schedule_retry measure empty interval now st)
  unfolding schedule_retry is_stale
  schedule_retry-IsDue interval now st h =
      let (lo, hi) = retry_delay_bounds st.failures interval h in
      (retry_delay st.failures interval, lo, hi, λ t. ground (arith, h))

  accept-IsDue :
      (interval now failed : ℕ) (next : D) (st : DbState D)
      → 0 < interval
      → IsDue interval now (accept measure empty interval now next failed st)
  unfolding accept
  accept-IsDue interval now failed next st h =
      let swapped : DbState D = record st { lookup = next; loaded_at = some now } in
      elim (Bool-cases (ltb 0 failed)) [
        | inl y ↦ rw y (schedule_retry-IsDue interval now swapped h)
        | inr n ↦
            rw n (interval, (omega arith), (omega arith), λ t. unfold is_stale in ground (arith, h))
      ]

  -- With a positive interval, a reload that ends, whether it failed, was refused, was partial or
  -- was accepted, leaves the database fresh for at least five minutes, or the interval if that
  -- is shorter, and stale from some time on that is at most the interval later: no database is
  -- loaded in a loop, and none is forgotten.
  pub do_reload-IsDue :
      (interval now : ℕ) (answer : Load D) (st : DbState D)
      → 0 < interval
      → IsDue interval now (do_reload measure empty interval now answer st)
  unfolding do_reload
  do_reload-IsDue interval now none st h = schedule_retry-IsDue interval now st h
  do_reload-IsDue interval now (some (next, failed)) st h =
      let allowed =
        is_allowed measure empty (swap_refusal (measure st.lookup) (measure next) failed) in
      elim (Bool-cases allowed) [
        | inl y ↦ rw y (accept-IsDue interval now failed next st h)
        | inr n ↦ rw n (schedule_retry-IsDue interval now st h)
      ]
