-- ===== src/Stable/Probe/Rounds.antt =====
-- internal/stable/prober.go: that the order in which the tests finish does not matter, and that the
-- counters do not overflow.
use sub_preprocessor.Base.{
  ℕ, zero, suc, ◌+◌, ◌*◌, ◌≤◌, ◌<◌, max, ◌≡◌, refl, ap, Option, some, List, [], ◌∷◌, arith, ◌==◌,
  if◌then◌else◌, AllSome, AllSome-map, get_elem?, All,
}
use mathlib.Core.List.{Permᴰ}
use sub_preprocessor.Base.Fold.{fold_left, fold_left-Permᴰ}
use sub_preprocessor.Stable.Select.{ProbeStage, unknown, condemned, connect, fetch, passed}
use sub_preprocessor.Stable.Probe.{
  raise, DelayAcc, stage_rank, UrlTest, url_error, other_error, answered, probe_stage, record_test,
  record_at, run_rounds,
}
use mathlib.Core.Path.{subst}

stage_of_rank : (s t : ProbeStage) → stage_rank s ≡ stage_rank t → s ≡ t
stage_of_rank unknown unknown e = refl
stage_of_rank condemned condemned e = refl
stage_of_rank connect connect e = refl
stage_of_rank fetch fetch e = refl
stage_of_rank passed passed e = refl
stage_of_rank s t e = ground (arith, e)

raise_rank : (s a : ProbeStage) → stage_rank (raise s a) ≡ max (stage_rank s) (stage_rank a)
unfolding raise
raise_rank s a = ground arith

raise_comm : (s t a : ProbeStage) → raise t (raise s a) ≡ raise s (raise t a)
raise_comm s t a = stage_of_rank (raise t (raise s a)) (raise s (raise t a)) (
    omega
      (arith, raise_rank s a, raise_rank t a, raise_rank t (raise s a), raise_rank s (raise t a)))

record_test_comm :
    (t u : UrlTest) (a : DelayAcc)
    → record_test u (record_test t a) ≡ record_test t (record_test u a)
unfolding record_test
record_test_comm url_error url_error a = refl
record_test_comm url_error other_error a =
    ground (arith, raise_comm (probe_stage url_error) (probe_stage other_error) a.acc_stage)
record_test_comm url_error (answered d) a =
    ground (arith, raise_comm (probe_stage url_error) (probe_stage (answered d)) a.acc_stage)
record_test_comm other_error url_error a =
    ground (arith, raise_comm (probe_stage other_error) (probe_stage url_error) a.acc_stage)
record_test_comm other_error other_error a = refl
record_test_comm other_error (answered d) a =
    ground (arith, raise_comm (probe_stage other_error) (probe_stage (answered d)) a.acc_stage)
record_test_comm (answered d) url_error a =
    ground (arith, raise_comm (probe_stage (answered d)) (probe_stage url_error) a.acc_stage)
record_test_comm (answered d) other_error a =
    ground (arith, raise_comm (probe_stage (answered d)) (probe_stage other_error) a.acc_stage)
record_test_comm (answered d) (answered d') a =
    ground (arith, raise_comm (probe_stage (answered d)) (probe_stage (answered d')) a.acc_stage)

record_at_comm :
    (x y : ℕ × UrlTest) (accs : List DelayAcc)
    → record_at y (record_at x accs) ≡ record_at x (record_at y accs)
unfolding record_at
record_at_comm (i, t) (j, u) [] = refl
record_at_comm (zero, t) (zero, u) (a ∷ accs) = ap (λ b. b ∷ accs) (record_test_comm t u a)
record_at_comm (zero, t) (suc j, u) (a ∷ accs) = refl
record_at_comm (suc i, t) (zero, u) (a ∷ accs) = refl
record_at_comm (suc i, t) (suc j, u) (a ∷ accs) =
    ap (λ l. a ∷ l) (record_at_comm (i, t) (j, u) accs)

-- The accumulators after the rounds do not depend on the order in which the tests of all rounds
-- and positions take the lock.
pub run_rounds-Permᴰ :
    {ts ts' : List (ℕ × UrlTest)}
    → Permᴰ ts ts'
    → (accs : List DelayAcc) → run_rounds ts accs ≡ run_rounds ts' accs
unfolding run_rounds
run_rounds-Permᴰ p accs = fold_left-Permᴰ record_at record_at_comm p accs

-- how many tests were made of a position
abbrev pub tests_of : ℕ → List (ℕ × UrlTest) → ℕ
tests_of i [] = 0
tests_of i ((j, t) ∷ ts) = if i == j then tests_of i ts + 1 else tests_of i ts

abbrev pub max_delay : ℕ
max_delay = 65535

-- a delay is a uint16
abbrev pub IsTest : ℕ × UrlTest → Type 0
IsTest (i, url_error) = Unit
IsTest (i, other_error) = Unit
IsTest (i, answered d) = d ≤ max_delay

-- the accumulator of a position, after at most `n` tests of it
abbrev pub IsWithin : ℕ → DelayAcc → Type 0
IsWithin n a = (a.succ_count ≤ n) × (a.delay_sum ≤ a.succ_count * max_delay)

record_test-IsWithin :
    (i n : ℕ) (t : UrlTest) (a : DelayAcc)
    → IsTest (i, t)
    → IsWithin n a
    → IsWithin (n + 1) (record_test t a)
unfolding record_test
record_test-IsWithin i n url_error a h w = (omega (arith, w), omega (arith, w))
record_test-IsWithin i n other_error a h w = (omega (arith, w), omega (arith, w))
record_test-IsWithin i n (answered d) a h w = (omega (arith, w), omega (arith, w, h))

any_index : (i j : ℕ) (t : UrlTest) → IsTest (i, t) → IsTest (j, t)
any_index i j url_error h = tt
any_index i j other_error h = tt
any_index i j (answered d) h = h

IsWithin-as :
    (n m : ℕ) (o : Option DelayAcc) → n ≡ m → AllSome (IsWithin n) o → AllSome (IsWithin m) o
IsWithin-as n m o e w = subst (λ (k : ℕ). AllSome (IsWithin k) o) e w

record_at-IsWithin :
    (i n : ℕ) (x : ℕ × UrlTest) (accs : List DelayAcc)
    → IsTest x
    → AllSome (IsWithin n) (get_elem? accs i)
    → AllSome (IsWithin (if i == x.0 then n + 1 else n)) (get_elem? (record_at x accs) i)
unfolding record_at
record_at-IsWithin i n (j, t) [] h w = tt
record_at-IsWithin zero n (zero, t) (a ∷ accs) h w =
    record_test-IsWithin 0 n t a (any_index 0 0 t h) w
record_at-IsWithin zero n (suc j, t) (a ∷ accs) h w =
    IsWithin-as n (if zero == suc j then n + 1 else n) (some a) (ground arith) w
record_at-IsWithin (suc i) n (zero, t) (a ∷ accs) h w =
    IsWithin-as n (if suc i == zero then n + 1 else n) (get_elem? accs i) (ground arith) w
record_at-IsWithin (suc i) n (suc j, t) (a ∷ accs) h w =
    IsWithin-as (if i == j then n + 1 else n) (if suc i == suc j then n + 1 else n)
      (get_elem? (record_at (j, t) accs) i) (ground arith)
      (record_at-IsWithin i n (j, t) accs (any_index (suc j) j t h) w)

run_rounds-IsWithin :
    (i n : ℕ) (ts : List (ℕ × UrlTest)) (accs : List DelayAcc)
    → All IsTest ts
    → AllSome (IsWithin n) (get_elem? accs i)
    → AllSome (IsWithin (n + tests_of i ts)) (get_elem? (run_rounds ts accs) i)
unfolding run_rounds fold_left
run_rounds-IsWithin i n [] accs h w = IsWithin-as n (n + 0) (get_elem? accs i) (omega arith) w
run_rounds-IsWithin i n (x ∷ ts) accs h w =
    let n' = if i == x.0 then n + 1 else n in
    IsWithin-as (n' + tests_of i ts) (n + tests_of i (x ∷ ts))
      (get_elem? (fold_left record_at (record_at x accs) ts) i) (ground arith)
      (run_rounds-IsWithin i n' ts (record_at x accs) h.1 (record_at-IsWithin i n x accs h.0 w))

-- what fits an int32
abbrev pub Fits : DelayAcc → Type 0
Fits a = (a.succ_count < 2147483648) × (a.delay_sum < 2147483648)

Fits-of : (n : ℕ) (a : DelayAcc) → n ≤ 32768 → IsWithin n a → (a.succ_count ≤ n) × Fits a
Fits-of n a le w = (w.0, (omega (arith, w, le), omega (arith, w, le)))

-- After at most 32768 tests of a position that had none, with delays of 16 bits, it has no more
-- successes than tests, and neither of its counters overflows an int32.
pub run_rounds_bounds :
    (i : ℕ) (ts : List (ℕ × UrlTest)) (accs : List DelayAcc)
    → All IsTest ts
    → AllSome (λ (a : DelayAcc). (a.succ_count ≡ 0) × (a.delay_sum ≡ 0)) (get_elem? accs i)
    → tests_of i ts ≤ 32768
    → AllSome
        (λ (a : DelayAcc). (a.succ_count ≤ tests_of i ts) × Fits a)
        (get_elem? (run_rounds ts accs) i)
run_rounds_bounds i ts accs h fresh few =
    AllSome-map (IsWithin (0 + tests_of i ts))
      (λ (a : DelayAcc). (a.succ_count ≤ tests_of i ts) × Fits a)
      (λ a w. Fits-of (tests_of i ts) a few (omega (arith, w), w.1))
      (get_elem? (run_rounds ts accs) i)
      (run_rounds-IsWithin i 0 ts accs h (
        AllSome-map (λ (a : DelayAcc). (a.succ_count ≡ 0) × (a.delay_sum ≡ 0)) (IsWithin 0)
          (λ a z. (omega (arith, z), omega (arith, z))) (get_elem? accs i) fresh))
