-- ===== src/Stable/Cycle/Death/Verdicts.antt =====
-- internal/stable/checker.go: which nodes a cycle skips, and which it records as dead.
use sub_preprocessor.Base.{
  length-Among, ℕ, ◌+◌, ◌≤◌, ◌<◌, ◌≡◌, inl, inr, Bool, true, false, ◌&&◌, Option, List, [], ◌∷◌,
  arith, ltb, ◌==◌, Bool-cases, Bytes, beq, length, Among,
}
use mathlib.Core.Path.{subst}
use mathlib.Core.Option
use sub_preprocessor.Netip.{Addr}
use sub_preprocessor.Stable.Merge.{Entry}
use sub_preprocessor.Stable.Select.{ProbeResult}
use sub_preprocessor.Stable.Dead.{DeadSet, same_addr, is_dead, mark}
use sub_preprocessor.Stable.Dead.Verdicts.{is_dead-mark}
use sub_preprocessor.Stable.Cycle.Death.{
  dead_in, sift_dead, filter_dead, RefusalState, PrecheckState, precheck_tripped, precheck_absent,
  precheck_ran, proved_dead, mark_all,
}

-- Nothing is lost: an entry is probed or counted as skipped.
length-sift_dead :
    (clock : ℕ → ℕ) (dead : Option DeadSet) (i : ℕ) (es : List Entry)
    → length (sift_dead clock dead i es).0 + (sift_dead clock dead i es).1 ≡ length es
unfolding sift_dead
length-sift_dead clock dead i [] = omega arith
length-sift_dead clock dead i (e ∷ es) =
    let ih = length-sift_dead clock dead (i + 1) es in ground (arith, ih)

-- Every merged entry is handed to the prober or counted as skipped, and the prober is run exactly
-- when some entry is left for it.
pub filter_dead_lem :
    (clock : ℕ → ℕ) (dead : Option DeadSet) (es : List Entry)
    → (length (filter_dead clock dead es).0 + (filter_dead clock dead es).1.0 ≡ length es)
      × ((filter_dead clock dead es).1.1 ≡ ltb 0 (length (filter_dead clock dead es).0))
unfolding filter_dead
filter_dead_lem clock dead es = let l = length-sift_dead clock dead 0 es in ground (arith, l)

-- An entry that the cache does not hold is probed.
Among-sift_dead :
    (clock : ℕ → ℕ) (dead : Option DeadSet) (i : ℕ) (es : List Entry) (e : Entry)
    → Among e es
    → ((n : ℕ) → dead_in dead n e ≡ false)
    → Among e (sift_dead clock dead i es).0
unfolding sift_dead
Among-sift_dead clock dead i [] e m h = m
Among-sift_dead clock dead i (x ∷ es) e (inl same) h =
    rw (subst (λ (y : Entry). dead_in dead (clock i) y ≡ false) same (h (clock i))) (inl same)
Among-sift_dead clock dead i (x ∷ es) e (inr m) h =
    let ih = Among-sift_dead clock dead (i + 1) es e m h in
    elim (Bool-cases (dead_in dead (clock i) x)) [ inl y ↦ rw y ih | inr n ↦ rw n (inr ih) ]

pub Among-filter_dead :
    (clock : ℕ → ℕ) (dead : Option DeadSet) (es : List Entry) (e : Entry)
    → Among e es
    → ((n : ℕ) → dead_in dead n e ≡ false)
    → Among e (filter_dead clock dead es).0
unfolding filter_dead
Among-filter_dead clock dead es e m h =
    let k = Among-sift_dead clock dead 0 es e m h in
    let l = length-Among e (sift_dead clock dead 0 es).0 k in
    let t : (length (sift_dead clock dead 0 es).0 == 0) ≡ false = ground (arith, l) in rw t k

-- a probed entry that is proved dead, at this endpoint and address
abbrev pub dies_at : RefusalState → (Bytes → Option ProbeResult) → Bytes → Addr → Entry → Bool
dies_at state res addr ip e =
    proved_dead state (res e.label) && (beq addr e.addr && same_addr ip e.ip)

abbrev pub believed : PrecheckState → Bool
believed precheck_tripped = false
believed precheck_absent = true
believed precheck_ran = true

module _ (clock jitter : ℕ → ℕ) (state : RefusalState) (res : Bytes → Option ProbeResult)
    (addr : Bytes) (ip : Addr) (start t : ℕ) (late : (i : ℕ) → start ≤ clock i) where
  mark_all_dead :
      (i : ℕ) (es : List Entry) (d : DeadSet)
      → 0 < d.ttl
      → t < start + d.ttl
      → is_dead t addr ip d ≡ true
      → is_dead t addr ip (mark_all clock jitter state res i es d) ≡ true
  unfolding mark_all
  mark_all_dead i [] d p b h = h
  mark_all_dead i (e ∷ es) d p b h = elim (Bool-cases (proved_dead state (res e.label))) [
    | inl y ↦
        let m = is_dead-mark (jitter i) (clock i) t e.addr addr e.ip ip d p in
        let w = late i in
        rw y (
          mark_all_dead (i + 1) es (mark (jitter i) (clock i) e.addr e.ip d) (unfold mark in p)
            (unfold mark in b) (ground (arith, m, h, w, b)))
    | inr n ↦ rw n (mark_all_dead i es d p b h)
  ]
