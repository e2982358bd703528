-- ===== src/Stable/Dead/Verdicts.antt =====
-- internal/stable/deadset.go: for how long a node stays dead.
use sub_preprocessor.Base.{
  ℕ, ◌+◌, ◌≤◌, ◌<◌, ◌≡◌, ◌↔◌, true, ◌&&◌, arith, ltb, if◌then◌else◌, Bytes, beq, beq_iff,
}
use sub_preprocessor.Base.Dict.{IsDict}
use sub_preprocessor.Base.Expiry.{is_live-put, is_live-unexpired}
use sub_preprocessor.Netip.{Addr, v4, v6}
use sub_preprocessor.Stable.Dead.{
  DeadKey, DeadSet, same_addr, same_key, is_dead, mark, prune, jittered_ttl,
}

pub same_addr_iff : (a b : Addr) → (same_addr a b ≡ true) ↔ (a ≡ b)
unfolding same_addr
same_addr_iff (v4 a) (v4 b) = ground arith
same_addr_iff (v6 a) (v6 b) = ground arith
same_addr_iff (v4 a) (v6 b) = ground arith
same_addr_iff (v6 a) (v4 b) = ground arith

same_key_iff : (a b : DeadKey) → (same_key a b ≡ true) ↔ (a ≡ b)
unfolding same_key
same_key_iff a b = ground (arith, beq_iff a.addr b.addr, same_addr_iff a.ip b.ip)

-- With a positive TTL, a node that is marked dead is dead until the time, the TTL and the jitter
-- have passed, at its address alone, and every other pair of an endpoint and an address has the
-- verdict it had.
pub is_dead-mark :
    (jitter now t : ℕ) (addr other : Bytes) (ip ip' : Addr) (d : DeadSet)
    → 0 < d.ttl
    → is_dead t other ip' (mark jitter now addr ip d) ≡ (
        if beq other addr && same_addr ip' ip
        then ltb t (now + (d.ttl + jitter))
        else is_dead t other ip' d)
unfolding is_dead mark jittered_ttl same_key
is_dead-mark jitter now t addr other ip ip' d h =
    let expiry = now + jittered_ttl jitter d.ttl in
    let p =
      is_live-put same_key same_key_iff t (record { addr = addr; ip = ip })
        (record { addr = other; ip = ip' }) expiry d.dead in
    ground (arith, p, h)

-- Only nodes that were marked, at times from which they are dead no more, are forgotten: pruning
-- at `now` changes no verdict from `now` on.
pub is_dead-prune :
    (now t : ℕ) (addr : Bytes) (ip : Addr) (d : DeadSet)
    → IsDict same_key d.dead
    → now ≤ t
    → is_dead t addr ip (prune now d) ≡ is_dead t addr ip d
unfolding is_dead prune
is_dead-prune now t addr ip d w le =
    is_live-unexpired same_key same_key_iff now t (record { addr = addr; ip = ip }) d.dead le w
