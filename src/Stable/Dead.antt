-- ===== src/Stable/Dead.antt =====
-- internal/stable/deadset.go: the nodes that failed a recent probe. Times are nanoseconds; the
-- random part of an expiry is an argument.
pub mod Verdicts
pub mod Tests
use sub_preprocessor.Base.{
  ℕ, zero, suc, ◌+◌, ◌-◌, ◌*◌, ◌/◌, ◌%◌, ◌^◌, ◌≤◌, ◌<◌, max, min, ◌≡◌, refl, sym, ap, ◌∙◌, ◌≢◌, ◌↔◌,
  ◌⊎◌, inl, inr, Bool, true, false, not, ◌&&◌, ◌||◌, Option, none, some, List, [], ◌∷◌, ◌++◌, map,
  arith, ◌>>=◌, ltb, leb, ◌==◌, if◌then◌else◌, leb→le, le→leb, ltb→lt, lt→ltb, ==_iff, tests,
  Bool-cases, Option-cases, AllSome, AllSome-bind, bind-eq-some, some-inj, Bytes, codes, beq,
  beq_iff, beq_refl, has_byte, cut, cut_last, split, is_space, trim_left, trim_right, trim_space,
  starts_with, is_digit, is_upper, is_lower, lower_byte, lower_byte_idem, is_ascii, to_lower,
  length, get_elem?, take, drop, length-append, keep, any, every, All, All-append, All-map, Among,
}
use sub_preprocessor.Base.Dict.{find, put}
use sub_preprocessor.Base.Expiry.{is_live, unexpired}
use sub_preprocessor.Netip.{Addr, v4, v6}

pub record DeadKey : Type 0 where
  pub addr : Bytes
  pub ip : Addr

unfoldable pub same_addr : Addr → Addr → Bool
same_addr (v4 a) (v4 b) = a == b
same_addr (v6 a) (v6 b) = a == b
same_addr (v4 a) (v6 b) = false
same_addr (v6 a) (v4 b) = false

-- Go's `==` on two keys
unfoldable pub same_key : DeadKey → DeadKey → Bool
unfolding same_addr beq
same_key a b = beq a.addr b.addr && same_addr a.ip b.ip

pub record DeadSet : Type 0 where
  pub ttl : ℕ
  pub dead : List (DeadKey × ℕ)

abbrev pub new_dead_set : ℕ → DeadSet
new_dead_set ttl = record { ttl = ttl; dead = [] }

-- `jitteredTTL`; `jitter` is `time.Duration(rand.Float64()*0.5*float64(ttl))`
unfoldable pub jittered_ttl : ℕ → ℕ → ℕ
jittered_ttl jitter ttl = if leb ttl 0 then ttl else ttl + jitter

-- `Blocked`
unfoldable pub is_dead : ℕ → Bytes → Addr → DeadSet → Bool
unfolding is_live same_key
is_dead now addr ip d = is_live same_key now (record { addr = addr; ip = ip }) d.dead

-- `Block`
unfoldable pub mark : ℕ → ℕ → Bytes → Addr → DeadSet → DeadSet
unfolding put same_key jittered_ttl
mark jitter now addr ip d =
    let expiry = now + jittered_ttl jitter d.ttl in
    record d { dead = put same_key (record { addr = addr; ip = ip }) expiry d.dead }

-- `Prune`
unfoldable pub prune : ℕ → DeadSet → DeadSet
unfolding unexpired
prune now d = record d { dead = unexpired now d.dead }
