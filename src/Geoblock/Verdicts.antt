-- ===== src/Geoblock/Verdicts.antt =====
-- internal/geoblock/store.go: the verdicts after `Block` and after `Prune`.
use sub_preprocessor.Base.{
  ℕ, ◌+◌, ◌≤◌, ◌≡◌, ◌≢◌, inl, inr, Bool, true, false, [], arith, ltb, if◌then◌else◌, Bool-cases,
  Bytes, beq, beq_iff,
}
use sub_preprocessor.Base.Dict.{put, IsDict, put-IsDict, keep-IsDict}
use sub_preprocessor.Base.Expiry.{is_live-put, is_live-unexpired, unexpired}
use sub_preprocessor.Geoblock.{Store, host_key, is_blocked, block, prune}

-- After a host that is not empty is blocked, written to the table or not, a name that is not
-- empty and has the key of the host is blocked until the time of the call plus the TTL, and one
-- with another key has the verdict it had.
pub is_blocked-block :
    (unicode : Bytes → Bytes) (written : Bool) (now t : ℕ) (host other : Bytes) (s : Store)
    → host ≢ []
    → other ≢ []
    → is_blocked unicode t other (block unicode written now host s).0 ≡ (
        if beq (host_key unicode other) (host_key unicode host)
        then ltb t (now + s.ttl)
        else is_blocked unicode t other s)
unfolding is_blocked block
is_blocked-block unicode written now t host other s h o =
    let a = beq_iff host [] in
    let b = beq_iff other [] in
    let p =
      is_live-put beq beq_iff t (host_key unicode host) (host_key unicode other) (now + s.ttl)
        s.blocked in
    ground (arith, a, b, p, h, o)

-- Both maps of the store have one entry to a key.
pub record IsStore (s : Store) : Type 0 where
  pub cache : IsDict beq s.blocked
  pub table : IsDict beq s.rows

pub block-IsStore :
    (unicode : Bytes → Bytes) (written : Bool) (now : ℕ) (host : Bytes) (s : Store)
    → IsStore s
    → IsStore (block unicode written now host s).0
unfolding block
block-IsStore unicode written now host s w = elim (Bool-cases (beq host [])) [
  | inl y ↦ rw y w
  | inr n ↦
      rw n (record { cache = put-IsDict beq beq_iff _ _ s.blocked w.cache; table = table written })
]
  where
    table :
        (b : Bool)
        → IsDict beq (if b then put beq (host_key unicode host) (now + s.ttl) s.rows else s.rows)
    table true = put-IsDict beq beq_iff _ _ s.rows w.table
    table false = w.table

pub prune-IsStore :
    (deleted : Bool) (now : ℕ) (s : Store) → IsStore s → IsStore (prune deleted now s).0
unfolding prune unexpired
prune-IsStore true now s w = record {
  cache = keep-IsDict beq _ s.blocked w.cache;
  table = keep-IsDict beq _ s.rows w.table;
}
prune-IsStore false now s w = record {
  cache = keep-IsDict beq _ s.blocked w.cache;
  table = w.table;
}

-- In a store whose maps have one entry to a key, pruning at a time changes no verdict from that
-- time on, whether or not the rows are deleted.
pub is_blocked-prune :
    (unicode : Bytes → Bytes) (deleted : Bool) (now t : ℕ) (host : Bytes) (s : Store)
    → IsStore s
    → now ≤ t
    → is_blocked unicode t host (prune deleted now s).0 ≡ is_blocked unicode t host s
unfolding is_blocked prune
is_blocked-prune unicode deleted now t host s w le =
    let p = is_live-unexpired beq beq_iff now t (host_key unicode host) s.blocked le w.cache in
    ground (arith, p)
