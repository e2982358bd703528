-- ===== src/Geoblock.antt =====
-- internal/geoblock/store.go: the blocklist of hosts, a map in memory before a table of SQLite. The
-- SQL statements are written out on the rows, of which the host is the primary key; whether the
-- driver carries a statement out is an argument. Times are nanoseconds.
pub mod Load
pub mod Verdicts
pub mod Restart
pub mod Tests
use sub_preprocessor.Base.{
  ℕ, zero, suc, ◌+◌, ◌-◌, ◌*◌, ◌/◌, ◌%◌, ◌^◌, ◌≤◌, ◌<◌, max, min, ◌≡◌, refl, sym, ap, ◌∙◌, ◌≢◌, ◌↔◌,
  ◌⊎◌, inl, inr, Bool, true, false, not, ◌&&◌, ◌||◌, Option, none, some, List, [], ◌∷◌, ◌++◌, map,
  arith, ◌>>=◌, ltb, leb, ◌==◌, if◌then◌else◌, leb→le, le→leb, ltb→lt, lt→ltb, ==_iff, tests,
  Bool-cases, Option-cases, AllSome, AllSome-bind, bind-eq-some, some-inj, Bytes, codes, beq,
  beq_iff, beq_refl, has_byte, cut, cut_last, split, is_space, trim_left, trim_right, trim_space,
  starts_with, is_digit, is_upper, is_lower, lower_byte, lower_byte_idem, is_ascii, to_lower,
  length, get_elem?, take, drop, length-append, keep, any, every, All, All-append, All-map, Among,
}
use sub_preprocessor.Base.Dict.{find, put}
use sub_preprocessor.Base.Expiry.{is_live, unexpired}

abbrev pub Table : Type 0
Table = List (Bytes × ℕ)

pub record Store : Type 0 where
  pub ttl : ℕ
  pub blocked : Table
  pub rows : Table

-- `strings.TrimSuffix(s, ".")`
unfoldable pub trim_dot : Bytes → Bytes
trim_dot [] = []
trim_dot (c ∷ []) = if c == b'.' then [] else c ∷ []
trim_dot (c ∷ d ∷ s) = c ∷ trim_dot (d ∷ s)

unfoldable pub host_key : (Bytes → Bytes) → Bytes → Bytes
unfolding trim_dot to_lower
host_key unicode host = trim_dot (to_lower unicode host)

-- the expiry of a key, 0 if it has none
unfoldable pub expiry_of : Bytes → Table → ℕ
unfolding find
expiry_of key m = elim (find beq key m) [ none ↦ 0 | some expiry ↦ expiry ]

-- one round of the loop of `load`
unfoldable pub load_row : (Bytes → Bytes) → Bytes × ℕ → Table → Table
unfolding host_key expiry_of put
load_row unicode row m =
    let key = host_key unicode row.0 in
    if ltb (expiry_of key m) row.1 then put beq key row.1 m else m

unfoldable pub load_rows : (Bytes → Bytes) → Table → Table → Table
unfolding load_row
load_rows unicode m [] = m
load_rows unicode m (row ∷ rows) = load_rows unicode (load_row unicode row m) rows

-- `load`: the `DELETE`, then the rows of the `SELECT`. `deleted` and `scanned` say that no error
-- came back of the one, or of reading the other.
unfoldable pub load : (Bytes → Bytes) → Bool → Bool → ℕ → Store → Option Store
unfolding load_rows unexpired keep
load unicode deleted scanned now s =
    let left = unexpired now s.rows in
    let live = keep (λ (e : Bytes × ℕ). ltb now e.1) left in
    if not deleted
    then none
    else if not scanned
    then none
    else some (record s { blocked = load_rows unicode s.blocked live; rows = left })

-- `Open` on the rows of the file, once it is open and has its table
unfoldable pub open_store : (Bytes → Bytes) → Bool → Bool → ℕ → ℕ → Table → Option Store
unfolding load
open_store unicode deleted scanned ttl now rows =
    load unicode deleted scanned now (record { ttl = ttl; blocked = []; rows = rows })

-- `Blocked`
unfoldable pub is_blocked : (Bytes → Bytes) → ℕ → Bytes → Store → Bool
unfolding is_live host_key beq
is_blocked unicode now host s =
    if beq host [] then false else is_live beq now (host_key unicode host) s.blocked

-- `Block`: the store after, and whether no error is returned
unfoldable pub block : (Bytes → Bytes) → Bool → ℕ → Bytes → Store → Store × Bool
unfolding put host_key beq
block unicode written now host s =
    let key = host_key unicode host in
    let expiry = now + s.ttl in
    if beq host [] then (s, true) else (
      record s {
        blocked = put beq key expiry s.blocked;
        rows = if written then put beq key expiry s.rows else s.rows;
      },
      written,
    )

-- `Prune`
unfoldable pub prune : Bool → ℕ → Store → Store × Bool
unfolding unexpired
prune deleted now s = (
  record s {
    blocked = unexpired now s.blocked;
    rows = if deleted then unexpired now s.rows else s.rows;
  },
  deleted,
)

-- `Count`
unfoldable pub count : Store → ℕ
count s = length s.blocked
