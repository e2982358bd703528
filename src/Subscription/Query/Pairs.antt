-- ===== src/Subscription/Query/Pairs.antt =====
-- `set` and `get` as operations on a map, whatever repeated keys the link had.
use sub_preprocessor.Base.{
  ℕ, ◌+◌, ◌≡◌, Bool, true, false, [], ◌∷◌, arith, if◌then◌else◌, Bytes, beq, beq_iff,
}
use sub_preprocessor.Subscription.Query.{QueryList, set, set_rest, get}

-- how many pairs have the key
pub occurrences : Bytes → QueryList → ℕ
occurrences key [] = 0
occurrences key (p ∷ ps) = (if beq p.key key then 1 else 0) + occurrences key ps

get-set_rest :
    (q : QueryList) (key value j : Bytes) (found : Bool)
    → get (set_rest key value found q) j
      ≡ (if beq key j then (if found then [] else value) else get q j)
unfolding get set_rest
get-set_rest [] key value j found = ground arith
get-set_rest (p ∷ ps) key value j found = ground (
  arith,
  beq_iff p.key key,
  beq_iff p.key j,
  beq_iff key j,
  get-set_rest ps key value j found,
  get-set_rest ps key value j true,
)

occurrences-set_rest :
    (q : QueryList) (key value j : Bytes) (found : Bool)
    → occurrences j (set_rest key value found q)
      ≡ (if beq key j then (if found then 0 else 1) else occurrences j q)
unfolding occurrences set_rest
occurrences-set_rest [] key value j found = ground arith
occurrences-set_rest (p ∷ ps) key value j found = ground (
  arith,
  beq_iff p.key key,
  beq_iff p.key j,
  beq_iff key j,
  occurrences-set_rest ps key value j found,
  occurrences-set_rest ps key value j true,
)

-- After a key is set, reading it gives the value, it occurs once, and every other key reads and
-- occurs as before.
pub get-set :
    (q : QueryList) (key value j : Bytes)
    → (get (set q key value) j ≡ (if beq key j then value else get q j))
      × (occurrences j (set q key value) ≡ (if beq key j then 1 else occurrences j q))
unfolding set
get-set q key value j = (get-set_rest q key value j false, occurrences-set_rest q key value j false)
