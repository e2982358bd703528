-- ===== src/Stable/Arena.antt =====
-- `keyArena` of internal/stable/merge.go: the block that keys are cut from. A view of an older key
-- stays valid because a block is never grown.
use sub_preprocessor.Base.{
  ℕ, zero, suc, ◌+◌, ◌-◌, ◌≤◌, max, ◌≡◌, refl, ap, inl, inr, List, [], ◌∷◌, ◌++◌, arith, ltb,
  if◌then◌else◌, Bool-cases, Bytes, length, take, drop, length-append,
}

abbrev pub arena_block : ℕ
arena_block = 1024

-- the current block: its bytes and its capacity; full blocks are retired with their bytes
pub record Arena : Type 0 where
  pub buf : Bytes
  pub capacity : ℕ
  pub retired : List Bytes

-- a key inside a block: the place of the block, and the bytes before and in the key
pub record View : Type 0 where
  pub block : ℕ
  pub start : ℕ
  pub len : ℕ

abbrev pub empty : Arena
empty = record { buf = []; capacity = 0; retired = [] }

unfoldable pub intern : Arena → Bytes → Arena × View
intern a key =
    let fresh = ltb (a.capacity - length a.buf) (length key) in
    let b : Arena =
      if fresh
      then record {
        buf = [];
        capacity = max arena_block (length key);
        retired = a.retired ++ a.buf ∷ [];
      }
      else a in
    (
      record b { buf = b.buf ++ key },
      record { block = length b.retired; start = length b.buf; len = length key },
    )

unfoldable pub get_block : List Bytes → ℕ → Bytes
get_block [] i = []
get_block (b ∷ bs) zero = b
get_block (b ∷ bs) (suc i) = get_block bs i

-- the bytes of the block that a view points into
unfoldable pub block_of : Arena → ℕ → Bytes
unfolding get_block
block_of a i = get_block (a.retired ++ a.buf ∷ []) i

unfoldable pub read : Arena → View → Bytes
unfolding block_of
read a v = take v.len (drop v.start (block_of a v.block))

-- no block is longer than its capacity
abbrev pub IsWithin : Arena → Type 0
IsWithin a = length a.buf ≤ a.capacity

drop-append : (xs ys : Bytes) → drop (length xs) (xs ++ ys) ≡ ys
drop-append [] ys = refl
drop-append (x ∷ xs) ys = drop-append xs ys

take_all : (ys : Bytes) → take (length ys) ys ≡ ys
take_all [] = refl
take_all (y ∷ ys) = ap (λ l. y ∷ l) (take_all ys)

get_block_last : (l : List Bytes) (b : Bytes) → get_block (l ++ b ∷ []) (length l) ≡ b
unfolding get_block
get_block_last [] b = refl
get_block_last (x ∷ l) b = get_block_last l b

take-append_left : (xs ys : Bytes) (n : ℕ) → n ≤ length xs → take n (xs ++ ys) ≡ take n xs
take-append_left xs ys zero h = refl
take-append_left [] ys (suc n) h = absurd (omega arith)
take-append_left (x ∷ xs) ys (suc n) h = ap (λ l. x ∷ l) (take-append_left xs ys n (omega arith))

slice-append_left :
    (xs ys : Bytes) (i n : ℕ) → i + n ≤ length xs → take n (drop i (xs ++ ys)) ≡ take n (drop i xs)
slice-append_left xs ys zero n h = take-append_left xs ys n (omega arith)
slice-append_left [] ys (suc i) n h = absurd (omega arith)
slice-append_left (x ∷ xs) ys (suc i) n h = slice-append_left xs ys i n (omega arith)

-- The view points into bytes that are there.
pub record IsValid (a : Arena) (v : View) : Type 0 where
  pub block_exists : v.block ≤ length a.retired
  pub inside : v.start + v.len ≤ length (block_of a v.block)

read_last :
    (retired : List Bytes) (buf key : Bytes) (capacity : ℕ)
    → read
        (record { buf = buf ++ key; capacity = capacity; retired = retired })
        (record { block = length retired; start = length buf; len = length key })
      ≡ key
unfolding read block_of
read_last retired buf key capacity =
    rw (get_block_last retired (buf ++ key)) (rw (drop-append buf key) (take_all key))

-- The interned view reads as the key.
pub read-intern : (a : Arena) (key : Bytes) → read (intern a key).0 (intern a key).1 ≡ key
unfolding intern
read-intern a key = elim (Bool-cases (ltb (a.capacity - length a.buf) (length key))) [
  | inl fresh ↦ rw fresh (read_last (a.retired ++ a.buf ∷ []) [] key (max arena_block (length key)))
  | inr room ↦ rw room (read_last a.retired a.buf key a.capacity)
]

-- No append outgrows the block, so no byte of a block is moved.
pub intern-IsWithin : (a : Arena) (key : Bytes) → IsWithin a → IsWithin (intern a key).0
unfolding intern
intern-IsWithin a key w = elim (Bool-cases (ltb (a.capacity - length a.buf) (length key))) [
  | inl fresh ↦ rw fresh (omega arith)
  | inr room ↦ rw room (
      let fits : length key ≤ a.capacity - length a.buf = ground arith in
      omega (arith, length-append a.buf key))
]

slice_grown :
    (retired : List Bytes) (buf key : Bytes) (i s n : ℕ)
    → i ≤ length retired
    → s + n ≤ length (get_block (retired ++ buf ∷ []) i)
    → take n (drop s (get_block (retired ++ (buf ++ key) ∷ []) i))
      ≡ take n (drop s (get_block (retired ++ buf ∷ []) i))
unfolding get_block
slice_grown [] buf key zero s n le h = slice-append_left buf key s n h
slice_grown [] buf key (suc i) s n le h = absurd (omega arith)
slice_grown (x ∷ r) buf key zero s n le h = refl
slice_grown (x ∷ r) buf key (suc i) s n le h = slice_grown r buf key i s n (omega arith) h

get_block_retired :
    (retired : List Bytes) (buf key : Bytes) (i : ℕ)
    → i ≤ length retired
    → get_block ((retired ++ buf ∷ []) ++ key ∷ []) i ≡ get_block (retired ++ buf ∷ []) i
unfolding get_block
get_block_retired [] buf key zero le = refl
get_block_retired [] buf key (suc i) le = absurd (omega arith)
get_block_retired (x ∷ r) buf key zero le = refl
get_block_retired (x ∷ r) buf key (suc i) le = get_block_retired r buf key i (omega arith)

-- Interning one more key does not change the bytes that an earlier valid view reads.
pub read-intern_earlier :
    (a : Arena) (key : Bytes) (v : View) → IsValid a v → read (intern a key).0 v ≡ read a v
unfolding intern read block_of
read-intern_earlier a key v w = elim (Bool-cases (ltb (a.capacity - length a.buf) (length key))) [
  | inl fresh ↦ rw fresh (rw (get_block_retired a.retired a.buf key v.block w.block_exists))
  | inr room ↦
      rw room (slice_grown a.retired a.buf key v.block v.start v.len w.block_exists w.inside)
]
