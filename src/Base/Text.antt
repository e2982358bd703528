-- ===== src/Base/Text.antt =====
-- Go strings and byte slices as lists of byte values, with the functions of packages strings and
-- bytes that the program calls.
use Prim.Native.Nat.{ℕ, ◌+◌}
use Prim.Native.Char.{code}
use Prim.Native.String.{String}
use mathlib.Core.Path.{◌≡◌, refl}
use mathlib.Core.Logic.{◌↔◌}
use mathlib.Core.Bool.{Bool, true, false, ◌&&◌, ◌||◌}
use mathlib.Core.List.{List, [], ◌∷◌, ◌++◌, map}
use mathlib.Core.Option.{Option, none, some}
use native.Mathlib.Omega.{arith}
use sub_preprocessor.Base.Tests.{ltb, leb, ◌==◌, if◌then◌else◌}
use sub_preprocessor.Base.Lists.{every}

abbrev pub Bytes : Type 0
Bytes = List ℕ

-- The code points of a literal; its bytes, since every literal here is ASCII.
abbrev pub codes : String → Bytes
codes String.[] = []
codes (String.◌∷◌ c s) = code c ∷ codes s

-- `==` on strings
unfoldable pub beq : Bytes → Bytes → Bool
beq [] [] = true
beq (x ∷ xs) (y ∷ ys) = x == y && beq xs ys
beq [] (y ∷ ys) = false
beq (x ∷ xs) [] = false

pub beq_iff : (a b : Bytes) → (beq a b ≡ true) ↔ (a ≡ b)
unfolding beq
beq_iff [] [] = ground arith
beq_iff [] (y ∷ b) = ground arith
beq_iff (x ∷ a) [] = ground arith
beq_iff (x ∷ a) (y ∷ b) = ground (arith, beq_iff a b)

pub beq_refl : (a : Bytes) → beq a a ≡ true
beq_refl a = (beq_iff a a).1 refl

-- `strings.IndexByte` tests for presence
unfoldable pub has_byte : ℕ → Bytes → Bool
has_byte b [] = false
has_byte b (c ∷ cs) = c == b || has_byte b cs

-- `strings.Cut` at one byte: what stands before its first occurrence and what stands behind it
unfoldable pub cut : ℕ → Bytes → Option (Bytes × Bytes)
cut b [] = none
cut b (c ∷ cs) =
    let rest = cut b cs in
    if c == b then some ([], cs) else elim rest [ none ↦ none | some (x, y) ↦ some (c ∷ x, y) ]

pub cut-append : (b : ℕ) (s t : Bytes) → has_byte b s ≡ false → cut b (s ++ b ∷ t) ≡ some (s, t)
unfolding cut has_byte
cut-append b [] t h = ground arith
cut-append b (c ∷ cs) t h = ground (arith, cut-append b cs t)

-- a cut at the last occurrence, for `strings.LastIndexByte`
unfoldable pub cut_last : ℕ → Bytes → Option (Bytes × Bytes)
cut_last b [] = none
cut_last b (c ∷ cs) =
    let rest = cut_last b cs in
    elim rest [ some (x, y) ↦ some (c ∷ x, y) | none ↦ if c == b then some ([], cs) else none ]

-- `strings.Split` at one byte; `""` has one, empty, part
unfoldable pub split : ℕ → Bytes → List Bytes
split b [] = [] ∷ []
split b (c ∷ cs) =
    let rest = split b cs in
    if c == b then [] ∷ rest else elim rest [ [] ↦ (c ∷ []) ∷ [] | p ∷ ps ↦ (c ∷ p) ∷ ps ]

-- the ASCII white space of `strings.TrimSpace` and `bytes.TrimSpace`
abbrev pub is_space : ℕ → Bool
is_space c = c == b' ' || (leb 9 c && leb c 13)

unfoldable pub trim_left : Bytes → Bytes
trim_left [] = []
trim_left (c ∷ cs) = let rest = trim_left cs in if is_space c then rest else c ∷ cs

unfoldable pub trim_right : Bytes → Bytes
trim_right [] = []
trim_right (c ∷ cs) =
    let rest = trim_right cs in
    elim rest [ [] ↦ if is_space c then [] else c ∷ [] | d ∷ ds ↦ c ∷ d ∷ ds ]

unfoldable pub trim_space : Bytes → Bytes
unfolding trim_left trim_right
trim_space s = trim_right (trim_left s)

unfoldable pub starts_with : Bytes → Bytes → Bool
starts_with [] s = true
starts_with (p ∷ ps) [] = false
starts_with (p ∷ ps) (c ∷ cs) = p == c && starts_with ps cs

abbrev pub is_digit : ℕ → Bool
is_digit c = leb b'0' c && leb c b'9'

abbrev pub is_upper : ℕ → Bool
is_upper c = leb b'A' c && leb c b'Z'

abbrev pub is_lower : ℕ → Bool
is_lower c = leb b'a' c && leb c b'z'

-- one byte of an ASCII `strings.ToLower`
unfoldable pub lower_byte : ℕ → ℕ
lower_byte c = if is_upper c then c + 32 else c

pub lower_byte_idem : (c : ℕ) → lower_byte (lower_byte c) ≡ lower_byte c
unfolding lower_byte
lower_byte_idem c = ground arith

unfoldable pub is_ascii : Bytes → Bool
unfolding every
is_ascii = every (λ c. ltb c 128)

-- `strings.ToLower`: byte by byte on ASCII text; `unicode` maps any other text.
unfoldable pub to_lower : (Bytes → Bytes) → Bytes → Bytes
unfolding is_ascii lower_byte
to_lower unicode s = if is_ascii s then map lower_byte s else unicode s
