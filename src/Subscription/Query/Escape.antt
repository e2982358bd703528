-- ===== src/Subscription/Query/Escape.antt =====
-- `url.QueryUnescape` undoes the escape, and the escape keeps the separators of a query out.
use sub_preprocessor.Base.{
  ℕ, ◌+◌, ◌*◌, ◌/◌, ◌%◌, ◌<◌, ◌≡◌, refl, ap, ◌∙◌, ◌⊎◌, true, false, ◌||◌, some, [], ◌∷◌, ◌++◌,
  arith, ◌==◌, Bytes, has_byte, All,
}
use sub_preprocessor.Subscription.Query.{
  unescape, unescape_query, escape_byte, escape, cons?, plain, percent, hex_digit, is_hex, unhex,
}

abbrev pub IsBytes : Bytes → Type 0
IsBytes = All (λ (c : ℕ). c < 256)

unescape_plain :
    (c : ℕ) (s : Bytes) → (c == b'%') ≡ false → unescape (c ∷ s) ≡ cons? (plain c) (unescape s)
unfolding unescape
unescape_plain c [] h = rw h
unescape_plain c (a ∷ []) h = rw h
unescape_plain c (a ∷ b ∷ s) h = rw h

hex_digit_lem : (n : ℕ) → n < 16 → (is_hex (hex_digit n) ≡ true) × (unhex (hex_digit n) ≡ n)
hex_digit_lem n h = ground arith

unescape-percent : (c : ℕ) (s : Bytes) → c < 256 → unescape (percent c ++ s) ≡ cons? c (unescape s)
unfolding unescape
unescape-percent c s h =
    let high = hex_digit_lem (c / 16) (omega arith) in
    let low = hex_digit_lem (c % 16) (omega arith) in
    let sum : c / 16 * 16 + c % 16 ≡ c = omega arith in
    rw (high.0, low.0) (rw (high.1, low.1) (rw sum))

unescape-escape_byte :
    (c : ℕ) (s : Bytes) → c < 256 → unescape (escape_byte c ++ s) ≡ cons? c (unescape s)
unfolding escape_byte
unescape-escape_byte c s h =
    ground (arith, unescape_plain c s, unescape_plain b'+' s, unescape-percent c s)

-- every byte comes back, whether it was escaped or not
pub unescape-escape : (s : Bytes) → IsBytes s → unescape (escape s) ≡ some s
unfolding escape
unescape-escape [] h = unfold unescape in refl
unescape-escape (c ∷ cs) h =
    unescape-escape_byte c (escape cs) h.0 ∙ ap (cons? c) (unescape-escape cs h.1)

unescape_none :
    (s : Bytes) → has_byte b'%' s ≡ false → has_byte b'+' s ≡ false → unescape s ≡ some s
unfolding has_byte
unescape_none [] h k = unfold unescape in refl
unescape_none (c ∷ cs) h k = unescape_plain c cs (ground arith) ∙ ground (arith, unescape_none cs)

unescape_query-unescape : (s : Bytes) → unescape_query s ≡ unescape s
unfolding unescape_query
unescape_query-unescape s = ground (arith, unescape_none s)

-- The reader of query values gives back every text of bytes that was escaped.
pub unescape_query-escape : (s : Bytes) → IsBytes s → unescape_query (escape s) ≡ some s
unescape_query-escape s h = unescape_query-unescape (escape s) ∙ unescape-escape s h

pub has_byte-append : (b : ℕ) (s t : Bytes) → has_byte b (s ++ t) ≡ (has_byte b s || has_byte b t)
unfolding has_byte
has_byte-append b [] t = refl
has_byte-append b (c ∷ s) t = ground (arith, has_byte-append b s t)

-- a separator of a query
abbrev pub IsSeparator : ℕ → Type 0
IsSeparator b = (b ≡ b'&') ⊎ ((b ≡ b';') ⊎ (b ≡ b'='))

escape_byte-Lacks : (b c : ℕ) → IsSeparator b → c < 256 → has_byte b (escape_byte c) ≡ false
unfolding has_byte escape_byte
escape_byte-Lacks b c h k = ground arith

-- An escaped text holds no separator.
pub escape-Lacks : (b : ℕ) (s : Bytes) → IsSeparator b → IsBytes s → has_byte b (escape s) ≡ false
unfolding escape
escape-Lacks b [] h k = unfold has_byte in refl
escape-Lacks b (c ∷ cs) h k =
    has_byte-append b (escape_byte c) (escape cs)
    ∙ ground (arith, escape_byte-Lacks b c h k.0, escape-Lacks b cs h k.1)
