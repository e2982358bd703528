-- ===== src/Stable/Merge/Key.antt =====
-- `lowerServerPort`: the byte loop is `strings.ToLower`, and spellings of one host share a key.
use sub_preprocessor.Base.{
  ◌≡◌, refl, sym, ap, ◌∙◌, inl, inr, Bool, true, false, [], ◌∷◌, ◌++◌, map, arith, ltb, leb,
  if◌then◌else◌, Bool-cases, Bytes, lower_byte, lower_byte_idem, is_ascii, to_lower, every,
}
use mathlib.Core.Path.{ap₂}
use mathlib.Core.List.{append_assoc, append-nil}
use sub_preprocessor.Stable.Merge.{lower_server, lower_server_port}

lower_server_lem :
    (unicode : Bytes → Bytes) (server dst cs : Bytes)
    → lower_server unicode server dst cs
      ≡ (if is_ascii cs then dst ++ map lower_byte cs else to_lower unicode server)
unfolding lower_server is_ascii every
lower_server_lem unicode server dst [] = sym (append-nil dst)
lower_server_lem unicode server dst (c ∷ cs) = elim (Bool-cases (leb 128 c)) [
  | inl big ↦ let n : ltb c 128 ≡ false = ground arith in rw (big, n)
  | inr small ↦
      let y : ltb c 128 ≡ true = ground arith in
      rw (small, y)
        (lower_server_lem unicode server (dst ++ lower_byte c ∷ []) cs ∙ rw append_assoc)
]

-- The byte loop agrees with `strings.ToLower` on every server.
pub lower_server_port-to_lower :
    (unicode : Bytes → Bytes) (server port : Bytes)
    → lower_server_port unicode server port ≡ to_lower unicode server ++ b':' ∷ port
unfolding lower_server_port to_lower
lower_server_port-to_lower unicode server port =
    ap (λ s. s ++ b':' ∷ port)
      (lower_server_lem unicode server [] server ∙ same (is_ascii server) refl)
  where
    same :
        (b : Bool)
        → is_ascii server ≡ b
        → (if b then [] ++ map lower_byte server else to_lower unicode server)
          ≡ to_lower unicode server
    same true e = rw e
    same false e = rw e

map-lower_idem : (s : Bytes) → map lower_byte (map lower_byte s) ≡ map lower_byte s
map-lower_idem [] = refl
map-lower_idem (c ∷ s) = ap₂ (λ x y. x ∷ y) (lower_byte_idem c) (map-lower_idem s)

is_ascii-lower : (s : Bytes) → is_ascii (map lower_byte s) ≡ is_ascii s
unfolding is_ascii every lower_byte
is_ascii-lower [] = refl
is_ascii-lower (c ∷ s) = ground (arith, is_ascii-lower s)

-- An ASCII server and its lower-case spelling are one key, at each port.
pub lower_server_port_folds :
    (unicode : Bytes → Bytes) (server port : Bytes)
    → is_ascii server ≡ true
    → lower_server_port unicode (map lower_byte server) port ≡ lower_server_port unicode server port
lower_server_port_folds unicode server port h =
    lower_server_port-to_lower unicode (map lower_byte server) port
    ∙ ap (λ s. s ++ b':' ∷ port) folds
    ∙ sym (lower_server_port-to_lower unicode server port)
  where
    folds : to_lower unicode (map lower_byte server) ≡ to_lower unicode server
    folds = unfold to_lower in rw (is_ascii-lower server, h) (map-lower_idem server)
