-- ===== src/Subscription/Parser/Ports.antt =====
-- internal/subscription/subscription.go and mieru.go: the texts that are ports.
use sub_preprocessor.Base.{
  ℕ, zero, suc, ◌+◌, ◌-◌, ◌*◌, ◌/◌, ◌%◌, ◌≤◌, ◌<◌, ◌≡◌, refl, ◌∙◌, inl, inr, true, false, some, [],
  ◌∷◌, ◌++◌, arith, ltb, Bool-cases, Option-cases, AllSome, Bytes, codes, starts_with, length,
  length-append,
}
use sub_preprocessor.Base.Decimal.{
  digits, format, value_from, all_digits, value_from-format, format-all_digits,
}
use sub_preprocessor.Subscription.Endpoint.{port_digits, port_number}

port_digits-value_from :
    (s : Bytes) (n : ℕ) → all_digits s ≡ true → port_digits n s ≡ some (value_from n s)
unfolding port_digits value_from all_digits
port_digits-value_from [] n h = refl
port_digits-value_from (c ∷ s) n h =
    let ih = port_digits-value_from s (n * 10 + (c - b'0')) in ground (arith, h, ih)

abbrev tens : ℕ → ℕ
tens zero = 1
tens (suc k) = 10 * tens k

digits-length : (k fuel n : ℕ) → n < tens (suc k) → length (digits fuel n) ≤ suc k
unfolding digits
digits-length k zero n h = ground arith
digits-length zero (suc fuel) n h = ground arith
digits-length (suc k) (suc fuel) n h =
    let small : n / 10 < tens (suc k) = omega (arith, h) in
    let ih : length (digits fuel (n / 10)) ≤ suc k = digits-length k fuel (n / 10) small in
    let l = length-append (digits fuel (n / 10)) ((b'0' + n % 10) ∷ []) in ground (arith, ih, l)

starts_with-append :
    (z : ℕ) (r x : Bytes) → 0 < length r → starts_with (z ∷ []) (r ++ x) ≡ starts_with (z ∷ []) r
unfolding starts_with
starts_with-append z [] x h = ground arith
starts_with-append z (c ∷ r) x h = ground arith

digits-leading :
    (fuel n : ℕ)
    → 0 < n
    → n < fuel
    → (0 < length (digits fuel n)) × (starts_with (codes "0") (digits fuel n) ≡ false)
unfolding digits starts_with
digits-leading zero n p h = ground arith
digits-leading (suc fuel) n p h = elim (Bool-cases (ltb n 10)) [
  | inl y ↦ rw y (ground arith)
  | inr y ↦
      let ih = digits-leading fuel (n / 10) (ground arith) (ground arith) in
      let l = length-append (digits fuel (n / 10)) ((b'0' + n % 10) ∷ []) in
      let s = starts_with-append b'0' (digits fuel (n / 10)) ((b'0' + n % 10) ∷ []) ih.0 in
      rw y (ground (arith, l, ih.0), s ∙ ih.1)
]

-- The decimal numeral of each number from 1 to 65535 is read as that port.
pub port_number-format : (n : ℕ) → 1 ≤ n → n ≤ 65535 → port_number (format n) ≡ some n
unfolding port_number format
port_number-format n lo hi =
    let d = port_digits-value_from (format n) 0 (format-all_digits n) in
    let v = value_from-format n in
    let l = digits-length 4 (n + 1) n (ground arith) in
    let z = digits-leading (n + 1) n (ground arith) (ground arith) in ground (arith, d, v, l, z)

-- Whatever text is read as a port, the port is in range.
pub port_number-bounds : (s : Bytes) → AllSome (λ n. (1 ≤ n) × (n ≤ 65535)) (port_number s)
unfolding port_number
port_number-bounds s = elim (Option-cases (port_digits 0 s)) [
  | inl n ↦ ground (arith, n)
  | inr (n, e) ↦ ground (arith, e)
]
