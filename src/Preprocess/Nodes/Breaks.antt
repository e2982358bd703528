-- ===== src/Preprocess/Nodes/Breaks.antt =====
-- internal/ioutil/ioutil.go, for internal/preprocess/processor.go: a body has at most one line more
-- than it has line ends.
use sub_preprocessor.Base.{
  ℕ, zero, suc, ◌+◌, ◌≤◌, ◌≡◌, refl, inl, inr, Option, none, some, [], ◌∷◌, arith, ◌==◌, Bool-cases,
  Option-cases, AllSome, AllSome-map, Bytes, cut, trim_space, length,
}
use sub_preprocessor.Ioutil.{next_of, next, lines_from, lines, is_content}
use sub_preprocessor.Preprocess.Nodes.{count_breaks}

-- what is left of a body has at most as many lines as this
weight : Bytes → ℕ
unfolding count_breaks
weight [] = 0
weight (c ∷ cs) = count_breaks (c ∷ cs) + 1

breaks_cut :
    (s : Bytes)
    → AllSome (λ (p : Bytes × Bytes). count_breaks s ≡ count_breaks p.1 + 1) (cut b'\n' s)
unfolding cut count_breaks
breaks_cut [] = tt
breaks_cut (c ∷ cs) =
    let ih = breaks_cut cs in
    elim (Bool-cases (c == b'\n')) [
      | inl y ↦ rw y refl
      | inr n ↦ elim (Option-cases (cut b'\n' cs)) [
        | inl e ↦ rw (n, e) tt
        | inr (p, e) ↦ rw (n, e) (rw e at ih)
      ]
    ]

weight_le : (s : Bytes) → weight s ≤ count_breaks s + 1
unfolding weight
weight_le [] = omega arith
weight_le (c ∷ cs) = omega arith

-- a found line takes at least one from the weight
next-weight :
    (fuel : ℕ) (remain : Bytes)
    → AllSome (λ (p : Bytes × Bytes). weight p.1 + 1 ≤ weight remain) (next fuel remain)
unfolding next next_of weight
next-weight zero remain = tt
next-weight (suc fuel) [] = tt
next-weight (suc fuel) (c ∷ cs) = step (cut b'\n' (c ∷ cs)) (breaks_cut (c ∷ cs)) (next-weight fuel)
  where
    step :
        (o : Option (Bytes × Bytes))
        → AllSome (λ (p : Bytes × Bytes). count_breaks (c ∷ cs) ≡ count_breaks p.1 + 1) o
        → ((r : Bytes) → AllSome (λ (p : Bytes × Bytes). weight p.1 + 1 ≤ weight r) (next fuel r))
        → AllSome
            (λ (p : Bytes × Bytes). weight p.1 + 1 ≤ weight (c ∷ cs))
            (next_of (c ∷ cs) (next fuel) o)
    step none h later = elim (Bool-cases (is_content (trim_space (c ∷ cs)))) [
      | inl y ↦ rw y (omega arith)
      | inr n ↦ rw n tt
    ]
    step (some (head, rest)) h later =
        let w = weight_le rest in
        elim (Bool-cases (is_content (trim_space head))) [
          | inl y ↦ rw y (omega (arith, h, w))
          | inr n ↦ rw n (
              AllSome-map (λ (p : Bytes × Bytes). weight p.1 + 1 ≤ weight rest)
                (λ (p : Bytes × Bytes). weight p.1 + 1 ≤ weight (c ∷ cs))
                (λ p le. omega (arith, h, w, le)) (next fuel rest) (later rest))
        ]

length-lines_from : (fuel : ℕ) (remain : Bytes) → length (lines_from fuel remain) ≤ weight remain
unfolding lines_from
length-lines_from zero remain = omega arith
length-lines_from (suc fuel) remain =
    step (next (length remain + 1) remain) (next-weight (length remain + 1) remain)
      (length-lines_from fuel)
  where
    step :
        (o : Option (Bytes × Bytes))
        → AllSome (λ (p : Bytes × Bytes). weight p.1 + 1 ≤ weight remain) o
        → ((r : Bytes) → length (lines_from fuel r) ≤ weight r)
        → length (elim o [ none ↦ [] | some (line, rest) ↦ line ∷ lines_from fuel rest ])
          ≤ weight remain
    step none h later = omega arith
    step (some (line, rest)) h later = let le = later rest in omega (arith, h, le)

-- Parsing yields at most as many lines as the body has line ends, and one.
pub length-lines : (body : Bytes) → length (lines body) ≤ count_breaks body + 1
unfolding lines
length-lines body = omega (arith, length-lines_from (length body + 1) body, weight_le body)
