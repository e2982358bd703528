-- ===== src/Rewrite/Tags.antt =====
-- internal/rewrite/rewrite.go: the tags that the scan of a name knows, as they are written.
use sub_preprocessor.Base.{
  AllSome, ℕ, ◌≡◌, refl, ap, ◌∙◌, ◌↔◌, ◌⊎◌, inl, inr, true, false, ◌||◌, some, [], ◌∷◌, ◌++◌, arith,
  ◌==◌, Bool-cases, Option-cases, Bytes, codes, beq, beq_iff, has_byte, cut, cut-append,
  starts_with, trim_left, trim_right, trim_space, All,
}
use sub_preprocessor.Rewrite.{skip_gap, is_known_tag, tag_at, after_tag}

-- a tag in brackets, behind a gap
pub record Tag : Type 0 where
  pub gap : Bytes
  pub text : Bytes

-- spaces and tabs
abbrev pub IsGap : Bytes → Type 0
IsGap gap = All (λ (c : ℕ). (c ≡ b' ') ⊎ (c ≡ b'\t')) gap

abbrev pub Starts : Bytes → Bytes → Type 0
Starts prefix s = (rest : Bytes) × (s ≡ prefix ++ rest)

-- the tags that the program writes
abbrev pub IsKnown : Bytes → Type 0
IsKnown text =
    (text ≡ codes "OK")
    ⊎ (text ≡ codes "BAD")
    ⊎ Starts (codes "GEO:") text
    ⊎ Starts (codes "IP:") text
    ⊎ Starts (codes "ASN:") text
    ⊎ Starts (codes "JUR:") text
    ⊎ Starts (codes "SPD:") text

pub record IsTag (t : Tag) : Type 0 where
  pub blank : IsGap t.gap
  pub closed : has_byte b']' t.text ≡ false
  pub known : IsKnown t.text

abbrev pub written_tag : Tag → Bytes → Bytes
written_tag t s = t.gap ++ b'[' ∷ (t.text ++ b']' ∷ s)

starts_with_iff : (p s : Bytes) → (starts_with p s ≡ true) ↔ Starts p s
unfolding starts_with
starts_with_iff [] s = (λ e. (s, refl), λ h. refl)
starts_with_iff (x ∷ p) [] = (λ e. absurd (cc), λ (r, e). absurd (cc))
starts_with_iff (x ∷ p) (c ∷ s) =
    let ih = starts_with_iff p s in
    (
      λ e.
          let same : x ≡ c = ground (arith, e) in
          let more : starts_with p s ≡ true = ground (arith, e) in
          let (r, q) = ih.0 more in (r, cc),
      λ (r, e).
          let same : x ≡ c = cc in
          let more : s ≡ p ++ r = cc in let k = ih.1 (r, more) in ground (arith, same, k),
    )

-- the text is `OK`, `BAD` or starts with one of the five marks
pub known_iff : (text : Bytes) → (is_known_tag text ≡ true) ↔ IsKnown text
unfolding is_known_tag
known_iff text =
    let ok = beq_iff text (codes "OK") in
    let bad = beq_iff text (codes "BAD") in
    let geo = starts_with_iff (codes "GEO:") text in
    let ip = starts_with_iff (codes "IP:") text in
    let asn = starts_with_iff (codes "ASN:") text in
    let jur = starts_with_iff (codes "JUR:") text in
    let spd = starts_with_iff (codes "SPD:") text in
    (
      λ e. elim (Bool-cases (beq text (codes "OK"))) [
        | inl y ↦ inl (ok.0 y)
        | inr a ↦ elim (Bool-cases (beq text (codes "BAD"))) [
          | inl y ↦ inr (inl (bad.0 y))
          | inr b ↦ elim (Bool-cases (starts_with (codes "GEO:") text)) [
            | inl y ↦ inr (inr (inl (geo.0 y)))
            | inr c ↦ elim (Bool-cases (starts_with (codes "IP:") text)) [
              | inl y ↦ inr (inr (inr (inl (ip.0 y))))
              | inr d ↦ elim (Bool-cases (starts_with (codes "ASN:") text)) [
                | inl y ↦ inr (inr (inr (inr (inl (asn.0 y)))))
                | inr f ↦ elim (Bool-cases (starts_with (codes "JUR:") text)) [
                  | inl y ↦ inr (inr (inr (inr (inr (inl (jur.0 y))))))
                  | inr g ↦
                      let y : starts_with (codes "SPD:") text ≡ true = ground arith in
                      inr (inr (inr (inr (inr (inr (spd.0 y))))))
                ]
              ]
            ]
          ]
        ]
      ],
      λ k. elim k [
        | inl e ↦ let y = ok.1 e in ground (arith, y)
        | inr (inl e) ↦ let y = bad.1 e in ground (arith, y)
        | inr (inr (inl e)) ↦ let y = geo.1 e in ground (arith, y)
        | inr (inr (inr (inl e))) ↦ let y = ip.1 e in ground (arith, y)
        | inr (inr (inr (inr (inl e)))) ↦ let y = asn.1 e in ground (arith, y)
        | inr (inr (inr (inr (inr (inl e))))) ↦ let y = jur.1 e in ground (arith, y)
        | inr (inr (inr (inr (inr (inr e))))) ↦ let y = spd.1 e in ground (arith, y)
      ],
    )

skip_gap-append : (gap s : Bytes) → IsGap gap → skip_gap (gap ++ s) ≡ skip_gap s
unfolding skip_gap
skip_gap-append [] s h = refl
skip_gap-append (c ∷ gap) s h = let ih = skip_gap-append gap s h.1 in ground (arith, ih, h.0)

-- what is skipped is a gap
skip_gap-IsGap : (s : Bytes) → (gap : Bytes) × IsGap gap × (s ≡ gap ++ skip_gap s)
unfolding skip_gap
skip_gap-IsGap [] = ([], tt, refl)
skip_gap-IsGap (c ∷ s) = elim (Bool-cases (c == b' ' || c == b'\t')) [
  | inr n ↦ ([], tt, rw n refl)
  | inl y ↦
      let (gap, h, e) = skip_gap-IsGap s in
      let blank : (c ≡ b' ') ⊎ (c ≡ b'\t') = ground (arith, y) in
      (c ∷ gap, (blank, h), rw y (ap (λ l. c ∷ l) e))
]

trim_left-skip_gap : (s : Bytes) → trim_left (skip_gap s) ≡ trim_left s
unfolding trim_left skip_gap
trim_left-skip_gap [] = refl
trim_left-skip_gap (c ∷ s) = let ih = trim_left-skip_gap s in ground (arith, ih)

-- the gap before the name is white space, which is trimmed anyway
pub trim_space-skip_gap : (s : Bytes) → trim_space (skip_gap s) ≡ trim_space s
unfolding trim_space
trim_space-skip_gap s = ap (λ l. trim_right l) (trim_left-skip_gap s)

-- a cut finds the first of its bytes
cut_lem :
    (b : ℕ) (s : Bytes)
    → AllSome (λ (p : Bytes × Bytes). (s ≡ p.0 ++ b ∷ p.1) × (has_byte b p.0 ≡ false)) (cut b s)
unfolding cut has_byte
cut_lem b [] = tt
cut_lem b (c ∷ s) = elim (Bool-cases (c == b)) [
  | inl y ↦ let same : c ≡ b = ground (arith, y) in rw y (ap (λ x. x ∷ s) same, refl)
  | inr n ↦ elim (Option-cases (cut b s)) [
    | inl e ↦ rw (n, e) tt
    | inr (p, e) ↦
        let (a, h) = rw e at (cut_lem b s) in rw (n, e) (ap (λ l. c ∷ l) a, ground (arith, n, h))
  ]
]

tag_at_lem :
    (s rest : Bytes)
    → tag_at s ≡ some rest
    → (text : Bytes) × (has_byte b']' text ≡ false)
      × IsKnown text
      × (s ≡ b'[' ∷ (text ++ b']' ∷ rest))
unfolding tag_at
tag_at_lem [] rest e = absurd (cc)
tag_at_lem (c ∷ s) rest e = elim (Option-cases (cut b']' s)) [
  | inl n ↦ absurd (ground (arith, n, e))
  | inr (p, q) ↦
      let (a, h) = rw q at (cut_lem b']' s) in
      let known : is_known_tag p.0 ≡ true = ground (arith, q, e) in
      let open_one : c ≡ b'[' = ground (arith, q, e) in
      let same : p.1 ≡ rest = ground (arith, q, e) in (p.0, h, (known_iff p.0).0 known, cc)
]

pub after_tag-written : (t : Tag) (s : Bytes) → IsTag t → after_tag (written_tag t s) ≡ some s
unfolding after_tag tag_at
after_tag-written t s h =
    let g = skip_gap-append t.gap (b'[' ∷ (t.text ++ b']' ∷ s)) h.blank in
    let c = cut-append b']' t.text s h.closed in
    let k = (known_iff t.text).1 h.known in ground (arith, g, c, k)

-- the scan finds nothing but a written tag
pub after_tag-IsTag :
    (s rest : Bytes) → after_tag s ≡ some rest → (t : Tag) × IsTag t × (s ≡ written_tag t rest)
unfolding after_tag
after_tag-IsTag s rest e =
    let (gap, h, g) = skip_gap-IsGap s in
    let (text, closed, known, a) = tag_at_lem (skip_gap s) rest e in
    (
      record { gap = gap; text = text },
      record { blank = h; closed = closed; known = known },
      g ∙ ap (λ l. gap ++ l) a,
    )
