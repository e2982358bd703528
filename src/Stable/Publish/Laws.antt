-- ===== src/Stable/Publish/Laws.antt =====
-- The published survivors, their countries and their lines.
use sub_preprocessor.Base.{
  ℕ, ◌+◌, ◌-◌, ◌*◌, ◌/◌, ◌%◌, ◌<◌, ◌≡◌, refl, ap, ◌&&◌, Option, none, some, List, [], ◌∷◌, ◌++◌,
  map, arith, ◌==◌, if◌then◌else◌, Bytes,
}
use sub_preprocessor.Filter.{CountryCode}
use sub_preprocessor.Subscription.Node.{Node}
use sub_preprocessor.Stable.Select.{Survivor}
use sub_preprocessor.Stable.Publish.{
  written, Annotator, country_string, country_unknown, line_of, render, publish_one,
  annotated_payload, plain_payload,
}

table_lem :
    (a b : ℕ)
    → b < 26
    → (b'A' + (a * 26 + b) / 26 ≡ b'A' + a) × (b'A' + (a * 26 + b) % 26 ≡ b'A' + b)
table_lem a b h = (omega arith, omega arith)

-- The table of codes and the fallback give the same text: the two bytes of the code, and the
-- marker for the zero code.
pub country_string_lem :
    (c : CountryCode)
    → country_string c ≡ (if c.hi == 0 && c.lo == 0 then country_unknown else c.hi ∷ c.lo ∷ [])
unfolding country_string
country_string_lem c = ground (arith, table_lem (c.hi - b'A') (c.lo - b'A'))

module _ (parse_one : Bytes → Option Node) (annotate : Annotator) where
  -- the line of one survivor, without its end
  unfoldable pub published_line : Survivor → Bytes
  published_line s = (written s (render parse_one annotate s)).1

-- each line followed by its end
abbrev pub join_lines : List Bytes → Bytes
join_lines [] = []
join_lines (l ∷ ls) = line_of l ++ join_lines ls

-- the survivor but for its country, which publication fills
abbrev pub SameButCountry : Survivor → Survivor → Type 0
SameButCountry s t =
    (s.entry.label ≡ t.entry.label)
    × (s.entry.raw ≡ t.entry.raw)
    × (s.entry.addr ≡ t.entry.addr)
    × (s.entry.ip ≡ t.entry.ip)
    × (s.mean_ms ≡ t.mean_ms)
    × (s.mbps ≡ t.mbps)
    × (s.egress ≡ t.egress)

written-SameButCountry :
    (s : Survivor) (o : Option (Bytes × CountryCode)) → SameButCountry s (written s o).0
unfolding written
written-SameButCountry s none = (refl, refl, refl, refl, refl, refl, refl)
written-SameButCountry s (some (line, country)) = (refl, refl, refl, refl, refl, refl, refl)

abbrev pub PairedSame : List Survivor → List Survivor → Type 0
PairedSame [] [] = Unit
PairedSame (s ∷ ss) (t ∷ ts) = SameButCountry s t × PairedSame ss ts
PairedSame _ _ = ⊥

-- The annotated list is one line for each survivor in order, and publication changes no field of
-- a survivor but the country.
pub annotated_payload_lem :
    (parse_one : Bytes → Option Node) (annotate : Annotator) (ss : List Survivor)
    → ((annotated_payload parse_one annotate ss).1
        ≡ join_lines (map (published_line parse_one annotate) ss))
      × PairedSame ss (annotated_payload parse_one annotate ss).0
unfolding annotated_payload published_line publish_one
annotated_payload_lem parse_one annotate [] = (refl, tt)
annotated_payload_lem parse_one annotate (s ∷ ss) =
    let (lines_eq, same) = annotated_payload_lem parse_one annotate ss in
    (
      ap (λ l. line_of (written s (render parse_one annotate s)).1 ++ l) lines_eq,
      (written-SameButCountry s (render parse_one annotate s), same),
    )

pub plain_payload_lem :
    (ss : List Survivor) → plain_payload ss ≡ join_lines (map (λ (s : Survivor). s.entry.raw) ss)
unfolding plain_payload
plain_payload_lem [] = refl
plain_payload_lem (s ∷ ss) = ap (λ l. line_of s.entry.raw ++ l) (plain_payload_lem ss)
