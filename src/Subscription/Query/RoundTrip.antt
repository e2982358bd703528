-- ===== src/Subscription/Query/RoundTrip.antt =====
-- Reading back an encoded query.
use sub_preprocessor.Base.{
  cut-append, ℕ, suc, ◌≤◌, ◌≡◌, refl, sym, ap, ◌∙◌, ◌≢◌, ◌⊎◌, inl, inr, true, false, none, some,
  List, [], ◌∷◌, ◌++◌, map, arith, ltb, if◌then◌else◌, Bytes, beq, beq_iff, has_byte, split, length,
  keep, All,
}
use mathlib.Core.List.{append_assoc, append-nil}
use mathlib.Core.List.{Perm}
use sub_preprocessor.Base.Sort.{
  IsOrder, IsSorted, sort, sort-All, sort-IsSorted, sort-perm, length-sort, keep-sort,
}
use sub_preprocessor.Subscription.Query.{
  QueryPair, QueryList, add, cut_pair, parse_pair, parse_segments, parse, max_query_params, escape,
  encode_pair, encode_pairs, encode, sort_by_key, key_leq, bytes_leq,
}
use sub_preprocessor.Subscription.Query.Escape.{
  IsBytes, IsSeparator, unescape_query-escape, escape-Lacks, has_byte-append,
}

abbrev pub IsBytePair : QueryPair → Type 0
IsBytePair p = IsBytes p.key × IsBytes p.value

split_single : (b : ℕ) (s : Bytes) → has_byte b s ≡ false → split b s ≡ s ∷ []
unfolding split has_byte
split_single b [] h = refl
split_single b (c ∷ cs) h = ground (arith, split_single b cs)

split_first : (b : ℕ) (s t : Bytes) → has_byte b s ≡ false → split b (s ++ b ∷ t) ≡ s ∷ split b t
unfolding split has_byte
split_first b [] t h = ground arith
split_first b (c ∷ cs) t h = ground (arith, split_first b cs t)

encode_pair-Lacks :
    (b : ℕ) (p : QueryPair)
    → (b ≡ b'&') ⊎ (b ≡ b';')
    → IsBytePair p
    → has_byte b (encode_pair p) ≡ false
unfolding encode_pair
encode_pair-Lacks b p h w =
    let sep : IsSeparator b = elim h [ inl e ↦ inl e | inr e ↦ inr (inl e) ] in
    has_byte-append b (escape p.key) (b'=' ∷ escape p.value)
    ∙ rw (escape-Lacks b p.key sep w.0)
        (unfold has_byte in ground (arith, escape-Lacks b p.value sep w.1))

parse_pair-encode_pair : (p : QueryPair) → IsBytePair p → parse_pair (encode_pair p) ≡ some p
unfolding parse_pair
parse_pair-encode_pair p w =
    rw pieces (rw (unescape_query-escape p.key w.0) (rw (unescape_query-escape p.value w.1)))
  where
    pieces : cut_pair (encode_pair p) ≡ (escape p.key, escape p.value)
    pieces =
        unfold cut_pair encode_pair in
        rw (
          cut-append b'=' (escape p.key) (escape p.value)
              (escape-Lacks b'=' p.key (inr (inr refl)) w.0),
          cut_pair,
        )

parse_segments_step :
    (q : QueryList) (s : Bytes) (rest : List Bytes) (p : QueryPair)
    → s ≢ []
    → has_byte b';' s ≡ false
    → parse_pair s ≡ some p
    → parse_segments q (s ∷ rest) ≡ parse_segments (q ++ p ∷ []) rest
unfolding parse_segments add
parse_segments_step q [] rest p ne h e = absurd (ne refl)
parse_segments_step q (c ∷ cs) rest p ne h e = rw h (rw e)

encode_pair-ne_nil : (p : QueryPair) → encode_pair p ≢ []
unfolding encode_pair
encode_pair-ne_nil p = go (escape p.key)
  where
    go : (k : Bytes) → (k ++ b'=' ∷ escape p.value) ≢ []
    go [] e = cc
    go (c ∷ k) e = cc

parse_segments-encode :
    (q ps : QueryList) → All IsBytePair ps → parse_segments q (map encode_pair ps) ≡ some (q ++ ps)
parse_segments-encode q [] w = unfold parse_segments in rw append-nil
parse_segments-encode q (p ∷ ps) w =
    parse_segments_step q (encode_pair p) (map encode_pair ps) p (encode_pair-ne_nil p)
      (encode_pair-Lacks b';' p (inr refl) w.0) (parse_pair-encode_pair p w.0)
    ∙ parse_segments-encode (q ++ p ∷ []) ps w.1
    ∙ ap some (append_assoc q (p ∷ []) ps)

split-encode_pairs :
    (p : QueryPair) (ps : QueryList)
    → All IsBytePair (p ∷ ps)
    → split b'&' (encode_pairs (p ∷ ps)) ≡ map encode_pair (p ∷ ps)
unfolding encode_pairs
split-encode_pairs p [] w =
    split_single b'&' (encode_pair p) (encode_pair-Lacks b'&' p (inl refl) w.0)
split-encode_pairs p (q ∷ rest) w =
    split_first b'&' (encode_pair p) (encode_pairs (q ∷ rest))
      (encode_pair-Lacks b'&' p (inl refl) w.0)
    ∙ ap (λ l. encode_pair p ∷ l) (split-encode_pairs q rest w.1)

length-map-encode : (ps : QueryList) → length (map encode_pair ps) ≡ length ps
length-map-encode [] = refl
length-map-encode (p ∷ ps) = ap suc (length-map-encode ps)

parse-encode_pairs :
    (ps : QueryList)
    → All IsBytePair ps
    → length ps ≤ max_query_params
    → parse [] (encode_pairs ps) ≡ some ps
unfolding parse
parse-encode_pairs [] w h = unfold encode_pairs split parse_segments in refl
parse-encode_pairs (p ∷ ps) w h =
    rw (split-encode_pairs p ps w)
      (fits (length-map-encode (p ∷ ps)) ∙ parse_segments-encode [] (p ∷ ps) w)
  where
    fits :
        length (map encode_pair (p ∷ ps)) ≡ length (p ∷ ps)
        → (if ltb max_query_params (length (map encode_pair (p ∷ ps)))
            then none
            else parse_segments [] (map encode_pair (p ∷ ps)))
          ≡ parse_segments [] (map encode_pair (p ∷ ps))
    fits e = rw e (ground arith)

-- A list of at most 10000 pairs of byte texts, encoded and parsed, is the list sorted by key.
pub parse-encode :
    (q : QueryList)
    → All IsBytePair q
    → length q ≤ max_query_params
    → parse [] (encode q) ≡ some (sort_by_key q)
unfolding encode sort_by_key
parse-encode q w h =
    parse-encode_pairs (sort key_leq q) (sort-All key_leq IsBytePair q w)
      (rw (length-sort key_leq q) h)

bytes_leq-total : (a b : Bytes) → bytes_leq a b ≡ false → bytes_leq b a ≡ true
unfolding bytes_leq
bytes_leq-total [] b h = cc
bytes_leq-total (x ∷ a) [] h = refl
bytes_leq-total (x ∷ a) (y ∷ b) h = ground (arith, bytes_leq-total a b)

bytes_leq_trans :
    (a b c : Bytes) → bytes_leq a b ≡ true → bytes_leq b c ≡ true → bytes_leq a c ≡ true
unfolding bytes_leq
bytes_leq_trans [] b c h k = refl
bytes_leq_trans (x ∷ a) [] c h k = cc
bytes_leq_trans (x ∷ a) (y ∷ b) [] h k = cc
bytes_leq_trans (x ∷ a) (y ∷ b) (z ∷ c) h k = ground (arith, bytes_leq_trans a b c)

key_leq-IsOrder : IsOrder key_leq
key_leq-IsOrder = record {
  total = λ p q h. bytes_leq-total p.key q.key h;
  trans = λ p q r h k. bytes_leq_trans p.key q.key r.key h k;
}

bytes_leq_refl : (a : Bytes) → bytes_leq a a ≡ true
unfolding bytes_leq
bytes_leq_refl [] = refl
bytes_leq_refl (x ∷ a) = ground (arith, bytes_leq_refl a)

-- The encoder orders the pairs by key, moves them only, and keeps the pairs of one key in their
-- order.
pub sort_by_key_lem :
    (q : QueryList) (key : Bytes)
    → IsSorted key_leq (sort_by_key q)
      × Perm (sort_by_key q) q
      × (keep (λ p. beq p.key key) (sort_by_key q) ≡ keep (λ p. beq p.key key) q)
unfolding sort_by_key
sort_by_key_lem q key = (
  sort-IsSorted key_leq key_leq-IsOrder q,
  sort-perm key_leq q,
  keep-sort key_leq (λ (p : QueryPair). beq p.key key)
      (λ a b h k.
        let e : a.key ≡ b.key = (beq_iff a.key key).0 h ∙ sym ((beq_iff b.key key).0 k) in
        rw e (bytes_leq_refl b.key))
      q,
)
