-- ===== src/Preprocess/Chain/Order.antt =====
-- internal/preprocess/processor.go: that leaving out repeated providers changes no verdict.
use sub_preprocessor.Base.{
  ◌≤◌, ◌≡◌, refl, sym, ap, ◌∙◌, ◌≢◌, ◌⊎◌, inl, inr, Bool, true, false, not, ◌||◌, List, [], ◌∷◌,
  ◌++◌, map, arith, if◌then◌else◌, Bool-cases, if_either, Bytes, codes, beq, beq_iff, length,
  length-append, keep,
}
use mathlib.Core.Path.{subst}
use sub_preprocessor.Netip.{Addr}
use sub_preprocessor.Filter.{CountryCode}
use sub_preprocessor.Stable.Merge.{seen_key}
use sub_preprocessor.Preprocess.Chain.{
  AnnotateSpec, local_country_provider, geo_providers, order_from, is_plain, country_chain_order,
  is_placed, chain_lookup, Lookups, lookup_named, country_chain,
}

-- what the chain of a list of providers gives
unfoldable pub first_placed : Lookups → List Bytes → Addr → CountryCode
unfolding chain_lookup
first_placed ls names ip = chain_lookup (map (lookup_named ls) names) ip

chain-append :
    (ls : Lookups) (xs ys : List Bytes) (ip : Addr)
    → first_placed ls (xs ++ ys) ip
      ≡ (if is_placed (first_placed ls xs ip) then first_placed ls xs ip else first_placed ls ys ip)
unfolding first_placed
chain-append ls [] ys ip = refl
chain-append ls (x ∷ xs) ys ip =
    let ih = chain-append ls xs ys ip in
    elim (Bool-cases (is_placed (lookup_named ls x ip))) [
      | inl y ↦ rw (y, chain_lookup) (rw y refl)
      | inr n ↦ rw n ih
    ]

-- a provider in the buffer places nothing that the buffer does not
known_provider :
    (ls : Lookups) (p : Bytes) (buf : List Bytes) (ip : Addr)
    → seen_key p buf ≡ true
    → is_placed (first_placed ls buf ip) ≡ false
    → is_placed (lookup_named ls p ip) ≡ false
unfolding first_placed chain_lookup seen_key
known_provider ls p [] ip h e = absurd (cc)
known_provider ls p (b ∷ buf) ip h e = elim (Bool-cases (is_placed (lookup_named ls b ip))) [
  | inl y ↦ let bad : is_placed (lookup_named ls b ip) ≡ false = rw y at e in absurd (cc)
  | inr n ↦ elim (Bool-cases (beq b p)) [
    | inl same ↦
        let q : b ≡ p = (beq_iff b p).0 same in
        subst (λ (x : Bytes). is_placed (lookup_named ls x ip) ≡ false) q n
    | inr other ↦ known_provider ls p buf ip (rw other at h) (rw n at e)
  ]
]

skip_known :
    (ls : Lookups) (p : Bytes) (buf rest : List Bytes) (ip : Addr)
    → seen_key p buf ≡ true
    → first_placed ls (buf ++ rest) ip ≡ first_placed ls (buf ++ p ∷ rest) ip
unfolding first_placed
skip_known ls p buf rest ip h =
    chain-append ls buf rest ip
    ∙ (same (first_placed ls buf ip) (known_provider ls p buf ip h)
        ∙ sym (chain-append ls buf (p ∷ rest) ip))
  where
    same :
        (c : CountryCode)
        → (is_placed c ≡ false → is_placed (lookup_named ls p ip) ≡ false)
        → (if is_placed c then c else first_placed ls rest ip)
          ≡ (if is_placed c then c else first_placed ls (p ∷ rest) ip)
    same c none_else = elim (Bool-cases (is_placed c)) [
      | inl y ↦ rw y refl
      | inr n ↦ rw n (rw (none_else n, chain_lookup) refl)
    ]

append_one : (xs ys : List Bytes) (y : Bytes) → (xs ++ y ∷ []) ++ ys ≡ xs ++ y ∷ ys
append_one [] ys y = refl
append_one (x ∷ xs) ys y = ap (λ l. x ∷ l) (append_one xs ys y)

append_nil : (xs : List Bytes) → xs ++ [] ≡ xs
append_nil [] = refl
append_nil (x ∷ xs) = ap (λ l. x ∷ l) (append_nil xs)

module _ (ls : Lookups) (is_local : Bytes → Bool) (ip : Addr) where
  order_from_lem :
      (buf provs : List Bytes)
      → first_placed ls (order_from is_local buf provs) ip
        ≡ first_placed ls (buf ++ keep is_local provs) ip
  unfolding order_from keep
  order_from_lem buf [] = ap (λ l. first_placed ls l ip) (sym (append_nil buf))
  order_from_lem buf (p ∷ provs) =
      let skipped = order_from_lem buf provs in
      let added = order_from_lem (buf ++ p ∷ []) provs in
      elim (Bool-cases (is_local p)) [
        | inr n ↦ rw n skipped
        | inl y ↦ elim (Bool-cases (seen_key p buf)) [
          | inl known ↦ rw (y, known) (skipped ∙ skip_known ls p buf (keep is_local provs) ip known)
          | inr new ↦
              rw (y, new)
                (added ∙ ap (λ l. first_placed ls l ip) (append_one buf (keep is_local provs) p))
        ]
      ]

  order_from_none :
      (buf provs : List Bytes) → keep is_local provs ≡ [] → order_from is_local buf provs ≡ buf
  unfolding order_from keep
  order_from_none buf [] e = refl
  order_from_none buf (p ∷ provs) e = elim (Bool-cases (is_local p)) [
    | inr n ↦ rw n (order_from_none buf provs (rw n at e))
    | inl y ↦ let bad : p ∷ keep is_local provs ≡ [] = rw y at e in absurd (cc)
  ]

  -- the buffer only grows
  order_from_grows : (buf provs : List Bytes) → length buf ≤ length (order_from is_local buf provs)
  unfolding order_from
  order_from_grows buf [] = omega arith
  order_from_grows buf (p ∷ provs) =
      if_either (λ (l : List Bytes). length buf ≤ length l) (not (is_local p) || seen_key p buf) _ _
        (order_from_grows buf provs)
        λ new.
          let ih = order_from_grows (buf ++ p ∷ []) provs in
          omega (arith, ih, length-append buf (p ∷ []))

  order_from_some :
      (provs : List Bytes) → order_from is_local [] provs ≡ [] → keep is_local provs ≡ []
  unfolding order_from keep
  order_from_some [] e = refl
  order_from_some (p ∷ provs) e = elim (Bool-cases (is_local p)) [
    | inr n ↦ rw n (order_from_some provs (rw n at e))
    | inl y ↦
        let first : order_from is_local (p ∷ []) provs ≡ [] = rw (y, seen_key) at e in
        let g = order_from_grows (p ∷ []) provs in
        absurd (omega (arith, g, ap (λ (l : List Bytes). length l) first))
  ]

-- the chain of the providers, and the geofeed without any
unfoldable pub placed_or_geofeed : Lookups → List Bytes → Addr → CountryCode
placed_or_geofeed ls [] ip = ls.geofeed ip
placed_or_geofeed ls (p ∷ ps) ip = first_placed ls (p ∷ ps) ip

code_of : (c : CountryCode) → is_placed c ≡ false → record { hi = 0; lo = 0 } ≡ c
code_of c e = let h : c.hi ≡ 0 = ground (arith, e) in let l : c.lo ≡ 0 = ground (arith, e) in cc

-- a chain that is no shortcut gives what its providers give
plain_verdict :
    (ls : Lookups) (buf : List Bytes) (ip : Addr)
    → buf ≢ []
    → country_chain (if is_plain buf then [] else buf) ls ip ≡ first_placed ls buf ip
unfolding country_chain first_placed chain_lookup lookup_named beq
plain_verdict ls [] ip ne = absurd (ne refl)
plain_verdict ls (p ∷ []) ip ne = elim (Bool-cases (beq p (codes "geofeed"))) [
  | inr n ↦ rw n refl
  | inl y ↦
      let q : p ≡ codes "geofeed" = (beq_iff p (codes "geofeed")).0 y in
      rw y (subst (λ (x : Bytes). ls.geofeed ip ≡ first_placed ls (x ∷ []) ip) (sym q) alone)
]
  where
    alone : ls.geofeed ip ≡ first_placed ls (codes "geofeed" ∷ []) ip
    alone = elim (Bool-cases (is_placed (ls.geofeed ip))) [
      | inl y ↦ rw y refl
      | inr n ↦ rw n (sym (code_of (ls.geofeed ip) n))
    ]
plain_verdict ls (p ∷ q ∷ ps) ip ne = refl

List-cases : (xs : List Bytes) → (xs ≡ []) ⊎ (xs ≢ [])
List-cases [] = inl refl
List-cases (x ∷ xs) = inr (λ e. cc)

-- the chain is that of all written local providers
pub chain_of_written :
    (annotate : List AnnotateSpec) (have_dbip have_registry : Bool) (ls : Lookups) (ip : Addr)
    → country_chain (country_chain_order annotate have_dbip have_registry) ls ip
      ≡ placed_or_geofeed ls
          (keep (local_country_provider have_dbip have_registry) (geo_providers annotate))
          ip
unfolding country_chain_order placed_or_geofeed
chain_of_written annotate have_dbip have_registry ls ip =
    let is_local = local_country_provider have_dbip have_registry in
    let provs = geo_providers annotate in
    let buf = order_from is_local [] provs in
    elim (List-cases buf) [
      | inl e ↦
          let k : keep is_local provs ≡ [] = order_from_some ls is_local ip provs e in
          ap (λ (b : List Bytes). country_chain (if is_plain b then [] else b) ls ip) e
          ∙ (unfold country_chain in ap (λ (l : List Bytes). placed_or_geofeed ls l ip) (sym k))
      | inr ne ↦
          plain_verdict ls buf ip ne
          ∙ (order_from_lem ls is_local ip [] provs
              ∙ placed (keep is_local provs) (λ k. ne (order_from_none ls is_local ip [] provs k)))
    ]
  where
    placed : (l : List Bytes) → l ≢ [] → first_placed ls l ip ≡ placed_or_geofeed ls l ip
    placed [] ne = absurd (ne refl)
    placed (x ∷ l) ne = refl
