-- ===== src/Geoblock/Restart.antt =====
-- internal/geoblock/store.go: what survives a restart.
use sub_preprocessor.Base.{
  ℕ, ◌+◌, ◌≤◌, ◌≡◌, refl, sym, ap, ◌∙◌, ◌≢◌, inl, inr, Bool, true, false, none, List, [], ◌∷◌,
  arith, ltb, if◌then◌else◌, Bool-cases, AllSome, Bytes, beq, beq_iff, keep, any, All,
}
use sub_preprocessor.Base.Dict.{put-IsDict, IsDict, put, find, Lacks}
use sub_preprocessor.Base.Expiry.{is_live, unexpired, is_live-Lacks}
use sub_preprocessor.Geoblock.{Table, Store, host_key, is_blocked, block, prune, open_store, load}
use sub_preprocessor.Geoblock.Load.{tells, is_live-load_rows}
use sub_preprocessor.Geoblock.Verdicts.{IsStore, prune-IsStore}
use mathlib.Core.Path.{subst}

-- what the worker does with a store whose statements are all carried out
pub data Operation : Type 0 where
  add : ℕ → Bytes → Operation
  clear : ℕ → Operation

module _ (unicode : Bytes → Bytes) where
  -- the rows' keys are folded
  abbrev pub AllFolded : Table → Type 0
  AllFolded m = All (λ (e : Bytes × ℕ). host_key unicode e.0 ≡ e.0) m

  -- the table holds what the cache holds
  pub record IsSynced (s : Store) : Type 0 where
    pub store : IsStore s
    pub same : s.blocked ≡ s.rows
    pub folded : AllFolded s.rows

  any-tells :
      (now t : ℕ) (key : Bytes) (m : Table)
      → now ≤ t
      → IsDict beq m
      → AllFolded m
      → any (tells unicode t key) (keep (λ (e : Bytes × ℕ). ltb now e.1) (unexpired now m))
        ≡ is_live beq t key m
  unfolding any keep unexpired is_live find
  any-tells now t key [] le d f = refl
  any-tells now t key (e ∷ m) le d f =
      let ih = any-tells now t key m le d.1 f.1 in
      elim (Bool-cases (beq key e.0)) [
        | inr n ↦ ground (arith, ih, n, f.0)
        | inl y ↦
            let lacks = subst (λ k. Lacks beq k m) (sym ((beq_iff key e.0).0 y)) d.0 in
            let dead = is_live-Lacks beq t key m lacks in ground (arith, ih, y, dead, f.0)
      ]

  is_blocked-open_store :
      (ttl now t : ℕ) (host : Bytes) (s : Store)
      → IsSynced s
      → now ≤ t
      → AllSome
          (λ reopened. is_blocked unicode t host reopened ≡ is_blocked unicode t host s)
          (open_store unicode true true ttl now s.rows)
  unfolding open_store load is_blocked is_live
  is_blocked-open_store ttl now t host s w le =
      let key = host_key unicode host in
      let live = keep (λ (e : Bytes × ℕ). ltb now e.1) (unexpired now s.rows) in
      let l = is_live-load_rows unicode t key [] live in
      let a = any-tells now t key s.rows le w.store.table w.folded in
      let c = ap (λ m. is_live beq t key m) w.same in
      ap (λ b. if beq host [] then false else b) (l ∙ a ∙ sym c)

  put-AllFolded :
      (key : Bytes) (expiry : ℕ) (m : Table)
      → host_key unicode key ≡ key
      → AllFolded m
      → AllFolded (put beq key expiry m)
  unfolding put
  put-AllFolded key expiry [] k f = (k, f)
  put-AllFolded key expiry (e ∷ m) k f =
      let ih = put-AllFolded key expiry m k f.1 in ground (arith, k, f.0, f.1, ih)

  keep-AllFolded : (p : Bytes × ℕ → Bool) (m : Table) → AllFolded m → AllFolded (keep p m)
  unfolding keep
  keep-AllFolded p [] f = f
  keep-AllFolded p (e ∷ m) f = let ih = keep-AllFolded p m f.1 in ground (arith, f.0, ih)

  block-IsSynced :
      (now : ℕ) (host : Bytes) (s : Store)
      → host_key unicode (host_key unicode host) ≡ host_key unicode host
      → IsSynced s
      → IsSynced (block unicode true now host s).0
  unfolding block
  block-IsSynced now host s k w = elim (Bool-cases (beq host [])) [
    | inl y ↦ rw y w
    | inr n ↦ rw n (record {
      store = record {
        cache = put-IsDict beq beq_iff _ _ s.blocked w.store.cache;
        table = put-IsDict beq beq_iff _ _ s.rows w.store.table;
      };
      same = ap (put beq (host_key unicode host) (now + s.ttl)) w.same;
      folded = put-AllFolded _ _ s.rows k w.folded;
    })
  ]

  prune-IsSynced : (now : ℕ) (s : Store) → IsSynced s → IsSynced (prune true now s).0
  unfolding prune unexpired
  prune-IsSynced now s w = record {
    store = prune-IsStore true now s w.store;
    same = ap (unexpired now) w.same;
    folded = keep-AllFolded _ s.rows w.folded;
  }

  unfoldable pub run_one : Operation → Store → Store
  unfolding block prune
  run_one (add now host) s = (block unicode true now host s).0
  run_one (clear now) s = (prune true now s).0

  unfoldable pub run : List Operation → Store → Store
  unfolding run_one
  run [] s = s
  run (o ∷ os) s = run os (run_one o s)

  -- the key of the host is its own key
  abbrev pub IsPlain : Operation → Type 0
  IsPlain (add now host) = host_key unicode (host_key unicode host) ≡ host_key unicode host
  IsPlain (clear now) = Unit

  run-IsSynced :
      (os : List Operation) (s : Store) → All IsPlain os → IsSynced s → IsSynced (run os s)
  unfolding run
  run-IsSynced [] s p w = w
  run-IsSynced (add now host ∷ os) s p w =
      run-IsSynced os (block unicode true now host s).0 p.1 (block-IsSynced now host s p.0 w)
  run-IsSynced (clear now ∷ os) s p w =
      run-IsSynced os (prune true now s).0 p.1 (prune-IsSynced now s w)

  abbrev pub fresh_store : ℕ → Store
  fresh_store ttl = record { ttl = ttl; blocked = []; rows = [] }

  -- After any run of Block and Prune on a fresh file, with every statement carried out and hosts
  -- whose key is its own key, a store that is opened on the rows at some time does open, and
  -- from that time on gives on every host the verdict of the running one.
  pub open_store-run :
      (ttl now t : ℕ) (host : Bytes) (os : List Operation)
      → All IsPlain os
      → now ≤ t
      → let s = run os (fresh_store ttl) in
        (open_store unicode true true ttl now s.rows ≢ none)
        × AllSome
            (λ reopened. is_blocked unicode t host reopened ≡ is_blocked unicode t host s)
            (open_store unicode true true ttl now s.rows)
  unfolding open_store load
  open_store-run ttl now t host os p le =
      let w =
        run-IsSynced os (fresh_store ttl) p
          (record { store = record { cache = tt; table = tt }; same = refl; folded = tt }) in
      (λ e. ground (arith, e), is_blocked-open_store ttl now t host (run os (fresh_store ttl)) w le)
