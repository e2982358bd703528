-- ===== src/Geoblock/Load.antt =====
-- internal/geoblock/store.go: what `load` makes of the rows.
use sub_preprocessor.Base.{
  ℕ, ◌≡◌, ap, inl, inr, Bool, ◌&&◌, ◌||◌, [], ◌∷◌, arith, ltb, Bool-cases, Bytes, beq, beq_iff, any,
}
use sub_preprocessor.Base.Expiry.{is_live, is_live-put}
use sub_preprocessor.Geoblock.{Table, host_key, expiry_of, load_row, load_rows}

is_live-expiry_of :
    (t : ℕ) (key : Bytes) (m : Table) → is_live beq t key m ≡ ltb t (expiry_of key m)
unfolding is_live expiry_of
is_live-expiry_of t key m = ground arith

-- the row is for the key, and expires after `t`
abbrev pub tells : (Bytes → Bytes) → ℕ → Bytes → Bytes × ℕ → Bool
tells unicode t key row = beq key (host_key unicode row.0) && ltb t row.1

is_live-load_row :
    (unicode : Bytes → Bytes) (t : ℕ) (key : Bytes) (row : Bytes × ℕ) (m : Table)
    → is_live beq t key (load_row unicode row m) ≡ (is_live beq t key m || tells unicode t key row)
unfolding load_row
is_live-load_row unicode t key row m =
    let p = is_live-put beq beq_iff t (host_key unicode row.0) key row.1 m in
    let i = beq_iff key (host_key unicode row.0) in
    elim (Bool-cases (beq key (host_key unicode row.0))) [
      | inr n ↦ ground (arith, p, n)
      | inl y ↦
          let e = ap (λ k. expiry_of k m) (i.0 y) in
          let l = is_live-expiry_of t key m in ground (arith, p, y, e, l)
    ]

-- A key is live in the loaded map exactly when it was before or some row with a host of that key
-- expires later: neither the order of the rows nor the spelling of their hosts matters.
pub is_live-load_rows :
    (unicode : Bytes → Bytes) (t : ℕ) (key : Bytes) (m rows : Table)
    → is_live beq t key (load_rows unicode m rows)
      ≡ (is_live beq t key m || any (tells unicode t key) rows)
unfolding load_rows any
is_live-load_rows unicode t key m [] = ground arith
is_live-load_rows unicode t key m (row ∷ rows) =
    let ih = is_live-load_rows unicode t key (load_row unicode row m) rows in
    let s = is_live-load_row unicode t key row m in ground (arith, ih, s)
