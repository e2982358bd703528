-- ===== src/Base/Options.antt =====
-- Results `(v, ok)` as options: their chains, and what holds of a result if there is one.
use mathlib.Core.Path.{◌≡◌, refl}
use mathlib.Core.Option.{Option, none, some}

infixl 5 ◌>>=◌
abbrev pub ◌>>=◌ {ℓ κ} : {A : Type ℓ} {B : Type κ} → Option A → (A → Option B) → Option B
none >>= f = none
some a >>= f = f a

abbrev pub AllSome {ℓ κ} : {A : Type ℓ} → (A → Type κ) → Option A → Type κ
AllSome P none = Unit
AllSome P (some a) = P a

pub AllSome-bind {ℓ κ μ} :
    {A : Type ℓ} {B : Type κ} (P : B → Type μ) (m : Option A) (f : A → Option B)
    → ((a : A) → AllSome P (f a))
    → AllSome P (m >>= f)
AllSome-bind P none f h = tt
AllSome-bind P (some a) f h = h a

-- What comes after a step may use what the step gave.
pub AllSome-bind_some {ℓ κ μ} :
    {A : Type ℓ} {B : Type κ} (P : B → Type μ) (m : Option A) (f : A → Option B)
    → ((a : A) → m ≡ some a → AllSome P (f a))
    → AllSome P (m >>= f)
AllSome-bind_some P none f h = tt
AllSome-bind_some P (some a) f h = h a refl

-- Inversion of a chain that succeeds.
pub bind-eq-some {ℓ κ} :
    {A : Type ℓ} {B : Type κ} (m : Option A) (f : A → Option B) {b : B}
    → (m >>= f) ≡ some b
    → (a : A) × (m ≡ some a) × (f a ≡ some b)
bind-eq-some (some a) f h = (a, refl, h)
bind-eq-some none f h = cc

pub some-inj {ℓ} : {A : Type ℓ} {a b : A} → some a ≡ some b → a ≡ b
some-inj h = cc

pub AllSome-all {ℓ κ} :
    {A : Type ℓ} (P : A → Type κ) → ((a : A) → P a) → (m : Option A) → AllSome P m
AllSome-all P f none = tt
AllSome-all P f (some a) = f a

pub AllSome-map {ℓ κ μ} :
    {A : Type ℓ} (P : A → Type κ) (Q : A → Type μ)
    → ((a : A) → P a → Q a)
    → (m : Option A) → AllSome P m
    → AllSome Q m
AllSome-map P Q f none h = tt
AllSome-map P Q f (some a) h = f a h
