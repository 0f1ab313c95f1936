-- ===== src/Base/Results.antt =====
-- `Result<A, E>`, its `?` operator and its inversion.
use mathlib.Core.Path.{◌≡◌, refl}
use mathlib.Core.Logic.{◌⊎◌, inl, inr}
use mathlib.Core.Bool.{Bool, true, false}
use mathlib.Core.Option.{Option, none, some}

pub data Result {ℓ κ} (E : Type κ) (A : Type ℓ) : Type (ℓ ⊔ κ) where
  ok : A → Result E A
  err : E → Result E A

abbrev pub and_then {ℓ κ μ} :
    {E : Type κ} {A : Type ℓ} {B : Type μ} → Result E A → (A → Result E B) → Result E B
and_then (ok a) f = f a
and_then (err e) f = err e

-- `Option::ok_or`.
abbrev pub ok_or {ℓ κ} : {E : Type κ} {A : Type ℓ} → Option A → E → Result E A
ok_or none e = err e
ok_or (some a) e = ok a

-- `Option::unwrap_or`.
abbrev pub unwrap_or {ℓ} : {A : Type ℓ} → Option A → A → A
unwrap_or none a = a
unwrap_or (some b) a = b

-- `Option::map` and `Option::and_then`.
abbrev pub map_option {ℓ κ} : {A : Type ℓ} {B : Type κ} → (A → B) → Option A → Option B
map_option f none = none
map_option f (some a) = some (f a)

abbrev pub bind_option {ℓ κ} : {A : Type ℓ} {B : Type κ} → Option A → (A → Option B) → Option B
bind_option none f = none
bind_option (some a) f = f a

abbrev pub is_some {ℓ} : {A : Type ℓ} → Option A → Bool
is_some none = false
is_some (some a) = true

pub Result-cases {ℓ κ} :
    {E : Type κ} {A : Type ℓ} (r : Result E A) → ((a : A) × (r ≡ ok a)) ⊎ ((e : E) × (r ≡ err e))
Result-cases (ok a) = inl (a, refl)
Result-cases (err e) = inr (e, refl)

pub ok_injective {ℓ κ} :
    {E : Type κ} {A : Type ℓ} (a b : A) → ◌≡◌ {A = Result E A} (ok a) (ok b) → a ≡ b
ok_injective a b h = cc

-- A `?` that goes through.
pub and_then-ok {ℓ κ μ} :
    {E : Type κ} {A : Type ℓ} {B : Type μ} (r : Result E A) (f : A → Result E B) (b : B)
    → and_then r f ≡ ok b
    → (a : A) × (r ≡ ok a) × (f a ≡ ok b)
and_then-ok (ok a) f b h = (a, refl, h)
and_then-ok (err e) f b h = absurd cc

pub unwrap_or-map_option {ℓ κ ν} :
    {A : Type ℓ} {B : Type κ} (P : B → Type ν) (f : A → B) (o : Option A) (d : B)
    → ((a : A) → P (f a))
    → P d
    → P (unwrap_or (map_option f o) d)
unwrap_or-map_option P f none d h g = g
unwrap_or-map_option P f (some a) d h g = h a

-- The predicate at the value of an option, if there is one.
abbrev pub Given {ℓ ν} : {A : Type ℓ} → (A → Type ν) → Option A → Type ν
Given P none = Unit
Given P (some a) = P a

pub Given-unwrap_or {ℓ ν} :
    {A : Type ℓ} (P : A → Type ν) (o : Option A) (d : A) → Given P o → P d → P (unwrap_or o d)
Given-unwrap_or P none d h g = g
Given-unwrap_or P (some a) d h g = h

pub Given-bind_option {ℓ κ μ ν} :
    {A : Type ℓ} {B : Type κ} (Q : A → Type μ) (P : B → Type ν) (o : Option A) (f : A → Option B)
    → Given Q o
    → ((a : A) → Q a → Given P (f a))
    → Given P (bind_option o f)
Given-bind_option Q P none f h g = tt
Given-bind_option Q P (some a) f h g = g a h

pub Given-map_option {ℓ κ μ ν} :
    {A : Type ℓ} {B : Type κ} (Q : A → Type μ) (P : B → Type ν) (f : A → B) (o : Option A)
    → Given Q o
    → ((a : A) → Q a → P (f a))
    → Given P (map_option f o)
Given-map_option Q P f none h g = tt
Given-map_option Q P f (some a) h g = g a h

pub Given-any {ℓ} : {A : Type ℓ} (o : Option A) → Given (λ a. Unit {0}) o
Given-any none = tt
Given-any (some a) = tt
