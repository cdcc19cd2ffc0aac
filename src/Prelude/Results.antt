-- ===== src/Prelude/Results.antt =====
-- Python's exceptions as values: what an expression returns, or the exception it raises.
use mathlib.Core.Path.{◌≡◌, refl}

pub data Exception : Type 0 where
  index_error struct_error value_error os_error runtime_error key_error : Exception

-- The value of a call, or what it raised.
pub data Result {ℓ} (A : Type ℓ) : Type ℓ where
  err : (raised : Exception) → Result A
  ok : (value : A) → Result A

-- A statement, then the rest of the body with its value.
infixl 5 ◌>>=◌
abbrev pub ◌>>=◌ {ℓ κ} : {A : Type ℓ} {B : Type κ} → Result A → (A → Result B) → Result B
err raised >>= rest = err raised
ok value >>= rest = rest value

-- The expression returns: it raises no exception.
abbrev pub Returns {ℓ} : {A : Type ℓ} → Result A → Type ℓ
Returns {A = A} m = (a : A) × (m ≡ ok a)

pub Returns-bind {ℓ κ} :
    {A : Type ℓ} {B : Type κ} (m : Result A) (f : A → Result B)
    → Returns m
    → ((a : A) → Returns (f a))
    → Returns (m >>= f)
Returns-bind (ok a) f h k = k a
Returns-bind (err e) f h k = absurd cc

pub bind_congr {ℓ κ} :
    {A : Type ℓ} {B : Type κ} (m : Result A) (f g : A → Result B)
    → ((a : A) → f a ≡ g a)
    → (m >>= f) ≡ (m >>= g)
bind_congr (ok a) f g h = h a
bind_congr (err e) f g h = refl

pub bind_assoc {ℓ κ μ} :
    {A : Type ℓ} {B : Type κ} {C : Type μ} (m : Result A) (f : A → Result B) (g : B → Result C)
    → ((m >>= f) >>= g) ≡ (m >>= λ a. f a >>= g)
bind_assoc (ok a) f g = refl
bind_assoc (err e) f g = refl
