-- ===== src/Prelude/Outcomes.antt =====
-- What a call of the program may come to: a value, a panic, or behaviour that Rust leaves undefined.
use mathlib.Core.Path.{◌≡◌, refl, ap}
use mathlib.Core.Bool.{Bool, true, false}

pub data Outcome {ℓ} (A : Type ℓ) : Type ℓ where
  ok : A → Outcome A
  panic : Outcome A
  undefined : Outcome A

infixl 5 ◌>>=◌ ◌>>◌
abbrev pub ◌>>=◌ {ℓ κ} : {A : Type ℓ} {B : Type κ} → Outcome A → (A → Outcome B) → Outcome B
ok a >>= f = f a
panic >>= f = panic
undefined >>= f = undefined

abbrev pub ◌>>◌ {ℓ} : {B : Type ℓ} → Outcome (Unit {0}) → Outcome B → Outcome B
m >> k = m >>= λ _. k

-- Rust's `Result`, for a call that returns: `Ok` and `Err`.
pub data Result {ℓ κ} (E : Type ℓ) (A : Type κ) : Type (ℓ ⊔ κ) where
  success : A → Result E A
  failure : E → Result E A

-- `assert!`
abbrev pub ensure : Bool → Outcome (Unit {0})
ensure true = ok tt
ensure false = panic

-- What a call returns, where it returns, satisfies a predicate; and it is never undefined.
abbrev pub Post {ℓ} : {A : Type ℓ} → (A → Type 0) → Outcome A → Type 0
Post P (ok a) = P a
Post P panic = Unit
Post P undefined = ⊥

pub Post-bind {ℓ μ} :
    {A : Type ℓ} {B : Type μ} (P : A → Type 0) (Q : B → Type 0) (o : Outcome A) (f : A → Outcome B)
    → Post P o
    → ((a : A) → P a → Post Q (f a))
    → Post Q (o >>= f)
Post-bind P Q (ok a) f h k = k a h
Post-bind P Q panic f h k = tt
Post-bind P Q undefined f h k = absurd h

-- After an assertion, its condition holds.
pub ensure-Post : (b : Bool) → Post (λ u. b ≡ true) (ensure b)
ensure-Post true = refl
ensure-Post false = tt

pub Post-map {ℓ} :
    {A : Type ℓ} (P Q : A → Type 0) (o : Outcome A) → Post P o → ((a : A) → P a → Q a) → Post Q o
Post-map P Q (ok a) h k = k a h
Post-map P Q panic h k = tt
Post-map P Q undefined h k = h

-- A call that returns goes on with what it returns.
pub bind-ok {ℓ μ} :
    {A : Type ℓ} {B : Type μ} (o : Outcome A) (a : A) (f : A → Outcome B)
    → o ≡ ok a
    → (o >>= f) ≡ f a
bind-ok o a f e = ap (λ r. r >>= f) e

pub ensure-ok {ℓ} :
    {B : Type ℓ} (b : Bool) (f : Unit {0} → Outcome B) → b ≡ true → (ensure b >>= f) ≡ f tt
ensure-ok b f e = bind-ok (ensure b) tt f (ap ensure e)

pub ensure_any : (b : Bool) → Post (λ u. Unit) (ensure b)
ensure_any true = tt
ensure_any false = tt

pub ensure-panic {ℓ} :
    {B : Type ℓ} (b : Bool) (f : Unit {0} → Outcome B) → b ≡ false → (ensure b >>= f) ≡ panic
ensure-panic b f e = ap (λ o. o >>= f) (ap ensure e)

pub Post-both {ℓ} :
    {A : Type ℓ} (P Q : A → Type 0) (o : Outcome A) → Post P o → Post Q o → Post (λ a. P a × Q a) o
Post-both P Q (ok a) h k = (h, k)
Post-both P Q panic h k = tt
Post-both P Q undefined h k = h
