-- ===== src/Prelude/Errors.antt =====
-- A call that returns or raises.
use mathlib.Core.Path.{◌≡◌, refl}
use mathlib.Core.Logic.{◌⊎◌, inl, inr}
use mathlib.Core.Bool.{Bool, true, false}
use onlyfans_conversational.Prelude.Tests.{if◌then◌else◌}

pub data Result {ℓ} (E A : Type ℓ) : Type ℓ where
  ok : A → Result E A
  err : E → Result E A

infixl 5 ◌>>=◌ ◌>>◌
abbrev pub ◌>>=◌ {ℓ} : {E A B : Type ℓ} → Result E A → (A → Result E B) → Result E B
ok a >>= f = f a
err e >>= f = err e

abbrev pub ◌>>◌ {ℓ} : {E A B : Type ℓ} → Result E A → Result E B → Result E B
m >> k = m >>= λ _. k

-- `if c: raise e`
abbrev pub raise_if {ℓ} : {E : Type ℓ} → Bool → E → Result E (Unit {ℓ})
raise_if true e = err e
raise_if false e = ok tt

pub Result-cases {ℓ} :
    {E A : Type ℓ} (r : Result E A) → ((a : A) × (r ≡ ok a)) ⊎ ((e : E) × (r ≡ err e))
Result-cases (ok a) = inl (a, refl)
Result-cases (err e) = inr (e, refl)

-- The result, if there is one, satisfies `P`.
abbrev pub Ensures {ℓ κ} : {E A : Type ℓ} → (A → Type κ) → Result E A → Type κ
Ensures P (ok a) = P a
Ensures P (err e) = Unit

pub Ensures-ok {ℓ κ} :
    {E A : Type ℓ} (P : A → Type κ) (r : Result E A) (a : A) → Ensures P r → r ≡ ok a → P a
Ensures-ok P (ok x) a h e = let same : x ≡ a = cc in rw (← same) h
Ensures-ok P (err x) a h e = cc

pub Ensures-if {ℓ κ} :
    {E A : Type ℓ} (P : A → Type κ) (b : Bool) (x y : Result E A)
    → (b ≡ true → Ensures P x)
    → (b ≡ false → Ensures P y)
    → Ensures P (if b then x else y)
Ensures-if P true x y hx hy = hx refl
Ensures-if P false x y hx hy = hy refl

pub Ensures-bind {ℓ κ μ} :
    {E A B : Type ℓ} (P : A → Type κ) (Q : B → Type μ) (r : Result E A) (f : A → Result E B)
    → Ensures P r
    → ((a : A) → P a → Ensures Q (f a))
    → Ensures Q (r >>= f)
Ensures-bind P Q (ok a) f h k = k a h
Ensures-bind P Q (err e) f h k = tt

-- The rest of a `do` block may use that its first step did not raise.
pub Ensures-then {ℓ κ} :
    {E A B : Type ℓ} (Q : B → Type κ) (r : Result E A) (f : A → Result E B)
    → ((a : A) → r ≡ ok a → Ensures Q (f a))
    → Ensures Q (r >>= f)
Ensures-then Q (ok a) f k = k a refl
Ensures-then Q (err e) f k = tt
