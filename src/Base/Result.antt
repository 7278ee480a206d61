-- ===== src/Base/Result.antt =====
-- Go's pair of a value and an error, of which one is set; and `do` blocks over it.
use mathlib.Core.Path.{◌≡◌, refl}
use mathlib.Core.Logic.{◌≢◌}
use mathlib.Core.Bool.{Bool, true, false}

pub data Result {ℓ κ} (E : Type κ) (A : Type ℓ) : Type (ℓ ⊔ κ) where
  ok : A → Result E A
  err : E → Result E A

infixl 5 ◌>>=◌
abbrev pub ◌>>=◌ {ℓ κ μ} :
    {E : Type μ} {A : Type ℓ} {B : Type κ} → Result E A → (A → Result E B) → Result E B
ok a >>= f = f a
err e >>= f = err e

-- `if bad { return err }`.
infixl 5 ◌>>◌
abbrev pub ◌>>◌ {κ μ} : {E : Type μ} {B : Type κ} → Result E (Unit {0}) → Result E B → Result E B
ok _ >> k = k
err e >> k = err e

abbrev pub refuse_if {μ} : {E : Type μ} → Bool → E → Result E (Unit {0})
refuse_if true e = err e
refuse_if false e = ok tt

-- A computation has one answer.
pub ok_unique {ℓ κ} :
    {E : Type κ} {A : Type ℓ} {x : Result E A} {a b : A} → x ≡ ok a → x ≡ ok b → a ≡ b
ok_unique p q = cc

abbrev pub ok_or {ℓ κ} : {E : Type κ} {A : Type ℓ} → A → Result E A → A
ok_or d (ok a) = a
ok_or d (err e) = d

-- To use what a chain that succeeded went through: the value of the first step is a variable.
pub bind_ok {ℓ κ μ ν} :
    {E : Type μ} {A : Type ℓ} {B : Type κ} {P : Type ν} (x : Result E A) (f : A → Result E B)
    {b : B}
    → (x >>= f) ≡ ok b
    → ((a : A) → x ≡ ok a → f a ≡ ok b → P)
    → P
bind_ok (ok a) f h k = k a refl h
bind_ok (err e) f h k = absurd (cc)

pub then_ok {κ μ} :
    {E : Type μ} {B : Type κ} (c : Bool) (e : E) (k : Result E B) {b : B}
    → (refuse_if c e >> k) ≡ ok b
    → (c ≡ false) × (k ≡ ok b)
then_ok true e k h = absurd (cc)
then_ok false e k h = (refl, h)

-- An error that no step of a chain has is not the chain's.
pub bind_never {ℓ κ μ} :
    {E : Type μ} {A : Type ℓ} {B : Type κ} (x : Result E A) (f : A → Result E B) {e : E}
    → x ≢ err e
    → ((a : A) → x ≡ ok a → f a ≢ err e)
    → (x >>= f) ≢ err e
bind_never (ok a) f other k = k a refl
bind_never (err d) f other k = λ h. other (cc)
