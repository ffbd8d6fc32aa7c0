-- ===== src/Prelude/Errors.antt =====
-- Values or exceptions, for the operations of the source that throw, assert or exit.
use mathlib.Core.Path.{◌≡◌, refl}
use mathlib.Core.Bool.{Bool, true, false}
use mathlib.Core.Option.{Option, none, some}

pub data Result {ℓ} (E : Type 0) (A : Type ℓ) : Type ℓ where
  ok : A → Result E A
  throw : E → Result E A

infixl 5 ◌>>=◌ ◌>>◌
abbrev pub ◌>>=◌ {ℓ κ} :
    {E : Type 0} {A : Type ℓ} {C : Type κ} (called : Result E A) (rest : A → Result E C)
    → Result E C
throw e >>= rest = throw e
ok v >>= rest = rest v

abbrev pub ◌>>◌ {ℓ} :
    {E : Type 0} {C : Type ℓ} (checked : Result E (Unit {0})) (rest : Result E C) → Result E C
checked >> rest = checked >>= λ passed. rest

-- `if (bad) throw e;`
abbrev pub throw_if : {E : Type 0} → Bool → E → Result E (Unit {0})
throw_if true e = throw e
throw_if false e = ok tt

abbrev pub or_throw {ℓ} : {E : Type 0} {A : Type ℓ} → Option A → E → Result E A
or_throw none e = throw e
or_throw (some a) e = ok a

-- A `catch` of every exception.
abbrev pub catch {ℓ} : {E F : Type 0} {A : Type ℓ} → Result E A → (E → Result F A) → Result F A
catch (ok a) h = ok a
catch (throw e) h = h e

-- What a chain of calls that returns has called.
pub >>=-eq-ok {ℓ κ} :
    {E : Type 0} {A : Type ℓ} {C : Type κ} (called : Result E A) (rest : A → Result E C) {c : C}
    (returned : (called >>= rest) ≡ ok c)
    → (v : A) × (called ≡ ok v) × (rest v ≡ ok c)
>>=-eq-ok (throw e) rest returned = cc
>>=-eq-ok (ok v) rest returned = (v, refl, returned)

pub ok-injective {ℓ} :
    {E : Type 0} {A : Type ℓ} {a b : A} → ◌≡◌ {A = Result E A} (ok a) (ok b) → a ≡ b
ok-injective h = cc
