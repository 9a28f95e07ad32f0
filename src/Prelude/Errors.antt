-- ===== src/Prelude/Errors.antt =====
-- A call that may throw: its value, or the error.
use mathlib.Core.Path.{◌≡◌, refl}
use mathlib.Core.Logic.{◌⊎◌, inl, inr}
use mathlib.Core.Bool.{Bool, true, false}
use mathlib.Core.Option.{Option, none, some}

-- `E` is what the call throws.
pub data Result (E A : Type 0) : Type 0 where
  err : E → Result E A
  ok : A → Result E A

pub Result-cases :
    {E A : Type 0} (r : Result E A) → ((a : A) × (r ≡ ok a)) ⊎ ((e : E) × (r ≡ err e))
Result-cases (err thrown) = inr (thrown, refl)
Result-cases (ok value) = inl (value, refl)

-- `if (!value) throw thrown;`
abbrev pub or_throw : {E A : Type 0} → Option A → E → Result E A
or_throw (some value) thrown = ok value
or_throw none thrown = err thrown

-- `if (!test) throw thrown;`
abbrev pub guard : {E : Type 0} → Bool → E → Result E (Unit {0})
guard false thrown = err thrown
guard true thrown = ok tt

-- One call after another: the first error ends the chain.
infixl 5 ◌>>=◌
abbrev pub ◌>>=◌ : {E A B : Type 0} → Result E A → (A → Result E B) → Result E B
err thrown >>= next = err thrown
ok value >>= next = next value

infixl 5 ◌>>◌
abbrev pub ◌>>◌ : {E B : Type 0} → Result E (Unit {0}) → Result E B → Result E B
test >> rest = test >>= λ _. rest

-- A chain that returns has been through each of its calls.
pub or_throw-ok :
    {E A : Type 0} (o : Option A) (thrown : E) (value : A)
    → or_throw o thrown ≡ ok value
    → o ≡ some value
or_throw-ok none thrown value e = cc
or_throw-ok (some x) thrown value e = cc

pub >>=-eq-ok :
    {E A B : Type 0} (first : Result E A) (next : A → Result E B) {value : B}
    → (first >>= next) ≡ ok value
    → (a : A) × (first ≡ ok a) × (next a ≡ ok value)
>>=-eq-ok (err thrown) next returned = cc
>>=-eq-ok (ok a) next returned = (a, refl, returned)

pub ok-injective : {E A : Type 0} {a b : A} → ◌≡◌ {A = Result E A} (ok a) (ok b) → b ≡ a
ok-injective e = cc
