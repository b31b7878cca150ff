-- ===== src/Common/Outcome.antt =====
-- How a call of the source ends: it returns, it meets a bare `throw`, which ends the program, or it
-- reaches outside an array or through a missing object, which C++ leaves undefined.
use mathlib.Core.Path.{◌≡◌, refl, ap}

pub data Outcome (A : Type 0) : Type 0 where
  returned : A → Outcome A
  thrown : Outcome A
  undefined : Outcome A

infixl 5 ◌>>=◌
abbrev pub ◌>>=◌ : {A B : Type 0} → Outcome A → (A → Outcome B) → Outcome B
returned a >>= f = f a
thrown >>= f = thrown
undefined >>= f = undefined

pub >>=-eq-returned :
    {A B : Type 0} (o : Outcome A) (f : A → Outcome B) {b : B}
    → (o >>= f) ≡ returned b
    → (a : A) × (o ≡ returned a) × (f a ≡ returned b)
>>=-eq-returned (returned a) f h = (a, refl, h)
>>=-eq-returned thrown f h = cc
>>=-eq-returned undefined f h = cc

pub returned_injective : {A : Type 0} {a b : A} → returned a ≡ returned b → a ≡ b
returned_injective {A} {a} {b} h =
    ap (λ o. elim o [ returned x ↦ x | thrown ↦ a | undefined ↦ a ]) h

pub >>=-returned : {A : Type 0} (o : Outcome A) → (o >>= returned) ≡ o
>>=-returned (returned a) = refl
>>=-returned thrown = refl
>>=-returned undefined = refl
