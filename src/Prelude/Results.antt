-- ===== src/Prelude/Results.antt =====
-- A call that may throw: the value, or the thrown error.
use mathlib.Core.Path.{◌≡◌, refl}
use mathlib.Core.Logic.{◌⊎◌, inl, inr}

pub data Result {ℓ κ} (E : Type κ) (A : Type ℓ) : Type (ℓ ⊔ κ) where
  ok : A → Result E A
  err : E → Result E A

module _ {ℓ κ λ'} {E : Type κ} {A : Type ℓ} {B : Type λ'} where
  infixl 5 ◌>>=◌
  abbrev pub ◌>>=◌ : Result E A → (A → Result E B) → Result E B
  err thrown >>= next = err thrown
  ok value >>= next = next value

  pub >>=-eq-ok :
      (call : Result E A) (next : A → Result E B) {last : B}
      → (call >>= next) ≡ ok last
      → (value : A) × (call ≡ ok value) × (next value ≡ ok last)
  >>=-eq-ok (err thrown) next h = cc
  >>=-eq-ok (ok value) next h = (value, refl, h)

module _ {ℓ κ} {E : Type κ} {A : Type ℓ} where
  pub ok-injective : {a b : A} → (let r : Result E A = ok a in r) ≡ ok b → a ≡ b
  ok-injective h = cc

  pub Result-cases :
      (r : Result E A) → ((value : A) × (r ≡ ok value)) ⊎ ((error : E) × (r ≡ err error))
  Result-cases (ok value) = inl (value, refl)
  Result-cases (err error) = inr (error, refl)
