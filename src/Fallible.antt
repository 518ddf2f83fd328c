-- ===== src/Fallible.antt =====
-- Results of code that may fail with an error of its own type.
use mathlib.Core.Path.{◌≡◌, refl}
use mathlib.Core.Logic.{◌⊎◌, inl, inr}

pub data Fallible {ℓ} (E : Type 0) (A : Type ℓ) : Type ℓ where
  err : E → Fallible E A
  ok : A → Fallible E A

module _ {ℓ κ} {E : Type 0} {A : Type ℓ} {B : Type κ} where
  infixl 5 ◌>>=◌
  abbrev pub ◌>>=◌ : Fallible E A → (A → Fallible E B) → Fallible E B
  err why >>= next = err why
  ok result >>= next = next result

  -- A chain that succeeds has succeeded twice.
  pub >>=-eq-ok :
      (first : Fallible E A) (next : A → Fallible E B) {end : B}
      → (first >>= next) ≡ ok end
      → (result : A) × (first ≡ ok result) × (next result ≡ ok end)
  >>=-eq-ok (err why) next failed = cc
  >>=-eq-ok (ok result) next more = (result, refl, more)

pub Fallible-cases {ℓ} :
    {E : Type 0} {A : Type ℓ} (m : Fallible E A) → ((a : A) × (m ≡ ok a)) ⊎ ((e : E) × (m ≡ err e))
Fallible-cases (err e) = inr (e, refl)
Fallible-cases (ok a) = inl (a, refl)

pub of_ok {ℓ} : {E : Type 0} {A : Type ℓ} {a b : A} → ◌≡◌ {A = Fallible E A} (ok a) (ok b) → a ≡ b
of_ok same = cc
