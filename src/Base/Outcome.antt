-- ===== src/Base/Outcome.antt =====
-- What a call of the program does: it returns, waits in an empty loop for another thread, or does
-- what C++ leaves undefined (a null pointer, a read behind a block).
use mathlib.Core.Path.{◌≡◌, refl, subst}

pub data Outcome {ℓ} (A : Type ℓ) : Type ℓ where
  done : A → Outcome A
  spin : Outcome A
  fault : Outcome A

infixl 5 ◌>>=◌
abbrev pub ◌>>=◌ {ℓ κ} : {A : Type ℓ} {B : Type κ} → Outcome A → (A → Outcome B) → Outcome B
done a >>= f = f a
spin >>= f = spin
fault >>= f = fault

-- What holds of the result, if there is one.
pub record Ensures {ℓ κ} {A : Type ℓ} (P : A → Type κ) (m : Outcome A) : Type (ℓ ⊔ κ) where
  pub result : (a : A) → m ≡ done a → P a

module _ {ℓ κ} {A : Type ℓ} (P : A → Type κ) where
  pub Ensures-done : (a : A) → P a → Ensures P (done a)
  Ensures-done a h = record { result = λ b e. subst P (done-injective e) h }
    where
      done-injective : {a b : A} → done a ≡ done b → a ≡ b
      done-injective e = cc

  pub Ensures-spin : Ensures P spin
  Ensures-spin = record { result = λ b e. cc }

  pub Ensures-fault : Ensures P fault
  Ensures-fault = record { result = λ b e. cc }

pub Ensures-bind {ℓ κ μ ν} :
    {A : Type ℓ} {B : Type κ} (Q : A → Type μ) (P : B → Type ν) (m : Outcome A) (f : A → Outcome B)
    → Ensures Q m
    → ((a : A) → Q a → Ensures P (f a))
    → Ensures P (m >>= f)
Ensures-bind Q P (done a) f h k = k a (h.result a refl)
Ensures-bind Q P spin f h k = Ensures-spin P
Ensures-bind Q P fault f h k = Ensures-fault P
