-- ===== src/Base/Maps.antt =====
-- Finite maps as association lists (the tbb hash maps), and memory as functions of an address.
use Prim.Native.Nat.{ℕ}
use mathlib.Core.Path.{◌≡◌, fun_ext}
use mathlib.Core.Logic.{◌≢◌}
use mathlib.Core.List.{List, [], ◌∷◌}
use mathlib.Core.Option.{Option, none, some}
use native.Mathlib.Omega.{arith}
use dhserver.Base.Tests.{◌==◌, if◌then◌else◌}

module _ {ℓ} {A : Type ℓ} where
  -- A write to one address of a memory.
  abbrev pub update : (ℕ → A) → ℕ → A → ℕ → A
  update m p v q = if q == p then v else m q

  pub update_self : (m : ℕ → A) (p : ℕ) (v : A) → update m p v p ≡ v
  update_self m p v = ground arith

  pub update_ne : (m : ℕ → A) (p q : ℕ) (v : A) → q ≢ p → update m p v q ≡ m q
  update_ne m p q v h = ground arith

  pub update_twice : (m : ℕ → A) (p : ℕ) (v w : A) → update (update m p v) p w ≡ update m p w
  update_twice m p v w = fun_ext λ q. ground arith

  pub update_same : (m : ℕ → A) (p : ℕ) → update m p (m p) ≡ m
  update_same m p = fun_ext λ q. ground arith

  -- `find` of a hash map.

  unfoldable pub lookup : ℕ → List (ℕ × A) → Option A
  lookup k [] = none
  lookup k ((j, v) ∷ m) = if k == j then some v else lookup k m

  -- `erase` of a hash map: the first entry of the key goes.
  unfoldable pub erase : ℕ → List (ℕ × A) → List (ℕ × A)
  erase k [] = []
  erase k ((j, v) ∷ m) = if k == j then m else (j, v) ∷ erase k m
