-- ===== src/ObjectPool/Accounts.antt =====
-- ObjectPool.h: how many objects are lent, across GetObject and ResetObject.
use dhserver.Base.{
  ℕ, zero, suc, ◌+◌, ◌/◌, ◌≡◌, refl, ap, List, [], ◌∷◌, arith, length, length-append,
}
use dhserver.Base.Outcome.{Ensures, Ensures-done, Ensures-spin}
use dhserver.ObjectPool.{
  Object, ObjectPool, add_object, add_objects, refill, pop_object, get_object, reset_object,
}

-- `q` has `n` objects more that are made and not available than `p`; both sides are counts of
-- objects, so that no subtraction stops at 0.
abbrev pub LendsMore : {A : Type 0} → ℕ → ObjectPool A → ObjectPool A → Type 0
LendsMore n p q =
    length q.all_object_list + length p.available_obj
    ≡ length p.all_object_list + length q.available_obj + n

module _ {A : Type 0} (object : Object A) where
  add_objects-LendsMore : (n : ℕ) (p : ObjectPool A) → LendsMore 0 p (add_objects object n p)
  unfolding add_objects add_object
  add_objects-LendsMore zero p = omega arith
  add_objects-LendsMore (suc n) p = omega (
    arith,
    add_objects-LendsMore n (add_object object p),
    length-append p.available_obj (p.next ∷ []),
    length-append p.all_object_list (p.next ∷ []),
  )

  refill-LendsMore : (xs : List ℕ) (p : ObjectPool A) → LendsMore 0 p (refill object xs p)
  unfolding refill
  refill-LendsMore [] p = add_objects-LendsMore (p.sample_obj_count / 10) p
  refill-LendsMore (x ∷ xs) p = omega arith

  -- One more object is lent.
  abbrev pub IsOneMore : ObjectPool A → ℕ × ObjectPool A → Type 0
  IsOneMore p r = LendsMore 1 p r.1

  pop_object-IsOneMore :
      (xs : List ℕ) (p q : ObjectPool A)
      → q.available_obj ≡ xs
      → LendsMore 0 p q
      → Ensures (IsOneMore p) (pop_object object xs q)
  unfolding pop_object
  pop_object-IsOneMore [] p q e h = Ensures-spin (IsOneMore p)
  pop_object-IsOneMore (x ∷ xs) p q e h =
      Ensures-done (IsOneMore p) (x, record q { available_obj = xs }) (omega (arith, ap length e))

  pub get_object-IsOneMore : (p : ObjectPool A) → Ensures (IsOneMore p) (get_object object p)
  unfolding get_object
  get_object-IsOneMore p =
      pop_object-IsOneMore (refill object p.available_obj p).available_obj p
        (refill object p.available_obj p) refl (refill-LendsMore p.available_obj p)

  pub reset_object-LendsMore :
      (n : ℕ) (p q : ObjectPool A) (x : ℕ)
      → LendsMore (suc n) p q
      → LendsMore n p (reset_object object q x)
  unfolding reset_object
  reset_object-LendsMore n p q x h = omega (arith, length-append q.available_obj (x ∷ []))
