-- ===== src/ObjectPool/Lending.antt =====
-- ObjectPool.h: who holds the objects of a pool. An object is available, or lent to the caller of
-- GetObject until ResetObject.
use dhserver.Base.{
  ℕ, zero, suc, ◌+◌, ◌/◌, ◌≤◌, ◌<◌, ◌≡◌, ◌≢◌, ◌↔◌, refl, sym, ap, ◌∙◌, List, [], ◌∷◌, ◌++◌, arith,
  length, length-append, subst,
}
use dhserver.Base.Outcome.{done, spin, Ensures, Ensures-done, Ensures-spin}
use dhserver.ObjectPool.{
  Object, ObjectPool, add_object, add_objects, new_object_pool, refill, pop_object, get_object,
  reset_object,
}

-- Every entry is below the bound: no `new` has returned an address from it on.
abbrev pub AllBelow : ℕ → List ℕ → Type 0
AllBelow n [] = Unit {0}
AllBelow n (x ∷ xs) = (x < n) × AllBelow n xs

-- An address is not in a list.
abbrev pub NotIn : ℕ → List ℕ → Type 0
NotIn x [] = Unit {0}
NotIn x (y ∷ ys) = (x ≢ y) × NotIn x ys

abbrev pub AllDistinct : List ℕ → Type 0
AllDistinct [] = Unit {0}
AllDistinct (x ∷ xs) = NotIn x xs × AllDistinct xs

NotIn-append : (x : ℕ) (xs ys : List ℕ) → NotIn x xs → NotIn x ys → NotIn x (xs ++ ys)
NotIn-append x [] ys a b = b
NotIn-append x (z ∷ xs) ys a b = (a.0, NotIn-append x xs ys a.1 b)

AllDistinct-snoc : (xs : List ℕ) (x : ℕ) → AllDistinct xs → NotIn x xs → AllDistinct (xs ++ x ∷ [])
AllDistinct-snoc [] x d a = (tt, tt)
AllDistinct-snoc (y ∷ xs) x d a =
    (NotIn-append y xs (x ∷ []) d.0 ((λ e. a.0 (sym e)), tt), AllDistinct-snoc xs x d.1 a.1)

AllBelow-snoc : (n : ℕ) (xs : List ℕ) (x : ℕ) → AllBelow n xs → x < n → AllBelow n (xs ++ x ∷ [])
AllBelow-snoc n [] x b h = (h, tt)
AllBelow-snoc n (y ∷ xs) x b h = (b.0, AllBelow-snoc n xs x b.1 h)

AllBelow-suc : (n : ℕ) (xs : List ℕ) → AllBelow n xs → AllBelow (n + 1) xs
AllBelow-suc n [] b = tt
AllBelow-suc n (x ∷ xs) b = (omega arith, AllBelow-suc n xs b.1)

NotIn-of_below : (n : ℕ) (xs : List ℕ) → AllBelow n xs → NotIn n xs
NotIn-of_below n [] b = tt
NotIn-of_below n (x ∷ xs) b = (omega arith, NotIn-of_below n xs b.1)

NotIn-of_distinct : (xs : List ℕ) (x : ℕ) → AllDistinct (xs ++ x ∷ []) → NotIn x xs
NotIn-of_distinct [] x d = tt
NotIn-of_distinct (y ∷ xs) x d = ((λ e. last_ne xs y x d.0 (sym e)), NotIn-of_distinct xs x d.1)
  where
    last_ne : (ys : List ℕ) (y x : ℕ) → NotIn y (ys ++ x ∷ []) → y ≢ x
    last_ne [] y x a = a.0
    last_ne (z ∷ ys) y x a = last_ne ys y x a.1

-- A queue of distinct objects, all of them made by this pool.
pub record IsSound {A : Type 0} (p : ObjectPool A) : Type 0 where
  pub distinct : AllDistinct p.available_obj
  pub made : AllBelow p.next p.available_obj

module _ {A : Type 0} (object : Object A) where
  add_object-IsSound : (p : ObjectPool A) → IsSound p → IsSound (add_object object p)
  unfolding add_object
  add_object-IsSound p v = record {
    distinct =
        AllDistinct-snoc p.available_obj p.next v.distinct
          (NotIn-of_below p.next p.available_obj v.made);
    made =
        AllBelow-snoc (p.next + 1) p.available_obj p.next
          (AllBelow-suc p.next p.available_obj v.made) (omega arith);
  }

  add_objects-IsSound : (n : ℕ) (p : ObjectPool A) → IsSound p → IsSound (add_objects object n p)
  unfolding add_objects
  add_objects-IsSound zero p v = v
  add_objects-IsSound (suc n) p v =
      add_objects-IsSound n (add_object object p) (add_object-IsSound p v)

  pub length-add_objects :
      (n : ℕ) (p : ObjectPool A)
      → length (add_objects object n p).available_obj ≡ length p.available_obj + n
  unfolding add_objects add_object
  length-add_objects zero p = omega arith
  length-add_objects (suc n) p = omega (
    arith,
    length-add_objects n (add_object object p),
    length-append p.available_obj (p.next ∷ []),
  )

  pub sample-add_objects :
      (n : ℕ) (p : ObjectPool A) → (add_objects object n p).sample_obj_count ≡ p.sample_obj_count
  unfolding add_objects add_object
  sample-add_objects zero p = refl
  sample-add_objects (suc n) p = sample-add_objects n (add_object object p)

  refilled :
      (xs : List ℕ) (p : ObjectPool A)
      → p.available_obj ≡ xs
      → 10 ≤ p.sample_obj_count
      → 0 < length (refill object xs p).available_obj
  unfolding refill
  refilled [] p e h = omega (arith, length-add_objects (p.sample_obj_count / 10) p)
  refilled (x ∷ xs) p e h = omega (arith, ap length e)

  sample-refill :
      (xs : List ℕ) (p : ObjectPool A) → (refill object xs p).sample_obj_count ≡ p.sample_obj_count
  unfolding refill
  sample-refill [] p = sample-add_objects (p.sample_obj_count / 10) p
  sample-refill (x ∷ xs) p = refl

  refill-IsSound : (xs : List ℕ) (p : ObjectPool A) → IsSound p → IsSound (refill object xs p)
  unfolding refill
  refill-IsSound [] p v = add_objects-IsSound (p.sample_obj_count / 10) p v
  refill-IsSound (x ∷ xs) p v = v

  -- An object, and the pool without it.
  pub record Lent (p : ObjectPool A) : Type 0 where
    pub object_at : ℕ
    pub left : ObjectPool A
    pub got : get_object object p ≡ done (object_at, left)
    pub same_sample : left.sample_obj_count ≡ p.sample_obj_count

  popped :
      (xs : List ℕ) (p q : ObjectPool A)
      → refill object p.available_obj p ≡ q
      → q.available_obj ≡ xs
      → 0 < length xs
      → q.sample_obj_count ≡ p.sample_obj_count
      → Lent p
  unfolding get_object pop_object
  popped [] p q r e h s = absurd (omega arith)
  popped (x ∷ xs) p q r e h s = record {
    object_at = x;
    left = record q { available_obj = xs };
    got = rw (r, e) refl;
    same_sample = s;
  }

  pub get_object-Lent : (p : ObjectPool A) → 10 ≤ p.sample_obj_count → Lent p
  get_object-Lent p h =
      popped (refill object p.available_obj p).available_obj p (refill object p.available_obj p)
        refl refl (refilled p.available_obj p refl h) (sample-refill p.available_obj p)

  -- The object is nobody else's until it comes back, and the rest of the pool is sound.
  abbrev pub IsTaken : ℕ × ObjectPool A → Type 0
  IsTaken r = NotIn r.0 r.1.available_obj × IsSound r.1

  pop_object-IsTaken :
      (xs : List ℕ) (q : ObjectPool A)
      → q.available_obj ≡ xs
      → IsSound q
      → Ensures IsTaken (pop_object object xs q)
  unfolding pop_object
  pop_object-IsTaken [] q e v = Ensures-spin IsTaken
  pop_object-IsTaken (x ∷ xs) q e v =
      let d = subst AllDistinct e v.distinct in
      Ensures-done IsTaken (x, record q { available_obj = xs })
        (d.0, record { distinct = d.1; made = (subst (AllBelow q.next) e v.made).1 })

  -- GetObject of a sound pool that was made with ten objects or more returns an object. The object
  -- is not available to anybody else afterwards, and the pool that is left is sound.
  pub get_object_lends :
      (p : ObjectPool A)
      → IsSound p
      → 10 ≤ p.sample_obj_count
      → (l : Lent p) × NotIn l.object_at l.left.available_obj × IsSound l.left
  unfolding get_object
  get_object_lends p v h =
      let l = get_object-Lent p h in
      let r =
        (pop_object-IsTaken (refill object p.available_obj p).available_obj
            (refill object p.available_obj p) refl (refill-IsSound p.available_obj p v)).result
          (l.object_at, l.left) l.got in
      (l, r.0, r.1)

  -- GetObject of a pool that was made with fewer than ten objects, all of them lent, does not
  -- return: it waits in its empty loop.
  pub get_object_starves :
      (p : ObjectPool A)
      → p.sample_obj_count < 10
      → p.available_obj ≡ []
      → get_object object p ≡ spin
  unfolding get_object refill add_objects pop_object
  get_object_starves p h e = let z : p.sample_obj_count / 10 ≡ 0 = omega arith in rw (e, z) refl

  -- The constructor makes a sound pool with as many available objects as it is asked for, and keeps
  -- that count.
  pub new_object_pool-IsSound :
      (n : ℕ) (memory : ℕ → A)
      → IsSound (new_object_pool object n memory)
        × (length (new_object_pool object n memory).available_obj ≡ n)
        × ((new_object_pool object n memory).sample_obj_count ≡ n)
  unfolding new_object_pool
  new_object_pool-IsSound n memory = (
    add_objects-IsSound n _ (record { distinct = tt; made = tt }),
    length-add_objects n _ ∙ omega arith,
    sample-add_objects n _,
  )

  -- ResetObject on a sound pool, of an object below the addresses still to come, leaves the pool
  -- sound if and only if the object was not available.
  pub reset_object_lent :
      (p : ObjectPool A) (x : ℕ)
      → IsSound p
      → x < p.next
      → IsSound (reset_object object p x) ↔ NotIn x p.available_obj
  unfolding reset_object
  reset_object_lent p x v h = (
    λ w. NotIn-of_distinct p.available_obj x w.distinct,
    λ a. record {
      distinct = AllDistinct-snoc p.available_obj x v.distinct a;
      made = AllBelow-snoc p.next p.available_obj x v.made h;
    },
  )
