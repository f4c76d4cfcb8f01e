-- ===== src/ObjectPool.antt =====
-- DHNetWork/DHNetWork/ObjectPool.h. An object is named by its address; `next` is the address that
-- the next `new` returns, and `mem` what lies in memory.
pub mod Lending
pub mod Accounts
use dhserver.Base.{ℕ, zero, suc, ◌+◌, ◌/◌, List, [], ◌∷◌, ◌++◌, update}
use dhserver.Base.Outcome.{Outcome, done, spin}

-- What the pool needs of its class T: the constructor and the destructor, over a piece of memory.
pub record Object (A : Type 0) : Type 0 where
  pub construct : A → A
  pub destruct : A → A

pub record ObjectPool (A : Type 0) : Type 0 where
  pub sample_obj_count : ℕ
  pub all_object_list : List ℕ
  pub available_obj : List ℕ
  pub next : ℕ
  pub mem : ℕ → A

module _ {A : Type 0} (object : Object A) where
  -- new T; push; push_back
  unfoldable pub add_object : ObjectPool A → ObjectPool A
  add_object p = record p {
    mem = update p.mem p.next (object.construct (p.mem p.next));
    available_obj = p.available_obj ++ p.next ∷ [];
    all_object_list = p.all_object_list ++ p.next ∷ [];
    next = p.next + 1;
  }

  -- `n` rounds of the allocation loop.
  unfoldable pub add_objects : ℕ → ObjectPool A → ObjectPool A
  add_objects zero p = p
  add_objects (suc n) p = add_objects n (add_object p)

  -- ObjectPool::ObjectPool
  unfoldable pub new_object_pool : ℕ → (ℕ → A) → ObjectPool A
  new_object_pool n memory = add_objects n (record {
    sample_obj_count = n;
    all_object_list = [];
    available_obj = [];
    next = 0;
    mem = memory;
  })

  -- Case 01: an empty queue is filled with a tenth of the sample count.
  unfoldable pub refill : List ℕ → ObjectPool A → ObjectPool A
  refill [] p = add_objects (p.sample_obj_count / 10) p
  refill (x ∷ xs) p = p

  -- Case 02: `while (!try_pop) {}`
  unfoldable pub pop_object : List ℕ → ObjectPool A → Outcome (ℕ × ObjectPool A)
  pop_object [] p = spin
  pop_object (x ∷ xs) p = done (x, record p { available_obj = xs })

  -- ObjectPool::GetObject
  unfoldable pub get_object : ObjectPool A → Outcome (ℕ × ObjectPool A)
  unfolding refill pop_object
  get_object p = let q = refill p.available_obj p in pop_object q.available_obj q

  -- ObjectPool::ResetObject
  unfoldable pub reset_object : ObjectPool A → ℕ → ObjectPool A
  reset_object p x = record p {
    mem = update p.mem x (object.construct (object.destruct (p.mem x)));
    available_obj = p.available_obj ++ x ∷ [];
  }

  -- ObjectPool::Non_ResetObject
  unfoldable pub non_reset_object : ObjectPool A → ℕ → ObjectPool A
  non_reset_object p x = record p { available_obj = p.available_obj ++ x ∷ [] }
