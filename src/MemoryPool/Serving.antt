-- ===== src/MemoryPool/Serving.antt =====
-- That GetMemory (MemoryPool.cpp) returns.
use dhserver.Base.{
  ℕ, zero, suc, ◌+◌, ◌/◌, ◌≤◌, ◌≡◌, ◌≢◌, ◌*◌, refl, sym, ap, ◌∙◌, true, false, List, [], ◌∷◌, some,
  lookup, arith, ◌==◌, if◌then◌else◌, Bool-cases, inl, inr,
}
use mathlib.Core.Option.{none-ne-some}
use dhserver.Base.Outcome.{done}
use dhserver.MemoryPool.{
  MemoryPool, block_count, has_blocks, set_queue, blocks_from, refill, pop_block, find_memory,
  get_memory,
}

-- There are blocks of the size: ten or more were made, so that more can be made.
pool_serves : (count size : ℕ) → 40 ≤ count → has_blocks size ≡ true → 10 ≤ block_count count size
unfolding has_blocks block_count
pool_serves count size h e = ground arith

lookup-set_queue :
    (size : ℕ) (q x : List ℕ) (pools : List (ℕ × List ℕ))
    → lookup size pools ≡ some q
    → lookup size (set_queue size x pools) ≡ some x
unfolding lookup set_queue
lookup-set_queue size q x [] e = absurd (none-ne-some q e)
lookup-set_queue size q x ((k, y) ∷ pools) e = elim (Bool-cases (k == size)) [
  | inl z ↦ let same : size == k ≡ true = ground arith in rw (z, set_queue) (rw same refl)
  | inr z ↦
      let differs : size == k ≡ false = ground arith in
      rw (z, set_queue)
        (rw differs (
          lookup-set_queue size q x pools
            (sym (ap (λ b. if b then some y else lookup size pools) differs) ∙ e)))
]

lookup-set_queue_other :
    (size other : ℕ) (x : List ℕ) (pools : List (ℕ × List ℕ))
    → other ≢ size
    → lookup other (set_queue size x pools) ≡ lookup other pools
unfolding lookup set_queue
lookup-set_queue_other size other x [] d = refl
lookup-set_queue_other size other x ((k, y) ∷ pools) d = elim (Bool-cases (k == size)) [
  | inl z ↦ let differs : other == k ≡ false = ground arith in rw (z, set_queue) (rw differs refl)
  | inr z ↦
      rw (z, set_queue)
        (ap (λ r. if other == k then some y else r) (lookup-set_queue_other size other x pools d))
]

-- The queue behind the refill has a block, and the map is as before.
Refilled : ℕ → ℕ → List ℕ → MemoryPool → Type 0
Refilled size count queue p =
    (b : ℕ) × (bs : List ℕ) × (p1 : MemoryPool) × (refill size count queue p ≡ (b ∷ bs, p1))
    × (p1.pools ≡ p.pools)
    × (p1.sample_count ≡ p.sample_count)

first_block : (size a n : ℕ) → 1 ≤ n → (bs : List ℕ) × (blocks_from a size n ≡ a ∷ bs)
unfolding blocks_from
first_block size a zero h = absurd (omega arith)
first_block size a (suc n) h = (_, refl)

refill-Refilled :
    (size count : ℕ) (queue : List ℕ) (p : MemoryPool) → 10 ≤ count → Refilled size count queue p
unfolding refill Refilled
refill-Refilled size count (b ∷ bs) p h = (b, bs, p, refl, refl, refl)
refill-Refilled size count [] p h =
    let (bs, e) = first_block size p.next (count / 10) (omega arith) in
    (p.next, bs, _, ap (λ q. (q, record p { next = p.next + size * (count / 10) })) e, refl, refl)

found :
    (p p1 : MemoryPool) (size count b : ℕ) (queue bs : List ℕ)
    → lookup size p.pools ≡ some queue
    → refill size count queue p ≡ (b ∷ bs, p1)
    → find_memory p size count ≡ done (b, record p1 { pools = set_queue size bs p1.pools })
unfolding find_memory pop_block
found p p1 size count b queue bs e r = rw (e, find_memory) (rw r refl)

-- A pool that was made for 40 blocks or more, a size of the eight that it has, and its queue is in the
-- map: GetMemory returns a block, whatever the queue, and afterwards the queue of the size and that of
-- any other size are still in the map, the latter as before.
pub get_memory_returns :
    (p : MemoryPool) (size other : ℕ) (queue : List ℕ)
    → 40 ≤ p.sample_count
    → has_blocks size ≡ true
    → lookup size p.pools ≡ some queue
    → other ≢ size
    → (b : ℕ) × (rest : List ℕ) × (p' : MemoryPool) × (get_memory p size ≡ done (some b, p'))
      × (lookup size p'.pools ≡ some rest)
      × (lookup other p'.pools ≡ lookup other p.pools)
      × (p'.sample_count ≡ p.sample_count)
unfolding get_memory Refilled
get_memory_returns p size other queue h z e d =
    let count = block_count p.sample_count size in
    let (b, bs, p1, r, same, sample) =
      refill-Refilled size count queue p (pool_serves p.sample_count size h z) in
    (
      b,
      bs,
      record p1 { pools = set_queue size bs p1.pools },
      rw z (rw (found p p1 size count b queue bs e r) refl),
      lookup-set_queue size queue bs p1.pools (ap (lookup size) same ∙ e),
      lookup-set_queue_other size other bs p1.pools d ∙ ap (lookup other) same,
      sample,
    )
