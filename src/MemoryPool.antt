-- ===== src/MemoryPool.antt =====
-- DHNetWork/DHNetWork/MemoryPool.h and MemoryPool.cpp: blocks of memory by their size. A block is
-- named by its address; `next` is where the next `new` puts its bytes, and `mem` is the memory.
pub mod Serving
use dhserver.Base.{
  ℕ, zero, suc, ◌+◌, ◌-◌, ◌*◌, ◌/◌, Bool, true, false, List, [], ◌∷◌, ◌++◌, Option, none, some,
  lookup, ◌==◌, ltb, leb, ◌&&◌, if◌then◌else◌,
}
use dhserver.Base.Outcome.{Outcome, done, spin, fault, ◌>>=◌}

-- `m_4Byte_Block_Count` and the like are functions of `sample_count`, see `block_count`; `pools` is
-- m_Memory_Pool, from a size to the queue of its free blocks.
pub record MemoryPool : Type 0 where
  pub sample_count : ℕ
  pub pools : List (ℕ × List ℕ)
  pub next : ℕ
  pub mem : ℕ → ℕ

-- memset to zero
unfoldable pub clear : (ℕ → ℕ) → ℕ → ℕ → ℕ → ℕ
clear mem block size a = if leb block a && ltb a (block + size) then 0 else mem a

-- m_4Byte_Block_Count to m_512Byte_Block_Count; 0 stands for the sizes that there are none of.
unfoldable pub block_count : ℕ → ℕ → ℕ
block_count count size =
    if size == 4
    then count
    else if size == 8
    then count
    else if size == 16
    then count
    else if size == 32
    then count
    else if size == 64
    then count
    else if size == 128
    then count / 2
    else if size == 256
    then count / 2
    else if size == 512
    then count / 4
    else 0

-- The case labels of GetMemory.
unfoldable pub has_blocks : ℕ → Bool
has_blocks size =
    if size == 4
    then true
    else if size == 8
    then true
    else if size == 16
    then true
    else if size == 32
    then true
    else if size == 64
    then true
    else if size == 128
    then true
    else if size == 256
    then true
    else size == 512

-- The queue of a size, written anew.
unfoldable pub set_queue : ℕ → List ℕ → List (ℕ × List ℕ) → List (ℕ × List ℕ)
set_queue size queue [] = []
set_queue size queue ((k, q) ∷ pools) =
    if k == size then (k, queue) ∷ pools else (k, q) ∷ set_queue size queue pools

-- The blocks of an array, `n` of them from the address `a` on.
unfoldable pub blocks_from : ℕ → ℕ → ℕ → List ℕ
blocks_from a size zero = []
blocks_from a size (suc n) = a ∷ blocks_from (a + size) size n

-- CreateMemory
unfoldable pub create_memory : ℕ → ℕ → MemoryPool → MemoryPool
unfolding clear blocks_from
create_memory size count p = record p {
  pools = (size, blocks_from p.next size count) ∷ p.pools;
  next = p.next + size * count;
  mem = clear p.mem p.next (size * count);
}

-- MemoryPool::MemoryPool, over what lies in memory.
unfoldable pub new_memory_pool : ℕ → (ℕ → ℕ) → MemoryPool
unfolding create_memory
new_memory_pool count memory = create_memory 512 (count / 4) (
    create_memory 256 (count / 2) (
      create_memory 128 (count / 2) (
        create_memory 64 count (
          create_memory 32 count (
            create_memory 16 count (
              create_memory 8 count (
                create_memory 4 count
                  (record { sample_count = count; pools = []; next = 1; mem = memory }))))))))

-- The queue of FindMemory, with a tenth more blocks where it is empty, each by a `new` of its own.
unfoldable pub refill : ℕ → ℕ → List ℕ → MemoryPool → List ℕ × MemoryPool
unfolding blocks_from
refill size count [] p =
    (blocks_from p.next size (count / 10), record p { next = p.next + size * (count / 10) })
refill size count (b ∷ bs) p = (b ∷ bs, p)

-- `while (!try_pop) {}`
unfoldable pub pop_block : ℕ → List ℕ → MemoryPool → Outcome (ℕ × MemoryPool)
unfolding set_queue
pop_block size [] p = spin
pop_block size (b ∷ bs) p = done (b, record p { pools = set_queue size bs p.pools })

-- FindMemory. A size that the map does not have is a null accessor.
unfoldable pub find_memory : MemoryPool → ℕ → ℕ → Outcome (ℕ × MemoryPool)
unfolding refill pop_block
find_memory p size count = elim (lookup size p.pools) [
  | none ↦ fault
  | some queue ↦ let (q, p1) = refill size count queue p in pop_block size q p1
]

-- GetMemory; `none` is the null pointer.
unfoldable pub get_memory : MemoryPool → ℕ → Outcome (Option ℕ × MemoryPool)
unfolding find_memory block_count has_blocks
get_memory p size =
    if has_blocks size
    then (find_memory p size (block_count p.sample_count size) >>= λ (b, p1). done (some b, p1))
    else done (none, p)

-- ResetMemory
unfoldable pub reset_memory : MemoryPool → ℕ → ℕ → Outcome MemoryPool
unfolding set_queue clear
reset_memory p block size = elim (lookup size p.pools) [
  | none ↦ fault
  | some queue ↦ done (record p {
    pools = set_queue size (queue ++ block ∷ []) p.pools;
    mem = clear p.mem block size;
  })
]

-- MemoryPool::~MemoryPool: the queues go, the memory is not given back.
unfoldable pub destroy : MemoryPool → MemoryPool
destroy p = record p { pools = [] }
